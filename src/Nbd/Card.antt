-- ===== src/Nbd/Card.antt =====
-- The server over a card reader, as nbd/main.py puts them together.
use ps3_memorycard_adapter.Prelude.{
  ℕ, ◌+◌, ◌≤◌, ◌<◌, ◌≡◌, refl, ap, sym, ◌∙◌, Bool, true, ◌++◌, arith, ==_refl, length, length-slice,
  slice, Bytes, ok, no_fuel,
}
use ps3_memorycard_adapter.Reader.Host.{Host}
use ps3_memorycard_adapter.Reader.Cards.{ps1_card_size, get_size, get_page_size}
use ps3_memorycard_adapter.Reader.Blocks.{read, write}
use ps3_memorycard_adapter.Reader.Media.{Returns}
use ps3_memorycard_adapter.Reader.Ps1.{Ps1Adapter, read-slice}
use ps3_memorycard_adapter.Nbd.Wire.{Device, World}
use ps3_memorycard_adapter.Nbd.Request.{Request, encode, Fits}
use ps3_memorycard_adapter.Nbd.Handle.{serve}
use ps3_memorycard_adapter.Nbd.Answers.{reply_bytes}
use ps3_memorycard_adapter.Nbd.Transfers.{read_answer, serve-read}
use ps3_memorycard_adapter.Nbd.Cmd

module _ {D : Type 0} (host : Host D) (fuel : ℕ) where
  -- The methods of `PlayStationMemoryCardReader` that the server calls.
  unfoldable pub card_device : Device D
  card_device = record {
    get_size = get_size host fuel;
    get_page_size = get_page_size host fuel;
    read = read host fuel;
    write = write host fuel;
  }

  module _ (Holds : Bytes → D → Type 0) (adapter : Ps1Adapter host Holds)
      (fuelled : 140 < fuel) where
    -- Over an adapter that answers as `Ps1Adapter` says, with a PS1 card in it, a read of some
    -- bytes of the card is answered with a success and exactly these bytes, the card keeps its
    -- bytes, and the server goes on. The fields of the request fit the format, it has no flag but
    -- FUA, and a response may have 140 packets.
    pub serve-card_read :
        (read_only : Bool) (rounds : ℕ) (c : Bytes) (r : Request) (w : World D)
        → Holds c w.device
        → Fits r
        → r.flags ≤ 1
        → r.command ≡ Cmd.read
        → 0 < r.len
        → r.offset + r.len ≤ ps1_card_size
        → Returns (serve card_device read_only rounds (encode r) w) true (λ w'.
          Holds c w'.device × (w'.sent ≡ w.sent ++ reply_bytes r.handle 0 (slice r.offset r.len c)))
    unfolding card_device read_answer
    serve-card_read read_only rounds c r w h fits plain is_read some_bytes within =
        let x =
          read-slice host fuel Holds adapter fuelled c w.device r.offset r.len h within
            (omega arith) in
        let n : length (slice r.offset r.len c) ≡ r.len =
          length-slice r.offset r.len c (omega (arith, adapter.size c w.device h)) in
        let e = ap (λ t. t.0) x.returns in
        let served =
          serve-read card_device read_only rounds r w fits plain is_read some_bytes (omega arith)
            (λ diverges.
              let clash : ok (slice r.offset r.len c) ≡ no_fuel = sym e ∙ diverges in cc) in
        record {
          state = record w {
            device = x.state;
            sent = w.sent ++ reply_bytes r.handle 0 (slice r.offset r.len c);
          };
          returns = served ∙ rw (x.returns, n, ==_refl r.len) refl;
          post = (x.post, refl);
        }
