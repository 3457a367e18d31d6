-- ===== src/Nbd/Go.antt =====
-- `greet` and the option NBD_OPT_GO.
use ps3_memorycard_adapter.Prelude.{
  ℕ, suc, ◌+◌, ◌^◌, ◌≤◌, ◌<◌, ◌≡◌, refl, ap, ◌∙◌, Bool, true, false, some, List, [], ◌∷◌, ◌++◌,
  append_assoc, arith, length, length-append, lt→ltb, Bytes, join, ok,
}
use ps3_memorycard_adapter.Struct.{big, length-big, of_big-big}
use ps3_memorycard_adapter.Nbd.Wire.{Device, World, on_device, sendall}
use ps3_memorycard_adapter.Nbd.Request.{outside}
use ps3_memorycard_adapter.Nbd.Stream.{Pieces}
use ps3_memorycard_adapter.Nbd.Options.{max_opt_size}
use ps3_memorycard_adapter.Nbd.Greet.{
  nbd_greeting_prefix, transmission_flags, leave, send_info, answer_name, answer_info, answer_value,
  answer_option, option_loop, negotiate, greet,
}
use ps3_memorycard_adapter.Nbd.Negotiation.{
  option_header, answer_bytes, Took, recvall-append, recv_option-Took, send_option_lem,
}
use ps3_memorycard_adapter.Nbd.Opt
use ps3_memorycard_adapter.Nbd.Rep

-- The value of NBD_OPT_GO with an empty name, a number, and anything behind it.
abbrev pub go_value : ℕ → Bytes → Bytes
go_value count infos = big 4 0 ++ (big 2 count ++ infos)

-- The transmission flags of the protocol: bit 0 says that there are flags, bit 1 that the device is
-- read-only, bit 8 that a client may have more than one connection.
abbrev pub flags_of : Bool → ℕ
flags_of true = 259
flags_of false = 257

flags_of-transmission_flags : (read_only : Bool) → transmission_flags read_only ≡ flags_of read_only
flags_of-transmission_flags true = refl
flags_of-transmission_flags false = refl

-- The answers in the numbers of the protocol: the size and the flags, an empty name, the block
-- sizes (at least 1 byte, best a page, at most 2 ^ 25 bytes), and the end.
abbrev pub size_answer : ℕ → ℕ → ℕ → Bytes
size_answer option flags size = answer_bytes option 3 (big 2 0 ++ (big 8 size ++ big 2 flags))

abbrev pub block_answer : ℕ → ℕ → Bytes
block_answer option page =
    answer_bytes option 3 (big 2 3 ++ (big 4 1 ++ (big 4 page ++ big 4 (2 ^ 25))))

abbrev pub info_answers : ℕ → ℕ → ℕ → ℕ → Bytes
info_answers option flags size page =
    size_answer option flags size
    ++ (answer_bytes option 3 (big 2 1) ++ (block_answer option page ++ answer_bytes option 1 []))

-- b'NBDMAGIC' and b'IHAVEOPT', and the handshake flags for the fixed newstyle and no zeroes.
abbrev pub greeting : Bytes
greeting =
    b'N' ∷ b'B' ∷ b'D' ∷ b'M' ∷ b'A' ∷ b'G' ∷ b'I' ∷ b'C' ∷ b'I' ∷ b'H' ∷ b'A' ∷ b'V' ∷ b'E' ∷ b'O'
    ∷ b'P' ∷ b'T' ∷ 0 ∷ 3 ∷ []

assoc_four : (s a b c d : Bytes) → (((s ++ a) ++ b) ++ c) ++ d ≡ s ++ (a ++ (b ++ (c ++ d)))
assoc_four s a b c d = simp append_assoc

assoc_three : (s a b c : Bytes) → ((s ++ a) ++ b) ++ c ≡ s ++ (a ++ (b ++ c))
assoc_three s a b c = simp append_assoc

length-go_value : (count : ℕ) (infos : Bytes) → length (go_value count infos) ≡ 6 + length infos
length-go_value count infos = omega (
  arith,
  length-append (big 4 0) (big 2 count ++ infos),
  length-append (big 2 count) infos,
  length-big 4 0,
  length-big 2 count,
)

pub greeting_sent : (rest : Bytes) → nbd_greeting_prefix ++ (big 2 3 ++ rest) ≡ greeting ++ rest
unfolding big
greeting_sent rest = refl

module _ {D : Type 0} (dev : Device D) (read_only : Bool) (size page : ℕ) (w : World D) (d₁ d₂ : D)
    (sized : dev.get_size w.device ≡ (ok (some size), d₁))
    (paged : dev.get_page_size d₁ ≡ (ok (some page), d₂)) (small : size < 256 ^ 8)
    (small_page : page < 256 ^ 4) where
  send_info-answers :
      (option : ℕ) (sent : Bytes) (arrivals : List Bytes)
      → send_info dev read_only option (record w { sent = sent; arrivals = arrivals }) ≡ (
        ok tt,
        record w {
          device = d₂;
          arrivals = arrivals;
          sent = sent ++ info_answers option (transmission_flags read_only) size page;
        },
      )
  unfolding send_info on_device
  send_info-answers option sent arrivals =
      let w₁ : World D = record w { device = d₁; arrivals = arrivals; sent = sent } in
      let s₁ = sent ++ size_answer option (transmission_flags read_only) size in
      let s₂ = s₁ ++ answer_bytes option Rep.info (big 2 1) in
      let w₂ : World D = record w { device = d₂; arrivals = arrivals; sent = s₂ } in
      let s₃ = s₂ ++ block_answer option page in
      rw (sized, lt→ltb size (256 ^ 8) small, send_option_lem option Rep.info _ w₁)
        (rw (send_option_lem option Rep.info (big 2 1) (record w₁ { sent = s₁ })) (
          rw (paged, lt→ltb page (256 ^ 4) small_page, send_option_lem option Rep.info _ w₂)
            (rw (send_option_lem option Rep.ack [] (record w₂ { sent = s₃ })) (
              ap (λ t. (ok tt, record w { device = d₂; arrivals = arrivals; sent = t }))
                (assoc_four sent (size_answer option (transmission_flags read_only) size)
                  (answer_bytes option Rep.info (big 2 1)) (block_answer option page)
                  (answer_bytes option Rep.ack []))))))

  answer_option-go :
      (count : ℕ) (infos sent : Bytes) (arrivals : List Bytes)
      → answer_option dev read_only false
          (Opt.go, some (go_value count infos))
          (record w { sent = sent; arrivals = arrivals })
        ≡ (
          ok leave,
          record w {
            device = d₂;
            arrivals = arrivals;
            sent = sent ++ info_answers Opt.go (transmission_flags read_only) size page;
          },
        )
  unfolding answer_option answer_value answer_info answer_name big
  answer_option-go count infos sent arrivals = rw (send_info-answers Opt.go sent arrivals) refl

  -- A client that knows both handshake flags and asks for the device with an option NBD_OPT_GO of
  -- an empty name, in whatever pieces its bytes arrive, is sent the greeting, the size of the
  -- device and the flags, read-only if the server is, then the block sizes, and an end; the server
  -- accepts it, in the state that the device is in, and the stream is left behind the option. The
  -- device gives sizes that fit the format, the option is within the limit, no piece is empty, and
  -- there is a round for each byte of the limit and one more.
  pub greet-Took :
      (rounds fuel count : ℕ) (infos left : Bytes)
      → Pieces w.arrivals
      → join w.arrivals
        ≡ big 4 3
          ++ (option_header 7 (length (go_value count infos)) ++ (go_value count infos ++ left))
      → length infos + 6 ≤ max_opt_size
      → max_opt_size < fuel
      → Took true left
          (record w {
            device = d₂;
            sent = w.sent ++ (greeting ++ info_answers 7 (flags_of read_only) size page);
          })
          (greet dev read_only (suc rounds) fuel w)
  unfolding greet negotiate option_loop sendall outside
  greet-Took rounds fuel count infos left h e fits fuelled =
      let s₁ = (w.sent ++ nbd_greeting_prefix) ++ big 2 3 in
      let w₁ : World D = record w { sent = s₁ } in
      let x =
        recvall-append fuel 4 (big 4 3)
          (option_header 7 (length (go_value count infos)) ++ (go_value count infos ++ left)) w₁ h e
          (length-big 4 3) (omega arith) in
      let w₂ : World D = record w₁ { arrivals = x.rest } in
      let y =
        recv_option-Took fuel Opt.go (go_value count infos) left w₂ x.pieces x.stream (omega arith)
          (omega (arith, length-go_value count infos)) fuelled in
      rw
        (x.returns, of_big-big 4 3 (omega arith), y.returns, answer_option-go count infos s₁ y.rest)
        (record {
          rest = y.rest;
          returns =
              ap (λ t. (ok true, record w { device = d₂; arrivals = y.rest; sent = t }))
                (assoc_three w.sent nbd_greeting_prefix (big 2 3)
                    (info_answers Opt.go (transmission_flags read_only) size page)
                  ∙ ap (λ t. w.sent ++ t)
                      (greeting_sent (info_answers Opt.go (transmission_flags read_only) size page))
                  ∙ ap (λ (f : ℕ). w.sent ++ (greeting ++ info_answers Opt.go f size page))
                      (flags_of-transmission_flags read_only));
          stream = y.stream;
          pieces = y.pieces;
        })
