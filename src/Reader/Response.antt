-- ===== src/Reader/Response.antt =====
-- `_longResponseRead` and the packets of a response.
use ps3_memorycard_adapter.Prelude.{
  ℕ, zero, suc, ◌+◌, ◌<◌, ◌≡◌, refl, ap, sym, ◌∙◌, true, false, List, [], ◌∷◌, ◌++◌, append_assoc,
  append-nil, arith, length, length-append, take, drop, take-append, drop-append, Bytes, join, ok,
}
use ps3_memorycard_adapter.Prelude.Int.{pos, ◌+ℤ◌, ltb_ℤ}
use ps3_memorycard_adapter.Struct.{little, length-little, unpack_little_h-little}
use ps3_memorycard_adapter.Reader.Host.{Host}
use ps3_memorycard_adapter.Reader.Packets.{
  bulk_read_endpoint, bulk_read_length, response_code, response_status_success, usb_read,
  response_read, gather, long_response_read,
}
use ps3_memorycard_adapter.Reader.Media.{Returns}

add_pos : (m n : ℕ) → pos m +ℤ pos n ≡ pos (m + n)
unfolding ◌+ℤ◌
add_pos m n = ground arith

-- No packet is empty.
abbrev pub Packets : List Bytes → Type 0
Packets [] = Unit
Packets (p ∷ ps) = (0 < length p) × Packets ps

module _ {D : Type 0} (host : Host D) where
  -- The device has these packets to give, one after the other.
  abbrev pub Gives : List Bytes → (D → Type 0) → D → Type 0
  Gives [] Post d = Post d
  Gives (p ∷ ps) Post d =
      Returns (host.bulk_read bulk_read_endpoint bulk_read_length d) p (Gives ps Post)

  gather-join :
      (fuel n total : ℕ) (result : Bytes) (ps : List Bytes) (Post : D → Type 0) (d : D)
      → Packets ps
      → Gives ps Post d
      → n + length (join ps) ≡ total
      → length ps < fuel
      → Returns (gather host fuel (pos n) (pos total) result d) (result ++ join ps) Post
  unfolding gather usb_read
  gather-join zero n total result ps Post d full g e fuelled = absurd (omega arith)
  gather-join (suc fuel) n total result [] Post d full g e fuelled =
      let done : ltb_ℤ (pos n) (pos total) ≡ false = ground arith in
      rw done
        (record { state = d; returns = ap (λ t. (ok t, d)) (sym (append-nil result)); post = g })
  gather-join (suc fuel) n total result (p ∷ ps) Post d (positive, full) g e fuelled =
      let more : ltb_ℤ (pos n) (pos total) ≡ true = ground (arith, length-append p (join ps)) in
      let ih =
        gather-join fuel (n + length p) total (result ++ p) ps Post g.state full g.post
          (omega (arith, e, length-append p (join ps))) (omega arith) in
      rw (more, g.returns, add_pos n (length p))
        (record {
          state = ih.state;
          returns = ih.returns ∙ ap (λ t. (ok t, ih.state)) (append_assoc result p (join ps));
          post = ih.post;
        })

  -- A response whose first packet has the response code, the code for success and the length of
  -- the data, and whose data follow in the rest of it and in any number of packets that are not
  -- empty, is read whole: the packets are taken from the device and no more.
  pub long_response_read-join :
      (fuel : ℕ) (first : Bytes) (ps : List Bytes) (Post : D → Type 0) (d : D)
      → Packets ps
      → length (first ++ join ps) < 32768
      → length ps < fuel
      → Gives
          ((response_code
              ++ (response_status_success ++ (little 2 (length (first ++ join ps)) ++ first)))
            ∷ ps)
          Post
          d
      → Returns (long_response_read host fuel d) (response_status_success, first ++ join ps) Post
  unfolding long_response_read response_read usb_read
  long_response_read-join fuel first ps Post d full small fuelled g =
      let n = length (first ++ join ps) in
      let at : take 2 (little 2 n ++ first) ≡ little 2 n =
        take-append 2 (little 2 n) first (length-little 2 n) in
      let behind : drop 2 (little 2 n ++ first) ≡ first =
        drop-append 2 (little 2 n) first (length-little 2 n) in
      let x =
        gather-join fuel (length first) n first ps Post g.state full g.post
          (sym (length-append first (join ps))) fuelled in
      rw (g.returns, at, unpack_little_h-little n small, behind, x.returns)
        (record { state = x.state; returns = refl; post = x.post })
