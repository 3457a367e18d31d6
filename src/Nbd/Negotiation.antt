-- ===== src/Nbd/Negotiation.antt =====
-- The negotiation, as a client sees it.
use ps3_memorycard_adapter.Prelude.{
  ℕ, suc, ◌^◌, ◌≤◌, ◌<◌, ◌≡◌, refl, ap, ◌∙◌, none, some, List, [], ◌∷◌, ◌++◌, append_assoc,
  append-nil, arith, length, length-append, take, drop, slice, take-append, drop-append, take_all,
  lt→ltb, le→ltb, ==_ne, Bytes, join, Outcome, ok,
}
use ps3_memorycard_adapter.Struct.{big, length-big, of_big-big}
use ps3_memorycard_adapter.Nbd.Wire.{World, sendall, recvall}
use ps3_memorycard_adapter.Nbd.Stream.{Pieces, recvall-take}
use ps3_memorycard_adapter.Nbd.Options.{max_opt_size, recv_value, recv_option, send_option}

-- An option on the wire, behind b'IHAVEOPT'.
abbrev pub option_header : ℕ → ℕ → Bytes
option_header option len =
    (b'I' ∷ b'H' ∷ b'A' ∷ b'V' ∷ b'E' ∷ b'O' ∷ b'P' ∷ b'T' ∷ []) ++ (big 4 option ++ big 4 len)

-- An answer to it, behind the number 0x3e889045565a9.
abbrev pub answer_bytes : ℕ → ℕ → Bytes → Bytes
answer_bytes option status value =
    (0 ∷ 3 ∷ 0xe8 ∷ 0x89 ∷ 4 ∷ 0x55 ∷ 0x65 ∷ 0xa9 ∷ [])
    ++ ((big 4 option ++ (big 4 status ++ big 4 (length value))) ++ value)

slice-option : (option len : ℕ) → slice 8 4 (option_header option len) ≡ big 4 option
slice-option option len = take-append 4 (big 4 option) (big 4 len) (length-big 4 option)

slice-len : (option len : ℕ) → slice 12 4 (option_header option len) ≡ big 4 len
slice-len option len =
    ap (take 4) (drop-append 4 (big 4 option) (big 4 len) (length-big 4 option))
    ∙ take_all 4 (big 4 len) (omega (arith, length-big 4 len))

-- A value was received, and the rest of the stream is left.
pub record Took {D A : Type 0} (a : A) (left : Bytes) (w : World D) (r : Outcome A × World D)
    : Type 0 where
  pub rest : List Bytes
  pub returns : r ≡ (ok a, record w { arrivals = rest })
  pub stream : join rest ≡ left
  pub pieces : Pieces rest

module _ {D : Type 0} where
  pub recvall-append :
      (fuel n : ℕ) (a left : Bytes) (w : World D)
      → Pieces w.arrivals
      → join w.arrivals ≡ a ++ left
      → length a ≡ n
      → n < fuel
      → Took a left w (recvall fuel n w)
  recvall-append fuel n a left w h e k fuelled =
      let x = recvall-take fuel n w h (omega (arith, ap length e, length-append a left)) fuelled in
      record {
        rest = x.rest;
        returns =
            x.returns
            ∙ ap (λ t. (ok t, record w { arrivals = x.rest }))
                (ap (take n) e ∙ take-append n a left k);
        stream = x.stream ∙ ap (drop n) e ∙ drop-append n a left k;
        pieces = x.pieces;
      }

  recv_option-header :
      (fuel option len : ℕ) (left : Bytes) (w : World D)
      → Pieces w.arrivals
      → join w.arrivals ≡ option_header option len ++ left
      → option < 2 ^ 32
      → len < 2 ^ 32
      → 16 < fuel
      → Took (option_header option len) left w (recvall fuel 16 w)
  recv_option-header fuel option len left w h e ho hl fuelled =
      recvall-append fuel 16 (option_header option len) left w h e
        (omega
          (arith, length-append (big 4 option) (big 4 len), length-big 4 option, length-big 4 len))
        fuelled

  recv_value-Took :
      (fuel : ℕ) (value left : Bytes) (w : World D)
      → Pieces w.arrivals
      → join w.arrivals ≡ value ++ left
      → length value ≤ max_opt_size
      → max_opt_size < fuel
      → Took (some value) left w (recv_value fuel (length value) w)
  unfolding recv_value
  recv_value-Took fuel [] left w h e hv fuelled = record {
    rest = w.arrivals;
    returns = refl;
    stream = e;
    pieces = h;
  }
  recv_value-Took fuel (x ∷ value) left w h e hv fuelled =
      let n = length (x ∷ value) in
      let y = recvall-append fuel n (x ∷ value) left w h e refl (omega arith) in
      rw (==_ne n 0 (omega arith), le→ltb max_opt_size n hv, y.returns)
        (record { rest = y.rest; returns = refl; stream = y.stream; pieces = y.pieces })

  -- An option whose value is within the limit is received whole, in whatever pieces it arrives,
  -- and the stream is left behind it.
  pub recv_option-Took :
      (fuel option : ℕ) (value left : Bytes) (w : World D)
      → Pieces w.arrivals
      → join w.arrivals ≡ option_header option (length value) ++ (value ++ left)
      → option < 2 ^ 32
      → length value ≤ max_opt_size
      → max_opt_size < fuel
      → Took (option, some value) left w (recv_option fuel w)
  unfolding recv_option
  recv_option-Took fuel option value left w h e ho hv fuelled =
      let x =
        recv_option-header fuel option (length value) (value ++ left) w h e ho (omega arith)
          (omega arith) in
      let w' : World D = record w { arrivals = x.rest } in
      rw
        (
          x.returns,
          slice-len option (length value),
          slice-option option (length value),
          of_big-big 4 (length value) (omega arith),
          of_big-big 4 option (omega arith),
        )
        (let y = recv_value-Took fuel value left w' x.pieces x.stream hv fuelled in
          rw y.returns
            (record { rest = y.rest; returns = refl; stream = y.stream; pieces = y.pieces }))

  -- Of an option whose value is longer than that only the header is received: its value is left in
  -- the stream, where the next option is looked for. Its number and the length fit the format, no
  -- piece is empty, and there are 17 rounds.
  pub recv_option-too_big :
      (fuel option len : ℕ) (left : Bytes) (w : World D)
      → Pieces w.arrivals
      → join w.arrivals ≡ option_header option len ++ left
      → option < 2 ^ 32
      → max_opt_size < len
      → len < 2 ^ 32
      → 16 < fuel
      → Took (option, none) left w (recv_option fuel w)
  unfolding recv_option recv_value
  recv_option-too_big fuel option len left w h e ho big_len hl fuelled =
      let x = recv_option-header fuel option len left w h e ho hl fuelled in
      rw
        (
          x.returns,
          slice-len option len,
          slice-option option len,
          of_big-big 4 len (omega arith),
          of_big-big 4 option (omega arith),
          ==_ne len 0 (omega arith),
          lt→ltb max_opt_size len big_len,
        )
        (record { rest = x.rest; returns = refl; stream = x.stream; pieces = x.pieces })

  pub send_option_lem :
      (option status : ℕ) (value : Bytes) (w : World D)
      → send_option option status value w
        ≡ (ok tt, record w { sent = w.sent ++ answer_bytes option status value })
  unfolding send_option sendall
  send_option_lem option status [] w =
      ap (λ t. (ok tt, record w { sent = t })) (simp (append_assoc, append-nil))
  send_option_lem option status (x ∷ value) w =
      rw (==_ne (suc (length value)) 0 (omega arith))
        (ap (λ t. (ok tt, record w { sent = t })) (simp append_assoc))
