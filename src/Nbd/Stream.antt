-- ===== src/Nbd/Stream.antt =====
-- `_recvall` and the pieces that bytes arrive in.
use ps3_memorycard_adapter.Prelude.{
  ℕ, zero, suc, ◌+◌, ◌-◌, ◌≤◌, ◌<◌, ◌≡◌, refl, ap, sym, subst, ◌∙◌, inl, inr, List, [], ◌∷◌, ◌++◌,
  append_assoc, append-nil, arith, length, length-append, length-take, length-drop, take, drop,
  take_all, take-append-drop, take-append_ge, drop-append_ge, ltb, ltb→lt, ltb→le, lt→ltb,
  Bool-cases, Bytes, join, Outcome, ok, no_fuel,
}
use ps3_memorycard_adapter.Nbd.Wire.{World, receive, recv, recv_rest, recvall}

-- No piece is empty.
abbrev pub Pieces : List Bytes → Type 0
Pieces [] = Unit
Pieces (piece ∷ rest) = (0 < length piece) × Pieces rest

-- What is received is the start of the stream, and something is received while something is left.
pub record IsReceived (n : ℕ) (arrivals : List Bytes) : Type 0 where
  pub stream : join arrivals ≡ (receive n arrivals).0 ++ join (receive n arrivals).1
  pub bounded : length (receive n arrivals).0 ≤ n
  pub pieces : Pieces (receive n arrivals).1
  pub progress : 0 < length (join arrivals) → 0 < length (receive n arrivals).0

pub receive-IsReceived :
    (n : ℕ) (arrivals : List Bytes) → 0 < n → Pieces arrivals → IsReceived n arrivals
receive-IsReceived n [] pos h = record {
  stream = refl;
  bounded = omega arith;
  pieces = tt;
  progress = λ p. absurd (omega arith);
}
receive-IsReceived n (piece ∷ rest) pos h = elim (Bool-cases (ltb n (length piece))) [
  | inl long ↦
      let lt = ltb→lt n (length piece) long in
      record {
        stream = rw long (
            ap (λ t. t ++ join rest) (sym (take-append-drop n piece))
            ∙ append_assoc (take n piece) (drop n piece) (join rest));
        bounded = omega (arith, length-take n piece);
        pieces = rw long (omega (arith, length-drop n piece), h.1);
        progress = λ p. omega (arith, length-take n piece);
      }
  | inr short ↦
      let le = ltb→le n (length piece) short in
      record {
        stream = rw short (ap (λ t. t ++ join rest) (sym (take_all n piece le)));
        bounded = omega (arith, length-take n piece);
        pieces = rw short h.1;
        progress = λ p. omega (arith, length-take n piece);
      }
]

-- The bytes were received, and the rest of the stream is left.
pub record Received {D : Type 0} (b : Bytes) (left : Bytes) (w : World D)
    (r : Outcome Bytes × World D) : Type 0 where
  pub rest : List Bytes
  pub returns : r ≡ (ok b, record w { arrivals = rest })
  pub stream : join rest ≡ left
  pub pieces : Pieces rest

module _ {D : Type 0} where
  Received-step :
      (result b : Bytes) (len : ℕ) (after : Bytes) (w : World D) (left : List Bytes)
      (r : Outcome Bytes × World D)
      → length b ≤ len - length result
      → length result < len
      → join w.arrivals ≡ b ++ after
      → Received
          ((result ++ b) ++ take (len - length (result ++ b)) after)
          (drop (len - length (result ++ b)) after)
          (record w { arrivals = left })
          r
      → Received
          (result ++ take (len - length result) (join w.arrivals))
          (drop (len - length result) (join w.arrivals))
          w
          r
  Received-step result b len after w left r fits lt e x =
      let n = len - length result in
      let cut : len - length (result ++ b) ≡ n - length b = omega (arith, length-append result b) in
      record {
        rest = x.rest;
        returns =
            x.returns
            ∙ ap (λ t. (ok t, record w { arrivals = x.rest }))
                (append_assoc result b (take (len - length (result ++ b)) after)
                  ∙ ap (λ t. result ++ t)
                      (ap (λ (k : ℕ). b ++ take k after) cut
                        ∙ sym (take-append_ge n b after fits)
                        ∙ ap (take n) (sym e)));
        stream =
            x.stream
            ∙ ap (λ (k : ℕ). drop k after) cut
            ∙ sym (drop-append_ge n b after fits)
            ∙ ap (drop n) (sym e);
        pieces = x.pieces;
      }

  recv_rest-Received :
      (fuel len : ℕ) (result : Bytes) (w : World D)
      → Pieces w.arrivals
      → length result ≤ len
      → len ≤ length result + length (join w.arrivals)
      → len < length result + fuel
      → Received
          (result ++ take (len - length result) (join w.arrivals))
          (drop (len - length result) (join w.arrivals))
          w
          (recv_rest fuel len result w)
  unfolding recv_rest recv
  recv_rest-Received zero len result w h short enough fuelled = absurd (omega arith)
  recv_rest-Received (suc fuel) len result w h short enough fuelled =
      elim (Bool-cases (ltb (length result) len)) [
        | inl more ↦
            let n = len - length result in
            let lt = ltb→lt (length result) len more in
            let r = receive-IsReceived n w.arrivals (omega arith) h in
            let (b, left) = receive n w.arrivals in
            let n_all : length (join w.arrivals) ≡ length b + length (join left) =
              ap length r.stream ∙ length-append b (join left) in
            let n_result = length-append result b in
            let ih =
              recv_rest-Received fuel len (result ++ b) (record w { arrivals = left }) r.pieces
                (omega (arith, r.bounded)) (omega arith) (omega (arith, r.progress)) in
            rw more (Received-step result b len (join left) w left _ r.bounded lt r.stream ih)
        | inr done ↦
            let zero_left : len - length result ≡ 0 =
              omega (arith, ltb→le (length result) len done) in
            rw (done, zero_left)
              (record {
                rest = w.arrivals;
                returns = ap (λ t. (ok t, w)) (sym (append-nil result));
                stream = refl;
                pieces = h;
              })
      ]

  recv_rest-short :
      (fuel len : ℕ) (result : Bytes) (w : World D)
      → Pieces w.arrivals
      → length result + length (join w.arrivals) < len
      → (recv_rest fuel len result w).0 ≡ no_fuel
  unfolding recv_rest recv
  recv_rest-short zero len result w h short = refl
  recv_rest-short (suc fuel) len result w h short =
      let r = receive-IsReceived (len - length result) w.arrivals (omega arith) h in
      let (b, left) = receive (len - length result) w.arrivals in
      let n_all : length (join w.arrivals) ≡ length b + length (join left) =
        ap length r.stream ∙ length-append b (join left) in
      rw (lt→ltb (length result) len (omega arith)) (
        recv_rest-short fuel len (result ++ b) (record w { arrivals = left }) r.pieces
          (omega (arith, length-append result b)))

  -- With enough to come, `_recvall` returns the next bytes of the stream, in whatever pieces they
  -- arrive, and leaves the bytes behind them and everything else. No piece is empty, and there is a
  -- round for each byte and one more.
  pub recvall-take :
      (fuel len : ℕ) (w : World D)
      → Pieces w.arrivals
      → len ≤ length (join w.arrivals)
      → len < fuel
      → Received (take len (join w.arrivals)) (drop len (join w.arrivals)) w (recvall fuel len w)
  unfolding recvall
  recvall-take fuel len w h enough fuelled =
      let e : len - 0 ≡ len = omega arith in
      subst
        (λ (k : ℕ).
          Received (take k (join w.arrivals)) (drop k (join w.arrivals)) w
            (recv_rest fuel len [] w))
        e (recv_rest-Received fuel len [] w h (omega arith) (omega arith) (omega arith))

  -- Where the stream ends before the bytes that are wanted, `_recvall` goes on for ever: no
  -- number of rounds is enough. No piece is empty.
  pub recvall-short :
      (fuel len : ℕ) (w : World D)
      → Pieces w.arrivals
      → length (join w.arrivals) < len
      → (recvall fuel len w).0 ≡ no_fuel
  unfolding recvall
  recvall-short fuel len w h short = recv_rest-short fuel len [] w h (omega arith)
