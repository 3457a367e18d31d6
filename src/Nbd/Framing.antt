-- ===== src/Nbd/Framing.antt =====
-- The buffer of `handle`, and requests that arrive in pieces.
use ps3_memorycard_adapter.Prelude.{
  ℕ, zero, suc, ◌+◌, ◌-◌, ◌≤◌, ◌<◌, ◌≡◌, refl, ap, sym, ◌∙◌, inl, inr, Bool, true, List, [], ◌++◌,
  append_assoc, arith, length, length-append, take, drop, take-append, drop-append, ltb, ltb→le,
  ltb→lt, Bool-cases, Bytes, join, ok,
}
use ps3_memorycard_adapter.Nbd.Wire.{Device, World, receive, recv}
use ps3_memorycard_adapter.Nbd.Request.{nbd_request_len}
use ps3_memorycard_adapter.Nbd.Handle.{serve, handle}
use ps3_memorycard_adapter.Nbd.Stream.{Pieces, receive-IsReceived}

module _ {D : Type 0} (dev : Device D) (read_only : Bool) (fuel : ℕ) where
  -- A number of calls of `handle` that only wait for the rest of a request: each returns True, and
  -- changes nothing but the buffer and what is to come.
  pub data Waits : World D → ℕ → World D → Type 0 where
    now : {w : World D} → Waits w 0 w
    call :
        {w w' : World D} {n : ℕ} (b : Bytes) (left : List Bytes)
        → handle dev read_only fuel w ≡ (ok true, record w { arrivals = left; buffer = b })
        → Waits (record w { arrivals = left; buffer = b }) n w'
        → Waits w (suc n) w'

  -- After some such calls there is one that finds the whole request and carries it out.
  pub record Framed (w : World D) : Type 0 where
    pub calls : ℕ
    pub before : World D
    pub rest : List Bytes
    pub waits : Waits w calls before
    pub few : calls + length w.buffer < nbd_request_len
    pub carries_out :
        handle dev read_only fuel before
        ≡ serve dev read_only fuel
            (take nbd_request_len (w.buffer ++ join w.arrivals))
            (record w { arrivals = rest; buffer = [] })
    pub stream : join rest ≡ drop nbd_request_len (w.buffer ++ join w.arrivals)
    pub pieces : Pieces rest

  Framed-now :
      (w : World D) (b : Bytes) (left : List Bytes)
      → length w.buffer < nbd_request_len
      → length (w.buffer ++ b) ≡ nbd_request_len
      → w.buffer ++ join w.arrivals ≡ (w.buffer ++ b) ++ join left
      → Pieces left
      → handle dev read_only fuel w
        ≡ serve dev read_only fuel (w.buffer ++ b) (record w { arrivals = left; buffer = [] })
      → Framed w
  Framed-now w b left short n e h k = record {
    calls = 0;
    before = w;
    rest = left;
    waits = now;
    few = omega arith;
    carries_out =
        k
        ∙ ap (λ t. serve dev read_only fuel t (record w { arrivals = left; buffer = [] }))
            (sym (
              ap (take nbd_request_len) e
              ∙ take-append nbd_request_len (w.buffer ++ b) (join left) n));
    stream =
        sym
          (ap (drop nbd_request_len) e ∙ drop-append nbd_request_len (w.buffer ++ b) (join left) n);
    pieces = h;
  }

  Framed-call :
      (w : World D) (b : Bytes) (left : List Bytes)
      → 0 < length b
      → w.buffer ++ join w.arrivals ≡ (w.buffer ++ b) ++ join left
      → handle dev read_only fuel w
        ≡ (ok true, record w { arrivals = left; buffer = w.buffer ++ b })
      → Framed (record w { arrivals = left; buffer = w.buffer ++ b })
      → Framed w
  Framed-call w b left some_bytes e k f = record {
    calls = suc f.calls;
    before = f.before;
    rest = f.rest;
    waits = call (w.buffer ++ b) left k f.waits;
    few = omega (arith, f.few, length-append w.buffer b);
    carries_out =
        f.carries_out
        ∙ ap
            (λ t.
              serve dev read_only fuel (take nbd_request_len t)
                (record w { arrivals = f.rest; buffer = [] }))
            (sym e);
    stream = f.stream ∙ ap (drop nbd_request_len) (sym e);
    pieces = f.pieces;
  }

  frame_within :
      (k : ℕ) (w : World D)
      → Pieces w.arrivals
      → length w.buffer < nbd_request_len
      → nbd_request_len ≤ k + length w.buffer
      → nbd_request_len ≤ length w.buffer + length (join w.arrivals)
      → Framed w
  unfolding handle recv
  frame_within zero w h short bounded enough = absurd (omega arith)
  frame_within (suc k) w h short bounded enough =
      let n = nbd_request_len - length w.buffer in
      let r = receive-IsReceived n w.arrivals (omega arith) h in
      let (b, left) = receive n w.arrivals in
      let header = w.buffer ++ b in
      let n_header = length-append w.buffer b in
      let e : w.buffer ++ join w.arrivals ≡ header ++ join left =
        ap (λ t. w.buffer ++ t) r.stream ∙ sym (append_assoc w.buffer b (join left)) in
      let n_all : length (join w.arrivals) ≡ length b + length (join left) =
        ap length r.stream ∙ length-append b (join left) in
      elim (Bool-cases (ltb (length header) nbd_request_len)) [
        | inl part ↦
            let lt = ltb→lt (length header) nbd_request_len part in
            let some_bytes = r.progress (omega arith) in
            Framed-call w b left some_bytes e (rw part refl) (
              frame_within k (record w { arrivals = left; buffer = header }) r.pieces lt
                (omega arith) (omega (arith, length-append header (join left))))
        | inr whole ↦
            let full : length header ≡ nbd_request_len =
              omega (arith, ltb→le (length header) nbd_request_len whole, r.bounded) in
            Framed-now w b left short full e r.pieces (rw whole (rw full refl))
      ]

  -- In whatever pieces a request arrives, the calls of `handle` before the last only wait, fewer
  -- than there are bytes of it missing, and the last carries out exactly the next 28 bytes of the
  -- stream, after which the stream goes on with the byte behind them. No piece is empty, the buffer
  -- holds less than a request, and there are bytes enough to come.
  pub handle-Framed :
      (w : World D)
      → Pieces w.arrivals
      → length w.buffer < nbd_request_len
      → nbd_request_len ≤ length w.buffer + length (join w.arrivals)
      → Framed w
  handle-Framed w h short enough = frame_within nbd_request_len w h short (omega arith) enough
