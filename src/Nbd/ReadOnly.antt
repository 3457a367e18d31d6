-- ===== src/Nbd/ReadOnly.antt =====
-- `handle` of a server that was made read-only, and its device.
use Prim.Native.Nat.{bit_and}
use ps3_memorycard_adapter.Prelude.{
  ℕ, ◌-◌, ◌≡◌, refl, ◌∙◌, Bool, true, false, not, none, some, [], ◌++◌, arith, length, ltb, ◌==◌,
  ◌==ᵇ◌, if◌then◌else◌, Bytes, Outcome, ok, raised, no_fuel, and_then, Action, pure, assert,
}
use ps3_memorycard_adapter.Nbd.Wire.{Device, World, on_device, receive, recv, sendall, close}
use ps3_memorycard_adapter.Nbd.Request.{
  nbd_request_magic, nbd_request_len, max_block_size, allowed_flags, outside, Request, magic_of,
  request_of,
}
use ps3_memorycard_adapter.Nbd.Handle.{
  Result, reply, stop, caught, simple_reply, read_request, write_request, carry_out, conclude,
  serve, handle,
}
use ps3_memorycard_adapter.Nbd.Cmd
use ps3_memorycard_adapter.Nbd.Flag
use ps3_memorycard_adapter.Nbd.Errno

module _ {D : Type 0} where
  -- The call leaves the device as it was.
  abbrev Keeps : {A : Type 0} → World D → Outcome A × World D → Type 0
  Keeps w x = x.1.device ≡ w.device

  Keeps-bind :
      {A B : Type 0} (w : World D) (x : Outcome A × World D) (f : A → Action (World D) B)
      → Keeps w x
      → ((a : A) (w' : World D) → w'.device ≡ w.device → Keeps w (f a w'))
      → Keeps w (and_then x f)
  Keeps-bind w (ok a, w') f h k = k a w' h
  Keeps-bind w (raised e, w') f h k = h
  Keeps-bind w (no_fuel, w') f h k = h

  caught-Keeps :
      {A : Type 0} (w : World D) (x : Outcome A × World D) → Keeps w x → Keeps w (caught x)
  caught-Keeps w (ok a, w') h = h
  caught-Keeps w (raised e, w') h = h
  caught-Keeps w (no_fuel, w') h = h

  if-Keeps :
      {A : Type 0} (b : Bool) (m n : Action (World D) A) (w₀ w : World D)
      → Keeps w₀ (m w)
      → Keeps w₀ (n w)
      → Keeps w₀ ((if b then m else n) w)
  if-Keeps true m n w₀ w h k = h
  if-Keeps false m n w₀ w h k = k

  assert_device : (b : Bool) (w : World D) → (assert b w).1.device ≡ w.device
  assert_device true w = refl
  assert_device false w = refl

  close-Keeps : (w : World D) → Keeps w (close w)
  unfolding close
  close-Keeps w = ground arith

  stopped-Keeps :
      {A : Type 0} (w₀ w : World D) (a : A)
      → w.device ≡ w₀.device
      → Keeps w₀ (and_then (close w) (λ _. pure a))
  stopped-Keeps w₀ w a h = Keeps-bind w₀ (close w) (λ _. pure a) (close-Keeps w ∙ h) λ _ w' k. k

  simple_reply-Keeps :
      (tag : Bytes) (error : ℕ) (b : Bytes) (w : World D) → Keeps w (simple_reply tag error b w)
  unfolding simple_reply sendall
  simple_reply-Keeps tag error b w = ground arith

  conclude-Keeps : (tag : Bytes) (result : Result) (w : World D) → Keeps w (conclude tag result w)
  conclude-Keeps tag (reply none b) w = refl
  conclude-Keeps tag (reply (some e) b) w =
      Keeps-bind w (simple_reply tag e b w) _ (simple_reply-Keeps tag e b w) λ _ w' h. h
  conclude-Keeps tag stop w = refl

  module _ (dev : Device D) (fuel : ℕ)
      (pure_reads : (offset len : ℕ) (d : D) → (dev.read offset len d).1 ≡ d) where
    read_request-Keeps : (r : Request) (w : World D) → Keeps w (read_request dev r w)
    unfolding read_request on_device
    read_request-Keeps r w = if-Keeps (not (bit_and r.flags Flag.df == 0)) _ _ w w refl (
        if-Keeps (ltb max_block_size r.len) _ _ w w refl (
          if-Keeps (r.len == 0) _ _ w w refl (
            Keeps-bind w (caught (on_device (dev.read r.offset r.len) w)) _
              (caught-Keeps w (on_device (dev.read r.offset r.len) w)
                (pure_reads r.offset r.len w.device))
              λ o w' h. h)))

    carry_out-Keeps : (r : Request) (w : World D) → Keeps w (carry_out dev true fuel r w)
    unfolding carry_out write_request
    carry_out-Keeps r w =
        if-Keeps (not (outside r.flags (allowed_flags r.command) == 0)) _ _ w w refl (
          if-Keeps (r.command == Cmd.read) _ _ w w (read_request-Keeps r w) (
            if-Keeps (r.command == Cmd.write) _ _ w w refl (
              if-Keeps (r.command == Cmd.disc) _ _ w w (stopped-Keeps w w stop refl) (
                Keeps-bind w (simple_reply r.handle Errno.enotsup [] w) _
                  (simple_reply-Keeps r.handle Errno.enotsup [] w)
                  λ _ w' h. stopped-Keeps w w' stop h))))

    serve-Keeps : (header : Bytes) (w : World D) → Keeps w (serve dev true fuel header w)
    unfolding serve
    serve-Keeps header w =
        if-Keeps (magic_of header ==ᵇ nbd_request_magic) _ _ w w
          (Keeps-bind w (carry_out dev true fuel (request_of header) w) _
            (carry_out-Keeps (request_of header) w)
            λ result w' h. conclude-Keeps (request_of header).handle result w' ∙ h)
          (stopped-Keeps w w false refl)

    -- A read-only server leaves its device as it was, whatever is received, if reading from the
    -- device does.
    pub handle-Keeps : (w : World D) → (handle dev true fuel w).1.device ≡ w.device
    unfolding handle recv
    handle-Keeps w =
        let (b, left) = receive (nbd_request_len - length w.buffer) w.arrivals in
        let header = w.buffer ++ b in
        let w' = record w { arrivals = left } in
        if-Keeps (ltb (length header) nbd_request_len) _ _ w w' refl (
          Keeps-bind w (assert (length header == nbd_request_len) w') _
            (assert_device (length header == nbd_request_len) w')
            λ _ w₁ h. serve-Keeps header (record w₁ { buffer = [] }) ∙ h)
