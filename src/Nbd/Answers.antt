-- ===== src/Nbd/Answers.antt =====
-- What `handle` of nbd/nbd.py sends for a request.
use Prim.Native.Nat.{bit_and}
use ps3_memorycard_adapter.Prelude.{
  ℕ, zero, suc, ◌≡◌, ◌≢◌, refl, ap, sym, ◌⊎◌, inl, inr, Bool, true, false, Option, none, some, [],
  ◌∷◌, ◌++◌, append_assoc, append-nil, arith, length, ltb, ◌==◌, ==_iff, ◌==ᵇ◌, Bool-cases, Bytes,
  Outcome, ok, raised, no_fuel, and_then, pure, ◌>>=◌,
}
use ps3_memorycard_adapter.Struct.{big}
use ps3_memorycard_adapter.Nbd.Wire.{
  Device, World, on_device, recv, sendall, close, recv_rest, recvall,
}
use ps3_memorycard_adapter.Nbd.Request.{
  nbd_request_magic, nbd_response_magic, max_block_size, allowed_flags, outside, Request, magic_of,
  request_of,
}
use ps3_memorycard_adapter.Nbd.Handle.{
  Result, reply, stop, caught, read_result, write_result, simple_reply, read_request, write_request,
  store_received, carry_out, conclude, serve,
}
use ps3_memorycard_adapter.Nbd.Cmd
use ps3_memorycard_adapter.Nbd.Flag
use ps3_memorycard_adapter.Nbd.Errno

-- A reply of the protocol: its header, and the data behind it.
abbrev pub reply_bytes : Bytes → ℕ → Bytes → Bytes
reply_bytes handle error b = (nbd_response_magic ++ (big 4 error ++ handle)) ++ b

-- Data goes only with a success, and has the length that was asked for.
abbrev pub Matches : Request → Option ℕ → Bytes → Type 0
Matches r error b = (b ≡ []) ⊎ ((error ≡ some 0) × (length b ≡ r.len))

module _ {D : Type 0} where
  -- A result, before the reply: nothing has been sent, and the data match the request.
  abbrev IsPrepared : Request → World D → Outcome Result × World D → Type 0
  IsPrepared r w (ok (reply error b), w') = (w'.sent ≡ w.sent) × Matches r error b
  IsPrepared r w (ok stop, w') = Unit
  IsPrepared r w (raised e, w') = Unit
  IsPrepared r w (no_fuel, w') = Unit

  recv_rest_sent :
      (fuel len : ℕ) (result : Bytes) (w : World D) → (recv_rest fuel len result w).1.sent ≡ w.sent
  unfolding recv_rest recv
  recv_rest_sent zero len result w = refl
  recv_rest_sent (suc fuel) len result w = elim (Bool-cases (ltb (length result) len)) [
    | inl more ↦ rw more (recv_rest_sent fuel len _ _)
    | inr done ↦ rw done
  ]

  recvall_sent : (fuel len : ℕ) (w : World D) → (recvall fuel len w).1.sent ≡ w.sent
  unfolding recvall
  recvall_sent fuel len w = recv_rest_sent fuel len [] w

  pub simple_reply_lem :
      (handle : Bytes) (error : ℕ) (b : Bytes) (w : World D)
      → simple_reply handle error b w
        ≡ (ok tt, record w { sent = w.sent ++ reply_bytes handle error b })
  unfolding simple_reply sendall
  simple_reply_lem handle error [] w =
      ap (λ t. (ok tt, record w { sent = w.sent ++ t }))
        (sym (append-nil (nbd_response_magic ++ (big 4 error ++ handle))))
  simple_reply_lem handle error (x ∷ b) w =
      let nonempty : (suc (length b) == 0) ≡ false = ground arith in
      rw nonempty (
        ap (λ t. (ok tt, record w { sent = t }))
          (append_assoc w.sent (nbd_response_magic ++ (big 4 error ++ handle)) (x ∷ b)))

  read_result-IsPrepared :
      (r : Request) (w w' : World D) (o : Option Bytes)
      → w'.sent ≡ w.sent
      → IsPrepared r w (ok (read_result r.len o), w')
  read_result-IsPrepared r w w' none h = (h, inl refl)
  read_result-IsPrepared r w w' (some b) h = elim (Bool-cases (length b == r.len)) [
    | inl whole ↦ rw whole (h, inr (refl, (==_iff (length b) r.len).0 whole))
    | inr part ↦ rw part (h, inl refl)
  ]

  caught-IsPrepared :
      {A : Type 0} (r : Request) (w w' : World D) (x : Outcome A) (f : Option A → Result)
      → ((o : Option A) → IsPrepared r w (ok (f o), w'))
      → IsPrepared r w (and_then (caught (x, w')) (λ o. pure (f o)))
  caught-IsPrepared r w w' (ok a) f h = h (some a)
  caught-IsPrepared r w w' (raised e) f h = h none
  caught-IsPrepared r w w' no_fuel f h = tt

  write_result-IsPrepared :
      (r : Request) (w w' : World D) (o : Option (Unit {0}))
      → w'.sent ≡ w.sent
      → IsPrepared r w (ok (write_result o), w')
  write_result-IsPrepared r w w' none h = (h, inl refl)
  write_result-IsPrepared r w w' (some x) h = (h, inl refl)

  stopped-IsPrepared :
      (r : Request) (w : World D) (x : Outcome (Unit {0}) × World D)
      → IsPrepared r w (and_then x (λ _. pure stop))
  stopped-IsPrepared r w (ok a, w') = tt
  stopped-IsPrepared r w (raised e, w') = tt
  stopped-IsPrepared r w (no_fuel, w') = tt

  module _ (dev : Device D) (read_only : Bool) (fuel : ℕ) where
    read_request-IsPrepared : (r : Request) (w : World D) → IsPrepared r w (read_request dev r w)
    unfolding read_request on_device
    read_request-IsPrepared r w = elim (Bool-cases (bit_and r.flags Flag.df == 0)) [
      | inr fragment ↦ rw fragment (refl, inl refl)
      | inl plain ↦ elim (Bool-cases (ltb max_block_size r.len)) [
        | inl large ↦ rw (plain, large) (refl, inl refl)
        | inr fits ↦ elim (Bool-cases (r.len == 0)) [
          | inl empty ↦ rw (plain, fits, empty) (refl, inl refl)
          | inr some_bytes ↦
              let (x, d) = dev.read r.offset r.len w.device in
              rw (plain, fits, some_bytes)
                (caught-IsPrepared r w (record w { device = d }) x (read_result r.len)
                  λ o. read_result-IsPrepared r w (record w { device = d }) o refl)
        ]
      ]
    ]

    store_received-IsPrepared :
        (r : Request) (b : Bytes) (w w₀ : World D)
        → w.sent ≡ w₀.sent
        → IsPrepared r w₀ (store_received dev r b w)
    unfolding store_received on_device
    store_received-IsPrepared r b w w₀ h = elim (Bool-cases (length b == r.len)) [
      | inl whole ↦
          let (x, d) = dev.write r.offset b w.device in
          rw whole (
            caught-IsPrepared r w₀ (record w { device = d }) x write_result
              λ o. write_result-IsPrepared r w₀ (record w { device = d }) o h)
      | inr part ↦ rw part (stopped-IsPrepared r w₀ (close w))
    ]

    received-IsPrepared :
        (r : Request) (w : World D) (x : Outcome Bytes × World D)
        → x.1.sent ≡ w.sent
        → IsPrepared r w (and_then x (store_received dev r))
    received-IsPrepared r w (ok b, w') h = store_received-IsPrepared r b w' w h
    received-IsPrepared r w (raised e, w') h = tt
    received-IsPrepared r w (no_fuel, w') h = tt

    write_request-IsPrepared :
        (r : Request) (w : World D) → IsPrepared r w (write_request dev read_only fuel r w)
    unfolding write_request
    write_request-IsPrepared r w = elim (Bool-cases read_only) [
      | inl ro ↦ rw ro (refl, inl refl)
      | inr writable ↦ elim (Bool-cases (ltb max_block_size r.len)) [
        | inl large ↦ rw (writable, large) (refl, inl refl)
        | inr fits ↦ elim (Bool-cases (r.len == 0)) [
          | inl empty ↦ rw (writable, fits, empty) (refl, inl refl)
          | inr some_bytes ↦
              rw (writable, fits, some_bytes)
                (received-IsPrepared r w (recvall fuel r.len w) (recvall_sent fuel r.len w))
        ]
      ]
    ]

    refused-IsPrepared :
        (r : Request) (w : World D) (x : Outcome (Unit {0}) × World D)
        → IsPrepared r w (and_then x (λ _. close >>= λ _. pure stop))
    refused-IsPrepared r w (ok a, w') = stopped-IsPrepared r w (close w')
    refused-IsPrepared r w (raised e, w') = tt
    refused-IsPrepared r w (no_fuel, w') = tt

    carry_out-IsPrepared :
        (r : Request) (w : World D) → IsPrepared r w (carry_out dev read_only fuel r w)
    unfolding carry_out
    carry_out-IsPrepared r w = elim (Bool-cases (outside r.flags (allowed_flags r.command) == 0)) [
      | inr other_flags ↦ rw other_flags (refl, inl refl)
      | inl known_flags ↦ elim (Bool-cases (r.command == Cmd.read)) [
        | inl reads ↦ rw (known_flags, reads) (read_request-IsPrepared r w)
        | inr not_read ↦ elim (Bool-cases (r.command == Cmd.write)) [
          | inl writes ↦ rw (known_flags, not_read, writes) (write_request-IsPrepared r w)
          | inr not_write ↦ elim (Bool-cases (r.command == Cmd.disc)) [
            | inl disc ↦
                rw (known_flags, not_read, not_write, disc) (stopped-IsPrepared r w (close w))
            | inr unknown ↦
                rw (known_flags, not_read, not_write, unknown)
                  (refused-IsPrepared r w (simple_reply r.handle Errno.enotsup [] w))
          ]
        ]
      ]
    ]

    ends_false : (x : Outcome (Unit {0}) × World D) → (and_then x (λ _. pure false)).0 ≢ ok true
    ends_false (ok a, w') h = cc
    ends_false (raised e, w') h = cc
    ends_false (no_fuel, w') h = cc

    -- One reply to this request, with its handle.
    pub record Replied (r : Request) (w w' : World D) : Type 0 where
      pub error : ℕ
      pub payload : Bytes
      pub sent : w'.sent ≡ w.sent ++ reply_bytes r.handle error payload
      pub payload_matches : Matches r (some error) payload

    conclude-Replied :
        (r : Request) (w : World D) (x : Outcome Result × World D)
        → IsPrepared r w x
        → (and_then x (conclude r.handle)).0 ≡ ok true
        → Replied r w (and_then x (conclude r.handle)).1
    conclude-Replied r w (ok (reply none b), w') p h = cc
    conclude-Replied r w (ok (reply (some e) b), w') p h =
        rw (simple_reply_lem r.handle e b w') (record {
          error = e;
          payload = b;
          sent = ap (λ t. t ++ reply_bytes r.handle e b) p.0;
          payload_matches = p.1;
        })
    conclude-Replied r w (ok stop, w') p h = cc
    conclude-Replied r w (raised e, w') p h = cc
    conclude-Replied r w (no_fuel, w') p h = cc

    -- When the server goes on after a request, it has sent exactly one reply, with the request's
    -- handle, and data in it only if it reports a success, as much as the request asked for.
    pub serve-Replied :
        (header : Bytes) (w : World D)
        → (serve dev read_only fuel header w).0 ≡ ok true
        → Replied (request_of header) w (serve dev read_only fuel header w).1
    unfolding serve
    serve-Replied header w h = elim (Bool-cases (magic_of header ==ᵇ nbd_request_magic)) [
      | inl sound ↦ rw sound (
          conclude-Replied (request_of header) w _ (carry_out-IsPrepared (request_of header) w)
            (rw sound at h))
      | inr other ↦ absurd (ends_false (close w) (rw other at h))
    ]
