-- ===== src/Reader/Writes.antt =====
-- Writing with the reader's own `writeFrame` and `writePage`.
use ps3_memorycard_adapter.Prelude.{
  ℕ, zero, suc, ◌+◌, ◌/◌, ◌%◌, ◌<◌, ◌≡◌, ◌≢◌, inl, inr, false, ◌++◌, arith, ltb, leb, ◌==◌, length,
  length-append, take, Bool-cases, Bytes, Exc, Outcome, ok, raised, no_fuel, and_then, pure, Action,
  assertion_error, type_error, struct_error, assert, or_raise,
}
use ps3_memorycard_adapter.Struct.{pack_little}
use ps3_memorycard_adapter.Reader.Host.{Host}
use ps3_memorycard_adapter.Reader.Commands.{get_card_type}
use ps3_memorycard_adapter.Reader.Auth.{authenticate}
use ps3_memorycard_adapter.Reader.Cards.{write_frame, write_page, frame_length, page_length}
use ps3_memorycard_adapter.Reader.Blocks.{
  Blocks, write_blocks, write_range, choose, frames, pages, write,
}

-- The call did not return: it raised, or went on for longer than its fuel.
abbrev pub Fails {ℓ} : {A S : Type ℓ} → Outcome A × S → Type 0
Fails (ok a, s) = ⊥
Fails (raised e, s) = Unit
Fails (no_fuel, s) = Unit

Fails-bind :
    {A B S : Type 0} (r : Outcome A × S) (f : A → Action S B)
    → ((a : A) (s : S) → Fails (f a s))
    → Fails (and_then r f)
Fails-bind (ok a, s) f h = h a s
Fails-bind (raised e, s) f h = tt
Fails-bind (no_fuel, s) f h = tt

Fails-first :
    {A B S : Type 0} (r : Outcome A × S) (f : A → Action S B) → Fails r → Fails (and_then r f)
Fails-first (ok a, s) f h = absurd h
Fails-first (raised e, s) f h = tt
Fails-first (no_fuel, s) f h = tt

not_ok : {A S : Type 0} (r : Outcome A × S) (a : A) → Fails r → r.0 ≢ ok a
not_ok (ok b, s) a h = absurd h
not_ok (raised e, s) a h = λ q. cc
not_ok (no_fuel, s) a h = λ q. cc

padded-Fails :
    {S : Type 0} (r : Outcome Bytes × S) (k : ℕ) (b : Bytes) (g : Bytes → Action S (Unit {0}))
    → 0 < length b
    → ((x : Bytes) (s : S) → 0 < length x → Fails (g x s))
    → Fails (and_then (and_then r (λ old. pure (take k old ++ b))) g)
padded-Fails (ok old, s) k b g h f =
    f (take k old ++ b) s (omega (arith, length-append (take k old) b))
padded-Fails (raised e, s) k b g h f = tt
padded-Fails (no_fuel, s) k b g h f = tt

module _ {D : Type 0} (io : Blocks D)
    (broken : (n : ℕ) (b : Bytes) (s : D) → Fails (io.write_block n b s)) where
  write_blocks-Fails :
      (fuel cur : ℕ) (b : Bytes) (s : D) → 0 < length b → Fails (write_blocks io fuel cur b s)
  unfolding write_blocks
  write_blocks-Fails zero cur b s h = tt
  write_blocks-Fails (suc fuel) cur b s h = elim (Bool-cases (leb io.block_length (length b))) [
    | inl full ↦
        rw full (Fails-first (io.write_block cur (take io.block_length b) s) _ (broken _ _ s))
    | inr short ↦
        let some_bytes : (length b == 0) ≡ false = ground arith in
        rw (short, some_bytes) (Fails-bind (io.read_block cur s) _ λ old s₁. broken cur _ s₁)
  ]

  write_range-Fails :
      (offset : ℕ) (b : Bytes) (s : D) → 0 < length b → Fails (write_range io offset b s)
  unfolding write_range
  write_range-Fails offset b s h = elim (Bool-cases (ltb io.max_length (offset + length b))) [
    | inl out ↦ rw out tt
    | inr within ↦ elim (Bool-cases (offset % io.block_length == 0)) [
      | inl aligned ↦ rw (within, aligned) (write_blocks-Fails _ _ b s h)
      | inr inside ↦
          rw (within, inside)
            (padded-Fails (io.read_block (offset / io.block_length) s) (offset % io.block_length) b
              (λ padded. write_blocks io (suc (length padded)) (offset / io.block_length) padded) h
              (λ x s₁ p. write_blocks-Fails _ _ x s₁ p))
    ]
  ]

module _ {D : Type 0} (host : Host D) (fuel : ℕ) where
  -- `writeFrame` raises on every frame number and every frame, before anything is sent to the
  -- device.
  pub write_frame-raises :
      (n : ℕ) (frame : Bytes) (s : D)
      → (e : Exc) × (write_frame host fuel n frame s ≡ (raised e, s))
  unfolding write_frame
  write_frame-raises n frame s = elim (Bool-cases (length frame == frame_length)) [
    | inl right ↦ elim (Bool-cases (ltb n 65536)) [
      | inl small ↦ (type_error, rw right (rw small))
      | inr large ↦ (struct_error, rw right (rw large))
    ]
    | inr wrong ↦ (assertion_error, rw wrong)
  ]

  write_frame-Fails : (n : ℕ) (frame : Bytes) (s : D) → Fails (write_frame host fuel n frame s)
  write_frame-Fails n frame s = let (e, h) = write_frame-raises n frame s in rw h tt

  write_page-Fails : (n : ℕ) (page : Bytes) (s : D) → Fails (write_page host fuel n page s)
  unfolding write_page
  write_page-Fails n page s = Fails-bind (assert (length page == page_length) s) _ λ _ s₁.
      Fails-bind (authenticate host fuel s₁) _
        λ _ s₂. Fails-bind (or_raise (pack_little 4 n) struct_error s₂) _ λ encoded s₃. tt

  -- No write of any data returns, whatever the device does: `write` raises or does not end.
  pub write-Fails :
      (offset : ℕ) (b : Bytes) (s : D) → 0 < length b → (write host fuel offset b s).0 ≢ ok tt
  unfolding write
  write-Fails offset b s h =
      not_ok _ tt (Fails-bind (get_card_type host fuel s) _ λ card_type s₁. chosen card_type s₁)
    where
      chosen :
          (t : ℕ) (s₁ : D)
          → Fails (and_then (choose host fuel t s₁) (λ io. write_range io offset b))
      chosen t s₁ = elim (Bool-cases (t == 1)) [
        | inl one ↦ rw one (write_range-Fails (frames host fuel) (write_frame-Fails) offset b s₁ h)
        | inr not_one ↦ elim (Bool-cases (t == 2)) [
          | inl two ↦
              rw (not_one, two)
                (write_range-Fails (pages host fuel) (write_page-Fails) offset b s₁ h)
          | inr other ↦ rw (not_one, other) tt
        ]
      ]
