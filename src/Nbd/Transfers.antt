-- ===== src/Nbd/Transfers.antt =====
-- Reads through the server, as the client and the device see them.
use Prim.Native.Nat.{bit_and}
use ps3_memorycard_adapter.Prelude.{
  ℕ, zero, suc, ◌-◌, ◌≤◌, ◌<◌, ◌≡◌, ◌≢◌, refl, inl, inr, Bool, true, false, [], ◌++◌, arith, length,
  le→ltb, le→leb, ◌==◌, ==_ne, Bool-cases, if◌then◌else◌, Bytes, Outcome, ok, raised, no_fuel,
  and_then, pure,
}
use ps3_memorycard_adapter.Nbd.Wire.{Device, World, on_device}
use ps3_memorycard_adapter.Nbd.Request.{
  max_block_size, allowed_flags, outside, Request, encode, Fits,
}
use ps3_memorycard_adapter.Nbd.Handle.{
  caught, read_result, read_request, carry_out, conclude, serve,
}
use ps3_memorycard_adapter.Nbd.Format.{request_of-encode}
use ps3_memorycard_adapter.Nbd.Answers.{reply_bytes, simple_reply_lem}
use ps3_memorycard_adapter.Nbd.Cmd
use ps3_memorycard_adapter.Nbd.Flag
use ps3_memorycard_adapter.Nbd.Errno

if_mask :
    (b : Bool) (m n : ℕ)
    → 1 - bit_and 1 m ≡ 0
    → 1 - bit_and 1 n ≡ 0
    → 1 - bit_and 1 (if b then m else n) ≡ 0
if_mask true m n h k = h
if_mask false m n h k = k

plain_one : (command : ℕ) → command ≤ Cmd.resize → 1 - bit_and 1 (allowed_flags command) ≡ 0
unfolding allowed_flags
plain_one command h = if_mask (command == Cmd.read) _ _ refl (
    if_mask (command == Cmd.write_zeroes) _ _ refl
      (if_mask (command == Cmd.block_status) _ _ refl (rw (le→leb command Cmd.resize h))))

-- The flags FUA and none are allowed with every command.
pub plain_flags :
    (flags command : ℕ)
    → flags ≤ 1
    → command ≤ Cmd.resize
    → outside flags (allowed_flags command) ≡ 0
unfolding outside
plain_flags zero command h k = omega arith
plain_flags (suc zero) command h k = plain_one command k
plain_flags (suc (suc flags)) command h k = absurd (omega arith)

not_df : (flags : ℕ) → flags ≤ 1 → bit_and flags Flag.df ≡ 0
not_df zero h = refl
not_df (suc zero) h = refl
not_df (suc (suc flags)) h = absurd (omega arith)

-- What the device gave, as the error number and the data of a reply.
unfoldable pub read_answer : ℕ → Outcome Bytes → ℕ × Bytes
read_answer len (ok b) = if length b == len then (0, b) else (Errno.eio, [])
read_answer len (raised e) = (Errno.eio, [])
read_answer len no_fuel = (Errno.eio, [])

module _ {D : Type 0} (dev : Device D) (read_only : Bool) (fuel : ℕ) (r : Request) (w : World D)
    (fits : Fits r) (plain : r.flags ≤ 1) where
  pub serve-encode :
      serve dev read_only fuel (encode r) w
      ≡ and_then (carry_out dev read_only fuel r w) (conclude r.handle)
  unfolding serve
  serve-encode = rw ((request_of-encode r fits).0, (request_of-encode r fits).1) refl

  carry_out-read : r.command ≡ Cmd.read → carry_out dev read_only fuel r w ≡ read_request dev r w
  unfolding carry_out
  carry_out-read is_read = rw (plain_flags r.flags r.command plain (omega arith)) (rw is_read)

  read_result-answer :
      (o : Outcome Bytes) (w' : World D)
      → o ≢ no_fuel
      → and_then (and_then (caught (o, w')) (λ b. pure (read_result r.len b))) (conclude r.handle)
        ≡ (
          ok true,
          record w' {
            sent = w'.sent ++ reply_bytes r.handle (read_answer r.len o).0 (read_answer r.len o).1;
          },
        )
  unfolding read_answer
  read_result-answer (ok b) w' h = elim (Bool-cases (length b == r.len)) [
    | inl whole ↦ rw whole (rw (simple_reply_lem r.handle 0 b w'))
    | inr part ↦ rw part (rw (simple_reply_lem r.handle Errno.eio [] w'))
  ]
  read_result-answer (raised e) w' h = rw (simple_reply_lem r.handle Errno.eio [] w')
  read_result-answer no_fuel w' h = absurd (h refl)

  -- A read of some bytes, no more than the protocol's maximum, asks the device once for them and
  -- is answered: by the data where the device gives as many, and by EIO with no data where it
  -- gives another number or raises. The server goes on, in the state that the device is in. The
  -- fields of the request fit the format, it has no flag but FUA, and the device's read ends.
  pub serve-read :
      r.command ≡ Cmd.read
      → 0 < r.len
      → r.len ≤ max_block_size
      → (dev.read r.offset r.len w.device).0 ≢ no_fuel
      → let (o, d) = dev.read r.offset r.len w.device in
        serve dev read_only fuel (encode r) w ≡ (
          ok true,
          record w {
            device = d;
            sent = w.sent ++ reply_bytes r.handle (read_answer r.len o).0 (read_answer r.len o).1;
          },
        )
  unfolding read_request on_device
  serve-read is_read some_bytes small ends =
      rw
        (
          serve-encode,
          carry_out-read is_read,
          not_df r.flags plain,
          le→ltb max_block_size r.len small,
          ==_ne r.len 0 (omega arith),
        )
        (read_result-answer (dev.read r.offset r.len w.device).0
          (record w { device = (dev.read r.offset r.len w.device).1 }) ends)
