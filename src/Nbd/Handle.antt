-- ===== src/Nbd/Handle.antt =====
-- `NBDServer.handle`: a request is received, in pieces, and carried out.
use ps3_memorycard_adapter.Prelude.{
  ℕ, ◌-◌, Bool, true, false, not, Option, none, some, [], ◌++◌, length, ltb, ◌==◌, ◌==ᵇ◌,
  if◌then◌else◌, Bytes, unbound_local_error, Outcome, ok, raised, no_fuel, Action, pure, or_raise,
  assert, ◌>>=◌, ◌>>◌,
}
use Prim.Native.Nat.{bit_and}
use ps3_memorycard_adapter.Struct.{big}
use ps3_memorycard_adapter.Nbd.Wire.{Device, World, on_device, recv, sendall, close, recvall}
use ps3_memorycard_adapter.Nbd.Request.{
  nbd_request_len, nbd_request_magic, nbd_response_magic, max_block_size, allowed_flags, outside,
  Request, magic_of, request_of,
}
use ps3_memorycard_adapter.Nbd.Cmd
use ps3_memorycard_adapter.Nbd.Flag
use ps3_memorycard_adapter.Nbd.Errno

-- What a request comes to: a reply, with the variables `error` (which may be unset) and `data`
-- as they stand at the end of `handle`, or an early return of False.
pub data Result : Type 0 where
  reply : Option ℕ → Bytes → Result
  stop : Result

-- `try: ... except Exception`: `none` is an exception that was caught.
abbrev pub caught : {A S : Type 0} → Outcome A × S → Outcome (Option A) × S
caught (ok a, s) = (ok (some a), s)
caught (raised e, s) = (ok none, s)
caught (no_fuel, s) = (no_fuel, s)

abbrev pub attempt : {A S : Type 0} → Action S A → Action S (Option A)
attempt m s = caught (m s)

-- The reply to what the device read, or did not.
abbrev pub read_result : ℕ → Option Bytes → Result
read_result len none = reply (some Errno.eio) []
read_result len (some b) = if length b == len then reply (some 0) b else reply (some Errno.eio) []

-- After a write `error` is set only if the device raised.
abbrev pub write_result : Option (Unit {0}) → Result
write_result none = reply (some Errno.eio) []
write_result (some _) = reply none []

module _ {D : Type 0} where
  -- `_buffer[:_buffer_len]`, read and set.
  abbrev pub get_buffer : Action (World D) Bytes
  get_buffer w = (ok w.buffer, w)

  abbrev pub set_buffer : Bytes → Action (World D) (Unit {0})
  set_buffer b w = (ok tt, record w { buffer = b })

  -- `_simpleReply`
  unfoldable pub simple_reply : Bytes → ℕ → Bytes → Action (World D) (Unit {0})
  simple_reply handle error b = do
    sendall (nbd_response_magic ++ (big 4 error ++ handle))
    if length b == 0 then pure tt else sendall b

  -- The end of `handle`.
  abbrev pub conclude : Bytes → Result → Action (World D) Bool
  conclude handle (reply error b) = do
    e ← or_raise error unbound_local_error
    simple_reply handle e b
    pure true
  conclude handle stop = pure false

  module _ (dev : Device D) where
    -- The branch of NBD_CMD_READ.
    unfoldable pub read_request : Request → Action (World D) Result
    read_request r =
        if not (bit_and r.flags Flag.df == 0)
        then pure (reply (some Errno.enotsup) [])
        else if ltb max_block_size r.len
        then pure (reply (some Errno.einval) [])
        else if r.len == 0
        then pure (reply none [])
        else (do b ← attempt (on_device (dev.read r.offset r.len)); pure (read_result r.len b))

    -- The data of a write have been received.
    unfoldable pub store_received : Request → Bytes → Action (World D) Result
    store_received r recv_data =
        if length recv_data == r.len
        then (do
          done ← attempt (on_device (dev.write r.offset recv_data))
          pure (write_result done))
        else (do close; pure stop)

  module _ (dev : Device D) (read_only : Bool) (fuel : ℕ) where
    -- The branch of NBD_CMD_WRITE.
    unfoldable pub write_request : Request → Action (World D) Result
    write_request r =
        if read_only
        then pure (reply (some Errno.eperm) [])
        else if ltb max_block_size r.len
        then pure (reply (some Errno.einval) [])
        else if r.len == 0
        then pure (reply none [])
        else (do recv_data ← recvall fuel r.len; store_received dev r recv_data)

    -- The chain of branches on the flags and the command.
    unfoldable pub carry_out : Request → Action (World D) Result
    carry_out r =
        if not (outside r.flags (allowed_flags r.command) == 0)
        then pure (reply (some Errno.enotsup) [])
        else if r.command == Cmd.read
        then read_request dev r
        else if r.command == Cmd.write
        then write_request r
        else if r.command == Cmd.disc
        then (do close; pure stop)
        else (do simple_reply r.handle Errno.enotsup []; close; pure stop)

    -- A whole request has been received.
    unfoldable pub serve : Bytes → Action (World D) Bool
    serve header =
        if magic_of header ==ᵇ nbd_request_magic
        then (do result ← carry_out (request_of header); conclude (request_of header).handle result)
        else (do close; pure false)

    -- `handle`
    unfoldable pub handle : Action (World D) Bool
    handle = do
      received ← get_buffer
      b ← recv (nbd_request_len - length received)
      let header = received ++ b
      if ltb (length header) nbd_request_len
          then (do set_buffer header; pure true)
          else (do assert (length header == nbd_request_len); set_buffer []; serve header)
