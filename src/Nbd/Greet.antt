-- ===== src/Nbd/Greet.antt =====
-- `NBDServer.greet`: the negotiation before the first request.
use ps3_memorycard_adapter.Prelude.{
  ℕ, zero, suc, ◌+◌, ◌^◌, Bool, true, false, not, Option, none, some, [], ◌∷◌, ◌++◌, length, take,
  slice, replicate, ltb, ◌==◌, if◌then◌else◌, Bytes, struct_error, unbound_local_error, Action,
  pure, raise, diverge, or_raise, assert, ◌>>=◌, ◌>>◌,
}
use Prim.Native.Nat.{bit_and}
use ps3_memorycard_adapter.Struct.{big, of_big, unpack_big}
use ps3_memorycard_adapter.Nbd.Wire.{Device, World, on_device, sendall, close, recvall}
use ps3_memorycard_adapter.Nbd.Request.{max_block_size, outside}
use ps3_memorycard_adapter.Nbd.Options.{recv_option, send_option}
use ps3_memorycard_adapter.Nbd.Opt
use ps3_memorycard_adapter.Nbd.Rep

-- b'NBDMAGICIHAVEOPT'
abbrev pub nbd_greeting_prefix : Bytes
nbd_greeting_prefix =
    0x4e ∷ 0x42 ∷ 0x44 ∷ 0x4d ∷ 0x41 ∷ 0x47 ∷ 0x49 ∷ 0x43 ∷ 0x49 ∷ 0x48 ∷ 0x41 ∷ 0x56 ∷ 0x45 ∷ 0x4f
    ∷ 0x50 ∷ 0x54 ∷ []

abbrev pub nbd_greeting_suffix : Bytes
nbd_greeting_suffix = replicate 124 0

-- NBD_FLAG_FIXED_NEWSTYLE, NBD_FLAG_C_FIXED_NEWSTYLE, and the same for NO_ZEROES.
abbrev pub fixed_newstyle : ℕ
fixed_newstyle = 1

abbrev pub no_zeroes : ℕ
no_zeroes = 2

-- `NBD_FLAG_HAS_FLAGS | NBD_FLAG_CAN_MULTI_CONN`, and `NBD_FLAG_READ_ONLY` on a read-only server.
abbrev pub transmission_flags : Bool → ℕ
transmission_flags read_only = if read_only then 1 + 2 + 256 else 1 + 256

-- How a round of the loop on options ends: with another one, with a break, or with a return of
-- False. `bound` says that the variables on the name have been assigned, in this round or before.
pub data Round : Type 0 where
  again : (bound : Bool) → Round
  leave : Round
  refuse : Round

-- What is in the value of NBD_OPT_INFO or NBD_OPT_GO: the name, and whether the number of requests
-- is there.
abbrev pub name_of : Bytes → ℕ → Bytes
name_of value name_length = slice 4 name_length value

abbrev pub has_count : Bytes → ℕ → Bool
has_count value name_length = length (slice (4 + name_length) 2 value) == 2

-- `struct.pack('>HQH', NBD_INFO_EXPORT, size, flags)`, and the same with a page size. A size that
-- is None, or does not fit, is a `struct.error`.
abbrev pub info_export : Bool → Option ℕ → Option Bytes
info_export read_only none = none
info_export read_only (some size) =
    if ltb size (256 ^ 8)
    then some (big 2 0 ++ (big 8 size ++ big 2 (transmission_flags read_only)))
    else none

abbrev pub info_block_size : Option ℕ → Option Bytes
info_block_size none = none
info_block_size (some size) =
    if ltb size (256 ^ 4)
    then some (big 2 3 ++ (big 4 1 ++ (big 4 size ++ big 4 max_block_size)))
    else none

module _ {D : Type 0} (dev : Device D) (read_only : Bool) where
  -- The answers to NBD_OPT_INFO and NBD_OPT_GO with an empty name.
  unfoldable pub send_info : ℕ → Action (World D) (Unit {0})
  send_info option = do
    size ← on_device dev.get_size
    export ← or_raise (info_export read_only size) struct_error
    send_option option Rep.info export
    send_option option Rep.info (big 2 1)
    page_size ← on_device dev.get_page_size
    block_size ← or_raise (info_block_size page_size) struct_error
    send_option option Rep.info block_size
    send_option option Rep.ack []

  -- The same, after the length of the name has been read.
  unfoldable pub answer_name : ℕ → Bytes → ℕ → Action (World D) Round
  answer_name option value name_length =
      if not (has_count value name_length)
      then (do send_option option Rep.err_invalid []; pure (again true))
      else if not (length (name_of value name_length) == 0)
      then (do send_option option Rep.err_invalid []; pure (again true))
      else (do send_info option; pure (if option == Opt.go then leave else again true))

  -- The branch of NBD_OPT_INFO and NBD_OPT_GO. The handler of `struct.error` prints the variables
  -- on the name, which are assigned behind the length of the name.
  unfoldable pub answer_info : Bool → ℕ → Bytes → Action (World D) Round
  answer_info bound option value = elim (unpack_big 4 (take 4 value)) [
    | some name_length ↦ answer_name option value name_length
    | none ↦
        (if bound
          then (do send_option option Rep.err_invalid []; pure (again true))
          else raise unbound_local_error)
  ]

  -- The branch of NBD_OPT_LIST.
  unfoldable pub answer_list : ℕ → Bytes → Action (World D) (Unit {0})
  answer_list option value =
      if not (length value == 0)
      then send_option option Rep.err_invalid []
      else (do send_option option Rep.server (big 4 0); send_option option Rep.ack [])

  -- The branches for an option other than NBD_OPT_EXPORT_NAME whose value is there.
  unfoldable pub answer_value : Bool → ℕ → Bytes → Action (World D) Round
  answer_value bound option value =
      if option == Opt.abort
      then (do send_option option Rep.ack []; close; pure refuse)
      else if option == Opt.list
      then (do answer_list option value; pure (again bound))
      else if option == Opt.info
      then answer_info bound option value
      else if option == Opt.go
      then answer_info bound option value
      else (do send_option option Rep.err_unsup []; pure (again bound))

  -- The branch of NBD_OPT_EXPORT_NAME.
  unfoldable pub answer_export_name : Option Bytes → Action (World D) Round
  answer_export_name none = do close; pure refuse
  answer_export_name (some []) = pure leave
  answer_export_name (some (x ∷ name)) = do close; pure refuse

  -- A round of the loop, after an option has been received.
  unfoldable pub answer_option : Bool → ℕ × Option Bytes → Action (World D) Round
  answer_option bound (option, value) =
      if option == Opt.export_name then answer_export_name value else elim value [
        | none ↦ (do send_option option Rep.err_too_big []; pure (again bound))
        | some v ↦ answer_value bound option v
      ]

  -- The loop on options: True where it is left by a break.
  unfoldable pub option_loop : ℕ → ℕ → Bool → Action (World D) Bool
  option_loop zero fuel bound = diverge
  option_loop (suc rounds) fuel bound = do
    received ← recv_option fuel
    round ← answer_option bound received
    elim round [ again b ↦ option_loop rounds fuel b | leave ↦ pure true | refuse ↦ pure false ]

  -- `else`: the one option of a client that does not know the fixed newstyle. A value that is None
  -- is let pass.
  unfoldable pub old_option : ℕ × Option Bytes → Action (World D) Bool
  old_option (option, value) = do
    assert (option == Opt.export_name)
    elim value [
      | none ↦ pure true
      | some name ↦ (if length name == 0 then pure true else (do close; pure false))
    ]

  unfoldable pub negotiate : ℕ → ℕ → ℕ → Action (World D) Bool
  negotiate rounds fuel handshake_flags =
      if not (bit_and handshake_flags fixed_newstyle == 0)
      then option_loop rounds fuel false
      else (do received ← recv_option fuel; old_option received)

  -- `greet`
  unfoldable pub greet : ℕ → ℕ → Action (World D) Bool
  greet rounds fuel = do
    sendall nbd_greeting_prefix
    sendall (big 2 (fixed_newstyle + no_zeroes))
    b ← recvall fuel 4
    let handshake_flags = of_big b
    assert (outside handshake_flags (fixed_newstyle + no_zeroes) == 0)
    accepted ← negotiate rounds fuel handshake_flags
    if not accepted then pure false else (do
      (if bit_and handshake_flags no_zeroes == 0 then sendall nbd_greeting_suffix else pure tt)
      pure true)
