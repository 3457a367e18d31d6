-- ===== src/Nbd/Request.antt =====
-- The numbers of nbd/nbd.py's transmission phase, its requests, and their form on the wire.
use Prim.Native.Nat.{bit_and}
use ps3_memorycard_adapter.Prelude.{
  ℕ, ◌+◌, ◌-◌, ◌^◌, ◌<◌, ◌≡◌, ◌==◌, leb, if◌then◌else◌, [], ◌∷◌, ◌++◌, length, take, slice, Bytes,
}
use ps3_memorycard_adapter.Struct.{big, of_big}
use ps3_memorycard_adapter.Nbd.Cmd
use ps3_memorycard_adapter.Nbd.Flag

abbrev pub nbd_request_len : ℕ
nbd_request_len = 28

abbrev pub nbd_request_magic : Bytes
nbd_request_magic = 0x25 ∷ 0x60 ∷ 0x95 ∷ 0x13 ∷ []

abbrev pub nbd_response_magic : Bytes
nbd_response_magic = 0x67 ∷ 0x44 ∷ 0x66 ∷ 0x98 ∷ []

abbrev pub max_block_size : ℕ
max_block_size = 2 ^ 25

-- `COMMAND_ALLOWED_FLAG_DICT.get(command, 0)`
unfoldable pub allowed_flags : ℕ → ℕ
allowed_flags command =
    if command == Cmd.read
    then Flag.fua + Flag.df
    else if command == Cmd.write_zeroes
    then Flag.fua + Flag.no_hole + Flag.fast_zero
    else if command == Cmd.block_status
    then Flag.fua + Flag.req_one
    else if leb command Cmd.resize
    then Flag.fua
    else 0

-- `flags & ~mask`: the bits that the mask does not have.
unfoldable pub outside : ℕ → ℕ → ℕ
outside flags mask = flags - bit_and flags mask

-- The fields of a request behind its magic number.
pub record Request : Type 0 where
  pub flags : ℕ
  pub command : ℕ
  pub handle : Bytes
  pub offset : ℕ
  pub len : ℕ

-- `struct.unpack(NBD_REQUEST_FORMAT, view)` of 28 bytes: the magic number and the fields.
unfoldable pub magic_of : Bytes → Bytes
magic_of b = take 4 b

unfoldable pub request_of : Bytes → Request
request_of b = record {
  flags = of_big (slice 4 2 b);
  command = of_big (slice 6 2 b);
  handle = slice 8 8 b;
  offset = of_big (slice 16 8 b);
  len = of_big (slice 24 4 b);
}

-- The same form, written.
unfoldable pub encode : Request → Bytes
encode r =
    nbd_request_magic
    ++ (big 2 r.flags ++ (big 2 r.command ++ (r.handle ++ (big 8 r.offset ++ big 4 r.len))))

-- The fields fit the format.
pub record Fits (r : Request) : Type 0 where
  pub flags : r.flags < 256 ^ 2
  pub command : r.command < 256 ^ 2
  pub handle : length r.handle ≡ 8
  pub offset : r.offset < 256 ^ 8
  pub len : r.len < 256 ^ 4
