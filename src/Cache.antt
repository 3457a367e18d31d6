-- ===== src/Cache.antt =====
-- nbd/cache.py: `FileDictCache`, a dictionary from keys to tuples that is appended to a file.
use ps3_memorycard_adapter.Prelude.{
  ℕ, zero, suc, ◌+◌, ◌≡◌, refl, Bool, true, false, Option, none, some, List, [], ◌∷◌, ◌++◌, arith,
  ◌==◌, if◌then◌else◌, length, take, drop, Bytes, value_error, type_error, key_error, struct_error,
  Outcome, ok, raised, no_fuel, Action, pure, raise, diverge, or_raise, ◌>>=◌, ◌>>◌, Value, bytes,
  str, items, as_bytes,
}
pub mod Ends
pub mod Format
pub mod Items
pub mod Reload
use ps3_memorycard_adapter.Prelude.Int.{ℤ, pos, negsuc}
use ps3_memorycard_adapter.Struct.{unpack_big_h, pack_big_h}
use ps3_memorycard_adapter.Dict.{Dict, lookup, insert, value_key}

-- The bytes from the file's position to its end, while `__init__` reads it.
abbrev pub Unread : Type 0
Unread = Bytes

-- `read(n)`
pub read : ℕ → Action Unread Bytes
read n rest = (ok (take n rest), drop n rest)

-- `readLength`: `none` is a short read.
pub read_length : Action Unread (Option ℤ)
read_length = do len_data ← read 2; pure (unpack_big_h len_data)

-- `read(length)` takes all that is left where the length is -1, and no result has that length; it
-- raises where the length is below.
pub read_counted : ℤ → Action Unread (Option Bytes)
read_counted (pos n) = do result ← read n; pure (if length result == n then some result else none)
read_counted (negsuc zero) = λ rest. (ok none, [])
read_counted (negsuc (suc n)) = raise value_error

abbrev pub read_after : Option ℤ → Action Unread (Option Bytes)
read_after none = pure none
read_after (some n) = read_counted n

-- `readData`
pub read_data : Action Unread (Option Bytes)
read_data = do found ← read_length; read_after found

-- `for x in range(data_len)`, which appends the items read.
pub read_items : ℕ → Action Unread (List Value)
read_items zero = pure []
read_items (suc n) = do
  found ← read_data
  item ← or_raise found value_error
  rest ← read_items n
  pure (bytes item ∷ rest)

-- `range(data_len)` is empty where the length is negative.
pub read_tuple : ℤ → Action Unread (List Value)
read_tuple (pos n) = read_items n
read_tuple (negsuc n) = pure []

abbrev pub Entries : Type 0
Entries = Dict Value (List Value)

-- The rest of a round of `__init__`, after a key: the tuple, and the entry.
pub read_entry : Entries → Bytes → Action Unread Entries
read_entry cache key = do
  found ← read_length
  data_len ← or_raise found value_error
  values ← read_tuple data_len
  pure (insert (bytes key) values cache)

-- The `while True` of `__init__`. Each round but the last reads a key, of two bytes or more.
pub load_entries : ℕ → Entries → Action Unread Entries
load_entries zero cache = diverge
load_entries (suc fuel) cache = do
  key ← read_data
  elim key [ none ↦ pure cache | some k ↦ (do next ← read_entry cache k; load_entries fuel next) ]

-- The object; `file` is the content of the file that it appends to.
pub record FileDictCache : Type 0 where
  pub read_only : Bool
  pub cache : Entries
  pub to_save : Entries
  pub file : Bytes

abbrev pub opened : Bytes → Bool → Outcome Entries → Outcome FileDictCache
opened content read_only (ok cache) =
    ok (record { read_only = read_only; cache = cache; to_save = []; file = content })
opened content read_only (raised e) = raised e
opened content read_only no_fuel = no_fuel

-- `__init__`: the file is read from its start.
pub init : Bytes → Bool → Outcome FileDictCache
init content read_only = opened content read_only (load_entries (suc (length content)) [] content).0

-- `__getitem__`
unfoldable pub get_item : Value → Action FileDictCache (List Value)
get_item key = λ c. or_raise (lookup key c.cache) key_error c

-- `write(data)` to the file, which is open in binary mode and in append mode.
pub write : Value → Action FileDictCache (Unit {0})
write value = do b ← as_bytes value; λ c. (ok tt, record c { file = c.file ++ b })

-- `writeLength`
pub write_length : ℕ → Action FileDictCache (Unit {0})
write_length n = do packed ← or_raise (pack_big_h n) struct_error; write (bytes packed)

-- `writeData`
pub write_data : Value → Action FileDictCache (Unit {0})
write_data value = do write_length (length (items value)); write value

pub write_items : List Value → Action FileDictCache (Unit {0})
write_items [] = pure tt
write_items (item ∷ rest) = do write_data item; write_items rest

pub write_entries : List (Value × List Value) → Action FileDictCache (Unit {0})
write_entries [] = pure tt
write_entries ((key, value) ∷ rest) = do
  write_data key
  write_length (length value)
  write_items value
  write_entries rest

-- `flush`
pub flush : Action FileDictCache (Unit {0})
flush c =
    if c.read_only
    then (ok tt, c)
    else (do write_entries c.to_save; λ c'. (ok tt, record c' { to_save = [] })) c

-- What `__setitem__` is given for a value.
pub data Given : Type 0 where
  tuple : List Value → Given
  other : Given

-- The checks of `__setitem__`: a tuple, and each item a `str`.
pub check_items : List Value → Action FileDictCache (Unit {0})
check_items [] = pure tt
check_items (bytes b ∷ rest) = raise type_error
check_items (str t ∷ rest) = check_items rest

pub save_item : Value → List Value → Action FileDictCache (Unit {0})
save_item key value c =
    let stored = record c { cache = insert key value c.cache } in
    if c.read_only
    then (ok tt, stored)
    else flush (record stored { to_save = insert key value c.to_save })

-- `__setitem__`
pub set_item : Value → Given → Action FileDictCache (Unit {0})
set_item key other = raise type_error
set_item key (tuple value) = do check_items value; save_item key value
