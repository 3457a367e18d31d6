-- ===== src/Fuse/Kept/Saves.antt =====
-- The operations of `PS1Save`, on a card that was mapped for reading.
use ps3_memorycard_adapter.Prelude.{
  ℕ, zero, suc, ◌+◌, ◌-◌, ◌/◌, Option, none, some, List, [], ◌∷◌, ◌++◌, length, slice, get_elem?,
  ltb, leb, ◌==◌, ◌==ᵇ◌, Bytes, struct_error, value_error, type_error, index_error, key_error,
  no_fuel, pure, join, Action, ◌>>=◌,
}
use ps3_memorycard_adapter.Prelude.Int.{ℤ}
use ps3_memorycard_adapter.Struct.{unpack_little}
use ps3_memorycard_adapter.Dict.{lookup, nat_key}
use ps3_memorycard_adapter.Fuse.Layout.{block_length, save_length_offset, save_length_length}
use ps3_memorycard_adapter.Fuse.Card.{Target, head, orphan, Card}
use ps3_memorycard_adapter.Fuse.Save.{
  Text, Save, Entry, whole_data, part, entry_of, save_data_entry_id, entry_offset, get_entry_offset,
  entry_size, get_entry_size, get_data_size, header_of, chain_of, new_save, get_save, first_block,
  read_header, write_header, is_zero, read_parts, read_data, write_parts, write_data, read_entry,
  write_entry,
}
use ps3_memorycard_adapter.Fuse.Kept.{
  Kept, Kept-same, Kept-bind, Kept-pure, Kept-raise, Kept-or_raise, Kept-assert, Kept-if, Kept-read,
  Kept-write, Kept-update_xor, Kept-iter, Kept-link_map,
}

Kept-header_of : (t : Target) → Kept (header_of t)
Kept-header_of (head n) = Kept-read _ _
Kept-header_of orphan = λ c ro. Kept-same _ c ro

Kept-chain_of : (fuel : ℕ) (t : Target) → Kept (chain_of fuel t)
Kept-chain_of fuel (head n) =
    Kept-iter fuel (λ k blocks. pure (blocks ++ k ∷ [])) n (n ∷ [])
      λ k blocks. Kept-pure (blocks ++ k ∷ [])
Kept-chain_of fuel orphan = Kept-raise struct_error

Kept-new_save : (fuel : ℕ) (t : Target) → Kept (new_save fuel t)
unfolding new_save
Kept-new_save fuel t = Kept-bind _ _ (Kept-header_of t) λ header.
    Kept-bind _ _
      (Kept-or_raise (unpack_little 4 (slice save_length_offset save_length_length header))
        struct_error)
      λ size. Kept-bind _ _ (Kept-chain_of fuel t) λ blocks.
        Kept-bind _ _ (Kept-assert (size == get_data_size (record { block_list = blocks })))
          λ _. Kept-pure (record { block_list = blocks })

save_of : ℕ → Option Target → Action Card (Option Save)
save_of fuel = elim [
  | none ↦ pure none
  | some target ↦ (do save ← new_save fuel target; pure (some save))
]

Kept-save_of : (fuel : ℕ) (o : Option Target) → Kept (save_of fuel o)
unfolding save_of
Kept-save_of fuel none = Kept-pure none
Kept-save_of fuel (some t) = Kept-bind _ _ (Kept-new_save fuel t) λ s. Kept-pure (some s)

pub Kept-get_save : (fuel n : ℕ) → Kept (get_save fuel n)
unfolding get_save save_of
Kept-get_save fuel n = Kept-bind _ _ (Kept-link_map fuel) λ m. Kept-save_of fuel (lookup n m)

Kept-entry_size : (o : Option Entry) → Kept (entry_size o)
Kept-entry_size none = Kept-raise key_error
Kept-entry_size (some whole_data) = Kept-raise type_error
Kept-entry_size (some (part offset size)) = Kept-pure size

pub Kept-get_entry_size : (s : Save) (name : Text) → Kept (get_entry_size s name)
unfolding get_entry_size
Kept-get_entry_size s name =
    Kept-if (name ==ᵇ save_data_entry_id) _ _ (Kept-pure (get_data_size s))
      (Kept-entry_size (entry_of name))

Kept-entry_offset : (o : Option Entry) → Kept (entry_offset o)
Kept-entry_offset none = Kept-raise key_error
Kept-entry_offset (some whole_data) = Kept-raise type_error
Kept-entry_offset (some (part offset size)) = Kept-pure offset

pub Kept-get_entry_offset : (s : Save) (name : Text) → Kept (get_entry_offset s name)
unfolding get_entry_offset
Kept-get_entry_offset s name = Kept-entry_offset (entry_of name)

pub Kept-first_block : (s : Save) → Kept (first_block s)
Kept-first_block s = Kept-or_raise (get_elem? s.block_list 0) index_error

Kept-read_header :
    (s : Save) (name : Text) (size offset : ℕ) → Kept (read_header s name size offset)
unfolding read_header
Kept-read_header s name size offset = Kept-bind _ _ (Kept-get_entry_size s name) λ all.
    Kept-if (ltb offset all) _ _
      (Kept-bind _ _ (Kept-first_block s)
        λ n. Kept-bind _ _ (Kept-get_entry_offset s name) λ start. Kept-read _ _)
      (Kept-pure [])

Kept-write_header :
    (s : Save) (name : Text) (buf : Bytes) (offset : ℕ) → Kept (write_header s name buf offset)
unfolding write_header
Kept-write_header s name buf offset = Kept-bind _ _ (Kept-get_entry_size s name) λ all.
    Kept-if (ltb offset all) _ _
      (Kept-bind _ _ (Kept-first_block s) λ n. Kept-bind _ _ (Kept-get_entry_offset s name) λ start.
        Kept-bind _ _ (Kept-write _ _)
          λ _. Kept-bind _ _ (Kept-update_xor n) λ _. Kept-pure (all - offset))
      (Kept-pure 0)

Kept-read_parts :
    (fuel : ℕ) (blocks : List ℕ) (size : ℤ) (offset : ℕ) (result : List Bytes)
    → Kept (read_parts fuel blocks size offset result)
unfolding read_parts
Kept-read_parts zero blocks size offset result = Kept-same no_fuel
Kept-read_parts (suc fuel) blocks size offset result =
    Kept-if (is_zero size) _ _ (Kept-pure result) (
      Kept-bind _ _ (Kept-or_raise (get_elem? blocks (offset / block_length)) index_error)
        λ n. Kept-bind _ _ (Kept-read _ _) λ b. Kept-read_parts fuel blocks _ _ _)

Kept-read_data : (s : Save) (size offset : ℕ) → Kept (read_data s size offset)
unfolding read_data
Kept-read_data s size offset =
    Kept-if (ltb offset (get_data_size s)) _ _
      (Kept-bind _ _ (Kept-read_parts _ s.block_list _ offset []) λ result. Kept-pure (join result))
      (Kept-pure [])

Kept-write_parts :
    (fuel : ℕ) (blocks : List ℕ) (buf : Bytes) (offset written : ℕ)
    → Kept (write_parts fuel blocks buf offset written)
unfolding write_parts
Kept-write_parts zero blocks buf offset written = Kept-same no_fuel
Kept-write_parts (suc fuel) blocks buf offset written =
    Kept-if (length buf == 0) _ _ (Kept-pure written) (
      Kept-if (leb (length blocks) ((offset + written) / block_length)) _ _ (Kept-pure written) (
        Kept-bind _ _
          (Kept-or_raise (get_elem? blocks ((offset + written) / block_length)) index_error)
          λ n. Kept-bind _ _ (Kept-write _ _) λ _. Kept-write_parts fuel blocks _ offset _))

Kept-write_data : (s : Save) (buf : Bytes) (offset : ℕ) → Kept (write_data s buf offset)
unfolding write_data
Kept-write_data s buf offset =
    Kept-if (leb (get_data_size s) offset) _ _ (Kept-raise value_error)
      (Kept-write_parts _ s.block_list buf offset 0)

pub Kept-read_entry :
    (s : Save) (name : Text) (size offset : ℕ) → Kept (read_entry s name size offset)
unfolding read_entry
Kept-read_entry s name size offset =
    Kept-if (name ==ᵇ save_data_entry_id) _ _ (Kept-read_data s size offset)
      (Kept-read_header s name size offset)

pub Kept-write_entry :
    (s : Save) (name : Text) (buf : Bytes) (offset : ℕ) → Kept (write_entry s name buf offset)
unfolding write_entry
Kept-write_entry s name buf offset =
    Kept-if (name ==ᵇ save_data_entry_id) _ _ (Kept-write_data s buf offset)
      (Kept-write_header s name buf offset)
