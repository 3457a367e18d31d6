-- ===== src/Fuse/Entries.antt =====
-- What `readHeader` reads of the header of a save.
use ps3_memorycard_adapter.Prelude.{
  ℕ, ◌+◌, ◌-◌, ◌*◌, ◌≤◌, ◌≡◌, min, refl, ap, sym, ◌∙◌, subst, inl, inr, Bool, false, some, some_eq,
  List, [], ◌∷◌, arith, length-take, take, drop, slice, slice-slice, take-take, take_all, drop-take,
  drop_all, drop-drop, take-nil, get_elem?, ltb, ltb→lt, ltb→le, ◌==ᵇ◌, Bool-cases, if◌then◌else◌,
  Bytes, ok, pure,
}
use ps3_memorycard_adapter.Fuse.Layout.{block_header_length}
use ps3_memorycard_adapter.Fuse.Card.{Card, read}
use ps3_memorycard_adapter.Fuse.Save.{
  Save, Text, save_data_entry_id, Entry, whole_data, part, find_entry, save_entries, entry_of,
  entry_size, entry_offset, get_data_size, get_entry_size, get_entry_offset, read_header,
}
use ps3_memorycard_adapter.Fuse.Checksum.{header}

module _ {A : Type 0} where
  take-take_shorter : (a b : ℕ) (xs : List A) → take a (take b xs) ≡ take (min a b) xs
  take-take_shorter a b xs = elim (Bool-cases (ltb a b)) [
    | inl e ↦
        let lt = ltb→lt a b e in
        take-take a b xs (omega arith) ∙ ap (λ (k : ℕ). take k xs) (omega arith)
    | inr e ↦
        let le = ltb→le a b e in
        take_all a (take b xs) (omega (arith, length-take b xs))
        ∙ ap (λ (k : ℕ). take k xs) (omega arith)
  ]

  -- A slice of a slice, which ends where the first of them does.
  slice-slice_shorter :
      (offset size start all : ℕ) (xs : List A)
      → offset ≤ all
      → slice offset size (slice start all xs) ≡ slice (start + offset) (min size (all - offset)) xs
  slice-slice_shorter offset size start all xs h =
      ap (take size) (drop-take offset all (all - offset) (drop start xs) (omega arith))
      ∙ take-take_shorter size (all - offset) (drop offset (drop start xs))
      ∙ ap (take (min size (all - offset))) (drop-drop offset start (start + offset) xs refl)

-- Where a part of the header ends.
abbrev part_end : Entry → ℕ
part_end whole_data = 0
part_end (part start all) = start + all

AllWithin : List (Text × Entry) → Type 0
AllWithin [] = Unit
AllWithin ((key, entry) ∷ entries) = (part_end entry ≤ block_header_length) × AllWithin entries

find_entry-AllWithin :
    (name : Text) (entries : List (Text × Entry)) (entry : Entry)
    → AllWithin entries
    → find_entry name entries ≡ some entry
    → part_end entry ≤ block_header_length
unfolding AllWithin
find_entry-AllWithin name [] entry h e = absurd cc
find_entry-AllWithin name ((key, found) ∷ entries) entry h e = elim (Bool-cases (name ==ᵇ key)) [
  | inl same ↦
      let same_entry : found ≡ entry =
        some_eq
          (sym (ap (λ (t : Bool). if t then some found else find_entry name entries) same) ∙ e) in
      subst (λ x. part_end x ≤ block_header_length) same_entry h.0
  | inr other ↦
      find_entry-AllWithin name entries entry h.1
        (sym (ap (λ (t : Bool). if t then some found else find_entry name entries) other) ∙ e)
]

-- Every part that `SAVE_ENTRY_DICT` has lies within a header.
entry_of-bounds :
    (name : Text) (start all : ℕ)
    → entry_of name ≡ some (part start all)
    → start + all ≤ block_header_length
unfolding AllWithin
entry_of-bounds name start all e =
    find_entry-AllWithin name save_entries (part start all)
      (omega arith, (omega arith, (omega arith, (omega arith, tt)))) e

-- The whole of a part of the header of a block.
abbrev pub part_of_header : ℕ → ℕ → ℕ → Bytes → Bytes
part_of_header start all n content = slice start all (header n content)

get_entry_size_eq :
    (save : Save) (name : Text) (start all : ℕ) (c : Card)
    → entry_of name ≡ some (part start all)
    → (name ==ᵇ save_data_entry_id) ≡ false
    → get_entry_size save name c ≡ (ok all, c)
unfolding get_entry_size
get_entry_size_eq save name start all c e other =
    ap (λ (t : Bool). (if t then pure (get_data_size save) else entry_size (entry_of name)) c) other
    ∙ ap (λ o. entry_size o c) e

get_entry_offset_eq :
    (save : Save) (name : Text) (start all : ℕ) (c : Card)
    → entry_of name ≡ some (part start all)
    → get_entry_offset save name c ≡ (ok start, c)
unfolding get_entry_offset
get_entry_offset_eq save name start all c e = ap (λ o. entry_offset o c) e

-- A read within a part, and one beyond it.
read-part_of_header :
    (n start all size offset : ℕ) (content : Bytes)
    → start + all ≤ block_header_length
    → offset ≤ all
    → slice (start + offset + n * block_header_length) (min size (all - offset)) content
      ≡ slice offset size (part_of_header start all n content)
read-part_of_header n start all size offset content bounded h =
    let count = min size (all - offset) in
    let place : n * block_header_length + (start + offset)
        ≡ start + offset + n * block_header_length =
      omega arith in
    sym (
      slice-slice_shorter offset size start all (header n content) h
      ∙ slice-slice (start + offset) count (n * block_header_length) block_header_length content
          (omega arith)
      ∙ ap (λ (k : ℕ). slice k count content) place)

beyond-part_of_header :
    (n start all size offset : ℕ) (content : Bytes)
    → all ≤ offset
    → [] ≡ slice offset size (part_of_header start all n content)
beyond-part_of_header n start all size offset content h = sym (
    ap (take size) (
      drop_all offset (part_of_header start all n content)
        (omega (arith, length-take all (drop start (header n content)))))
    ∙ take-nil size)

-- For a name that `SAVE_ENTRY_DICT` has a part of the header for, `readHeader` reads from that part
-- of the header of the first block of a save and from nothing else, for every size and offset:
-- beyond the end of the part there are no bytes.
pub read_header-part_of_header :
    (save : Save) (n : ℕ) (name : Text) (start all size offset : ℕ) (c : Card)
    → get_elem? save.block_list 0 ≡ some n
    → entry_of name ≡ some (part start all)
    → (name ==ᵇ save_data_entry_id) ≡ false
    → read_header save name size offset c
      ≡ (ok (slice offset size (part_of_header start all n c.content)), c)
unfolding read_header read
read_header-part_of_header save n name start all size offset c first e other =
    let bounded = entry_of-bounds name start all e in
    let size_eq = get_entry_size_eq save name start all c e other in
    elim (Bool-cases (ltb offset all)) [
      | inl t ↦
          let lt = ltb→lt offset all t in
          rw (size_eq, t, first, get_entry_offset_eq save name start all c e)
            (ap (λ (b : Bytes). (ok b, c))
              (read-part_of_header n start all size offset c.content bounded (omega arith)))
      | inr t ↦
          rw (size_eq, t)
            (ap (λ (b : Bytes). (ok b, c))
              (beyond-part_of_header n start all size offset c.content (ltb→le offset all t)))
    ]
