-- ===== src/Cache/Format.antt =====
-- The file format of nbd/cache.py as a function of the records, and the reads of `__init__` on it.
use ps3_memorycard_adapter.Prelude.{
  ℕ, zero, suc, ◌+◌, ◌-◌, ◌≤◌, ◌<◌, ◌≡◌, refl, ap, sym, ◌∙◌, some, List, [], ◌∷◌, ◌++◌,
  append_assoc, append-nil, arith, ==_refl, length, length-append, take-append, drop-append, Bytes,
  ok, Value, bytes, str, items,
}
use ps3_memorycard_adapter.Prelude.Int.{pos}
use ps3_memorycard_adapter.Struct.{big, length-big, unpack_big_h-big}
use ps3_memorycard_adapter.Dict.{insert, update, value_key}
use ps3_memorycard_adapter.Cache.{
  Entries, read, read_length, read_counted, read_data, read_items, read_tuple, read_entry,
  load_entries,
}

-- A length, then the bytes.
abbrev pub chunk : Value → Bytes
chunk v = big 2 (length (items v)) ++ items v

abbrev pub chunks : List Value → Bytes
chunks [] = []
chunks (v ∷ vs) = chunk v ++ chunks vs

abbrev pub encode_entry : Value × List Value → Bytes
encode_entry (key, vs) = chunk key ++ (big 2 (length vs) ++ chunks vs)

-- The file after these records.
abbrev pub encode : List (Value × List Value) → Bytes
encode [] = []
encode (e ∷ es) = encode_entry e ++ encode es

-- What can be written: bytes, of a length that fits a signed 16-bit field.
abbrev pub FitsValue : Value → Type 0
FitsValue (bytes b) = length b < 32768
FitsValue (str t) = ⊥

abbrev pub FitsValues : List Value → Type 0
FitsValues [] = Unit
FitsValues (v ∷ vs) = FitsValue v × FitsValues vs

abbrev pub Fits : List (Value × List Value) → Type 0
Fits [] = Unit
Fits ((key, vs) ∷ es) = FitsValue key × (length vs < 32768) × FitsValues vs × Fits es

pub read_length-big :
    (n : ℕ) (rest : Bytes) → n < 32768 → read_length (big 2 n ++ rest) ≡ (ok (some (pos n)), rest)
unfolding read_length read big
read_length-big n rest h = ap (λ o. (ok o, rest)) (unpack_big_h-big n h)

pub read_data-chunk :
    (b rest : Bytes) → length b < 32768 → read_data (chunk (bytes b) ++ rest) ≡ (ok (some b), rest)
unfolding read_data read_counted read
read_data-chunk b rest h =
    rw (append_assoc, read_length-big (length b) (b ++ rest) h)
      (rw (take-append (length b) b rest refl, drop-append (length b) b rest refl, ==_refl))

pub read_items-chunks :
    (vs : List Value) (rest : Bytes)
    → FitsValues vs
    → read_items (length vs) (chunks vs ++ rest) ≡ (ok vs, rest)
unfolding read_items
read_items-chunks [] rest h = refl
read_items-chunks (bytes b ∷ vs) rest h =
    rw (append_assoc, read_data-chunk b (chunks vs ++ rest) h.0)
      (rw (read_items-chunks vs rest h.1))
read_items-chunks (str t ∷ vs) rest h = absurd h.0

-- One round of the loop takes one record off the file.
pub load_entries-entry :
    (fuel : ℕ) (cache : Entries) (key : Value) (vs : List Value) (rest : Bytes)
    → FitsValue key
    → length vs < 32768
    → FitsValues vs
    → load_entries (suc fuel) cache (encode_entry (key, vs) ++ rest)
      ≡ load_entries fuel (insert key vs cache) rest
unfolding load_entries read_entry read_tuple
load_entries-entry fuel cache (bytes b) vs rest hk hn hv =
    rw (append_assoc, read_data-chunk b ((big 2 (length vs) ++ chunks vs) ++ rest) hk)
      (rw (append_assoc, read_length-big (length vs) (chunks vs ++ rest) hn)
        (rw (read_items-chunks vs rest hv)))
load_entries-entry fuel cache (str t) vs rest hk hn hv = absurd hk

-- The loop ends where the records end.
pub load_entries-nil :
    (fuel : ℕ) (cache : Entries) → load_entries (suc fuel) cache [] ≡ (ok cache, [])
unfolding load_entries read_data read_length read
load_entries-nil fuel cache = refl

-- The rounds take the records of a file one by one, whatever follows them.
pub load_entries-append :
    (es : List (Value × List Value)) (n fuel : ℕ) (cache : Entries) (rest : Bytes)
    → Fits es
    → n ≡ length es + fuel
    → load_entries n cache (encode es ++ rest) ≡ load_entries fuel (update es cache) rest
load_entries-append [] n fuel cache rest h e =
    ap (λ (k : ℕ). load_entries k cache rest) (omega arith)
load_entries-append (x ∷ es) zero fuel cache rest h e = absurd (omega arith)
load_entries-append ((key, vs) ∷ es) (suc n) fuel cache rest h e =
    rw (append_assoc, load_entries-entry n cache key vs (encode es ++ rest) h.0 h.1 h.2)
      (load_entries-append es n fuel (insert key vs cache) rest h.3 (omega arith))

pub load_entries-encode :
    (es : List (Value × List Value)) (fuel : ℕ) (cache : Entries)
    → Fits es
    → length es < fuel
    → load_entries fuel cache (encode es) ≡ (ok (update es cache), [])
load_entries-encode es fuel cache h lt =
    ap (load_entries fuel cache) (sym (append-nil (encode es)))
    ∙ load_entries-append es fuel (suc (fuel - length es - 1)) cache [] h (omega arith)
    ∙ load_entries-nil (fuel - length es - 1) (update es cache)

pub length-encode : (es : List (Value × List Value)) → length es ≤ length (encode es)
length-encode [] = omega arith
length-encode ((key, vs) ∷ es) = omega (
  arith,
  length-append (encode_entry (key, vs)) (encode es),
  length-append (chunk key) (big 2 (length vs) ++ chunks vs),
  length-append (big 2 (length (items key))) (items key),
  length-big 2 (length (items key)),
  length-encode es,
)
