-- ===== src/Cache/Items.antt =====
-- `__setitem__` and `__getitem__`.
use ps3_memorycard_adapter.Prelude.{
  ℕ, zero, suc, ◌<◌, ◌≡◌, refl, ◌≢◌, ap, ◌∙◌, sym, true, false, Bool, Option, none, some, List, [],
  ◌∷◌, ◌++◌, append_assoc, append-nil, length-append, ◌-◌, or_raise, key_error, arith, length,
  Bytes, type_error, value_error, Outcome, ok, raised, Value, bytes, str,
}
use ps3_memorycard_adapter.Struct.{big}
use ps3_memorycard_adapter.Dict.{
  lookup, insert, update, value_key, lookup-insert_self, lookup-insert_ne,
}
use ps3_memorycard_adapter.Cache.{
  Entries, Unread, FileDictCache, init, opened, write, write_data, write_items, write_entries,
  flush, load_entries, read_entry, read_items, read_tuple, read_data, read_counted, read, tuple,
  check_items, save_item, set_item, get_item,
}
use ps3_memorycard_adapter.Cache.Format.{
  chunk, encode, Fits, load_entries-append, read_data-chunk, read_length-big, length-encode,
}
use ps3_memorycard_adapter.Cache.Reload.{appended, write_length-big, write_data-chunk}

-- A tuple of texts.
abbrev pub AllText : List Value → Type 0
AllText [] = Unit
AllText (bytes b ∷ vs) = ⊥
AllText (str t ∷ vs) = AllText vs

check_items-AllText :
    (vs : List Value) (c : FileDictCache) → AllText vs → check_items vs c ≡ (ok tt, c)
unfolding check_items
check_items-AllText [] c h = refl
check_items-AllText (bytes b ∷ vs) c h = absurd h
check_items-AllText (str t ∷ vs) c h = check_items-AllText vs c h

-- What an object that is read-only does with an item.
abbrev pub remembered : FileDictCache → Value → List Value → FileDictCache
remembered c key vs = record c { cache = insert key vs c.cache }

set_item-read_only :
    (c : FileDictCache) (key : Value) (vs : List Value)
    → c.read_only ≡ true
    → AllText vs
    → set_item key (tuple vs) c ≡ (ok tt, remembered c key vs)
unfolding set_item save_item
set_item-read_only c key vs ro h = rw (check_items-AllText vs c h) (rw ro)

or_raise_fst {ℓ} :
    {A S : Type ℓ} (o : Option A) (s t : S)
    → (or_raise o key_error s).0 ≡ (or_raise o key_error t).0
or_raise_fst none s t = refl
or_raise_fst (some a) s t = refl

-- On a read-only object an assignment of a tuple of texts succeeds: the key then gives the
-- tuple, every other key gives what it gave, and the file is left alone.
pub get_item-set_item :
    (c : FileDictCache) (key j : Value) (vs : List Value)
    → c.read_only ≡ true
    → AllText vs
    → j ≢ key
    → let (r, c') = set_item key (tuple vs) c in
      (r ≡ ok tt)
      × ((get_item key c').0 ≡ ok vs)
      × ((get_item j c').0 ≡ (get_item j c).0)
      × (c'.file ≡ c.file)
unfolding get_item
get_item-set_item c key j vs ro h ne = rw (set_item-read_only c key vs ro h) (
  refl,
  rw (lookup-insert_self key vs c.cache),
  rw (lookup-insert_ne j key vs c.cache ne)
      (or_raise_fst (lookup j c.cache) (remembered c key vs) c),
  refl,
)

check_items-bytes :
    (texts : List Value) (b : Bytes) (rest : List Value) (c : FileDictCache)
    → AllText texts
    → check_items (texts ++ bytes b ∷ rest) c ≡ (raised type_error, c)
unfolding check_items
check_items-bytes [] b rest c h = refl
check_items-bytes (bytes t ∷ texts) b rest c h = absurd h
check_items-bytes (str t ∷ texts) b rest c h = check_items-bytes texts b rest c h

-- An assignment of a tuple with bytes in it, behind any texts, raises TypeError and changes
-- nothing.
pub set_item-bytes :
    (c : FileDictCache) (key : Value) (texts : List Value) (b : Bytes) (rest : List Value)
    → AllText texts
    → set_item key (tuple (texts ++ bytes b ∷ rest)) c ≡ (raised type_error, c)
unfolding set_item
set_item-bytes c key texts b rest h = rw (check_items-bytes texts b rest c h)

-- What an assignment of a tuple that begins with a text leaves of it on the file.
abbrev pub torn : Bytes → ℕ → ℕ → Bytes
torn key count len = chunk (bytes key) ++ (big 2 count ++ big 2 len)

write_items-text :
    (t : Bytes) (vs : List Value) (c : FileDictCache)
    → length t < 32768
    → write_items (str t ∷ vs) c ≡ (raised type_error, appended c (big 2 (length t)))
unfolding write_items write_data write
write_items-text t vs c h = rw (write_length-big (length t) c h)

write_entries-text :
    (key t : Bytes) (vs : List Value) (c : FileDictCache)
    → length key < 32768
    → suc (length vs) < 32768
    → length t < 32768
    → write_entries ((bytes key, str t ∷ vs) ∷ []) c
      ≡ (raised type_error, appended c (torn key (suc (length vs)) (length t)))
unfolding write_entries
write_entries-text key t vs c hk hn ht =
    let c₁ = appended c (chunk (bytes key)) in
    let c₂ = appended c₁ (big 2 (suc (length vs))) in
    rw
      (
        write_data-chunk (bytes key) c hk,
        write_length-big (suc (length vs)) c₁ hn,
        write_items-text t vs c₂ ht,
      )
      (ap (λ f. (raised type_error, record c { file = f })) (simp append_assoc))

set_item-torn :
    (c : FileDictCache) (key t : Bytes) (vs : List Value)
    → c.read_only ≡ false
    → c.to_save ≡ []
    → AllText vs
    → length key < 32768
    → suc (length vs) < 32768
    → length t < 32768
    → ((set_item (bytes key) (tuple (str t ∷ vs)) c).0 ≡ raised type_error)
      × ((set_item (bytes key) (tuple (str t ∷ vs)) c).1.file
          ≡ c.file ++ torn key (suc (length vs)) (length t))
unfolding set_item save_item flush
set_item-torn c key t vs writable saved texts hk hn ht =
    rw (check_items-AllText (str t ∷ vs) c texts, saved, writable)
      (rw (write_entries-text key t vs _ hk hn ht) (refl, refl))

read_data-torn : (len : ℕ) → len < 32768 → 0 < len → read_data (big 2 len) ≡ (ok none, [])
unfolding read_data read_counted read
read_data-torn (suc len) h pos =
    rw (sym (append-nil (big 2 (suc len)))) (rw (read_length-big (suc len) [] h) (ground arith))
read_data-torn zero h pos = absurd (omega arith)

read_entry-torn :
    (cache : Entries) (key : Bytes) (n len : ℕ)
    → suc n < 32768
    → len < 32768
    → 0 < len
    → read_entry cache key (big 2 (suc n) ++ big 2 len) ≡ (raised value_error, [])
unfolding read_entry read_tuple read_items
read_entry-torn cache key n len hn hl pos =
    rw (read_length-big (suc n) (big 2 len) hn) (rw (read_data-torn len hl pos))

load_entries-torn :
    (fuel : ℕ) (cache : Entries) (key : Bytes) (n len : ℕ)
    → length key < 32768
    → suc n < 32768
    → len < 32768
    → 0 < len
    → load_entries (suc fuel) cache (torn key (suc n) len) ≡ (raised value_error, [])
unfolding load_entries
load_entries-torn fuel cache key n len hk hn hl pos =
    rw (read_data-chunk key (big 2 (suc n) ++ big 2 len) hk)
      (rw (read_entry-torn cache key n len hn hl pos))

init-torn :
    (es : List (Value × List Value)) (key : Bytes) (n len : ℕ) (read_only : Bool)
    → Fits es
    → length key < 32768
    → suc n < 32768
    → len < 32768
    → 0 < len
    → init (encode es ++ torn key (suc n) len) read_only ≡ raised value_error
unfolding init
init-torn es key n len read_only he hk hn hl pos =
    let content = encode es ++ torn key (suc n) len in
    ap (λ (r : Outcome Entries × Unread). opened content read_only r.0)
      (load_entries-append es (suc (length content)) (suc (length content - length es)) []
          (torn key (suc n) len) he
          (omega (arith, length-encode es, length-append (encode es) (torn key (suc n) len)))
        ∙ load_entries-torn (length content - length es) (update es []) key n len hk hn hl pos)

-- On a writable object whose file is sound, an assignment of texts to a key of bytes raises and
-- leaves a file that can no longer be loaded. Nothing else is to be saved, the first text is not
-- empty, and its length, that of the key and the number of texts fit the format.
pub init-set_item :
    (es : List (Value × List Value)) (c : FileDictCache) (key t : Bytes) (vs : List Value)
    (read_only : Bool)
    → c.read_only ≡ false
    → c.to_save ≡ []
    → c.file ≡ encode es
    → Fits es
    → AllText vs
    → length key < 32768
    → suc (length vs) < 32768
    → length t < 32768
    → 0 < length t
    → ((set_item (bytes key) (tuple (str t ∷ vs)) c).0 ≡ raised type_error)
      × (init (set_item (bytes key) (tuple (str t ∷ vs)) c).1.file read_only ≡ raised value_error)
init-set_item es c key t vs read_only writable saved content he texts hk hn ht pos =
    let written = set_item-torn c key t vs writable saved texts hk hn ht in
    (
      written.0,
      rw (written.1, content) (init-torn es key (length vs) (length t) read_only he hk hn ht pos),
    )
