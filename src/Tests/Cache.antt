-- ===== src/Tests/Cache.antt =====
-- Runs of nbd/cache.py's theorems at concrete inputs.
use ps3_memorycard_adapter.Prelude.{
  ◌≡◌, ◌≢◌, refl, true, false, List, [], ◌∷◌, ◌++◌, arith, value_error, type_error, ok, raised,
  no_fuel, Value, bytes, str,
}
use ps3_memorycard_adapter.Dict.{update, value_key}
use ps3_memorycard_adapter.Cache.{FileDictCache, init, flush, get_item, set_item, tuple}
use ps3_memorycard_adapter.Cache.Format.{encode}
use ps3_memorycard_adapter.Cache.Ends.{init-Ends}
use ps3_memorycard_adapter.Cache.Reload.{init-flush}
use ps3_memorycard_adapter.Cache.Items.{get_item-set_item, set_item-bytes, init-set_item}

-- A file that ends within a key.
init-Ends_example : init (0 ∷ 2 ∷ 7 ∷ []) true ≢ no_fuel
init-Ends_example = init-Ends (0 ∷ 2 ∷ 7 ∷ []) true

abbrev old_entries : List (Value × List Value)
old_entries = (bytes (1 ∷ []), bytes (2 ∷ 3 ∷ []) ∷ bytes [] ∷ []) ∷ []

-- The key 1 is written again, and the key 9 is new.
abbrev new_entries : List (Value × List Value)
new_entries = (bytes (1 ∷ []), bytes (5 ∷ []) ∷ []) ∷ (bytes (9 ∷ []), bytes (4 ∷ []) ∷ []) ∷ []

abbrev with_entries : FileDictCache
with_entries = record {
  read_only = false;
  cache = update new_entries (update old_entries []);
  to_save = new_entries;
  file = encode old_entries;
}

init-flush_example :
    ((flush with_entries).0 ≡ ok tt)
    × ((flush with_entries).1.to_save ≡ [])
    × (init (flush with_entries).1.file true
        ≡ ok (record {
          read_only = true;
          cache = update new_entries (update old_entries []);
          to_save = [];
          file = encode old_entries ++ encode new_entries;
        }))
init-flush_example =
    init-flush old_entries with_entries true refl refl
      (omega arith, omega arith, (omega arith, (omega arith, tt)), tt)
      (
        omega arith,
        omega arith,
        (omega arith, tt),
        (omega arith, omega arith, (omega arith, tt), tt),
      )

abbrev read_only_object : FileDictCache
read_only_object = record {
  read_only = true;
  cache = update old_entries [];
  to_save = [];
  file = encode old_entries;
}

abbrev text_key : Value
text_key = str (0x73 ∷ [])

abbrev texts : List Value
texts = str (0x61 ∷ []) ∷ str [] ∷ []

get_item-set_item_example :
    let (r, c') = set_item text_key (tuple texts) read_only_object in
    (r ≡ ok tt)
    × ((get_item text_key c').0 ≡ ok texts)
    × ((get_item (bytes (1 ∷ [])) c').0 ≡ (get_item (bytes (1 ∷ [])) read_only_object).0)
    × (c'.file ≡ encode old_entries)
get_item-set_item_example =
    get_item-set_item read_only_object text_key (bytes (1 ∷ [])) texts refl tt (λ h. cc)

set_item-bytes_example :
    set_item text_key (tuple (texts ++ bytes (7 ∷ []) ∷ texts)) read_only_object
    ≡ (raised type_error, read_only_object)
set_item-bytes_example = set_item-bytes read_only_object text_key texts (7 ∷ []) texts tt

abbrev writable_object : FileDictCache
writable_object = record {
  read_only = false;
  cache = update old_entries [];
  to_save = [];
  file = encode old_entries;
}

init-set_item_example :
    ((set_item (bytes (1 ∷ [])) (tuple texts) writable_object).0 ≡ raised type_error)
    × (init (set_item (bytes (1 ∷ [])) (tuple texts) writable_object).1.file true
        ≡ raised value_error)
init-set_item_example =
    init-set_item old_entries writable_object (1 ∷ []) (0x61 ∷ []) (str [] ∷ []) true refl refl refl
      (omega arith, omega arith, (omega arith, (omega arith, tt)), tt) tt (omega arith)
      (omega arith) (omega arith) (omega arith)
