-- ===== src/Cache/Reload.antt =====
-- `flush`, and `__init__` after it, on the file format.
use ps3_memorycard_adapter.Prelude.{
  ℕ, suc, ◌<◌, ◌≡◌, refl, ap, sym, ◌∙◌, Bool, false, List, [], ◌∷◌, ◌++◌, append_assoc, append-nil,
  arith, lt→ltb, length, Bytes, ok, Value, bytes, str,
}
use ps3_memorycard_adapter.Struct.{big}
use ps3_memorycard_adapter.Dict.{insert, update, value_key}
use ps3_memorycard_adapter.Cache.{
  Entries, FileDictCache, init, write, write_length, write_data, write_items, write_entries, flush,
}
use ps3_memorycard_adapter.Cache.Format.{
  chunk, chunks, encode_entry, encode, FitsValue, FitsValues, Fits, load_entries-encode,
  length-encode,
}

-- The object with these bytes at the end of its file.
abbrev pub appended : FileDictCache → Bytes → FileDictCache
appended c b = record c { file = c.file ++ b }

appended-appended :
    (c : FileDictCache) (a b : Bytes) → appended (appended c a) b ≡ appended c (a ++ b)
appended-appended c a b = ap (λ f. record c { file = f }) (append_assoc c.file a b)

pub write_length-big :
    (n : ℕ) (c : FileDictCache) → n < 32768 → write_length n c ≡ (ok tt, appended c (big 2 n))
unfolding write_length write
write_length-big n c h = rw (lt→ltb n 32768 h)

pub write_data-chunk :
    (v : Value) (c : FileDictCache) → FitsValue v → write_data v c ≡ (ok tt, appended c (chunk v))
unfolding write_data write
write_data-chunk (bytes b) c h =
    rw (write_length-big (length b) c h)
      (ap (λ d. (ok tt, d)) (appended-appended c (big 2 (length b)) b))
write_data-chunk (str t) c h = absurd h

write_items-chunks :
    (vs : List Value) (c : FileDictCache)
    → FitsValues vs
    → write_items vs c ≡ (ok tt, appended c (chunks vs))
unfolding write_items
write_items-chunks [] c h = ap (λ f. (ok tt, record c { file = f })) (sym (append-nil c.file))
write_items-chunks (v ∷ vs) c h = rw (write_data-chunk v c h.0) (
    write_items-chunks vs (appended c (chunk v)) h.1
    ∙ ap (λ d. (ok tt, d)) (appended-appended c (chunk v) (chunks vs)))

pub write_entries-encode :
    (es : List (Value × List Value)) (c : FileDictCache)
    → Fits es
    → write_entries es c ≡ (ok tt, appended c (encode es))
unfolding write_entries
write_entries-encode [] c h = ap (λ f. (ok tt, record c { file = f })) (sym (append-nil c.file))
write_entries-encode ((key, vs) ∷ es) c h =
    let c₁ = appended c (chunk key) in
    let c₂ = appended c₁ (big 2 (length vs)) in
    rw
      (
        write_data-chunk key c h.0,
        write_length-big (length vs) c₁ h.1,
        write_items-chunks vs c₂ h.2,
      )
      (write_entries-encode es (appended c₂ (chunks vs)) h.3
        ∙ ap (λ f. (ok tt, record c { file = f })) (simp append_assoc))

update-append :
    (es fs : List (Value × List Value)) (d : Entries)
    → update (es ++ fs) d ≡ update fs (update es d)
update-append [] fs d = refl
update-append ((k, v) ∷ es) fs d = update-append es fs (insert k v d)

encode-append : (es fs : List (Value × List Value)) → encode (es ++ fs) ≡ encode es ++ encode fs
encode-append [] fs = refl
encode-append (e ∷ es) fs =
    ap (λ t. encode_entry e ++ t) (encode-append es fs)
    ∙ sym (append_assoc (encode_entry e) (encode es) (encode fs))

Fits-append : (es fs : List (Value × List Value)) → Fits es → Fits fs → Fits (es ++ fs)
Fits-append [] fs h k = k
Fits-append (e ∷ es) fs h k = (h.0, h.1, h.2, Fits-append es fs h.3 k)

-- A file of records is loaded as the dictionary that the records build up, later ones over earlier.
pub init-encode :
    (es : List (Value × List Value)) (read_only : Bool)
    → Fits es
    → init (encode es) read_only
      ≡ ok (record { read_only = read_only; cache = update es []; to_save = []; file = encode es })
unfolding init
init-encode es read_only h =
    rw (load_entries-encode es (suc (length (encode es))) [] h (omega (arith, length-encode es)))

-- A flush of what fits appends it to the file, and nothing is left to save.
pub flush-encode :
    (c : FileDictCache)
    → c.read_only ≡ false
    → Fits c.to_save
    → flush c ≡ (ok tt, record (appended c (encode c.to_save)) { to_save = [] })
unfolding flush
flush-encode c writable h = rw (write_entries-encode c.to_save c h) (rw writable)

-- On a writable object whose file holds records in its format, all of which fit, as do those to be
-- saved: a flush, then a load of the file, gives the records that the file held
-- and over them those that were to be saved; nothing is left to save.
pub init-flush :
    (es : List (Value × List Value)) (c : FileDictCache) (read_only : Bool)
    → c.read_only ≡ false
    → c.file ≡ encode es
    → Fits es
    → Fits c.to_save
    → ((flush c).0 ≡ ok tt)
      × ((flush c).1.to_save ≡ [])
      × (init (flush c).1.file read_only
          ≡ ok (record {
            read_only = read_only;
            cache = update c.to_save (update es []);
            to_save = [];
            file = encode es ++ encode c.to_save;
          }))
init-flush es c read_only writable content he hs = rw (flush-encode c writable hs) (
  refl,
  refl,
  rw (content, ← encode-append es c.to_save, ← update-append es c.to_save [])
      (init-encode (es ++ c.to_save) read_only (Fits-append es c.to_save he hs)),
)
