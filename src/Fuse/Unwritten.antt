-- ===== src/Fuse/Unwritten.antt =====
-- `write` of the file system of fuse/main.py, on a card that was mapped for reading.
use ps3_memorycard_adapter.Prelude.{
  ℕ, suc, ◌+◌, ◌/◌, ◌≡◌, ◌≢◌, refl, ap, subst, inl, inr, Bool, true, false, not, Option, none, some,
  List, [], ◌∷◌, length, arith, ltb, leb, get_elem?, ◌==◌, ◌==ᵇ◌, Bool-cases, if◌then◌else◌, Bytes,
  Exc, value_error, type_error, index_error, key_error, attribute_error, unbound_local_error,
  assertion_error, struct_error, os_error, Outcome, ok, raised, no_fuel, and_then, Action, pure,
  raise, or_raise, value_caught, Value, ◌>>=◌,
}
use ps3_memorycard_adapter.Fuse.Layout.{block_length, block_header_area_length}
use ps3_memorycard_adapter.Fuse.Card.{Card, assign, write, init}
use ps3_memorycard_adapter.Fuse.Save.{
  Text, Save, save_data_entry_id, get_data_size, get_entry_size, first_block, get_entry_offset,
  write_header, write_parts, write_data, write_entry,
}
use ps3_memorycard_adapter.Fuse.Path.{Unicode, split}
use ps3_memorycard_adapter.Fuse.Replies.{Answer, error, result, enoent, efbig}
use ps3_memorycard_adapter.Fuse.Fs.{find_save, with_save, on_file, or_errno, attempt, write_file}
use ps3_memorycard_adapter.Fuse.Session.{Call, after_calls}
use ps3_memorycard_adapter.Fuse.Kept.{KeptBy, Kept, Kept-or_raise}
use ps3_memorycard_adapter.Fuse.Kept.Saves.{
  Kept-get_entry_size, Kept-get_entry_offset, Kept-first_block,
}
use ps3_memorycard_adapter.Fuse.Kept.Fs.{Kept-find_save, after_calls-SameContent, init-content}

-- What a call gives, if it returns, on a card that was mapped for reading.
record Gives {A : Type 0} (P : A → Type 0) (m : Action Card A) : Type 0 where
  gives : (c : Card) → c.writable ≡ false → (a : A) → (m c).0 ≡ ok a → P a

ok_eq : {A : Type 0} {a b : A} → ok a ≡ ok b → a ≡ b
ok_eq e = cc

module _ {A : Type 0} {P : A → Type 0} where
  Gives-pure : (a : A) → P a → Gives P (pure a)
  Gives-pure a p = record { gives = λ c ro b e. subst P (ok_eq e) p }

  Gives-raise : (e : Exc) → Gives P (raise e)
  Gives-raise x = record { gives = λ c ro b e. absurd cc }

  Gives-if : (t : Bool) (m n : Action Card A) → Gives P m → Gives P n → Gives P (if t then m else n)
  Gives-if true m n p q = p
  Gives-if false m n p q = q

  after-KeptBy :
      {B : Type 0} (c : Card) (x : Outcome B × Card) (f : B → Action Card A) (a : A)
      → KeptBy c x
      → ((b : B) → Gives P (f b))
      → (and_then x f).0 ≡ ok a
      → P a
  after-KeptBy c (ok b, c') f a k h e = (h b).gives c' k.read_only a e
  after-KeptBy c (raised x, c') f a k h e = absurd cc
  after-KeptBy c (no_fuel, c') f a k h e = absurd cc

  Gives-bind :
      {B : Type 0} (m : Action Card B) (f : B → Action Card A)
      → Kept m
      → ((b : B) → Gives P (f b))
      → Gives P (m >>= f)
  Gives-bind m f k h = record { gives = λ c ro a e. after-KeptBy c (m c) f a (k c ro) h e }

after_raise :
    {A B : Type 0} (x : Outcome B × Card) (f : B → Action Card A) (a : A)
    → ((b : B) → x.0 ≢ ok b)
    → (and_then x f).0 ≢ ok a
after_raise (ok b, c) f a h e = h b refl
after_raise (raised x, c) f a h e = cc
after_raise (no_fuel, c) f a h e = cc

assign_refused :
    (b : Value) (offset : ℕ) (c : Card)
    → c.writable ≡ false
    → (assign b offset c).0 ≡ raised type_error
unfolding assign
assign_refused b offset c ro = let refused : not c.writable ≡ true = ap not ro in rw refused refl

write_refused :
    (b : Value) (offset : ℕ) (c : Card)
    → c.writable ≡ false
    → (write b offset c).0 ≡ raised type_error
unfolding write
write_refused b offset c ro = elim (Bool-cases (ltb offset block_header_area_length)) [
  | inl t ↦ rw t (assign_refused b offset (record c { link_map = none }) ro)
  | inr t ↦ rw t (assign_refused b offset c ro)
]

-- Nothing comes after a write.
Gives-write :
    {A : Type 0} {P : A → Type 0} (b : Value) (offset : ℕ) (f : Unit {0} → Action Card A)
    → Gives P (write b offset >>= f)
Gives-write b offset f = record {
  gives = λ c ro a e.
      absurd
        (after_raise (write b offset c) f a (λ u k. let r = write_refused b offset c ro in cc) e);
}

-- A number of bytes that is 0, and such an answer.
abbrev IsZero : ℕ → Type 0
IsZero n = n ≡ 0

abbrev AnswersZero : Answer ℕ → Type 0
AnswersZero (error errno) = Unit
AnswersZero (result n) = n ≡ 0

Gives-write_header :
    (s : Save) (name : Text) (buf : Bytes) (offset : ℕ)
    → Gives IsZero (write_header s name buf offset)
unfolding write_header
Gives-write_header s name buf offset =
    Gives-bind (get_entry_size s name) _ (Kept-get_entry_size s name) λ all.
      Gives-if (ltb offset all) _ _
        (Gives-bind (first_block s) _ (Kept-first_block s) λ n.
          Gives-bind (get_entry_offset s name) _ (Kept-get_entry_offset s name)
            λ start. Gives-write _ _ _)
        (Gives-pure 0 refl)

Gives-write_parts :
    (fuel : ℕ) (blocks : List ℕ) (buf : Bytes) (offset : ℕ)
    → Gives IsZero (write_parts (suc fuel) blocks buf offset 0)
unfolding write_parts
Gives-write_parts fuel blocks buf offset = Gives-if (length buf == 0) _ _ (Gives-pure 0 refl) (
    Gives-if (leb (length blocks) ((offset + 0) / block_length)) _ _ (Gives-pure 0 refl) (
      Gives-bind (or_raise (get_elem? blocks ((offset + 0) / block_length)) index_error) _
        (Kept-or_raise (get_elem? blocks ((offset + 0) / block_length)) index_error)
        λ n. Gives-write _ _ _))

Gives-write_entry :
    (s : Save) (name : Text) (buf : Bytes) (offset : ℕ)
    → Gives IsZero (write_entry s name buf offset)
unfolding write_entry write_data
Gives-write_entry s name buf offset =
    Gives-if (name ==ᵇ save_data_entry_id) _ _
      (Gives-if (leb (get_data_size s) offset) _ _ (Gives-raise value_error)
        (Gives-write_parts (length buf) s.block_list buf offset))
      (Gives-write_header s name buf offset)

caught-AnswersZero :
    (errno : ℕ) (x : Outcome ℕ × Card) (a : Answer ℕ)
    → ((n : ℕ) → x.0 ≡ ok n → n ≡ 0)
    → (and_then (value_caught x) (λ d. pure (or_errno errno d))).0 ≡ ok a
    → AnswersZero a
caught-AnswersZero errno (ok n, c) a h e = subst AnswersZero (ok_eq e) (h n refl)
caught-AnswersZero errno (no_fuel, c) a h e = absurd cc
caught-AnswersZero errno (raised value_error, c) a h e = subst AnswersZero (ok_eq e) tt
caught-AnswersZero errno (raised type_error, c) a h e = absurd cc
caught-AnswersZero errno (raised index_error, c) a h e = absurd cc
caught-AnswersZero errno (raised key_error, c) a h e = absurd cc
caught-AnswersZero errno (raised attribute_error, c) a h e = absurd cc
caught-AnswersZero errno (raised unbound_local_error, c) a h e = absurd cc
caught-AnswersZero errno (raised assertion_error, c) a h e = absurd cc
caught-AnswersZero errno (raised struct_error, c) a h e = absurd cc
caught-AnswersZero errno (raised (os_error n), c) a h e = absurd cc

Gives-attempt :
    (errno : ℕ) (m : Action Card ℕ) → Gives IsZero m → Gives AnswersZero (attempt errno m)
Gives-attempt errno m g = record {
  gives = λ c ro a e. caught-AnswersZero errno (m c) a (g.gives c ro) e;
}

module _ (unicode : Unicode) (fuel : ℕ) where
  Gives-with_save :
      (name : Text) (f : Save → Action Card (Answer ℕ))
      → ((s : Save) → Gives AnswersZero (f s))
      → Gives AnswersZero (with_save unicode fuel name f)
  Gives-with_save name f h =
      Gives-bind (find_save unicode fuel name) _ (Kept-find_save unicode fuel name) go
    where
      go :
          (o : Option Save)
          → Gives {A = Answer ℕ} AnswersZero (elim o [ none ↦ pure (error enoent) | some s ↦ f s ])
      go none = Gives-pure (error enoent) tt
      go (some s) = h s

  Gives-on_file :
      (f : Save → Text → Action Card (Answer ℕ)) (names : List Text)
      → ((s : Save) (entry : Text) → Gives AnswersZero (f s entry))
      → Gives AnswersZero (on_file unicode fuel f names)
  Gives-on_file f [] h = Gives-pure (error enoent) tt
  Gives-on_file f (name ∷ []) h = Gives-pure (error enoent) tt
  Gives-on_file f (name ∷ entry ∷ []) h = Gives-with_save name (λ s. f s entry) λ s. h s entry
  Gives-on_file f (name ∷ entry ∷ third ∷ rest) h = Gives-pure (error enoent) tt

  -- Of an image that could be opened, after any calls of the file system, a write of any bytes to
  -- any path never returns a number of bytes above 0.
  pub write_file-init :
      (content : Bytes) (read_only : Bool) (c : Card) (calls : List Call) (path : Text)
      (buf : Bytes) (offset n : ℕ)
      → init content read_only ≡ ok c
      → (write_file unicode fuel path buf offset (after_calls unicode fuel calls c)).0
        ≢ ok (result (suc n))
  unfolding write_file
  write_file-init content read_only c calls path buf offset n opened e =
      let (same, ro) = init-content content read_only c opened in
      let still = (after_calls-SameContent unicode fuel calls c ro).1 in
      let writes =
        Gives-on_file (λ s entry. attempt efbig (write_entry s entry buf offset)) (split path)
          (λ s entry. Gives-attempt efbig _ (Gives-write_entry s entry buf offset)) in
      let none_written : suc n ≡ 0 =
        writes.gives (after_calls unicode fuel calls c) still (result (suc n)) e in
      absurd (omega arith)
