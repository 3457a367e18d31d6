-- ===== src/Dict.antt =====
-- A Python `dict` in insertion order: a key that is written again keeps its place.
use ps3_memorycard_adapter.Prelude.{
  ℕ, ◌==◌, ==_iff, ◌≡◌, refl, ap, ◌≢◌, ◌↔◌, Bool, true, false, Option, none, some, List, [], ◌∷◌,
  arith, ◌==ᵇ◌, ==ᵇ_refl, ==ᵇ→eq, if◌then◌else◌, Bytes, Value, bytes, str,
}

-- A type whose values can be keys.
pub record Key {ℓ} (K : Type ℓ) : Type ℓ where
  pub same : K → K → Bool
  pub same_iff : (i j : K) → (same i j ≡ true) ↔ (i ≡ j)

instance abbrev pub nat_key : Key ℕ
nat_key = record { same = ◌==◌; same_iff = ==_iff }

abbrev pub value_same : Value → Value → Bool
value_same (bytes a) (bytes b) = a ==ᵇ b
value_same (bytes a) (str b) = false
value_same (str a) (bytes b) = false
value_same (str a) (str b) = a ==ᵇ b

bytes-injective : {a b : Bytes} → bytes a ≡ bytes b → a ≡ b
bytes-injective h = cc

str-injective : {a b : Bytes} → str a ≡ str b → a ≡ b
str-injective h = cc

pub value_same_iff : (a b : Value) → (value_same a b ≡ true) ↔ (a ≡ b)
value_same_iff (bytes a) (bytes b) =
    (λ h. ap bytes (==ᵇ→eq a b h), λ h. rw (bytes-injective h) (==ᵇ_refl b))
value_same_iff (bytes a) (str b) = (λ h. cc, λ h. cc)
value_same_iff (str a) (bytes b) = (λ h. cc, λ h. cc)
value_same_iff (str a) (str b) =
    (λ h. ap str (==ᵇ→eq a b h), λ h. rw (str-injective h) (==ᵇ_refl b))

instance abbrev pub value_key : Key Value
value_key = record { same = value_same; same_iff = value_same_iff }

abbrev pub Dict {ℓ κ} : Type ℓ → Type κ → Type (ℓ ⊔ κ)
Dict K V = List (K × V)

module _ {ℓ κ} {K : Type ℓ} {V : Type κ} ⦃key : Key K⦄ where
  -- `d.get(k)`
  abbrev pub lookup : K → Dict K V → Option V
  lookup k [] = none
  lookup k ((j, v) ∷ d) = if key.same k j then some v else lookup k d

  -- `d[k] = v`
  abbrev pub insert : K → V → Dict K V → Dict K V
  insert k v [] = (k, v) ∷ []
  insert k v ((j, w) ∷ d) = if key.same k j then (j, v) ∷ d else (j, w) ∷ insert k v d

  -- `d.update(entries)`, in order
  abbrev pub update : List (K × V) → Dict K V → Dict K V
  update [] d = d
  update ((k, v) ∷ entries) d = update entries (insert k v d)

  -- `del d[k]`, where the key is there
  abbrev pub remove : K → Dict K V → Dict K V
  remove k [] = []
  remove k ((j, v) ∷ d) = let rest = remove k d in if key.same k j then rest else (j, v) ∷ rest

  pub lookup-insert_self : (k : K) (v : V) (d : Dict K V) → lookup k (insert k v d) ≡ some v
  lookup-insert_self k v [] = ground (arith, key.same_iff k k)
  lookup-insert_self k v ((j, w) ∷ d) = ground (arith, lookup-insert_self k v d)

  pub lookup-insert_ne :
      (i k : K) (v : V) (d : Dict K V) → i ≢ k → lookup i (insert k v d) ≡ lookup i d
  lookup-insert_ne i k v [] h = ground (arith, key.same_iff i k)
  lookup-insert_ne i k v ((j, w) ∷ d) h =
      ground
        (arith, key.same_iff i k, key.same_iff k j, key.same_iff i j, lookup-insert_ne i k v d h)

  pub lookup-remove_self : (k : K) (d : Dict K V) → lookup k (remove k d) ≡ none
  lookup-remove_self k [] = refl
  lookup-remove_self k ((j, w) ∷ d) = ground (arith, lookup-remove_self k d)

  pub lookup-remove_ne : (i k : K) (d : Dict K V) → i ≢ k → lookup i (remove k d) ≡ lookup i d
  lookup-remove_ne i k [] h = refl
  lookup-remove_ne i k ((j, w) ∷ d) h =
      ground (arith, key.same_iff i k, key.same_iff k j, key.same_iff i j, lookup-remove_ne i k d h)
