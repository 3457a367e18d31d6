-- ===== src/Prelude/Python.antt =====
-- The Python that the source is written in, as far as it uses it: exceptions, methods as actions
-- on a state, and values that are a `bytes` or a `str`.
use Prim.Native.Nat.{ℕ}
use mathlib.Core.Bool.{Bool, true, false}
use mathlib.Core.Option.{Option, none, some}
use mathlib.Core.List.{List, [], ◌∷◌, ◌++◌}

abbrev pub Bytes : Type 0
Bytes = List ℕ

-- The exceptions that the source raises or meets, by their class. Their texts are left out.
pub data Exc : Type 0 where
  value_error type_error index_error key_error attribute_error unbound_local_error : Exc
  assertion_error struct_error : Exc
  os_error : ℕ → Exc

-- How a call ends. `no_fuel` is a loop that has not ended within its fuel.
pub data Outcome {ℓ} (A : Type ℓ) : Type ℓ where
  ok : A → Outcome A
  raised : Exc → Outcome A
  no_fuel : Outcome A

-- A call returns its outcome and the state that it leaves, after a raise too.
abbrev pub Action {ℓ κ} : Type ℓ → Type κ → Type (ℓ ⊔ κ)
Action S A = S → Outcome A × S

module _ {ℓ κ} {S : Type ℓ} {A : Type κ} where
  abbrev pub pure : A → Action S A
  pure a s = (ok a, s)

  abbrev pub raise : Exc → Action S A
  raise e s = (raised e, s)

  abbrev pub diverge : Action S A
  diverge s = (no_fuel, s)

  abbrev pub or_raise : Option A → Exc → Action S A
  or_raise none e = raise e
  or_raise (some a) _ = pure a

-- What follows a call runs if the call returned.
abbrev pub and_then {ℓ κ μ} :
    {S : Type ℓ} {A : Type κ} {B : Type μ} → Outcome A × S → (A → Action S B) → Outcome B × S
and_then (ok a, s) f = f a s
and_then (raised e, s) f = (raised e, s)
and_then (no_fuel, s) f = (no_fuel, s)

infixl 5 ◌>>=◌ ◌>>◌
abbrev pub ◌>>=◌ {ℓ κ μ} :
    {S : Type ℓ} {A : Type κ} {B : Type μ} → Action S A → (A → Action S B) → Action S B
◌>>=◌ m f s = and_then (m s) f

abbrev pub ◌>>◌ {ℓ κ μ} :
    {S : Type ℓ} {A : Type κ} {B : Type μ} → Action S A → Action S B → Action S B
m >> k = m >>= λ _. k

-- `assert c`
abbrev pub assert {ℓ} : {S : Type ℓ} → Bool → Action S (Unit {0})
assert true = pure tt
assert false = raise assertion_error

-- A value that may be bytes or text. They do not mix in Python 3.
pub data Value : Type 0 where
  bytes : Bytes → Value
  str : List ℕ → Value

-- `len(value)`
abbrev pub items : Value → List ℕ
items (bytes b) = b
items (str t) = t

-- What a bytes-like object is wanted for: the right side of `b'...' + value`, a buffer to write.
abbrev pub as_bytes {ℓ} : {S : Type ℓ} → Value → Action S Bytes
as_bytes (bytes b) = pure b
as_bytes (str t) = raise type_error

-- `''.join(values)`: the separator is a `str`, and so must every item be.
abbrev pub str_join {ℓ} : {S : Type ℓ} → List Value → Action S Value
str_join [] = pure (str [])
str_join (bytes b ∷ vs) = raise type_error
str_join (str t ∷ vs) = do rest ← str_join vs; pure (str (t ++ items rest))

-- `b''.join(parts)`
abbrev pub join : List Bytes → Bytes
join [] = []
join (b ∷ bs) = b ++ join bs

-- `try: ... except KeyError` and `except ValueError`: `none` is an exception that was caught.
abbrev pub or_key_error {ℓ} : {A : Type ℓ} → Outcome A → Outcome (Option A)
or_key_error (ok a) = ok (some a)
or_key_error (raised key_error) = ok none
or_key_error (raised e) = raised e
or_key_error no_fuel = no_fuel

abbrev pub key_caught {ℓ κ} : {A : Type ℓ} {S : Type κ} → Outcome A × S → Outcome (Option A) × S
key_caught x = (or_key_error x.0, x.1)

abbrev pub or_value_error {ℓ} : {A : Type ℓ} → Outcome A → Outcome (Option A)
or_value_error (ok a) = ok (some a)
or_value_error (raised value_error) = ok none
or_value_error (raised e) = raised e
or_value_error no_fuel = no_fuel

abbrev pub value_caught {ℓ κ} : {A : Type ℓ} {S : Type κ} → Outcome A × S → Outcome (Option A) × S
value_caught x = (or_value_error x.0, x.1)
