-- ===== src/Base/Result.antt =====
-- The exceptions that the program raises or meets, and a computation that may raise one.
-- py_etiss_xvalid/exception/pipeline_exceptions.py, and Python's own.
use mathlib.Core.Path.{◌≡◌, refl}

pub data Exn : Type 0 where
  dwarf_extraction_exception : Exn
  etiss_simulation_exception : Exn
  activity_log_parser_exception : Exn
  snapshot_logger_exception : Exn
  verification_process_exception : Exn
  out_of_registers_exception : Exn
  zero_division_error value_error key_error index_error : Exn
  attribute_error type_error overflow_error stop_iteration struct_error : Exn
  recursion_error : Exn
  other_exception : Exn

pub data Result {ℓ} (A : Type ℓ) : Type ℓ where
  ok : A → Result A
  err : Exn → Result A

infixl 5 ◌>>=◌
abbrev pub ◌>>=◌ {ℓ κ} : {V : Type ℓ} {W : Type κ} → Result V → (V → Result W) → Result W
ok v >>= next = next v
err x >>= next = err x

-- Inversion of a successful bind.
pub ok-injective {ℓ} : {A : Type ℓ} {a b : A} → ok a ≡ ok b → a ≡ b
ok-injective h = cc

pub >>=-eq-ok {ℓ κ} :
    {V : Type ℓ} {W : Type κ} (r : Result V) (next : V → Result W) {w : W}
    → (r >>= next) ≡ ok w
    → (v : V) × (r ≡ ok v) × (next v ≡ ok w)
>>=-eq-ok (err x) next p = cc
>>=-eq-ok (ok v) next p = (v, refl, p)

-- `try`, with what the handler of `except Exception` returns or raises
abbrev pub or_handle {ℓ} : {V : Type ℓ} → Result V → Result V → Result V
or_handle (ok v) handler = ok v
or_handle (err x) handler = handler

-- A bind is the same where what follows is the same at the value it is given.
pub >>=-congruent {ℓ κ} :
    {V : Type ℓ} {W : Type κ} (r : Result V) (next other : V → Result W)
    → ((v : V) → r ≡ ok v → next v ≡ other v)
    → (r >>= next) ≡ (r >>= other)
>>=-congruent (ok v) next other h = h v refl
>>=-congruent (err x) next other h = refl

pub >>=-assoc {ℓ κ μ} :
    {U : Type ℓ} {V : Type κ} {W : Type μ} (r : Result U) (next : U → Result V)
    (last : V → Result W)
    → ((r >>= next) >>= last) ≡ (r >>= λ u. next u >>= last)
>>=-assoc (ok u) next last = refl
>>=-assoc (err x) next last = refl

-- What holds of the value that is returned, if one is.
abbrev pub Returns {ℓ κ} : {V : Type ℓ} → (V → Type κ) → Result V → Type κ
Returns P (ok v) = P v
Returns P (err x) = Unit

pub >>=-Returns {ℓ κ μ} :
    {V : Type ℓ} {W : Type κ} (P : W → Type μ) (r : Result V) (next : V → Result W)
    → ((v : V) → r ≡ ok v → Returns P (next v))
    → Returns P (r >>= next)
>>=-Returns P (ok v) next h = h v refl
>>=-Returns P (err x) next h = tt

-- A computation that raises nothing.
abbrev pub Succeeds {ℓ} : {V : Type ℓ} → Result V → Type 0
Succeeds (ok v) = Unit
Succeeds (err x) = ⊥

pub >>=-Succeeds {ℓ κ} :
    {V : Type ℓ} {W : Type κ} (r : Result V) (next : V → Result W)
    → Succeeds r
    → ((v : V) → Succeeds (next v))
    → Succeeds (r >>= next)
>>=-Succeeds (ok v) next h n = n v
>>=-Succeeds (err x) next h n = absurd h
