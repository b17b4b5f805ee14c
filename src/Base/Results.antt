-- ===== src/Base/Results.antt =====
-- `android::base::Result`, with its message, and the abort of a failed CHECK or of LOG(FATAL).
use Prim.Native.String.{String, ◌++◌ as append}
use mathlib.Core.Path.{◌≡◌, refl}
use mathlib.Core.Logic.{◌⊎◌, inl, inr}
use mathlib.Core.Bool.{Bool, true, false}
use mathlib.Core.Option.{Option, none, some}

pub data Result {ℓ} (A : Type ℓ) : Type ℓ where
  ok : A → Result A
  error : String → Result A
  -- The process ends: no caller can handle it.
  abort : Result A

-- The early return of an error: what comes next runs on success only.
infixl 5 ◌>>=◌
abbrev pub ◌>>=◌ {ℓ κ} :
    {A : Type ℓ} {B : Type κ} (step : Result A) (next : A → Result B) → Result B
error message >>= next = error message
abort >>= next = abort
ok value >>= next = next value

infixl 5 ◌>>◌
abbrev pub ◌>>◌ {κ} : {B : Type κ} (step : Result (Unit {0})) (next : Result B) → Result B
step >> next = step >>= (λ done. next)

-- A test whose failure is an error.
abbrev pub guard : Bool → String → Result (Unit {0})
guard false message = error message
guard true message = ok tt

-- `CHECK`.
abbrev pub check : Bool → Result (Unit {0})
check true = ok tt
check false = abort

abbrev pub or_error {ℓ} : {A : Type ℓ} → Option A → String → Result A
or_error none e = error e
or_error (some a) e = ok a

abbrev pub is_ok {ℓ} : {A : Type ℓ} → Result A → Bool
is_ok (ok a) = true
is_ok _ = false

-- A step on a state, and what the code does after it has succeeded.
abbrev pub and_then {ℓ κ μ} :
    {A : Type ℓ} {B : Type κ} {S : Type μ} → Result A × S → (A → S → Result B × S) → Result B × S
and_then (ok a, s) f = f a s
and_then (error e, s) f = (error e, s)
and_then (abort, s) f = (abort, s)

-- The message of an error behind what was going on.
abbrev pub in_context {ℓ} : {A : Type ℓ} → String → Result A → Result A
in_context c (ok a) = ok a
in_context c (error e) = error (append c e)
in_context c abort = abort

-- Another message in place of an error's.
abbrev pub or_message {ℓ} : {A : Type ℓ} → String → Result A → Result A
or_message c (ok a) = ok a
or_message c (error e) = error c
or_message c abort = abort

-- What a successful step had: to take apart a chain whose parts stay shut.
pub >>=-eq-ok {ℓ κ} :
    {A : Type ℓ} {B : Type κ} (step : Result A) (next : A → Result B) {result : B}
    → (step >>= next) ≡ ok result
    → (value : A) × (step ≡ ok value) × (next value ≡ ok result)
>>=-eq-ok (error message) next h = cc
>>=-eq-ok abort next h = cc
>>=-eq-ok (ok value) next h = (value, refl, h)

pub >>-eq-ok {κ} :
    {B : Type κ} (m : Result (Unit {0})) (k : Result B) {b : B}
    → (m >> k) ≡ ok b
    → (m ≡ ok tt) × (k ≡ ok b)
>>-eq-ok (ok tt) k h = (refl, h)
>>-eq-ok (error e) k h = cc
>>-eq-ok abort k h = cc

pub guard-eq-ok : (b : Bool) (e : String) → guard b e ≡ ok tt → b ≡ true
guard-eq-ok true e h = refl
guard-eq-ok false e h = cc

pub or_error-eq-ok {ℓ} :
    {A : Type ℓ} (o : Option A) (e : String) {a : A} → or_error o e ≡ ok a → o ≡ some a
or_error-eq-ok none e h = cc
or_error-eq-ok (some b) e h = cc

-- A computed result succeeds, or it does not.
pub Result-cases {ℓ} : {A : Type ℓ} (r : Result A) → ((a : A) × (r ≡ ok a)) ⊎ (is_ok r ≡ false)
Result-cases (ok a) = inl (a, refl)
Result-cases (error e) = inr refl
Result-cases abort = inr refl

-- What both steps keep of the state, the two together keep.
pub and_then-keeps {ℓ κ μ ν} :
    {A : Type ℓ} {B : Type κ} {S : Type μ} (P : S → Type ν) (r : Result A × S)
    (f : A → S → Result B × S)
    → P r.1
    → ((a : A) → r.0 ≡ ok a → P (f a r.1).1)
    → P (and_then r f).1
and_then-keeps P (ok a, s) f h k = k a refl
and_then-keeps P (error e, s) f h k = h
and_then-keeps P (abort, s) f h k = h

-- What a successful chain had.
pub and_then-eq-ok {ℓ κ μ} :
    {A : Type ℓ} {B : Type κ} {S : Type μ} (r : Result A × S) (f : A → S → Result B × S) {b : B}
    {s : S}
    → and_then r f ≡ (ok b, s)
    → (a : A) × (r.0 ≡ ok a) × (f a r.1 ≡ (ok b, s))
and_then-eq-ok (ok a, s) f h = (a, refl, h)
and_then-eq-ok (error e, s) f h = cc
and_then-eq-ok (abort, s) f h = cc
