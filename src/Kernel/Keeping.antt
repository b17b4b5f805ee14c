-- ===== src/Kernel/Keeping.antt =====
-- Steps that hold on to what they return, and to nothing where they fail.
use system_apex.Base.{
  String, ◌≡◌, refl, Bool, true, false, none, some, List, [], ◌∷◌, Result, ok, error, abort,
  and_then, Bool-cases, inl, inr, in_context, if◌then◌else◌,
}
use system_apex.Kernel.{Call, Trace, Kernel, require, or_undo}
use system_apex.Kernel.Held.{
  Resource, among, Within, Within-mono, Within-trans, creates, releases, Within-plain,
  Within-create, Within-fail, Within-release, Within-weaken,
}

-- After an error the step holds `new` at most; after a success, what `owns` says too. An abort ends
-- the process, and says nothing.
abbrev pub Keeping {ℓ} :
    {A : Type ℓ} (owns : A → List Resource) (new : List Resource) (t : Trace)
    → Result A × Trace
    → Type 0
Keeping owns new t (ok a, t') = Within (owns a) t t'
Keeping owns new t (error e, t') = Within new t t'
Keeping owns new t (abort, t') = Unit

pub Keeping-and_then {ℓ κ} :
    {A : Type ℓ} {B : Type κ} (owns : A → List Resource) (owns' : B → List Resource)
    (new : List Resource) (t : Trace) (r : Result A × Trace) (f : A → Trace → Result B × Trace)
    → Keeping owns new t r
    → ((a : A) (t' : Trace) → Within (owns a) t t' → Keeping owns' new t (f a t'))
    → Keeping owns' new t (and_then r f)
Keeping-and_then owns owns' new t (ok a, t') f h k = k a t' h
Keeping-and_then owns owns' new t (error e, t') f h k = h
Keeping-and_then owns owns' new t (abort, t') f h k = tt

pub Keeping-or_undo {ℓ} :
    {A : Type ℓ} (k : Kernel) (owns : A → List Resource) (new : List Resource) (x : Resource)
    (c : Call) (t : Trace) (r : Result A × Trace)
    → creates c ≡ none
    → releases c ≡ some x
    → Keeping owns (x ∷ new) t r
    → Keeping owns new t (or_undo k c r)
unfolding or_undo
Keeping-or_undo k owns new x c t (ok a, t') e f h = h
Keeping-or_undo k owns new x c t (error m, t') e f h =
    Within-release new t t' c (k.succeeds t' c) x e f h
Keeping-or_undo k owns new x c t (abort, t') e f h = tt

pub Keeping-if {ℓ} :
    {A : Type ℓ} (owns : A → List Resource) (new : List Resource) (t : Trace) (b : Bool)
    (x y : Result A × Trace)
    → (b ≡ true → Keeping owns new t x)
    → (b ≡ false → Keeping owns new t y)
    → Keeping owns new t (if b then x else y)
Keeping-if owns new t true x y h k = h refl
Keeping-if owns new t false x y h k = k refl

abbrev pub owns_nothing {ℓ} : {A : Type ℓ} → A → List Resource
owns_nothing _ = []

abbrev pub owns_all {ℓ} : {A : Type ℓ} → List Resource → A → List Resource
owns_all new _ = new

-- A required call that makes nothing.
pub Keeping-require :
    (k : Kernel) (new : List Resource) (t t' : Trace) (c : Call) (e : String)
    → creates c ≡ none
    → Within new t t'
    → Keeping (owns_all new) new t (require k c e t')
unfolding require
Keeping-require k new t t' c e h w = elim (Bool-cases (k.succeeds t' c)) [
  | inl done ↦ rw (done, require) (Within-plain new t t' c true h w)
  | inr failed ↦ rw (failed, require) (Within-fail new t t' c w)
]

-- A required call that makes `x`.
pub Keeping-require_new :
    (k : Kernel) (new : List Resource) (t t' : Trace) (c : Call) (e : String) (x : Resource)
    → creates c ≡ some x
    → Within new t t'
    → Keeping (owns_all (x ∷ new)) new t (require k c e t')
unfolding require
Keeping-require_new k new t t' c e x h w = elim (Bool-cases (k.succeeds t' c)) [
  | inl done ↦ rw (done, require) (Within-create new t t' c true x h w)
  | inr failed ↦ rw (failed, require) (Within-fail new t t' c w)
]

-- The message of an error does not matter.
pub Keeping-in_context {ℓ} :
    {A : Type ℓ} (owns : A → List Resource) (new : List Resource) (t : Trace) (e : String)
    (r : Result A × Trace)
    → Keeping owns new t r
    → Keeping owns new t (in_context e r.0, r.1)
Keeping-in_context owns new t e (ok a, t') h = h
Keeping-in_context owns new t e (error m, t') h = h
Keeping-in_context owns new t e (abort, t') h = tt

-- A result that was computed with no call.
pub Keeping-pure {ℓ} :
    {A : Type ℓ} (new : List Resource) (t t' : Trace) (r : Result A)
    → Within new t t'
    → Keeping (owns_all new) new t (r, t')
Keeping-pure new t t' (ok a) w = w
Keeping-pure new t t' (error e) w = w
Keeping-pure new t t' abort w = tt

-- What is allowed after an error may be more.
pub Keeping-weaken {ℓ} :
    {A : Type ℓ} (owns : A → List Resource) (x : Resource) (new : List Resource) (t : Trace)
    (r : Result A × Trace)
    → Keeping owns new t r
    → Keeping owns (x ∷ new) t r
Keeping-weaken owns x new t (ok a, t') h = h
Keeping-weaken owns x new t (error m, t') h = Within-weaken x new t t' h
Keeping-weaken owns x new t (abort, t') h = tt

-- What is owned after a success may be more.
pub Keeping-mono {ℓ} :
    {A : Type ℓ} (owns owns' : A → List Resource) (new : List Resource) (t : Trace)
    (r : Result A × Trace)
    → ((a : A) (x : Resource) → among x (owns a) ≡ true → among x (owns' a) ≡ true)
    → Keeping owns new t r
    → Keeping owns' new t r
Keeping-mono owns owns' new t (ok a, t') f h = Within-mono (owns a) (owns' a) t t' (f a) h
Keeping-mono owns owns' new t (error m, t') f h = h
Keeping-mono owns owns' new t (abort, t') f h = tt

-- What was done before and holds nothing.
pub Keeping-trans {ℓ} :
    {A : Type ℓ} (owns : A → List Resource) (t u : Trace) (r : Result A × Trace)
    → Within [] t u
    → Keeping owns [] u r
    → Keeping owns [] t r
Keeping-trans owns t u (ok a, v) w h =
    Within-trans [] (owns a) (owns a) t u v (λ x n. unfold among in absurd (cc)) (λ x n. n) w h
Keeping-trans owns t u (error e, v) w h = Within-trans [] [] [] t u v (λ x n. n) (λ x n. n) w h
Keeping-trans owns t u (abort, v) w h = tt
