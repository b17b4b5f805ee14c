-- ===== src/Kernel/Yielding.antt =====
-- What a step returns, where it succeeds.
use system_apex.Base.{
  String, ◌≡◌, refl, subst, Bool, true, false, Result, ok, error, abort, and_then, if◌then◌else◌,
}
use system_apex.Kernel.{Kernel, Trace, Call, or_undo}

pub record Yields {ℓ μ ν} {A : Type ℓ} {S : Type μ} (P : A → Type ν) (r : Result A × S)
    : Type (ℓ ⊔ ν) where
  pub at : (a : A) → r.0 ≡ ok a → P a

module _ {ℓ ν} {A : Type ℓ} (P : A → Type ν) where
  pub Yields-ok {μ} : {S : Type μ} (a : A) (s : S) → P a → Yields P (ok a, s)
  Yields-ok a s p = record { at = λ b e. subst P (from_ok b e) p }
    where
      from_ok : (b : A) → ok a ≡ ok b → a ≡ b
      from_ok b q = cc

  pub Yields-error {μ} : {S : Type μ} (e : String) (s : S) → Yields P (error e, s)
  Yields-error e s = record { at = λ b e'. absurd (cc) }

  pub Yields-abort {μ} : {S : Type μ} (s : S) → Yields P (abort, s)
  Yields-abort s = record { at = λ b e'. absurd (cc) }

  pub Yields-and_then {κ μ} :
      {B : Type κ} {S : Type μ} (r : Result B × S) (f : B → S → Result A × S)
      → ((b : B) (s : S) → r.0 ≡ ok b → Yields P (f b s))
      → Yields P (and_then r f)
  Yields-and_then (ok b, s) f h = h b s refl
  Yields-and_then (error e, s) f h = Yields-error e s
  Yields-and_then (abort, s) f h = Yields-abort s

  -- The same, with the state that the first step has left.
  pub Yields-and_then_kept {κ μ} :
      {B : Type κ} {S : Type μ} (r : Result B × S) (f : B → S → Result A × S)
      → ((b : B) → r.0 ≡ ok b → Yields P (f b r.1))
      → Yields P (and_then r f)
  Yields-and_then_kept (ok b, s) f h = h b refl
  Yields-and_then_kept (error e, s) f h = Yields-error e s
  Yields-and_then_kept (abort, s) f h = Yields-abort s

  pub Yields-or_undo :
      (k : Kernel) (c : Call) (r : Result A × Trace) → Yields P r → Yields P (or_undo k c r)
  unfolding or_undo
  Yields-or_undo k c (ok b, t) h = h
  Yields-or_undo k c (error e, t) h = Yields-error e _
  Yields-or_undo k c (abort, t) h = Yields-abort t

  pub Yields-if {μ} :
      {S : Type μ} (b : Bool) (x y : Result A × S)
      → Yields P x
      → Yields P y
      → Yields P (if b then x else y)
  Yields-if true x y h k = h
  Yields-if false x y h k = k

-- What a step returns and the state that it leaves, where it succeeds.
pub record Leaves {ℓ μ ν} {A : Type ℓ} {S : Type μ} (P : A → S → Type ν) (r : Result A × S)
    : Type (ℓ ⊔ ν) where
  pub at : (a : A) → r.0 ≡ ok a → P a r.1

module _ {ℓ μ ν} {A : Type ℓ} {S : Type μ} (P : A → S → Type ν) where
  pub Leaves-ok : (a : A) (s : S) → P a s → Leaves P (ok a, s)
  Leaves-ok a s p = record { at = λ b e. subst (λ x. P x s) (from_ok b e) p }
    where
      from_ok : (b : A) → ok a ≡ ok b → a ≡ b
      from_ok b q = cc

  pub Leaves-error : (e : String) (s : S) → Leaves P (error e, s)
  Leaves-error e s = record { at = λ b e'. absurd (cc) }

  pub Leaves-and_then {κ} :
      {B : Type κ} (r : Result B × S) (f : B → S → Result A × S)
      → ((b : B) → r.0 ≡ ok b → Leaves P (f b r.1))
      → Leaves P (and_then r f)
  Leaves-and_then (ok b, s) f h = h b refl
  Leaves-and_then (error e, s) f h = Leaves-error e s
  Leaves-and_then (abort, s) f h = record { at = λ b e. absurd (cc) }

pub Leaves-map {ℓ μ ν π} :
    {A : Type ℓ} {S : Type μ} (P : A → S → Type ν) (Q : A → S → Type π) (r : Result A × S)
    → ((a : A) → P a r.1 → Q a r.1)
    → Leaves P r
    → Leaves Q r
Leaves-map P Q r f l = record { at = λ a e. f a (l.at a e) }
