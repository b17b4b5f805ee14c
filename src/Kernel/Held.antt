-- ===== src/Kernel/Held.antt =====
-- What the calls of a trace have made and not given back.
use system_apex.Base.{
  String, ◌≡◌, refl, not, ◌⊎◌, inl, inr, Bool, true, false, ◌&&◌, ◌||◌, Option, none, some, List,
  [], ◌∷◌, arith, ◌==◌, Bool-cases, if◌then◌else◌,
}
use system_apex.Kernel.{
  Call, Trace, mkdir, rmdir, loop_configure, loop_set_fd, loop_clr_fd, create_device,
  load_table_and_activate, delete_device, mount, bind_mount, umount,
}

pub data Resource : Type 0 where
  directory loop_device dm_device mount_at : String → Resource

unfoldable pub same_resource : Resource → Resource → Bool
same_resource (Resource.directory a) (Resource.directory b) = a == b
same_resource (Resource.loop_device a) (Resource.loop_device b) = a == b
same_resource (Resource.dm_device a) (Resource.dm_device b) = a == b
same_resource (Resource.mount_at a) (Resource.mount_at b) = a == b
same_resource _ _ = false

unfoldable pub creates : Call → Option Resource
creates (mkdir p) = some (Resource.directory p)
creates (loop_configure name _ _) = some (Resource.loop_device name)
creates (loop_set_fd name _) = some (Resource.loop_device name)
creates (create_device name _) = some (Resource.dm_device name)
creates (load_table_and_activate name _) = some (Resource.dm_device name)
creates (mount _ target _ _) = some (Resource.mount_at target)
creates (bind_mount _ target) = some (Resource.mount_at target)
creates _ = none

-- A call that gives a resource back, or tries to.
unfoldable pub releases : Call → Option Resource
releases (rmdir p) = some (Resource.directory p)
releases (loop_clr_fd name) = some (Resource.loop_device name)
releases (delete_device name _) = some (Resource.dm_device name)
releases (umount target _) = some (Resource.mount_at target)
releases _ = none

abbrev pub is_of : Resource → Option Resource → Bool
is_of r none = false
is_of r (some x) = same_resource r x

-- Whether a resource has been made, and no call since then was to give it back.
unfoldable pub unreleased : Resource → Trace → Bool
unreleased r [] = false
unreleased r ((c, done) ∷ t) =
    let before = unreleased r t in
    if is_of r (releases c) then false else if done && is_of r (creates c) then true else before

-- Whether a resource has been made, and no call since then has given it back.
unfoldable pub held : Resource → Trace → Bool
held r [] = false
held r ((c, done) ∷ t) =
    let before = held r t in
    if done && is_of r (releases c)
    then false
    else if done && is_of r (creates c)
    then true
    else before

-- Whether a resource is held since the kernel has refused the last call that was to give it back.
unfoldable pub refused : Resource → Trace → Bool
refused r [] = false
refused r ((c, done) ∷ t) =
    let before = refused r t in
    if is_of r (releases c)
    then not done && held r t
    else if done && is_of r (creates c)
    then false
    else before

-- What is held was not to be given back, or the kernel has refused it.
pub held-refused : (r : Resource) (t : Trace) → held r t ≡ (unreleased r t || refused r t)
unfolding held unreleased refused
held-refused r [] = refl
held-refused r ((c, done) ∷ t) = ground (arith, held-refused r t)

pub held-unreleased : (r : Resource) (t : Trace) → unreleased r t ≡ true → held r t ≡ true
held-unreleased r t e = ground (arith, e, held-refused r t)

unfoldable pub among : Resource → List Resource → Bool
among r [] = false
among r (x ∷ xs) = same_resource r x || among r xs

-- From the trace `t` to `t'` nothing came to be unreleased but some of the list.
pub record Within (new : List Resource) (t t' : Trace) : Type 0 where
  pub at : (r : Resource) → unreleased r t' ≡ true → (unreleased r t ≡ true) ⊎ (among r new ≡ true)

pub Within-refl : (new : List Resource) (t : Trace) → Within new t t
Within-refl new t = record { at = λ r h. inl h }

pub Within-trans :
    (xs ys zs : List Resource) (t u v : Trace)
    → ((r : Resource) → among r xs ≡ true → among r zs ≡ true)
    → ((r : Resource) → among r ys ≡ true → among r zs ≡ true)
    → Within xs t u
    → Within ys u v
    → Within zs t v
Within-trans xs ys zs t u v f g w w' = record {
  at = λ r h. elim (w'.at r h) [
    | inl before ↦ elim (w.at r before) [ inl first ↦ inl first | inr new ↦ inr (f r new) ]
    | inr new ↦ inr (g r new)
  ];
}

-- A call that makes nothing.
pub Within-plain :
    (new : List Resource) (t t' : Trace) (c : Call) (done : Bool)
    → creates c ≡ none
    → Within new t t'
    → Within new t ((c, done) ∷ t')
unfolding unreleased
Within-plain new t t' c done e w = record { at = λ r h. w.at r (ground arith) }

-- A call that makes `x`, if it succeeds.
pub Within-create :
    (new : List Resource) (t t' : Trace) (c : Call) (done : Bool) (x : Resource)
    → creates c ≡ some x
    → Within new t t'
    → Within (x ∷ new) t ((c, done) ∷ t')
unfolding unreleased among
Within-create new t t' c done x e w = record {
  at = λ r h. elim (Bool-cases (same_resource r x)) [
    | inl same ↦ inr (ground arith)
    | inr other ↦ elim (w.at r (ground arith)) [ inl b ↦ inl b | inr n ↦ inr (ground arith) ]
  ];
}

-- A call that does not succeed makes nothing.
pub Within-fail :
    (new : List Resource) (t t' : Trace) (c : Call)
    → Within new t t'
    → Within new t ((c, false) ∷ t')
unfolding unreleased
Within-fail new t t' c w = record { at = λ r h. w.at r (ground arith) }

-- A call that gives `x` back.
pub Within-release :
    (new : List Resource) (t t' : Trace) (c : Call) (done : Bool) (x : Resource)
    → creates c ≡ none
    → releases c ≡ some x
    → Within (x ∷ new) t t'
    → Within new t ((c, done) ∷ t')
unfolding unreleased among
Within-release new t t' c done x e f w = record {
  at = λ r h. elim (w.at r (ground arith)) [ inl b ↦ inl b | inr n ↦ inr (ground arith) ];
}

pub Within-weaken :
    (x : Resource) (new : List Resource) (t t' : Trace) → Within new t t' → Within (x ∷ new) t t'
unfolding among
Within-weaken x new t t' w = record {
  at = λ r h. elim (w.at r h) [ inl b ↦ inl b | inr n ↦ inr (ground arith) ];
}

pub Within-mono :
    (xs ys : List Resource) (t t' : Trace)
    → ((r : Resource) → among r xs ≡ true → among r ys ≡ true)
    → Within xs t t'
    → Within ys t t'
Within-mono xs ys t t' f w = record {
  at = λ r h. elim (w.at r h) [ inl b ↦ inl b | inr n ↦ inr (f r n) ];
}

pub Within-swap :
    (x y : Resource) (new : List Resource) (t t' : Trace)
    → Within (x ∷ y ∷ new) t t'
    → Within (y ∷ x ∷ new) t t'
Within-swap x y new t t' w =
    Within-mono (x ∷ y ∷ new) (y ∷ x ∷ new) t t' (λ r h. unfold among in ground arith) w
