-- ===== src/Text/Prefix.antt =====
-- What is left of a text after a prefix: a path below a directory.
use Prim.Native.String.{◌++◌}
use Prim.Native.String.append
use text.Mathlib.TextLemmas.{nil-append, cons-append}
use system_apex.Base.{
  String, Option, none, some, ◌==◌, eq_iff, eq_refl, if◌then◌else◌, ◌≡◌, ◌∙◌, ap, arith,
}

unfoldable pub strip_prefix : String → String → Option String
strip_prefix String.[] s = some s
strip_prefix (String.◌∷◌ c p) String.[] = none
strip_prefix (String.◌∷◌ c p) (String.◌∷◌ d s) =
    let rest = strip_prefix p s in
    if String.◌∷◌ c String.[] == String.◌∷◌ d String.[] then rest else none

pub strip_prefix-append : (p s : String) → strip_prefix p (p ++ s) ≡ some s
unfolding strip_prefix
strip_prefix-append String.[] s = ap some (append.nil s)
strip_prefix-append (String.◌∷◌ c p) s =
    ap (strip_prefix (String.◌∷◌ c p)) (cons-append c p s)
    ∙ ground (arith, eq_refl (String.◌∷◌ c String.[]), strip_prefix-append p s)

pub strip_prefix-eq-some : (p t : String) {u : String} → strip_prefix p t ≡ some u → t ≡ p ++ u
unfolding strip_prefix
strip_prefix-eq-some String.[] s h = grind (arith, nil-append s)
strip_prefix-eq-some (String.◌∷◌ c p) String.[] h = cc
strip_prefix-eq-some (String.◌∷◌ c p) (String.◌∷◌ d s) {u = u} h =
    let same : String.◌∷◌ c String.[] ≡ String.◌∷◌ d String.[] =
      ground (arith, eq_iff (String.◌∷◌ c String.[]) (String.◌∷◌ d String.[])) in
    let left : strip_prefix p s ≡ some u = ground arith in
    grind (arith, same, strip_prefix-eq-some p s left, cons-append c p u)
