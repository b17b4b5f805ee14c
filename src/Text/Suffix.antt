-- ===== src/Text/Suffix.antt =====
-- `EndsWith` and `ConsumeSuffix` of android-base.

use system_apex.Base.{String, Bool, true, false, Option, none, some, ◌==◌, if◌then◌else◌}

-- The part before the suffix, if the text ends in it.
unfoldable pub strip_suffix : String → String → Option String
strip_suffix String.[] t = if String.[] == t then some String.[] else none
strip_suffix (String.◌∷◌ c s) t =
    if String.◌∷◌ c s == t
    then some String.[]
    else (elim (strip_suffix s t) [ none ↦ none | some r ↦ some (String.◌∷◌ c r) ])

unfoldable pub ends_with : String → String → Bool
unfolding strip_suffix
ends_with s t = elim (strip_suffix s t) [ none ↦ false | some r ↦ true ]

-- The text that is left, and whether the suffix was there.
unfoldable pub consume_suffix : String → String → String × Bool
unfolding strip_suffix
consume_suffix s t = elim (strip_suffix s t) [ none ↦ (s, false) | some r ↦ (r, true) ]
