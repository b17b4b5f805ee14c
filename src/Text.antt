-- ===== src/Text.antt =====
-- The text functions that apexd takes from the C++ library and from android-base: suffixes, splitting,
-- path components, decimal numbers.
mod Suffix
mod Prefix
use Prim.Native.Char.{Char, code}
use system_apex.Base.{
  ℕ, zero, suc, ◌+◌, ◌-◌, ◌*◌, ◌/◌, ◌%◌, ◌^◌, String, Bool, true, false, ◌&&◌, ◌||◌, Option, none,
  some, List, [], ◌∷◌, ◌==◌, ltb, leb, nat_eq, if◌then◌else◌, ℤ, pos, negsuc, map,
}
use Prim.Native.String.{◌++◌ as append}
unfoldable pub use Suffix.*
unfoldable pub use Prefix.*

-- `android::base::Split` at one delimiter: empty pieces are kept.
push_char : Char → List String → List String
push_char c [] = String.◌∷◌ c String.[] ∷ []
push_char c (w ∷ ws) = String.◌∷◌ c w ∷ ws

unfoldable pub split : String → ℕ → List String
unfolding push_char
split String.[] d = String.[] ∷ []
split (String.◌∷◌ c s) d =
    let rest = split s d in if nat_eq (code c) d then String.[] ∷ rest else push_char c rest

-- `str.find(c) != npos`.
unfoldable pub has_char : String → ℕ → Bool
has_char String.[] d = false
has_char (String.◌∷◌ c s) d = nat_eq (code c) d || has_char s d

-- `str.substr(0, str.find(c))`.
unfoldable pub before_char : String → ℕ → String
before_char String.[] d = String.[]
before_char (String.◌∷◌ c s) d =
    let rest = before_char s d in if nat_eq (code c) d then String.[] else String.◌∷◌ c rest

unfoldable pub last_piece : List String → String
last_piece [] = String.[]
last_piece (w ∷ []) = w
last_piece (w ∷ v ∷ ws) = last_piece (v ∷ ws)

-- `fs::path(p).filename()`.
unfoldable pub filename : String → String
unfolding split last_piece
filename p = last_piece (split p b'/')

drop_last_piece : List String → List String
drop_last_piece [] = []
drop_last_piece (w ∷ []) = []
drop_last_piece (w ∷ v ∷ ws) = w ∷ drop_last_piece (v ∷ ws)

join_path : List String → String
join_path [] = String.[]
join_path (w ∷ []) = w
join_path (w ∷ v ∷ ws) = append w (append "/" (join_path (v ∷ ws)))

-- `fs::path(p).parent_path()`, for a path with no repeated separator.
unfoldable pub parent_path : String → String
unfolding split drop_last_piece join_path
parent_path p = elim (drop_last_piece (split p b'/')) [
  | [] ↦ String.[]
  | w ∷ ws ↦ let up = join_path (w ∷ ws) in if up == String.[] then "/" else up
]

digit : ℕ → String
digit zero = "0"
digit (suc zero) = "1"
digit (suc (suc zero)) = "2"
digit (suc (suc (suc zero))) = "3"
digit (suc (suc (suc (suc zero)))) = "4"
digit (suc (suc (suc (suc (suc zero))))) = "5"
digit (suc (suc (suc (suc (suc (suc zero)))))) = "6"
digit (suc (suc (suc (suc (suc (suc (suc zero))))))) = "7"
digit (suc (suc (suc (suc (suc (suc (suc (suc zero)))))))) = "8"
digit _ = "9"

digits : ℕ → ℕ → String → String
digits zero n out = out
digits (suc fuel) n out =
    let more = digits fuel (n / 10) (append (digit (n % 10)) out) in
    if ltb n 10 then append (digit n) out else more

-- `std::to_string`; a number has fewer digits than its value plus one.
unfoldable pub to_text : ℕ → String
unfolding digit digits
to_text n = digits (suc n) n String.[]

unfoldable pub int_to_text : ℤ → String
unfolding to_text
int_to_text (pos n) = to_text n
int_to_text (negsuc n) = append "-" (to_text (suc n))

parse_digits : ℕ → String → Option ℕ
parse_digits acc String.[] = some acc
parse_digits acc (String.◌∷◌ c s) =
    let d = code c in
    if leb b'0' d && leb d b'9' then parse_digits (acc * 10 + (d - b'0')) s else none

-- `android::base::ParseUint` into a `size_t`, for decimal digits.
unfoldable pub parse_uint : String → Option ℕ
unfolding parse_digits
parse_uint s = elim (parse_digits 0 s) [
  | none ↦ none
  | some n ↦ if s == String.[] then none else if ltb n (2 ^ 64) then some n else none
]

parse_negative : Option ℕ → Option ℤ
parse_negative none = none
parse_negative (some zero) = some (pos zero)
parse_negative (some (suc n)) = if ltb n (2 ^ 31) then some (negsuc n) else none

parse_positive : Option ℕ → Option ℤ
parse_positive none = none
parse_positive (some n) = if ltb n (2 ^ 31) then some (pos n) else none

-- `android::base::ParseInt` into an `int`, for decimal digits with an optional minus sign.
unfoldable pub parse_int : String → Option ℤ
unfolding parse_uint parse_negative parse_positive
parse_int String.[] = none
parse_int (String.◌∷◌ c s) =
    if nat_eq (code c) b'-'
    then parse_negative (parse_uint s)
    else parse_positive (parse_uint (String.◌∷◌ c s))

-- `isspace` of the C locale.
is_space : ℕ → Bool
is_space c = nat_eq c 32 || (leb 9 c && leb c 13)

all_space : String → Bool
all_space String.[] = true
all_space (String.◌∷◌ c s) = is_space (code c) && all_space s

-- The text without the white space at its end.
unfoldable pub trim_end : String → String
unfolding is_space all_space
trim_end String.[] = String.[]
trim_end (String.◌∷◌ c s) =
    let rest = trim_end s in if all_space (String.◌∷◌ c s) then String.[] else String.◌∷◌ c rest
