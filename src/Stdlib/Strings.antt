-- ===== src/Stdlib/Strings.antt =====
-- Functions of Go's `strings` over texts, which are sequences of code points.
use Prim.Native.Char.{code}
use Prim.Native.String
use Prim.Native.String.{◌++◌ as join_texts}
use forward_stub.Prelude.{
  Bool, Option, String, if◌then◌else◌, leb, nat_eq, none, refl, some, suc, zero, ℕ, ◌&&◌, ◌||◌, ◌≡◌,
}
use forward_stub.Prelude.Eq.{eq_String, ◌==◌}

-- unicode.IsSpace
is_space : ℕ → Bool
is_space c =
    (leb 0x09 c && leb c 0x0d)
    || nat_eq c 0x20
    || nat_eq c 0x85
    || nat_eq c 0xa0
    || nat_eq c 0x1680
    || (leb 0x2000 c && leb c 0x200a)
    || nat_eq c 0x2028
    || nat_eq c 0x2029
    || nat_eq c 0x202f
    || nat_eq c 0x205f
    || nat_eq c 0x3000

trim_left : String → String
unfolding is_space
trim_left String.[] = String.[]
trim_left (String.◌∷◌ c s) = if is_space (code c) then trim_left s else String.◌∷◌ c s

trim_right : String → String
unfolding is_space
trim_right String.[] = String.[]
trim_right (String.◌∷◌ c s) =
    let rest = trim_right s in if is_space (code c) && rest == "" then "" else String.◌∷◌ c rest

-- strings.TrimSpace
unfoldable pub trim_space : String → String
unfolding trim_left trim_right
trim_space s = trim_right (trim_left s)

abbrev pub is_blank : String → Bool
is_blank s = trim_space s == ""

-- The rest of the text behind the prefix, if it has the prefix.
unfoldable pub after_prefix : String → String → Option String
after_prefix s String.[] = some s
after_prefix String.[] (String.◌∷◌ p ps) = none
after_prefix (String.◌∷◌ c s) (String.◌∷◌ p ps) =
    if nat_eq (code c) (code p) then after_prefix s ps else none

-- strings.TrimPrefix(s, prefix)
unfoldable pub trim_prefix : String → String → String
unfolding after_prefix
trim_prefix s prefix = elim (after_prefix s prefix) [ some rest ↦ rest | none ↦ s ]

-- The number of code points of a non-empty text, less one.
count_rest : String → ℕ
count_rest String.[] = 0
count_rest (String.◌∷◌ c s) = String.count s

-- The text with `new` before every code point and at the end.
interleave : String → String → String
interleave new String.[] = new
interleave new (String.◌∷◌ c s) = join_texts new (String.◌∷◌ c (interleave new s))

-- The scan of `replace_all`: the number is how many code points the last match still covers.
replace_from : ℕ → String → String → String → String
replace_from skip old new String.[] = String.[]
replace_from (suc skip) old new (String.◌∷◌ c s) = replace_from skip old new s
replace_from zero old new (String.◌∷◌ c s) = elim (after_prefix (String.◌∷◌ c s) old) [
  | some rest ↦ join_texts new (replace_from (count_rest old) old new s)
  | none ↦ String.◌∷◌ c (replace_from zero old new s)
]

-- strings.ReplaceAll(s, old, new)
unfoldable pub replace_all : String → String → String → String
unfolding replace_from after_prefix count_rest interleave
replace_all s old new = if old == "" then interleave new s else replace_from 0 old new s

trims : trim_space "  a b " ≡ "a b"
unfolding trim_space
trims = refl

trims_prefix : trim_prefix "/in/a" "/in" ≡ "/a"
unfolding trim_prefix
trims_prefix = refl

replaces : replace_all "aXbXX" "X" "-" ≡ "a-b--"
unfolding replace_all
replaces = refl
