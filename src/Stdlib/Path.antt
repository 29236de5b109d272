-- ===== src/Stdlib/Path.antt =====
-- Go's `path` on slash-separated texts, component by component.
use Prim.Native.Char.{Char, code}
use Prim.Native.String.{◌++◌ as join_texts}
use mathlib.Core.List.{reverse}
use forward_stub.Prelude.{
  Bool, List, Option, String, [], false, if◌then◌else◌, nat_eq, none, refl, some, ◌&&◌, ◌||◌, ◌∷◌,
  ◌≡◌,
}
use forward_stub.Prelude.Eq.{eq_String, ◌==◌}

push : Char → List String → List String
push c [] = String.◌∷◌ c String.[] ∷ []
push c (w ∷ ws) = String.◌∷◌ c w ∷ ws

-- The components between the slashes, empty ones included.
split_slash : String → List String
unfolding push
split_slash String.[] = "" ∷ []
split_slash (String.◌∷◌ c s) =
    let rest = split_slash s in if nat_eq (code c) b'/' then "" ∷ rest else push c rest

-- strings.Join(components, "/")
join_slash : List String → String
join_slash [] = ""
join_slash (w ∷ []) = w
join_slash (w ∷ v ∷ ws) = join_texts w (join_texts "/" (join_slash (v ∷ ws)))

unfoldable pub is_rooted : String → Bool
is_rooted String.[] = false
is_rooted (String.◌∷◌ c s) = nat_eq (code c) b'/'

-- ".." takes back the last component that is not "..", and nothing at the root.
parent : Bool → List String → List String
parent rooted [] = if rooted then [] else ".." ∷ []
parent rooted (w ∷ ws) = if w == ".." then ".." ∷ w ∷ ws else ws

-- The components that path.Clean keeps, the last one first.
clean_components : Bool → List String → List String → List String
unfolding parent
clean_components rooted kept [] = kept
clean_components rooted kept (w ∷ ws) =
    clean_components rooted
      (if w == "" || w == "." then kept else if w == ".." then parent rooted kept else w ∷ kept) ws

-- path.Clean
unfoldable pub clean : String → String
unfolding split_slash join_slash is_rooted clean_components
clean s =
    let rooted = is_rooted s in
    let body = join_slash (reverse (clean_components rooted [] (split_slash s))) in
    if rooted then join_texts "/" body else if body == "" then "." else body

-- path.Join of two elements
unfoldable pub join : String → String → String
unfolding clean
join a b =
    if a == "" then (if b == "" then "" else clean b) else clean (join_texts a (join_texts "/" b))

last_filled : Option String → List String → Option String
last_filled found [] = found
last_filled found (w ∷ ws) = last_filled (if w == "" then found else some w) ws

-- path.Base
unfoldable pub base : String → String
unfolding split_slash last_filled
base s =
    if s == "" then "." else elim (last_filled none (split_slash s)) [ none ↦ "/" | some w ↦ w ]

-- The text up to and with its last slash.
upto_slash : List String → String
upto_slash [] = ""
upto_slash (w ∷ []) = ""
upto_slash (w ∷ v ∷ ws) = join_texts w (join_texts "/" (upto_slash (v ∷ ws)))

-- path.Dir
unfoldable pub dir : String → String
unfolding clean upto_slash
dir s = clean (upto_slash (split_slash s))

trim_slashes_left : String → String
trim_slashes_left String.[] = String.[]
trim_slashes_left (String.◌∷◌ c s) =
    if nat_eq (code c) b'/' then trim_slashes_left s else String.◌∷◌ c s

trim_slashes_right : String → String
trim_slashes_right String.[] = String.[]
trim_slashes_right (String.◌∷◌ c s) =
    let rest = trim_slashes_right s in
    if nat_eq (code c) b'/' && rest == "" then "" else String.◌∷◌ c rest

-- strings.Trim(s, "/")
unfoldable pub trim_slashes : String → String
unfolding trim_slashes_left trim_slashes_right
trim_slashes s = trim_slashes_right (trim_slashes_left s)

cleans : clean "/a/./b//../../../c" ≡ "/c"
unfolding clean
cleans = refl

cleans_relative : clean "a/../../b" ≡ "../b"
unfolding clean
cleans_relative = refl

splits : (base "x//y/" ≡ "y") × (dir "x/y/z" ≡ "x/y") × (dir "z" ≡ ".") × (base "//" ≡ "/")
unfolding base dir
splits = (refl, refl, refl, refl)
