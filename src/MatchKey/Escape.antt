-- ===== src/MatchKey/Escape.antt =====
-- src/receiver/match_key.go: a match key tells the values in it apart.
use Prim.Native.Char.{Char, code}
use text.Mathlib.TextEquality.{Char-path}
use forward_stub.MatchKey.{escape, escape_from, is_backslash, is_mark}
use forward_stub.Prelude.{
  Bool, Bool-cases, String, ap, arith, false, if◌then◌else◌, inl, inr, nat_eq, nat_eq_iff, refl,
  suc, sym, true, zero, ℕ, ◌-◌, ◌∙◌, ◌≡◌,
}

-- Backslashes before a text.
abbrev backslashes : ℕ → String → String
backslashes zero s = s
backslashes (suc n) s = String.◌∷◌ "\\" (backslashes n s)

-- Reading an escaped text back; `held` backslashes have been read and not been accounted for. Four of them
-- stand for two, and one before a mark goes.
read_from : ℕ → String → String
read_from held String.[] = backslashes held ""
read_from held (String.◌∷◌ c s) =
    let more = read_from (suc held) s in
    let plain = read_from 0 s in
    if is_backslash c
    then (if nat_eq held 3 then backslashes 2 plain else more)
    else if is_mark c
    then backslashes (held - 1) (String.◌∷◌ c plain)
    else backslashes held (String.◌∷◌ c plain)

pub unescape : String → String
unescape s = read_from 0 s

is_backslash_lem : (c : Char) → is_backslash c ≡ true → c ≡ "\\"
unfolding is_backslash
is_backslash_lem c h = Char-path c "\\" ((nat_eq_iff (code c) b'\\').0 h)

read_back :
    (half : Bool) (s : String)
    → read_from (if half then 1 else 0) (escape_from half s)
      ≡ (if half then String.◌∷◌ "\\" s else s)
unfolding read_from escape_from
read_back true String.[] = refl
read_back false String.[] = refl
read_back true (String.◌∷◌ c s) = elim (Bool-cases (is_backslash c)) [
  | inl h ↦ rw (is_backslash_lem c h) (rw (read_back false s) refl)
  | inr h ↦ ground (arith, h, read_back false s)
]
read_back false (String.◌∷◌ c s) = elim (Bool-cases (is_backslash c)) [
  | inl h ↦ rw (is_backslash_lem c h) (read_back true s)
  | inr h ↦ ground (arith, h, read_back false s)
]

-- Reading an escaped value back gives the value.
pub unescape-escape : (s : String) → unescape (escape s) ≡ s
unfolding unescape escape
unescape-escape s = read_back false s

pub escape-injective : (s t : String) → escape s ≡ escape t → s ≡ t
escape-injective s t e = sym (unescape-escape s) ∙ ap unescape e ∙ unescape-escape t
