-- ===== src/MatchKey/Fields.antt =====
-- src/receiver/match_key.go: the values in a match key can be told apart.
use Prim.Native.Char.{code}
use Prim.Native.String.{◌++◌ as join_texts}
use text.Mathlib.TextLemmas.{
  nil-append, cons-append, append_assoc, append_cancel_left, append_cancel_right, append-nil,
  tail-eq_of_cons-eq,
}
use forward_stub.MatchKey.{
  build_two_field_match_key, escape, escape_from, is_backslash, is_mark, written,
}
use forward_stub.MatchKey.Escape.{escape-injective}
use forward_stub.Prelude.{
  Bool, String, [], ap, arith, false, if◌then◌else◌, nat_eq, not, refl, sym, true, ◌&&◌, ◌||◌, ◌∙◌,
  ◌∷◌, ◌≡◌,
}

-- The part of a text in front of the first equals sign that does not follow a backslash.
before_equals : Bool → String → String
before_equals held String.[] = String.[]
before_equals held (String.◌∷◌ c s) =
    let rest = before_equals (is_backslash c) s in
    if nat_eq (code c) b'=' && not held then String.[] else String.◌∷◌ c rest

-- A name without equals signs and backslashes.
unfoldable pub is_plain : String → Bool
unfolding is_backslash
is_plain String.[] = true
is_plain (String.◌∷◌ c s) = not (nat_eq (code c) b'=') && not (is_backslash c) && is_plain s

before_equals-plain :
    (n t : String) → is_plain n ≡ true → before_equals false (join_texts n (String.◌∷◌ "=" t)) ≡ n
unfolding before_equals is_plain is_backslash
before_equals-plain String.[] t h = rw (nil-append (String.◌∷◌ "=" t)) refl
before_equals-plain (String.◌∷◌ c s) t h =
    rw (cons-append c s (String.◌∷◌ "=" t)) (ground (arith, before_equals-plain s t, h))

-- Every equals sign of the text follows a backslash.
is_clean : Bool → String → Bool
is_clean held String.[] = true
is_clean held (String.◌∷◌ c s) = (not (nat_eq (code c) b'=') || held) && is_clean (is_backslash c) s

is_clean-escape_from : (held half : Bool) (v : String) → is_clean held (escape_from half v) ≡ true
unfolding is_clean escape_from is_backslash is_mark
is_clean-escape_from held half String.[] = refl
is_clean-escape_from held half (String.◌∷◌ c s) =
    let rest = λ (b : Bool). is_clean-escape_from b (is_backslash c && not half) s in
    ground (arith, rest true, rest false)

-- The separator is where the value ends.
before_equals-clean :
    (held : Bool) (v n t : String)
    → is_plain n ≡ true
    → is_clean held v ≡ true
    → before_equals held (join_texts v (String.◌∷◌ "|" (join_texts n (String.◌∷◌ "=" t))))
      ≡ join_texts v (String.◌∷◌ "|" n)
unfolding before_equals is_backslash is_clean
before_equals-clean held String.[] n t h e = simp (nil-append, before_equals-plain n t h)
before_equals-clean held (String.◌∷◌ c s) n t h e =
    rw (cons-append c s (String.◌∷◌ "|" (join_texts n (String.◌∷◌ "=" t)))) (
      rw (cons-append c s (String.◌∷◌ "|" n))
        (ground (arith, e, before_equals-clean (is_backslash c) s n t h)))

bar : (s : String) → join_texts "|" s ≡ String.◌∷◌ "|" s
bar s = cons-append "|" "" s ∙ ap (String.◌∷◌ "|") (nil-append s)

equals : (s : String) → join_texts "=" s ≡ String.◌∷◌ "=" s
equals s = cons-append "=" "" s ∙ ap (String.◌∷◌ "=") (nil-append s)

-- The texts of a key whose values are `v` and `w`.
key_texts :
    (p a n v w : String)
    → build_two_field_match_key p a v n w
      ≡ join_texts
          (written (p ∷ "|" ∷ a ∷ "=" ∷ []))
          (join_texts (escape v) (String.◌∷◌ "|" (join_texts n (String.◌∷◌ "=" (escape w)))))
unfolding build_two_field_match_key
key_texts p a n v w =
    simp
      (append_assoc, append-nil, bar (join_texts n (String.◌∷◌ "=" (escape w))), equals (escape w))

-- Two match keys of two fields with the same names are equal only if both values are, if the name of the second field has no equals sign and no backslash.
pub two_fields-injective :
    (p a n v w v' w' : String)
    → is_plain n ≡ true
    → build_two_field_match_key p a v n w ≡ build_two_field_match_key p a v' n w'
    → (v ≡ v') × (w ≡ w')
unfolding escape
two_fields-injective p a n v w v' w' h e =
    let key : String → String → String =
      λ x y. join_texts (escape x) (String.◌∷◌ "|" (join_texts n (String.◌∷◌ "=" (escape y)))) in
    let tails : key v w ≡ key v' w' =
      append_cancel_left (written (p ∷ "|" ∷ a ∷ "=" ∷ [])) (key v w) (key v' w')
        (sym (key_texts p a n v w) ∙ e ∙ key_texts p a n v' w') in
    let read = λ (x y : String).
      before_equals-clean false (escape x) n (escape y) h (is_clean-escape_from false false x) in
    let first : v ≡ v' = escape-injective v v' (
      append_cancel_right (escape v) (escape v') (String.◌∷◌ "|" n)
        (sym (read v w) ∙ ap (before_equals false) tails ∙ read v' w')) in
    let after : String → String = λ y. join_texts n (String.◌∷◌ "=" (escape y)) in
    let bars =
      append_cancel_left (escape v) (String.◌∷◌ "|" (after w)) (String.◌∷◌ "|" (after w'))
        (tails ∙ ap (λ x. key x w') (sym first)) in
    let names =
      append_cancel_left n (String.◌∷◌ "=" (escape w)) (String.◌∷◌ "=" (escape w'))
        (tail-eq_of_cons-eq bars) in
    (first, escape-injective w w' (tail-eq_of_cons-eq names))
