-- ===== src/Compiler/Validated.antt =====
-- src/runtime/compiler.go, src/config/validate.go: a stage that `validateStageConfig` accepts
-- also compiles.
use forward_stub.Stdlib.Hex
use forward_stub.Compiler.{
  Regexp, compile_cases, compile_kind, compile_route, compile_stage, lookup_text,
}
use forward_stub.Config.Stage.{
  StageConfig, StageKind, route_sender_by_bytes, stage_kind, validate_cases, validate_kind,
  validate_stage_config,
}
use forward_stub.Pipeline.{StageFunc, is_empty}
use forward_stub.Prelude.{
  All, Bool, Bool-cases, List, Option-cases, Result-cases, String, [], ap, arith, false, inl, inr,
  is_ok, length, not, ok, refl, some, sym, true, ℕ, ◌<◌, ◌∙◌, ◌∷◌, ◌≡◌, ◌≢◌,
}
use forward_stub.Prelude.Eq.{eq_String, eq_bytes, ◌==◌}
use forward_stub.Prelude.Int.{negsuc, pos, ℤ}
use forward_stub.Prelude.Map.{Map, insert, is_none, keys}
use forward_stub.Prelude.Names.{contains, contains-sort_strings, sort_strings}
use forward_stub.Stdlib.Hex.{Bytes}
use forward_stub.Stdlib.Strings.{is_blank, trim_space}

-- One case of a routing stage is sound, with a key of the length `n`.
abbrev IsCase : ℕ → String × String → Type 0
IsCase n (hk, sn) = (v : Bytes) × (Hex.decode_string hk ≡ some v) × (length v ≡ n) × (sn ≢ "")

blank-empty : (s : String) → is_blank s ≡ false → s ≢ ""
blank-empty s h e = cc (h, trim_empty, ap is_blank e)
  where
    trim_empty : is_blank "" ≡ true
    trim_empty = unfold trim_space in refl

-- The accepted cases have keys of one positive length.
validate_cases_sound :
    (n : ℕ) (cases : Map String String)
    → 0 < n
    → validate_cases (pos n) cases ≡ ok tt
    → All (IsCase n) cases
unfolding validate_cases
validate_cases_sound n [] h e = tt
validate_cases_sound n ((hk, sn) ∷ rest) h e = elim (Option-cases (Hex.decode_string hk)) [
  | inl bad ↦ absurd (ground (arith, bad))
  | inr (v, good) ↦
      let tail : validate_cases (pos n) rest ≡ ok tt = ground (arith, good) in
      let blank : is_blank sn ≡ false = ground (arith, good) in
      ((v, good, ground (arith, good), blank-empty sn blank), validate_cases_sound n rest h tail)
]

validate_cases_first :
    (cases : Map String String)
    → is_empty cases ≡ false
    → validate_cases (negsuc 0) cases ≡ ok tt
    → (n : ℕ) × (0 < n) × All (IsCase n) cases
unfolding validate_cases
validate_cases_first [] h e = cc
validate_cases_first ((hk, sn) ∷ rest) h e = elim (Option-cases (Hex.decode_string hk)) [
  | inl bad ↦ absurd (ground (arith, bad))
  | inr (v, good) ↦
      let filled : 0 < length v = ground (arith, good) in
      let tail : validate_cases (pos (length v)) rest ≡ ok tt = ground (arith, good) in
      let blank : is_blank sn ≡ false = ground (arith, good) in
      (
        length v,
        filled,
        ((v, good, refl, blank-empty sn blank), validate_cases_sound (length v) rest filled tail),
      )
]

lookup-IsCase :
    (n : ℕ) (cases : Map String String) (hk : String)
    → All (IsCase n) cases
    → contains (keys cases) hk ≡ true
    → IsCase n (hk, lookup_text hk cases)
lookup-IsCase n [] hk h c = cc
lookup-IsCase n ((j, sn) ∷ rest) hk h c = elim (Bool-cases (j == hk)) [
  | inl same ↦ rw (same, ← (eq_String.beq_iff j hk).0 same) h.0
  | inr other ↦ rw other (lookup-IsCase n rest hk h.1 (ground (arith, other)))
]

-- Over keys of sound cases the compiling loop goes through.
compile_cases_total :
    (n : ℕ) (cases : Map String String) (routes : Map Bytes String) (hks : List String)
    → 0 < n
    → All (λ hk. IsCase n (hk, lookup_text hk cases)) hks
    → (r : ℤ × Map Bytes String) × (compile_cases cases (pos n) routes hks ≡ ok r)
unfolding compile_cases
compile_cases_total n cases routes [] h a = ((pos n, routes), refl)
compile_cases_total n cases routes (hk ∷ rest) h a =
    let (v, good, sized, filled) = a.0 in
    let (r, e) =
      compile_cases_total n cases (insert ⦃e = eq_bytes⦄ v (lookup_text hk cases) routes) rest h
        a.1 in
    (r, rw (good, compile_cases) (ground (arith, eq_String.beq_iff (lookup_text hk cases) "")))

keys_have_cases :
    (n : ℕ) (cases : Map String String) (hks : List String)
    → All (IsCase n) cases
    → ((hk : String) → contains hks hk ≡ true → contains (keys cases) hk ≡ true)
    → All (λ hk. IsCase n (hk, lookup_text hk cases)) hks
keys_have_cases n cases [] h sub = tt
keys_have_cases n cases (hk ∷ rest) h sub = (
  lookup-IsCase n cases hk h (sub hk (ground (arith, eq_String.beq_iff hk hk))),
  keys_have_cases n cases rest h (λ k c. sub k (ground (arith, c))),
)

compile_cases_first :
    (n : ℕ) (cases : Map String String) (hks : List String)
    → 0 < n
    → All (λ hk. IsCase n (hk, lookup_text hk cases)) hks
    → (r : ℤ × Map Bytes String) × (compile_cases cases (negsuc 0) [] hks ≡ ok r)
unfolding compile_cases
compile_cases_first n cases [] h a = ((negsuc 0, []), refl)
compile_cases_first n cases (hk ∷ rest) h a =
    let (v, good, sized, filled) = a.0 in
    let (r, e) =
      compile_cases_total n cases (insert ⦃e = eq_bytes⦄ v (lookup_text hk cases) []) rest h a.1 in
    (
      r,
      rw (good, compile_cases)
          (rw sized (ground (arith, e, eq_String.beq_iff (lookup_text hk cases) ""))),
    )

compile_route_total :
    (sc : StageConfig)
    → is_empty sc.cases ≡ false
    → validate_cases (negsuc 0) sc.cases ≡ ok tt
    → is_ok (compile_route sc) ≡ true
compile_route_total sc h e =
    let (n, filled, a) = validate_cases_first sc.cases h e in
    let hks = sort_strings (keys sc.cases) in
    let (r, c) = compile_cases_first n sc.cases hks filled (
      keys_have_cases n sc.cases hks a
        (λ k m. sym (contains-sort_strings (keys sc.cases) k) ∙ m)) in
    rw (h, c)

not_blank : (s : String) → is_blank s ≡ false → (s == "") ≡ false
not_blank s h = elim (Bool-cases (s == "")) [
  | inl e ↦ absurd (blank-empty s h ((eq_String.beq_iff s "").0 e))
  | inr e ↦ e
]

abbrev pub accepts : Regexp → String → Bool
accepts compile pattern = not (is_none (compile pattern))

kind-is_ok :
    (compile : Regexp) (sc : StageConfig) (kind : StageKind)
    → validate_kind (accepts compile) sc kind ≡ ok tt
    → is_ok (compile_kind compile sc kind) ≡ true
unfolding validate_kind compile_kind
kind-is_ok compile sc route_sender_by_bytes h = compile_route_total sc (ground arith) (ground arith)
kind-is_ok compile sc _ h = ground (arith, not_blank sc.value, not_blank sc.prefix)

-- A stage that `validateStageConfig` accepts compiles to a stage function, when both ask the same
-- regular expression compiler.
pub validated_compiles :
    (compile : Regexp) (sc : StageConfig)
    → validate_stage_config (accepts compile) sc ≡ ok tt
    → (stage : StageFunc) × (compile_stage compile sc ≡ ok stage)
unfolding validate_stage_config compile_stage
validated_compiles compile sc h = elim (Result-cases (compile_stage compile sc)) [
  | inl found ↦ found
  | inr (e, failed) ↦ cc (kind-is_ok compile sc (stage_kind sc.type) h)
]
