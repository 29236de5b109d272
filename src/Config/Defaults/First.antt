-- ===== src/Config/Defaults/First.antt =====
-- src/config/business_defaults.go: the order of precedence, written down as a list: the value of the object itself, the
-- one of the system's defaults, and the code's.
use forward_stub.Config.Defaults.{
  inherit_int, inherit_option, inherit_text, or_int, or_nonzero, or_option, or_text,
}
use forward_stub.Prelude.{
  List, Option, String, [], arith, if◌then◌else◌, none, refl, some, suc, zero, ◌∷◌, ◌≡◌,
}
use forward_stub.Prelude.Eq.{eq_String, ◌==◌}
use forward_stub.Prelude.Int.{is_nonpos, negsuc, pos, ℤ}

-- The first text that is not empty, or the last.
unfoldable pub first_text : List String → String → String
first_text [] last = last
first_text (v ∷ vs) last = let rest = first_text vs last in if v == "" then rest else v

-- The first positive number, or the last.
unfoldable pub first_int : List ℤ → ℤ → ℤ
first_int [] last = last
first_int (v ∷ vs) last = let rest = first_int vs last in if is_nonpos v then rest else v

-- The first value there is, or the last.
unfoldable pub first_some {ℓ} : {A : Type ℓ} → List (Option A) → A → A
first_some [] last = last
first_some (none ∷ vs) last = first_some vs last
first_some (some v ∷ vs) last = v

pub or-inherit_text : (v d c : String) → or_text (inherit_text v d) c ≡ first_text (v ∷ d ∷ []) c
unfolding inherit_text or_text first_text
or-inherit_text v d c = ground arith

pub or-inherit_int : (v d c : ℤ) → or_int (inherit_int v d) c ≡ first_int (v ∷ d ∷ []) c
unfolding inherit_int or_int first_int
or-inherit_int v d c = ground arith

pub inherit-first_text : (v d : String) → inherit_text v d ≡ first_text (v ∷ d ∷ []) ""
unfolding inherit_text first_text
inherit-first_text v d = ground (arith, eq_String.beq_iff v "", eq_String.beq_iff d "")

pub or-first_int : (v c : ℤ) → or_int v c ≡ first_int (v ∷ []) c
unfolding or_int first_int
or-first_int v c = refl

pub or-inherit_option {ℓ} :
    {A : Type ℓ} (v d : Option A) (c : A)
    → or_option (inherit_option v d) c ≡ some (first_some (v ∷ d ∷ []) c)
unfolding inherit_option or_option first_some
or-inherit_option none none c = refl
or-inherit_option none (some d) c = refl
or-inherit_option (some v) d c = refl

-- Settled once more, a settled value stays.
pub first_text-again :
    (v d c : String) → first_text (first_text (v ∷ d ∷ []) c ∷ d ∷ []) c ≡ first_text (v ∷ d ∷ []) c
unfolding first_text
first_text-again v d c = ground arith

pub first_int-again :
    (v d c : ℤ) → first_int (first_int (v ∷ d ∷ []) c ∷ d ∷ []) c ≡ first_int (v ∷ d ∷ []) c
unfolding first_int
first_int-again v d c = ground arith

pub or_text-twice : (v c : String) → or_text (or_text v c) c ≡ or_text v c
unfolding or_text
or_text-twice v c = ground arith

pub or_int-twice : (v c : ℤ) → or_int (or_int v c) c ≡ or_int v c
unfolding or_int
or_int-twice v c = ground arith

pub or_nonzero-twice : (v c : ℤ) → or_nonzero (or_nonzero v c) c ≡ or_nonzero v c
unfolding or_nonzero
or_nonzero-twice (pos zero) (pos zero) = refl
or_nonzero-twice (pos zero) (pos (suc c)) = refl
or_nonzero-twice (pos zero) (negsuc c) = refl
or_nonzero-twice (pos (suc v)) c = refl
or_nonzero-twice (negsuc v) c = refl

pub or_option-twice {ℓ} :
    {A : Type ℓ} (v : Option A) (c : A) → or_option (or_option v c) c ≡ or_option v c
unfolding or_option
or_option-twice none c = refl
or_option-twice (some v) c = refl

pub first_int-twice : (v c : ℤ) → first_int (first_int (v ∷ []) c ∷ []) c ≡ first_int (v ∷ []) c
unfolding first_int
first_int-twice v c = ground arith

pub first_some-again {ℓ} :
    {A : Type ℓ} (v c : A) (vs : List (Option A)) → first_some (some v ∷ vs) c ≡ v
unfolding first_some
first_some-again v c vs = refl
