-- ===== src/Prelude/Names.antt =====
-- Slices and sets of names: membership, and the sort of Go's `sort.Strings`.
use Prim.Native.String.{String, compare as compare_String}
use Prim.Native.Nat.{Ordering}
use mathlib.Core.Path.{◌≡◌, refl, subst}
use mathlib.Core.Logic.{inl, inr}
use mathlib.Core.Bool.{Bool, true, false, ◌||◌}
use mathlib.Core.List.{List, [], ◌∷◌, ◌++◌}
use native.Mathlib.Omega.{arith}
use mathlib.Core.Option.{none}
use forward_stub.Prelude.Eq.{Eq, eq_String, ◌==◌}
use forward_stub.Prelude.Map.{Map, adjust, delete, insert, keys, lookup}
use forward_stub.Prelude.Tests.{Bool-cases, if◌then◌else◌}

module _ {ℓ} {A : Type ℓ} ⦃e : Eq A⦄ where
  abbrev pub contains : List A → A → Bool
  contains [] a = false
  contains (x ∷ xs) a = x == a || contains xs a

  pub contains-append :
      (xs ys : List A) (a : A) → contains (xs ++ ys) a ≡ (contains xs a || contains ys a)
  contains-append [] ys a = refl
  contains-append (x ∷ xs) ys a = ground (arith, contains-append xs ys a)

abbrev leb_String : String → String → Bool
leb_String a b = elim (compare_String a b) [ Ordering.gt ↦ false | _ ↦ true ]

pub insert_sorted : String → List String → List String
insert_sorted a [] = a ∷ []
insert_sorted a (x ∷ xs) = if leb_String a x then a ∷ x ∷ xs else x ∷ insert_sorted a xs

-- sort.Strings
unfoldable pub sort_strings : List String → List String
unfolding insert_sorted
sort_strings [] = []
sort_strings (x ∷ xs) = insert_sorted x (sort_strings xs)

contains-insert_sorted :
    (a : String) (xs : List String) (b : String)
    → contains (insert_sorted a xs) b ≡ (a == b || contains xs b)
unfolding insert_sorted
contains-insert_sorted a [] b = ground arith
contains-insert_sorted a (x ∷ xs) b = ground (arith, contains-insert_sorted a xs b)

pub contains-sort_strings :
    (xs : List String) (b : String) → contains (sort_strings xs) b ≡ contains xs b
unfolding sort_strings
contains-sort_strings [] b = refl
contains-sort_strings (x ∷ xs) b =
    ground (arith, contains-insert_sorted x (sort_strings xs) b, contains-sort_strings xs b)

-- No name stands twice, as in the keys of a Go map.
abbrev pub Distinct : List String → Type 0
Distinct [] = Unit
Distinct (x ∷ xs) = (contains xs x ≡ false) × Distinct xs

Distinct-insert_sorted :
    (a : String) (xs : List String)
    → contains xs a ≡ false
    → Distinct xs
    → Distinct (insert_sorted a xs)
unfolding insert_sorted
Distinct-insert_sorted a [] h d = (refl, tt)
Distinct-insert_sorted a (x ∷ xs) h d = elim (Bool-cases (leb_String a x)) [
  | inl first ↦ rw first (h, d)
  | inr later ↦ rw later (
    ground (
      arith,
      contains-insert_sorted a xs x,
      d.0,
      h,
      eq_String.beq_iff a x,
      eq_String.beq_iff x a,
    ),
    Distinct-insert_sorted a xs (ground (arith, h)) d.1,
  )
]

pub Distinct-sort_strings : (xs : List String) → Distinct xs → Distinct (sort_strings xs)
unfolding sort_strings
Distinct-sort_strings [] d = tt
Distinct-sort_strings (x ∷ xs) d =
    Distinct-insert_sorted x (sort_strings xs) (rw (contains-sort_strings xs x) d.0)
      (Distinct-sort_strings xs d.1)

pub lookup-absent {ℓ} :
    {V : Type ℓ} (m : Map String V) (n : String) → contains (keys m) n ≡ false → lookup n m ≡ none
lookup-absent [] n h = refl
lookup-absent ((j, v) ∷ m) n h = ground (arith, lookup-absent m n)

module _ {ℓ} {V : Type ℓ} where
  contains-keys-insert :
      (k j : String) (v : V) (m : Map String V)
      → contains (keys (insert k v m)) j ≡ (k == j || contains (keys m) j)
  contains-keys-insert k j v [] = refl
  contains-keys-insert k j v ((i, w) ∷ m) =
      ground (arith, contains-keys-insert k j v m, eq_String.beq_iff i k)

  pub Distinct-insert :
      (k : String) (v : V) (m : Map String V) → Distinct (keys m) → Distinct (keys (insert k v m))
  Distinct-insert k v [] d = (refl, tt)
  Distinct-insert k v ((i, w) ∷ m) d = elim (Bool-cases (i == k)) [
    | inl same ↦
        let e : i ≡ k = (eq_String.beq_iff i k).0 same in
        rw same (subst (λ (x : String). contains (keys m) x ≡ false) e d.0, d.1)
    | inr other ↦ rw other (
      ground (
        arith,
        contains-keys-insert k i v m,
        d.0,
        eq_String.beq_iff k i,
        eq_String.beq_iff i k,
        other,
      ),
      Distinct-insert k v m d.1,
    )
  ]

  contains-keys-delete :
      (k j : String) (m : Map String V)
      → contains (keys m) j ≡ false
      → contains (keys (delete k m)) j ≡ false
  contains-keys-delete k j [] h = refl
  contains-keys-delete k j ((i, w) ∷ m) h = ground (arith, contains-keys-delete k j m)

  pub Distinct-delete :
      (k : String) (m : Map String V) → Distinct (keys m) → Distinct (keys (delete k m))
  Distinct-delete k [] d = tt
  Distinct-delete k ((i, w) ∷ m) d = elim (Bool-cases (i == k)) [
    | inl same ↦ rw same (Distinct-delete k m d.1)
    | inr other ↦ rw other (contains-keys-delete k i m d.0, Distinct-delete k m d.1)
  ]

  pub keys-adjust : (f : V → V) (k : String) (m : Map String V) → keys (adjust f k m) ≡ keys m
  keys-adjust f k [] = refl
  keys-adjust f k ((i, w) ∷ m) = ground (arith, keys-adjust f k m)
