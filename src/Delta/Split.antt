-- ===== src/Delta/Split.antt =====
-- src/runtime/update_cache.go: which names `splitDeltaWithReplace` finds, by what the two maps
-- hold under a name.
use forward_stub.Delta.{only_new, split_delta_with_replace, split_old}
use forward_stub.Prelude.{
  Bool, Option, String, [], arith, false, if◌then◌else◌, none, not, refl, some, true, ◌++◌, ◌∙◌,
  ◌∷◌, ◌≡◌,
}
use forward_stub.Prelude.Eq.{DeepEqual, eq_String}
use forward_stub.Prelude.Map.{Map, is_none, keys, lookup}
use forward_stub.Prelude.Names.{
  Distinct, contains, contains-append, contains-sort_strings, lookup-absent,
}

module _ {ℓ} {V : Type ℓ} ⦃e : DeepEqual V⦄ where
  -- By the old and the new value: is the old one to be removed, the new one to be added?
  abbrev pub removes : Option V → Option V → Bool
  removes none new = false
  removes (some a) none = true
  removes (some a) (some b) = not (e.deep_equal a b)

  abbrev pub adds : Option V → Option V → Bool
  adds old none = false
  adds none (some b) = true
  adds (some a) (some b) = not (e.deep_equal a b)

  split_old-removed :
      (old new : Map String V) (n : String)
      → Distinct (keys old)
      → contains (split_old old new).1 n ≡ removes (lookup n old) (lookup n new)
  unfolding split_old
  split_old-removed [] new n d = refl
  split_old-removed ((j, v) ∷ old) new n d =
      ground (arith, split_old-removed old new n d.1, lookup-absent old n, eq_String.beq_iff j n)

  split_old-added :
      (old new : Map String V) (n : String)
      → Distinct (keys old)
      → contains (split_old old new).0 n
        ≡ (if is_none (lookup n old) then false else adds (lookup n old) (lookup n new))
  unfolding split_old
  split_old-added [] new n d = refl
  split_old-added ((j, v) ∷ old) new n d =
      ground (arith, split_old-added old new n d.1, lookup-absent old n, eq_String.beq_iff j n)

  only_new_lem :
      (old new : Map String V) (n : String)
      → contains (only_new old new) n
        ≡ (if is_none (lookup n old) then not (is_none (lookup n new)) else false)
  unfolding only_new
  only_new_lem old [] n = ground arith
  only_new_lem old ((j, v) ∷ new) n = ground (arith, only_new_lem old new n, eq_String.beq_iff j n)

  -- From maps with one entry for each name, `splitDeltaWithReplace` gives exactly the names whose
  -- entry is new or differs as added, and exactly those whose entry is gone or differs as removed.
  pub split_delta_with_replace_lem :
      (old new : Map String V) (n : String)
      → Distinct (keys old)
      → (contains (split_delta_with_replace old new).0 n ≡ adds (lookup n old) (lookup n new))
        × (contains (split_delta_with_replace old new).1 n ≡ removes (lookup n old) (lookup n new))
  unfolding split_delta_with_replace
  split_delta_with_replace_lem old new n d = (
    ground (
      arith,
      contains-sort_strings ((split_old old new).0 ++ only_new old new) n,
      contains-append (split_old old new).0 (only_new old new) n,
      split_old-added old new n d,
      only_new_lem old new n,
    ),
    contains-sort_strings (split_old old new).1 n ∙ split_old-removed old new n d,
  )
