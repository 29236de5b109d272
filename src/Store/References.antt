-- ===== src/Store/References.antt =====
-- src/runtime/update_cache.go: how the loops of the store move the reference counts, sender by
-- sender.
use forward_stub.Prelude.{
  List, Option, Option-cases, Result-cases, String, [], arith, err, if◌then◌else◌, inl, inr, none,
  ok, refl, some, suc, ℕ, ◌++◌, ◌+◌, ◌∷◌, ◌≡◌,
}
use forward_stub.Prelude.Eq.{eq_String, ◌==◌}
use forward_stub.Prelude.Int.{dec-inc, dec_by, inc_by, inc_by-int_inc, ℤ}
use forward_stub.Prelude.Map.{Map, adjust, lookup, lookup-adjust, map_option}
use forward_stub.Store.{SenderState, let_go, release_sender_refs, retain, retain_senders}
use forward_stub.Task.{Sender}

abbrev pub count : String → List String → ℕ
count n [] = 0
count n (x ∷ xs) = if x == n then suc (count n xs) else count n xs

pub count-append : (n : String) (xs ys : List String) → count n (xs ++ ys) ≡ count n xs + count n ys
count-append n [] ys = omega arith
count-append n (x ∷ xs) ys = ground (arith, count-append n xs ys)

-- The state with its count moved on by `k`, by an `inc_by` or a `dec_by`.
abbrev pub shift : {S : Type 0} → (ℕ → ℤ → ℤ) → ℕ → SenderState S → SenderState S
shift by k ss = record ss { refs = by k ss.refs }

shift-retain :
    {S : Type 0} (k : ℕ) (o : Option (SenderState S))
    → map_option (shift inc_by k) (map_option retain o) ≡ map_option (shift inc_by (suc k)) o
shift-retain k none = refl
shift-retain k (some ss) = rw (inc_by-int_inc k ss.refs)

unshift-retain :
    {S : Type 0} (k : ℕ) (o : Option (SenderState S))
    → map_option (shift dec_by (suc k)) (map_option retain o) ≡ map_option (shift dec_by k) o
unshift-retain k none = refl
unshift-retain k (some ss) = rw (dec-inc ss.refs)

module _ {S : Type 0} where
  pub lookup-release_sender_refs :
      (names : List String) (table : Map String (SenderState S)) (n : String)
      → lookup n (release_sender_refs names table)
        ≡ map_option (shift dec_by (count n names)) (lookup n table)
  unfolding release_sender_refs
  lookup-release_sender_refs [] table n = ground arith
  lookup-release_sender_refs (x ∷ names) table n = ground (
    arith,
    lookup-release_sender_refs names (adjust let_go x table) n,
    lookup-adjust let_go x n table,
  )

  -- If every sender is there, each count goes up by the number of times that it is named.
  pub lookup-retain_senders_ok :
      (retained names : List String) (table : Map String (SenderState S)) (ss : List Sender)
      (n : String)
      → (retain_senders retained names table).0 ≡ ok ss
      → lookup n (retain_senders retained names table).1
        ≡ map_option (shift inc_by (count n names)) (lookup n table)
  unfolding retain_senders
  lookup-retain_senders_ok retained [] table ss n e = ground arith
  lookup-retain_senders_ok retained (sn ∷ names) table ss n e =
      let later = retain_senders (retained ++ sn ∷ []) names (adjust retain sn table) in
      elim (Option-cases (lookup sn table)) [
        | inl gone ↦ absurd (ground (arith, gone))
        | inr (there, found) ↦ elim (Result-cases later.0) [
          | inl (ss', all_found) ↦ ground (
            arith,
            found,
            lookup-retain_senders_ok (retained ++ sn ∷ []) names (adjust retain sn table) ss' n
                all_found,
            lookup-adjust retain sn n table,
            shift-retain (count n names) (lookup n table),
          )
          | inr (missing_name, failed) ↦ absurd (ground (arith, found, failed))
        ]
      ]

  -- If a sender of the task is missing, the loop over the senders leaves each count as it was, less
  -- the references that it was entered with.
  pub lookup-retain_senders_err :
      (retained names : List String) (table : Map String (SenderState S)) (sn n : String)
      → (retain_senders retained names table).0 ≡ err sn
      → lookup n (retain_senders retained names table).1
        ≡ map_option (shift dec_by (count n retained)) (lookup n table)
  unfolding retain_senders
  lookup-retain_senders_err retained [] table sn n e = cc
  lookup-retain_senders_err retained (x ∷ names) table sn n e =
      let later = retain_senders (retained ++ x ∷ []) names (adjust retain x table) in
      elim (Option-cases (lookup x table)) [
        | inl gone ↦ rw (gone, retain_senders) (lookup-release_sender_refs retained table n)
        | inr (there, found) ↦ elim (Result-cases later.0) [
          | inl (ss, all_found) ↦ absurd (ground (arith, found, all_found))
          | inr (missing_name, failed) ↦ ground (
            arith,
            found,
            lookup-retain_senders_err (retained ++ x ∷ []) names (adjust retain x table)
                missing_name n failed,
            lookup-adjust retain x n table,
            count-append n retained (x ∷ []),
            unshift-retain (count n retained) (lookup n table),
          )
        ]
      ]
