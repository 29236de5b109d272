-- ===== src/Store/Sweep.antt =====
-- src/runtime/update_cache.go, gcUnusedSenders: what the sweep of unused senders leaves.
use mathlib.Core.Path.{subst}
use forward_stub.Prelude.{
  Bool-cases, Option, String, [], arith, false, if◌then◌else◌, inl, inr, nat_eq, none, refl, some,
  suc, zero, ℕ, ◌∙◌, ◌∷◌, ◌≡◌,
}
use forward_stub.Prelude.Eq.{eq_String, ◌==◌}
use forward_stub.Prelude.Int.{is_nonpos}
use forward_stub.Prelude.Map.{Map, keys, lookup}
use forward_stub.Prelude.Names.{Distinct, contains, lookup-absent}
use forward_stub.Store.{SenderState, Store, gc_unused_senders, sweep}
use forward_stub.Store.Tasks.{Holds, IsCounted, total}

module _ {S : Type 0} where
  contains-keys-sweep :
      (table : Map String (SenderState S)) (n : String)
      → contains (keys table) n ≡ false
      → contains (keys (sweep table).0) n ≡ false
  unfolding sweep
  contains-keys-sweep [] n h = refl
  contains-keys-sweep ((j, ss) ∷ table) n h = ground (arith, contains-keys-sweep table n)

  sweep-Distinct :
      (table : Map String (SenderState S)) → Distinct (keys table) → Distinct (keys (sweep table).0)
  unfolding sweep
  sweep-Distinct [] d = tt
  sweep-Distinct ((j, ss) ∷ table) d = elim (Bool-cases (is_nonpos ss.refs)) [
    | inl unused ↦ rw unused (sweep-Distinct table d.1)
    | inr used ↦ rw used (contains-keys-sweep table j d.0, sweep-Distinct table d.1)
  ]

  abbrev only_used : Option (SenderState S) → Option (SenderState S)
  only_used none = none
  only_used (some ss) = if is_nonpos ss.refs then none else some ss

  lookup-sweep :
      (table : Map String (SenderState S)) (n : String)
      → Distinct (keys table)
      → lookup n (sweep table).0 ≡ only_used (lookup n table)
  unfolding sweep
  lookup-sweep [] n d = refl
  lookup-sweep ((j, ss) ∷ table) n d = elim (Bool-cases (j == n)) [
    | inl same ↦
        let e : j ≡ n = (eq_String.beq_iff j n).0 same in
        let gone : lookup n table ≡ none =
          lookup-absent table n (subst (λ (x : String). contains (keys table) x ≡ false) e d.0) in
        ground (arith, same, lookup-sweep table n d.1, gone)
    | inr other ↦ ground (arith, other, lookup-sweep table n d.1)
  ]

  used-Holds :
      (o : Option (SenderState S)) (k : ℕ)
      → Holds o k
      → only_used o ≡ (if nat_eq k 0 then none else o)
  used-Holds none k h = ground arith
  used-Holds (some ss) zero h = ground arith
  used-Holds (some ss) (suc k) h = ground arith

  -- If the reference counts are right, the sweep takes exactly the senders away that no running task names: the others stay with
  -- their state, and the counts stay right.
  pub gc_unused_senders_lem :
      (st : Store S)
      → IsCounted st
      → ((n : String)
          → lookup n (gc_unused_senders st).senders
            ≡ (if nat_eq (total n st.tasks) 0 then none else lookup n st.senders))
        × IsCounted (gc_unused_senders st)
  unfolding gc_unused_senders
  gc_unused_senders_lem st v = (
    left,
    record {
      tasks_distinct = v.tasks_distinct;
      senders_distinct = sweep-Distinct st.senders v.senders_distinct;
      counted = λ n. rw (left n) (kept (lookup n st.senders) (total n st.tasks) (v.counted n));
    },
  )
    where
      left :
          (n : String)
          → lookup n (sweep st.senders).0
            ≡ (if nat_eq (total n st.tasks) 0 then none else lookup n st.senders)
      left n =
          lookup-sweep st.senders n v.senders_distinct
          ∙ used-Holds (lookup n st.senders) (total n st.tasks) (v.counted n)

      kept :
          (o : Option (SenderState S)) (k : ℕ)
          → Holds o k
          → Holds (if nat_eq k 0 then none else o) k
      kept o zero h = refl
      kept o (suc k) h = let e : nat_eq (suc k) 0 ≡ false = ground arith in rw e h
