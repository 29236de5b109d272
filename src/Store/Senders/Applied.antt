-- ===== src/Store/Senders/Applied.antt =====
-- src/runtime/update_cache.go: what applySenderDelta does to the senders and to their
-- references.
use mathlib.Core.Path.{subst}
use forward_stub.Prelude.{
  Bool-cases, List, Option, Result-cases, String, [], ap, arith, false, if◌then◌else◌, inl, inr,
  none, refl, some, suc, sym, zero, ℕ, ◌&&◌, ◌∙◌, ◌∷◌, ◌≡◌,
}
use forward_stub.Prelude.Eq.{DeepEqual, eq_String, ◌==◌}
use forward_stub.Prelude.Int.{is_zero, pos}
use forward_stub.Prelude.Map.{Map, insert, is_none, keys, lookup, lookup-insert}
use forward_stub.Prelude.Names.{Distinct, Distinct-insert, contains, lookup-absent}
use forward_stub.Store.{SenderState, Store}
use forward_stub.Store.Senders.{
  Built, apply_sender_delta, build_changed, drop_unused, install, refs_of,
}
use forward_stub.Store.Tasks.{Holds, IsCounted, total}
use forward_stub.Task.{Sender}

module _ {S : Type 0} where
  Holds-refs :
      (o : Option (SenderState S)) (ss : SenderState S) (k : ℕ)
      → ss.refs ≡ refs_of o
      → Holds o k
      → Holds (some ss) k
  Holds-refs none ss k e h = e ∙ ap pos (sym h)
  Holds-refs (some old) ss k e h = e ∙ h

  insert-Holds :
      (name : String) (ss : SenderState S) (table : Map String (SenderState S))
      (counts : String → ℕ)
      → ss.refs ≡ refs_of (lookup name table)
      → ((n : String) → Holds (lookup n table) (counts n))
      → (n : String) → Holds (lookup n (insert name ss table)) (counts n)
  insert-Holds name ss table counts e h n =
      rw (lookup-insert name n ss table) (elim (Bool-cases (name == n)) [
        | inl same ↦
            let p : name ≡ n = (eq_String.beq_iff name n).0 same in
            rw same (
              subst (λ m. Holds (some ss) (counts m)) p
                (Holds-refs (lookup name table) ss (counts name) e (h name)))
        | inr other ↦ rw other (h n)
      ])

  install-Holds :
      (bs : List (Built S)) (table : Map String (SenderState S)) (counts : String → ℕ)
      → ((n : String) → Holds (lookup n table) (counts n))
      → (n : String) → Holds (lookup n (install bs table)) (counts n)
  unfolding install
  install-Holds [] table counts h n = h n
  install-Holds (b ∷ bs) table counts h n =
      install-Holds bs (insert b.name _ table) counts (insert-Holds b.name _ table counts refl h) n

  pub install-Distinct :
      (bs : List (Built S)) (table : Map String (SenderState S))
      → Distinct (keys table)
      → Distinct (keys (install bs table))
  unfolding install
  install-Distinct [] table d = d
  install-Distinct (b ∷ bs) table d = install-Distinct bs _ (Distinct-insert b.name _ table d)

  contains-keys-drop_unused :
      (next : Map String S) (table : Map String (SenderState S)) (n : String)
      → contains (keys table) n ≡ false
      → contains (keys (drop_unused next table).0) n ≡ false
  unfolding drop_unused
  contains-keys-drop_unused next [] n h = refl
  contains-keys-drop_unused next ((j, ss) ∷ table) n h =
      ground (arith, contains-keys-drop_unused next table n)

  drop_unused-Distinct :
      (next : Map String S) (table : Map String (SenderState S))
      → Distinct (keys table)
      → Distinct (keys (drop_unused next table).0)
  unfolding drop_unused
  drop_unused-Distinct next [] d = tt
  drop_unused-Distinct next ((j, ss) ∷ table) d =
      elim (Bool-cases (is_none (lookup j next) && is_zero ss.refs)) [
        | inl leaves ↦ rw leaves (drop_unused-Distinct next table d.1)
        | inr kept ↦
            rw kept
              (contains-keys-drop_unused next table j d.0, drop_unused-Distinct next table d.1)
      ]

  -- A sender that is not configured any more stays only while it is referred to.
  abbrev pub still_used : Option S → Option (SenderState S) → Option (SenderState S)
  still_used sc none = none
  still_used sc (some ss) = if is_none sc && is_zero ss.refs then none else some ss

  pub lookup-drop_unused :
      (next : Map String S) (table : Map String (SenderState S)) (n : String)
      → Distinct (keys table)
      → lookup n (drop_unused next table).0 ≡ still_used (lookup n next) (lookup n table)
  unfolding drop_unused
  lookup-drop_unused next [] n d = refl
  lookup-drop_unused next ((j, ss) ∷ table) n d = elim (Bool-cases (j == n)) [
    | inl same ↦
        let p : j ≡ n = (eq_String.beq_iff j n).0 same in
        let entry : lookup j next ≡ lookup n next = ap (λ k. lookup k next) p in
        let gone : lookup n table ≡ none =
          lookup-absent table n (subst (λ (x : String). contains (keys table) x ≡ false) p d.0) in
        ground (arith, same, entry, gone, lookup-drop_unused next table n d.1)
    | inr other ↦ ground (arith, other, lookup-drop_unused next table n d.1)
  ]

  still_used-Holds :
      (sc : Option S) (o : Option (SenderState S)) (k : ℕ) → Holds o k → Holds (still_used sc o) k
  still_used-Holds sc none k h = h
  still_used-Holds none (some ss) zero h = rw h refl
  still_used-Holds none (some ss) (suc k) h = rw h (ground arith)
  still_used-Holds (some c) (some ss) k h = h

  -- Whatever senders are added, changed or removed, and also when one cannot be built,
  -- `applySenderDelta` keeps the sender reference counts right.
  pub apply_sender_delta-IsCounted :
      ⦃e : DeepEqual S⦄ (build : String → S → Option Sender) (next : Map String S) (st : Store S)
      → IsCounted st
      → IsCounted (apply_sender_delta build next st).1
  unfolding apply_sender_delta
  apply_sender_delta-IsCounted build next st v =
      elim (Result-cases (build_changed build st.senders [] next)) [
        | inr (failure, failed) ↦
            rw (failed, apply_sender_delta)
              (record {
                tasks_distinct = v.tasks_distinct;
                senders_distinct = v.senders_distinct;
                counted = v.counted;
              })
        | inl (built, done) ↦
            let d = install-Distinct built st.senders v.senders_distinct in
            rw (done, apply_sender_delta)
              (record {
                tasks_distinct = v.tasks_distinct;
                senders_distinct = drop_unused-Distinct next (install built st.senders) d;
                counted = λ n. rw (lookup-drop_unused next (install built st.senders) n d) (
                    still_used-Holds (lookup n next) (lookup n (install built st.senders))
                      (total n st.tasks)
                      (install-Holds built st.senders (λ m. total m st.tasks) v.counted n));
              })
      ]

  pub apply_sender_delta-tasks :
      ⦃e : DeepEqual S⦄ (build : String → S → Option Sender) (next : Map String S) (st : Store S)
      → (apply_sender_delta build next st).1.tasks ≡ st.tasks
  unfolding apply_sender_delta
  apply_sender_delta-tasks build next st =
      elim (Result-cases (build_changed build st.senders [] next)) [
        | inr (failure, failed) ↦ rw (failed, apply_sender_delta) refl
        | inl (built, made) ↦ rw (made, apply_sender_delta) refl
      ]
