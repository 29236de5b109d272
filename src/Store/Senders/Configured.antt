-- ===== src/Store/Senders/Configured.antt =====
-- src/runtime/update_cache.go: every configured sender is in the store after applySenderDelta,
-- as it is configured.
use mathlib.Core.Path.{subst}
use forward_stub.Prelude.{
  Bool-cases, List, Option, Option-cases, Result-cases, String, [], ap, arith, false, if◌then◌else◌,
  inl, inr, none, ok, refl, some, sym, true, ◌++◌, ◌∙◌, ◌∷◌, ◌≡◌,
}
use forward_stub.Prelude.Eq.{DeepEqual, eq_String, ◌==◌}
use forward_stub.Prelude.Map.{Map, insert, keys, lookup, lookup-insert, map_option}
use forward_stub.Prelude.Names.{Distinct, contains}
use forward_stub.Runtime.Running.{replaced}
use forward_stub.Store.{Effect, SenderState, Store, closed_sender}
use forward_stub.Store.Senders.{
  Built, apply_sender_delta, build_changed, install, is_unchanged, refs_of, sender_of,
}
use forward_stub.Store.Senders.Applied.{install-Distinct, lookup-drop_unused, still_used}
use forward_stub.Task.{Sender}

-- The state of a configured sender, from what the store had under its name.
abbrev pub configured :
    {S : Type 0} ⦃e : DeepEqual S⦄
    → (String → S → Option Sender)
    → String
    → S
    → Option (SenderState S)
    → Option (SenderState S)
    → Option (SenderState S)
configured build n sc old now =
    if is_unchanged old sc
    then now
    else map_option (λ s. record { name = n; cfg = sc; s = s; refs = refs_of now }) (build n sc)

module _ {S : Type 0} ⦃e : DeepEqual S⦄ (build : String → S → Option Sender)
    (olds : Map String (SenderState S)) where
  absent-install :
      (next : Map String S) (before : List Effect) (bs : List (Built S))
      (table : Map String (SenderState S)) (n : String)
      → contains (keys next) n ≡ false
      → build_changed build olds before next ≡ ok bs
      → lookup n (install bs table) ≡ lookup n table
  unfolding build_changed install
  absent-install [] before bs table n c h = let same : [] ≡ bs = ground arith in rw (← same) refl
  absent-install ((j, c) ∷ rest) before bs table n a h =
      elim (Bool-cases (is_unchanged (lookup j olds) c)) [
        | inl same ↦ absent-install rest before bs table n (ground arith) (ground (arith, same))
        | inr changed ↦ elim (Option-cases (build j c)) [
          | inl failed ↦ absurd (ground (arith, changed, failed))
          | inr (s, made) ↦
              elim (Result-cases (build_changed build olds (before ++ closed_sender s ∷ []) rest)) [
                | inr (failure, failed) ↦ absurd (ground (arith, changed, made, failed))
                | inl (others, more) ↦
                    let b : Built S = record {
                      name = j;
                      cfg = c;
                      s = s;
                      old = sender_of (lookup j olds);
                    } in
                    let is : b ∷ others ≡ bs = ground (arith, changed, made, more) in
                    let ss : SenderState S = record {
                      name = j;
                      cfg = c;
                      s = s;
                      refs = refs_of (lookup j table);
                    } in
                    rw (← is) (
                      absent-install rest (before ++ closed_sender s ∷ []) others
                        (insert j ss table) n (ground arith) more
                      ∙ ground (arith, lookup-insert j n ss table))
              ]
        ]
      ]

  lookup-install :
      (next : Map String S) (before : List Effect) (bs : List (Built S))
      (table : Map String (SenderState S)) (n : String) (sc : S)
      → Distinct (keys next)
      → build_changed build olds before next ≡ ok bs
      → lookup n next ≡ some sc
      → lookup n (install bs table) ≡ configured build n sc (lookup n olds) (lookup n table)
  unfolding build_changed install
  lookup-install [] before bs table n sc d h l = cc
  lookup-install ((j, c) ∷ rest) before bs table n sc d h l =
      elim (Bool-cases (is_unchanged (lookup j olds) c)) [
        | inl same ↦
            let h' : build_changed build olds before rest ≡ ok bs = ground (arith, same) in
            elim (Bool-cases (j == n)) [
              | inl hit ↦
                  let p : j ≡ n = (eq_String.beq_iff j n).0 hit in
                  let is : c ≡ sc = ground (arith, hit) in
                  let kept : is_unchanged (lookup n olds) sc ≡ true =
                    subst (λ k. is_unchanged (lookup k olds) sc ≡ true) p (rw (← is) same) in
                  rw kept (
                    absent-install rest before bs table n
                      (subst (λ (x : String). contains (keys rest) x ≡ false) p d.0) h')
              | inr other ↦ lookup-install rest before bs table n sc d.1 h' (ground (arith, other))
            ]
        | inr changed ↦ elim (Option-cases (build j c)) [
          | inl failed ↦ absurd (ground (arith, changed, failed))
          | inr (s, made) ↦
              elim (Result-cases (build_changed build olds (before ++ closed_sender s ∷ []) rest)) [
                | inr (failure, failed) ↦ absurd (ground (arith, changed, made, failed))
                | inl (others, more) ↦
                    let b : Built S = record {
                      name = j;
                      cfg = c;
                      s = s;
                      old = sender_of (lookup j olds);
                    } in
                    let is : b ∷ others ≡ bs = ground (arith, changed, made, more) in
                    let ss : SenderState S = record {
                      name = j;
                      cfg = c;
                      s = s;
                      refs = refs_of (lookup j table);
                    } in
                    let table' = insert j ss table in
                    elim (Bool-cases (j == n)) [
                      | inl hit ↦
                          let p : j ≡ n = (eq_String.beq_iff j n).0 hit in
                          let this : c ≡ sc = ground (arith, hit) in
                          let stays =
                            absent-install rest (before ++ closed_sender s ∷ []) others table' n
                              (subst (λ (x : String). contains (keys rest) x ≡ false) p d.0) more in
                          let found : lookup n table' ≡ some ss =
                            ground (arith, hit, lookup-insert j n ss table) in
                          let wanted : configured build j c (lookup j olds) (lookup j table)
                              ≡ some ss =
                            rw (changed, made) refl in
                          rw (← is) (
                            stays
                            ∙ found
                            ∙ sym wanted
                            ∙ ap (λ k. configured build k c (lookup k olds) (lookup k table)) p
                            ∙ ap (λ k. configured build n k (lookup n olds) (lookup n table)) this)
                      | inr other ↦
                          let moved : lookup n table' ≡ lookup n table =
                            ground (arith, other, lookup-insert j n ss table) in
                          rw (← is) (
                            lookup-install rest (before ++ closed_sender s ∷ []) others table' n sc
                              d.1 more (ground (arith, other))
                            ∙ ap (configured build n sc (lookup n olds)) moved)
                    ]
              ]
        ]
      ]

still_used-some : {S : Type 0} (sc : S) (o : Option (SenderState S)) → still_used (some sc) o ≡ o
still_used-some sc none = refl
still_used-some sc (some ss) = refl

-- When `applySenderDelta` succeeds, the store has under each configured name the old state, if its
-- configuration is unchanged, and otherwise the sender that was built for the new configuration,
-- with the references that the old one had. The names are distinct in the
-- configuration and in the store.
pub apply_sender_delta-configured :
    {S : Type 0} ⦃e : DeepEqual S⦄ (build : String → S → Option Sender) (next : Map String S)
    (st : Store S) (replaced : List Sender) (n : String) (sc : S)
    → Distinct (keys next)
    → Distinct (keys st.senders)
    → (apply_sender_delta build next st).0 ≡ ok replaced
    → lookup n next ≡ some sc
    → lookup n (apply_sender_delta build next st).1.senders
      ≡ configured build n sc (lookup n st.senders) (lookup n st.senders)
unfolding apply_sender_delta
apply_sender_delta-configured build next st replaced n sc d ds h l =
    elim (Result-cases (build_changed build st.senders [] next)) [
      | inr (failure, failed) ↦ absurd (ground (arith, failed))
      | inl (built, done) ↦
          rw (done, apply_sender_delta)
            (lookup-drop_unused next (install built st.senders) n
                (install-Distinct built st.senders ds)
              ∙ ap (λ o. still_used o (lookup n (install built st.senders))) l
              ∙ still_used-some sc (lookup n (install built st.senders))
              ∙ lookup-install build st.senders next [] built st.senders n sc d done l)
    ]
