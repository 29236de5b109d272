-- ===== src/Store/Tasks.antt =====
-- src/runtime/update_cache.go, addTask and removeTask. The reference counts are right: each
-- sender of the store is counted once for each time that a running task names it, and every
-- sender that a task names is there.
use mathlib.Core.Path.{subst}
use forward_stub.Config.Business.{TaskConfig}
use forward_stub.Pipeline.{Pipeline}
use forward_stub.Prelude.{
  Bool, Bool-cases, List, Option, Option-cases, Result-cases, String, [], arith, false, inl, inr,
  none, ok, refl, some, sym, ℕ, ◌++◌, ◌+◌, ◌∙◌, ◌∷◌, ◌≡◌,
}
use forward_stub.Prelude.Eq.{eq_String, ◌==◌}
use forward_stub.Prelude.Int.{dec_by, dec_by-pos, inc_by, inc_by-pos, pos}
use forward_stub.Prelude.Map.{Map, adjust, delete, insert, keys, lookup, lookup-adjust, map_option}
use forward_stub.Prelude.Names.{Distinct, Distinct-delete, Distinct-insert, contains, keys-adjust}
use forward_stub.Store.{
  SenderState, Store, TaskState, add_task, bind_pipelines, let_go, release_sender_refs, remove_task,
  retain, retain_senders, with_senders,
}
use forward_stub.Store.References.{
  count, lookup-release_sender_refs, lookup-retain_senders_err, lookup-retain_senders_ok, shift,
}
use forward_stub.Task.{Sender}

-- How often the running tasks name a sender.
abbrev pub total : String → Map String TaskState → ℕ
total n [] = 0
total n ((name, ts) ∷ tasks) = count n ts.cfg.senders + total n tasks

-- What is in the store for a sender that is named `k` times.
abbrev pub Holds : {S : Type 0} → Option (SenderState S) → ℕ → Type 0
Holds none k = k ≡ 0
Holds (some ss) k = ss.refs ≡ pos k

pub record IsCounted {S : Type 0} (st : Store S) : Type 0 where
  pub tasks_distinct : Distinct (keys st.tasks)
  pub senders_distinct : Distinct (keys st.senders)
  pub counted : (n : String) → Holds (lookup n st.senders) (total n st.tasks)

total-insert :
    (n name : String) (ts : TaskState) (tasks : Map String TaskState)
    → lookup name tasks ≡ none
    → total n (insert name ts tasks) ≡ count n ts.cfg.senders + total n tasks
total-insert n name ts [] h = refl
total-insert n name ts ((j, us) ∷ tasks) h = ground (arith, total-insert n name ts tasks)

delete-absent :
    (name : String) (tasks : Map String TaskState)
    → contains (keys tasks) name ≡ false
    → delete name tasks ≡ tasks
delete-absent name [] h = refl
delete-absent name ((j, us) ∷ tasks) h = ground (arith, delete-absent name tasks)

total-delete :
    (n name : String) (ts : TaskState) (tasks : Map String TaskState)
    → Distinct (keys tasks)
    → lookup name tasks ≡ some ts
    → total n tasks ≡ count n ts.cfg.senders + total n (delete name tasks)
total-delete n name ts [] d h = cc
total-delete n name ts ((j, us) ∷ tasks) d h = elim (Bool-cases (j == name)) [
  | inl same ↦
      let e : j ≡ name = (eq_String.beq_iff j name).0 same in
      let gone = subst (λ (x : String). contains (keys tasks) x ≡ false) e d.0 in
      ground (arith, same, delete-absent name tasks gone)
  | inr other ↦ ground (arith, other, total-delete n name ts tasks d.1)
]

Holds-inc :
    {S : Type 0} (o : Option (SenderState S)) (k m : ℕ)
    → ((o ≡ none) → k ≡ 0)
    → Holds o m
    → Holds (map_option (shift inc_by k) o) (k + m)
Holds-inc none k m h e = omega (arith, h refl)
Holds-inc (some ss) k m h e = rw e (inc_by-pos k m)

Holds-dec :
    {S : Type 0} (o : Option (SenderState S)) (k m : ℕ)
    → Holds o (k + m)
    → Holds (map_option (shift dec_by k) o) m
Holds-dec none k m e = omega arith
Holds-dec (some ss) k m e = rw e (dec_by-pos k m)

module _ {S : Type 0} where
  keys-release_sender_refs :
      (names : List String) (table : Map String (SenderState S))
      → keys (release_sender_refs names table) ≡ keys table
  unfolding release_sender_refs
  keys-release_sender_refs [] table = refl
  keys-release_sender_refs (x ∷ names) table =
      keys-release_sender_refs names (adjust let_go x table) ∙ keys-adjust let_go x table

  keys-retain_senders :
      (retained names : List String) (table : Map String (SenderState S))
      → keys (retain_senders retained names table).1 ≡ keys table
  unfolding retain_senders
  keys-retain_senders retained [] table = refl
  keys-retain_senders retained (x ∷ names) table = ground (
    arith,
    keys-retain_senders (retained ++ x ∷ []) names (adjust retain x table),
    keys-adjust retain x table,
    keys-release_sender_refs retained table,
  )

  -- The senders that were found are all there.
  retained_all :
      (retained names : List String) (table : Map String (SenderState S)) (ss : List Sender)
      (n : String)
      → (retain_senders retained names table).0 ≡ ok ss
      → lookup n table ≡ none
      → count n names ≡ 0
  unfolding retain_senders
  retained_all retained [] table ss n e gone = refl
  retained_all retained (x ∷ names) table ss n e gone =
      let later = retain_senders (retained ++ x ∷ []) names (adjust retain x table) in
      elim (Result-cases later.0) [
        | inl (ss', all_found) ↦ ground (
          arith,
          all_found,
          eq_String.beq_iff x n,
          retained_all (retained ++ x ∷ []) names (adjust retain x table) ss' n all_found,
          lookup-adjust retain x n table,
        )
        | inr (missing_name, failed) ↦ absurd (ground (arith, failed))
      ]

  -- Removing a task keeps the sender reference counts right.
  pub remove_task-IsCounted :
      (name : String) (st : Store S) → IsCounted st → IsCounted (remove_task name st)
  unfolding remove_task
  remove_task-IsCounted name st v = elim (Option-cases (lookup name st.tasks)) [
    | inl absent ↦ rw (absent, remove_task) v
    | inr (ts, found) ↦
        rw (found, remove_task)
          (record {
            tasks_distinct = Distinct-delete name st.tasks v.tasks_distinct;
            senders_distinct =
                rw (keys-release_sender_refs ts.cfg.senders st.senders) v.senders_distinct;
            counted = λ n. rw (lookup-release_sender_refs ts.cfg.senders st.senders n) (
                Holds-dec (lookup n st.senders) (count n ts.cfg.senders)
                  (total n (delete name st.tasks))
                  (subst (Holds (lookup n st.senders))
                    (total-delete n name ts st.tasks v.tasks_distinct found) (v.counted n)));
          })
  ]

  shift-zero : (o : Option (SenderState S)) → map_option (shift dec_by 0) o ≡ o
  shift-zero none = refl
  shift-zero (some ss) = refl

  -- After the loop over a task's senders the counts are those with the task.
  retained-Holds :
      (tc : TaskConfig) (st : Store S) (ss : List Sender) (n : String)
      → IsCounted st
      → (retain_senders [] tc.senders st.senders).0 ≡ ok ss
      → Holds
          (lookup n (retain_senders [] tc.senders st.senders).1)
          (count n tc.senders + total n st.tasks)
  retained-Holds tc st ss n v found =
      rw (lookup-retain_senders_ok [] tc.senders st.senders ss n found) (
        Holds-inc (lookup n st.senders) (count n tc.senders) (total n st.tasks)
          (retained_all [] tc.senders st.senders ss n found) (v.counted n))

  with_senders-IsCounted :
      (starts : Bool) (name : String) (tc : TaskConfig) (pipelines : List Pipeline) (st : Store S)
      → lookup name st.tasks ≡ none
      → IsCounted st
      → IsCounted
          (with_senders starts name tc pipelines
            (retain_senders [] tc.senders st.senders).0
            (record st { senders = (retain_senders [] tc.senders st.senders).1 })).1
  unfolding with_senders
  with_senders-IsCounted starts name tc pipelines st absent v =
      let out = retain_senders [] tc.senders st.senders in
      let same_keys = keys-retain_senders [] tc.senders st.senders in
      let senders_distinct : Distinct (keys out.1) = rw same_keys v.senders_distinct in
      elim (Result-cases out.0) [
        | inr (sn, failed) ↦ rw failed (record {
          tasks_distinct = v.tasks_distinct;
          senders_distinct = senders_distinct;
          counted = λ n.
              rw (lookup-retain_senders_err [] tc.senders st.senders sn n failed)
                (rw (shift-zero (lookup n st.senders)) (v.counted n));
        })
        | inl (ss, found) ↦ elim (Bool-cases starts) [
          | inl good ↦
              rw (found, good)
                (record {
                  tasks_distinct = Distinct-insert name _ st.tasks v.tasks_distinct;
                  senders_distinct = senders_distinct;
                  counted = λ n.
                      subst (Holds (lookup n out.1)) (sym (total-insert n name _ st.tasks absent))
                        (retained-Holds tc st ss n v found);
                })
          | inr bad ↦
              rw (found, bad)
                (record {
                  tasks_distinct = v.tasks_distinct;
                  senders_distinct =
                      rw (keys-release_sender_refs tc.senders out.1) senders_distinct;
                  counted = λ n. rw (lookup-release_sender_refs tc.senders out.1 n) (
                      Holds-dec (lookup n out.1) (count n tc.senders) (total n st.tasks)
                        (retained-Holds tc st ss n v found));
                })
        ]
      ]

  -- Adding a task under a new name keeps the sender reference counts right, whether it succeeds, a pipeline or a
  -- sender is missing, or the task does not start.
  pub add_task-IsCounted :
      (starts : Bool) (name : String) (tc : TaskConfig) (st : Store S)
      → lookup name st.tasks ≡ none
      → IsCounted st
      → IsCounted (add_task starts name tc st).1
  unfolding add_task
  add_task-IsCounted starts name tc st absent v =
      elim (Result-cases (bind_pipelines st.pipelines tc.pipelines)) [
        | inl (pipelines, bound) ↦
            rw (bound, add_task) (with_senders-IsCounted starts name tc pipelines st absent v)
        | inr (pn, failed) ↦ rw (failed, add_task) v
      ]
