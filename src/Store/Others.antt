-- ===== src/Store/Others.antt =====
-- src/runtime/update_cache.go: addTask and removeTask leave the tasks of other names, and gcUnusedSenders all tasks.
use forward_stub.Config.Business.{TaskConfig}
use forward_stub.Pipeline.{Pipeline}
use forward_stub.Prelude.{
  Bool, Bool-cases, List, Option, Option-cases, Result, Result-cases, String, [], arith, err, false,
  if◌then◌else◌, inl, inr, none, ok, refl, some, true, ◌≡◌,
}
use forward_stub.Prelude.Eq.{eq_String, ◌==◌}
use forward_stub.Prelude.Map.{lookup, lookup-delete, lookup-insert, map_option}
use forward_stub.Store.{
  Store, add_task, bind_pipelines, gc_unused_senders, new_task, remove_task, retain_senders,
  with_senders,
}
use forward_stub.Task.{Sender, start}

-- The configuration under which a task runs.
abbrev pub running : {S : Type 0} → String → Store S → Option TaskConfig
running n st = map_option (λ ts. ts.cfg) (lookup n st.tasks)

module _ {S : Type 0} where
  -- The tasks that a step leaves under other names.
  pub add_task-other :
      (starts : Bool) (name n : String) (tc : TaskConfig) (st : Store S)
      → (name == n) ≡ false
      → lookup n (add_task starts name tc st).1.tasks ≡ lookup n st.tasks
  unfolding add_task with_senders
  add_task-other starts name n tc st other =
      elim (Result-cases (bind_pipelines st.pipelines tc.pipelines)) [
        | inr (pn, failed) ↦ rw (failed, add_task) refl
        | inl (pls, bound) ↦
            rw (bound, add_task)
              (finished starts pls (retain_senders [] tc.senders st.senders).0
                (record st { senders = (retain_senders [] tc.senders st.senders).1 }))
      ]
    where
      finished :
          (starts : Bool) (pls : List Pipeline) (found : Result String (List Sender)) (st : Store S)
          → lookup n (with_senders starts name tc pls found st).1.tasks ≡ lookup n st.tasks
      finished true pls (ok ss) st =
          rw
            (lookup-insert name n
              (record { name = name; cfg = tc; task = start (new_task name tc pls ss) }) st.tasks)
            (rw other refl)
      finished false pls (ok ss) st = refl
      finished starts pls (err sn) st = refl

  pub remove_task-other :
      (name n : String) (st : Store S)
      → (name == n) ≡ false
      → lookup n (remove_task name st).tasks ≡ lookup n st.tasks
  unfolding remove_task
  remove_task-other name n st other = elim (Option-cases (lookup name st.tasks)) [
    | inl absent ↦ rw (absent, remove_task) refl
    | inr (ts, found) ↦ rw (found, remove_task) (rw (lookup-delete name n st.tasks) (rw other refl))
  ]

  pub remove_task-gone :
      (name : String) (st : Store S) → lookup name (remove_task name st).tasks ≡ none
  unfolding remove_task
  remove_task-gone name st = elim (Option-cases (lookup name st.tasks)) [
    | inl absent ↦ rw (absent, remove_task) absent
    | inr (ts, found) ↦
        rw (found, remove_task)
          (rw (lookup-delete name name st.tasks) (rw ((eq_String.beq_iff name name).1 refl) refl))
  ]

  pub add_task-running :
      (starts : Bool) (name n : String) (tc : TaskConfig) (st : Store S)
      → (add_task starts name tc st).0 ≡ ok tt
      → running n (add_task starts name tc st).1 ≡ (if name == n then some tc else running n st)
  unfolding add_task with_senders
  add_task-running starts name n tc st h =
      elim (Result-cases (bind_pipelines st.pipelines tc.pipelines)) [
        | inr (pn, failed) ↦ absurd (ground (arith, h, failed))
        | inl (pls, bound) ↦
            rw (bound, add_task)
              (finished starts pls (retain_senders [] tc.senders st.senders).0
                (record st { senders = (retain_senders [] tc.senders st.senders).1 })
                (ground (arith, h, bound)))
      ]
    where
      finished :
          (starts : Bool) (pls : List Pipeline) (found : Result String (List Sender)) (st : Store S)
          → (with_senders starts name tc pls found st).0 ≡ ok tt
          → running n (with_senders starts name tc pls found st).1
            ≡ (if name == n then some tc else running n st)
      finished true pls (ok ss) st h =
          rw
            (lookup-insert name n
              (record { name = name; cfg = tc; task = start (new_task name tc pls ss) }) st.tasks)
            (ground arith)
      finished false pls (ok ss) st h = absurd (ground arith)
      finished starts pls (err sn) st h = absurd (ground arith)

  pub remove_task-running :
      (name n : String) (st : Store S)
      → running n (remove_task name st) ≡ (if name == n then none else running n st)
  remove_task-running name n st = elim (Bool-cases (name == n)) [
    | inl same ↦
        rw same (rw (← (eq_String.beq_iff name n).0 same) (rw (remove_task-gone name st) refl))
    | inr other ↦ rw other (rw (remove_task-other name n st other) refl)
  ]

  pub gc_unused_senders-tasks : (st : Store S) → (gc_unused_senders st).tasks ≡ st.tasks
  unfolding gc_unused_senders
  gc_unused_senders-tasks st = refl
