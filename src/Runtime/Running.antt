-- ===== src/Runtime/Running.antt =====
-- src/runtime/update_cache.go: the configurations of the running tasks after the loops over the tasks.
use forward_stub.Config.Business.{TaskConfig}
use forward_stub.Delta.{BusinessDeltaPlan}
use forward_stub.Prelude.{
  Bool, Bool-cases, List, Option, Result, String, [], ap, arith, err, false, if◌then◌else◌, inl,
  inr, none, not, ok, refl, some, true, ◌&&◌, ◌∙◌, ◌∷◌, ◌≡◌,
}
use forward_stub.Prelude.Eq.{eq_String, ◌==◌}
use forward_stub.Prelude.Map.{Map, lookup, map_option}
use forward_stub.Prelude.Names.{contains}
use forward_stub.Runtime.{
  Act, Stored, World, add_tasks, after_step, always_ok, config_of, no_step, replace_tasks,
}
use forward_stub.Runtime.Update.{change_tasks, gc_stages, task_configs}
use forward_stub.Store.{RuntimeError, TaskState, add_task, gc_unused_senders, remove_task}
use forward_stub.Store.Cache.{rebuild_stage_task_refs}
use forward_stub.Store.Others.{
  add_task-running, gc_unused_senders-tasks, remove_task-running, running,
}

-- What holds after two steps that both succeed.
pub after_ok :
    {A : Type 0} (P Q : A → Type 0) (r : Result RuntimeError (Unit {0}) × A) (second : Act A)
    → (r.0 ≡ ok tt → P r.1)
    → ((a : A) → P a → (second a).0 ≡ ok tt → Q (second a).1)
    → (after_step r second).0 ≡ ok tt
    → Q (after_step r second).1
after_ok P Q (ok tt, b) second p g h = g b (p refl) h
after_ok P Q (err e, b) second p g h = absurd (ground arith)

module _ (w : World) (tasks : Map String TaskConfig) (n : String) where
  -- The task of the name, once the loop over the removed ones is through.
  abbrev pub replaced : List String → List String → Option TaskConfig → Option TaskConfig
  replaced added removed o =
      if contains removed n
      then (if contains added n then some (config_of tasks n) else none)
      else o

  replace_one-running :
      (added : List String) (name : String) (st : Stored)
      → ((if contains added name
            then add_task (w.starts name) name (config_of tasks name)
            else no_step)
          (remove_task name st)).0
        ≡ ok tt
      → running n
          ((if contains added name
              then add_task (w.starts name) name (config_of tasks name)
              else no_step)
            (remove_task name st)).1
        ≡ (if name == n
            then (if contains added n then some (config_of tasks n) else none)
            else running n st)
  replace_one-running added name st = elim (Bool-cases (contains added name)) [
    | inl again ↦ rw again (λ h.
        add_task-running (w.starts name) name n (config_of tasks name) (remove_task name st) h
        ∙ by_name again)
    | inr once ↦ rw once (λ h. remove_task-running name n st ∙ by_name_once once)
  ]
    where
      by_name :
          contains added name ≡ true
          → (if name == n then some (config_of tasks name) else running n (remove_task name st)) ≡ (
              if name == n
              then (if contains added n then some (config_of tasks n) else none)
              else running n st)
      by_name again = elim (Bool-cases (name == n)) [
        | inl same ↦ rw same (rw (← (eq_String.beq_iff name n).0 same) (rw again refl))
        | inr other ↦ rw other (rw (remove_task-running name n st) (rw other refl))
      ]

      by_name_once :
          contains added name ≡ false
          → (if name == n then none else running n st) ≡ (
              if name == n
              then (if contains added n then some (config_of tasks n) else none)
              else running n st)
      by_name_once once = elim (Bool-cases (name == n)) [
        | inl same ↦ rw same (rw (← (eq_String.beq_iff name n).0 same) (rw once refl))
        | inr other ↦ rw other refl
      ]

  replace_tasks-running :
      (added removed : List String) (st : Stored)
      → (replace_tasks w tasks added removed st).0 ≡ ok tt
      → running n (replace_tasks w tasks added removed st).1 ≡ replaced added removed (running n st)
  unfolding replace_tasks
  replace_tasks-running added [] st h = refl
  replace_tasks-running added (name ∷ removed) st h =
      let step =
        (if contains added name
            then add_task (w.starts name) name (config_of tasks name)
            else no_step)
          (remove_task name st) in
      let now : Option TaskConfig =
        if name == n
        then (if contains added n then some (config_of tasks n) else none)
        else running n st in
      after_ok (λ (a : Stored). running n a ≡ now)
        (λ (a : Stored). running n a ≡ replaced added (name ∷ removed) (running n st)) step
        (replace_tasks w tasks added removed) (replace_one-running added name st)
        (λ a e ok_rest. replace_tasks-running added removed a ok_rest ∙ (rw e (ground arith))) h

  add_tasks-running :
      (removed added : List String) (st : Stored)
      → (add_tasks w tasks removed added st).0 ≡ ok tt
      → running n (add_tasks w tasks removed added st).1 ≡ (
          if contains added n && not (contains removed n)
          then some (config_of tasks n)
          else running n st)
  unfolding add_tasks
  add_tasks-running removed [] st h = refl
  add_tasks-running removed (name ∷ added) st h =
      let step =
        (if contains removed name
            then no_step
            else add_task (w.starts name) name (config_of tasks name))
          st in
      let now : Option TaskConfig =
        if name == n && not (contains removed n) then some (config_of tasks n) else running n st in
      after_ok (λ (a : Stored). running n a ≡ now)
        (λ (a : Stored). running n a ≡ (
          if contains (name ∷ added) n && not (contains removed n)
          then some (config_of tasks n)
          else running n st))
        step (add_tasks w tasks removed added) (added_one (contains removed name) refl)
        (λ a e ok_rest. add_tasks-running removed added a ok_rest ∙ (rw e (ground arith))) h
    where
      added_one :
          (b : Bool)
          → contains removed name ≡ b
          → ((if b then no_step else add_task (w.starts name) name (config_of tasks name)) st).0
            ≡ ok tt
          → running n
              ((if b then no_step else add_task (w.starts name) name (config_of tasks name)) st).1
            ≡ (if name == n && not (contains removed n)
                then some (config_of tasks n)
                else running n st)
      added_one true e h = elim (Bool-cases (name == n)) [
        | inl same ↦ rw same (rw (← (eq_String.beq_iff name n).0 same) (rw e refl))
        | inr other ↦ rw other refl
      ]
      added_one false e h =
          add_task-running (w.starts name) name n (config_of tasks name) st h
          ∙ elim (Bool-cases (name == n)) [
            | inl same ↦ rw same (rw (← (eq_String.beq_iff name n).0 same) (rw e refl))
            | inr other ↦ rw other refl
          ]

  pub change_tasks-running :
      (plan : BusinessDeltaPlan) (st : Stored)
      → (change_tasks w tasks plan st).0 ≡ ok tt
      → running n (change_tasks w tasks plan st).1 ≡ (
          if contains plan.task_added n
          then some (config_of tasks n)
          else if contains plan.task_removed n
          then none
          else running n st)
  unfolding change_tasks gc_stages
  change_tasks-running plan st =
      let r1 = replace_tasks w tasks plan.task_added plan.task_removed st in
      let r2 = after_step r1 (add_tasks w tasks plan.task_removed plan.task_added) in
      let collect = always_ok (λ (st : Stored). record st {
        stage_cache =
            rebuild_stage_task_refs st.pipeline_stage_sigs (task_configs st.tasks) st.stage_cache;
      }) in
      let r3 = after_step r2 collect in
      let sweep_senders = always_ok gc_unused_senders in
      let Now = λ (a : Stored). running n a ≡ (
        if contains plan.task_added n
        then some (config_of tasks n)
        else if contains plan.task_removed n
        then none
        else running n st) in
      after_ok Now Now (after_step r3 sweep_senders) (always_ok gc_stages)
        (after_ok Now Now r3 sweep_senders
          (after_ok Now Now r2 collect
            (after_ok (λ a. running n a ≡ replaced plan.task_added plan.task_removed (running n st))
              Now r1 (add_tasks w tasks plan.task_removed plan.task_added)
              (replace_tasks-running plan.task_added plan.task_removed st)
              (λ a e h.
                add_tasks-running plan.task_removed plan.task_added a h ∙ (rw e (ground arith))))
            (λ a e h. e))
          (λ a e h.
            ap (λ (m : Map String TaskState). map_option (λ ts. ts.cfg) (lookup n m))
              (gc_unused_senders-tasks a)
            ∙ e))
        (λ a e h. e)
