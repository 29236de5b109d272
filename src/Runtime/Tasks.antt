-- ===== src/Runtime/Tasks.antt =====
-- src/runtime/update_cache.go: the loops of applyBusinessDelta over the tasks keep the reference counts right.
use mathlib.Core.Path.{subst}
use forward_stub.Config.Business.{TaskConfig}
use forward_stub.Prelude.{
  Bool-cases, List, Result, String, [], arith, err, false, if◌then◌else◌, inl, inr, none, ok, refl,
  true, ◌∙◌, ◌∷◌, ◌≡◌,
}
use forward_stub.Prelude.Eq.{eq_String, ◌==◌}
use forward_stub.Prelude.Map.{Map, lookup}
use forward_stub.Prelude.Names.{Distinct, contains}
use forward_stub.Runtime.{
  Act, Stored, World, add_tasks, after_step, config_of, no_step, replace_tasks,
}
use forward_stub.Store.{RuntimeError, add_task, remove_task}
use forward_stub.Store.Others.{add_task-other, remove_task-gone, remove_task-other}
use forward_stub.Store.Tasks.{IsCounted, add_task-IsCounted, remove_task-IsCounted}

-- A sequence of steps keeps what each of them keeps.
pub after_keep :
    {A : Type 0} (P : A → Type 0) (r : Result RuntimeError (Unit {0}) × A) (second : Act A)
    → P r.1
    → ((a : A) → P a → P (second a).1)
    → P (after_step r second).1
after_keep P (ok u, b) second p g = g b p
after_keep P (err e, b) second p g = p

pub after_keep_both :
    (first second : Act Stored) (st : Stored)
    → IsCounted (first st).1
    → (IsCounted (first st).1 → IsCounted (second (first st).1).1)
    → IsCounted (after_step (first st) second).1
after_keep_both first second st v g = go (first st) v g
  where
    go :
        (r : Result RuntimeError (Unit {0}) × Stored)
        → IsCounted r.1
        → (IsCounted r.1 → IsCounted (second r.1).1)
        → IsCounted (after_step r second).1
    go (ok u, b) v g = g v
    go (err e, b) v g = v

module _ (w : World) (tasks : Map String TaskConfig) where
  replace_one_task :
      (added : List String) (name : String) (st : Stored)
      → IsCounted st
      → IsCounted
          ((if contains added name
              then add_task (w.starts name) name (config_of tasks name)
              else no_step)
            (remove_task name st)).1
  replace_one_task added name st v = elim (Bool-cases (contains added name)) [
    | inl again ↦ rw again (
        add_task-IsCounted (w.starts name) name (config_of tasks name) (remove_task name st)
          (remove_task-gone name st) (remove_task-IsCounted name st v))
    | inr once ↦ rw once (remove_task-IsCounted name st v)
  ]

  pub replace_tasks-IsCounted :
      (added removed : List String) (st : Stored)
      → IsCounted st
      → IsCounted (replace_tasks w tasks added removed st).1
  unfolding replace_tasks
  replace_tasks-IsCounted added [] st v = v
  replace_tasks-IsCounted added (name ∷ removed) st v =
      after_keep IsCounted
        ((if contains added name
            then add_task (w.starts name) name (config_of tasks name)
            else no_step)
          (remove_task name st))
        (replace_tasks w tasks added removed) (replace_one_task added name st v)
        (replace_tasks-IsCounted added removed)

  replaced_other :
      (added : List String) (name n : String) (st : Stored)
      → (name == n) ≡ false
      → lookup n
          ((if contains added name
              then add_task (w.starts name) name (config_of tasks name)
              else no_step)
            (remove_task name st)).1.tasks
        ≡ lookup n st.tasks
  replaced_other added name n st other = elim (Bool-cases (contains added name)) [
    | inl again ↦ rw again (
        add_task-other (w.starts name) name n (config_of tasks name) (remove_task name st) other
        ∙ remove_task-other name n st other)
    | inr once ↦ rw once (remove_task-other name n st other)
  ]

  pub replace_tasks-other :
      (added removed : List String) (n : String) (st : Stored)
      → contains removed n ≡ false
      → lookup n (replace_tasks w tasks added removed st).1.tasks ≡ lookup n st.tasks
  unfolding replace_tasks
  replace_tasks-other added [] n st h = refl
  replace_tasks-other added (name ∷ removed) n st h =
      after_keep (λ (a : Stored). lookup n a.tasks ≡ lookup n st.tasks)
        ((if contains added name
            then add_task (w.starts name) name (config_of tasks name)
            else no_step)
          (remove_task name st))
        (replace_tasks w tasks added removed) (replaced_other added name n st (ground arith))
        (λ a e. replace_tasks-other added removed n a (ground arith) ∙ e)

  -- The names to be added that are not removed first are new.
  abbrev pub AreNew : List String → List String → Stored → Type 0
  AreNew removed added st =
      (n : String) → contains added n ≡ true → contains removed n ≡ false → lookup n st.tasks ≡ none

  still_new :
      (removed added : List String) (name : String) (st : Stored)
      → contains removed name ≡ false
      → Distinct (name ∷ added)
      → AreNew removed (name ∷ added) st
      → AreNew removed added (add_task (w.starts name) name (config_of tasks name) st).1
  still_new removed added name st fresh d new n c r = elim (Bool-cases (name == n)) [
    | inl same ↦ cc (
      subst (λ (x : String). contains added x ≡ false) ((eq_String.beq_iff name n).0 same) d.0,
      c,
    )
    | inr other ↦
        add_task-other (w.starts name) name n (config_of tasks name) st other
        ∙ new n (ground (arith, c)) r
  ]

  pub add_tasks-IsCounted :
      (removed added : List String) (st : Stored)
      → Distinct added
      → AreNew removed added st
      → IsCounted st
      → IsCounted (add_tasks w tasks removed added st).1
  unfolding add_tasks
  add_tasks-IsCounted removed [] st d new v = v
  add_tasks-IsCounted removed (name ∷ added) st d new v =
      elim (Bool-cases (contains removed name)) [
        | inl before ↦
            rw before
              (add_tasks-IsCounted removed added st d.1 (λ n c. new n (ground (arith, c))) v)
        | inr fresh ↦ rw fresh (
            let first = add_task (w.starts name) name (config_of tasks name) in
            after_keep_both first (add_tasks w tasks removed added) st
              (add_task-IsCounted (w.starts name) name (config_of tasks name) st
                (new name (ground (arith, eq_String.beq_iff name name)) fresh) v)
              (add_tasks-IsCounted removed added (first st).1 d.1
                (still_new removed added name st fresh d new)))
      ]
