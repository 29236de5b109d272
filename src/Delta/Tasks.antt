-- ===== src/Delta/Tasks.antt =====
-- src/runtime/update_cache.go, expandTaskDeltaForSenderChanges and
-- expandTaskDeltaForPipelineChanges: which tasks are rebuilt because of the senders and
-- pipelines that they use.
use mathlib.Core.Path.{subst}
use forward_stub.Config.Business.{TaskConfig}
use forward_stub.Delta.{
  add_name, expand_loop, expand_step, expand_task_delta, expand_task_delta_for_sender_changes,
  has_changes, plan_tasks, uses_changed,
}
use forward_stub.Dispatch.{names_of}
use forward_stub.Prelude.{
  Bool, Bool-cases, List, Option, String, [], ap, arith, false, if◌then◌else◌, inl, inr, none, refl,
  some, ◌&&◌, ◌++◌, ◌||◌, ◌∷◌, ◌≡◌,
}
use forward_stub.Prelude.Eq.{eq_String, ◌==◌}
use forward_stub.Prelude.Map.{Map, keys, lookup}
use forward_stub.Prelude.Names.{
  Distinct, contains, contains-append, contains-sort_strings, lookup-absent,
}

-- A task of both configurations refers to a changed name, in either of them.
abbrev pub affected :
    (TaskConfig → List String) → List String → Option TaskConfig → Option TaskConfig → Bool
affected names_of changed (some old_tc) (some new_tc) =
    uses_changed (names_of old_tc) changed || uses_changed (names_of new_tc) changed
affected names_of changed _ _ = false

contains-add_name :
    (names : List String) (name n : String)
    → contains (add_name names name) n ≡ (contains names n || name == n)
contains-add_name names name n =
    ground (arith, contains-append names (name ∷ []) n, eq_String.beq_iff name n)

-- A name is in both lists of a task delta as often as `b` says it was added.
abbrev pub Extends : List String × List String → List String × List String → String → Bool → Type 0
Extends tasks tasks' n b =
    (contains tasks'.0 n ≡ (contains tasks.0 n || b))
    × (contains tasks'.1 n ≡ (contains tasks.1 n || b))

expand_step-Extends :
    (names_of : TaskConfig → List String) (changed : List String) (name : String)
    (old_tc : TaskConfig) (found : Option TaskConfig) (tasks : List String × List String)
    (n : String)
    → Extends tasks
        (expand_step names_of changed name old_tc found tasks)
        n
        (affected names_of changed (some old_tc) found && name == n)
unfolding expand_step
expand_step-Extends names_of changed name old_tc none tasks n = (ground arith, ground arith)
expand_step-Extends names_of changed name old_tc (some new_tc) tasks n = (
  ground (arith, contains-add_name tasks.0 name n),
  ground (arith, contains-add_name tasks.1 name n),
)

module _ (names_of : TaskConfig → List String) (changed : List String) (new : Map String TaskConfig)
    (n : String) where
  expand_loop-Extends :
      (old : Map String TaskConfig) (tasks : List String × List String)
      → Distinct (keys old)
      → Extends tasks
          (expand_loop names_of changed new old tasks)
          n
          (affected names_of changed (lookup n old) (lookup n new))
  unfolding expand_loop
  expand_loop-Extends [] tasks d = (ground arith, ground arith)
  expand_loop-Extends ((name, old_tc) ∷ old) tasks d =
      let tasks' = expand_step names_of changed name old_tc (lookup name new) tasks in
      let one = expand_step-Extends names_of changed name old_tc (lookup name new) tasks n in
      let rest = expand_loop-Extends old tasks' d.1 in
      elim (Bool-cases (name == n)) [
        | inl same ↦
            let p : name ≡ n = (eq_String.beq_iff name n).0 same in
            let here : lookup name new ≡ lookup n new = ap (λ k. lookup k new) p in
            let gone : lookup n old ≡ none =
              lookup-absent old n (subst (λ k. contains (keys old) k ≡ false) p d.0) in
            (
              ground (arith, one.0, rest.0, same, here, gone),
              ground (arith, one.1, rest.1, same, here, gone),
            )
        | inr other ↦ (ground (arith, one.0, rest.0, other), ground (arith, one.1, rest.1, other))
      ]

uses_changed-none : (names : List String) → uses_changed names [] ≡ false
unfolding uses_changed
uses_changed-none [] = refl
uses_changed-none (x ∷ names) = uses_changed-none names

affected-none :
    (names_of : TaskConfig → List String) (old new : Option TaskConfig)
    → affected names_of [] old new ≡ false
affected-none names_of none new = refl
affected-none names_of (some a) none = refl
affected-none names_of (some a) (some b) =
    rw (uses_changed-none (names_of a), uses_changed-none (names_of b))

module _ (names_of : TaskConfig → List String) (old new : Map String TaskConfig) (n : String)
    (distinct : Distinct (keys old)) where
  -- The change of the task delta that the entries of the names in `changes` bring about.
  abbrev pub by_changes : List String × List String → Bool
  by_changes changes = affected names_of (changes.0 ++ changes.1) (lookup n old) (lookup n new)

  expand_task_delta-Extends :
      (tasks changes : List String × List String)
      → Extends tasks (expand_task_delta names_of old new tasks changes) n (by_changes changes)
  unfolding expand_task_delta
  expand_task_delta-Extends tasks changes =
      let changed = changes.0 ++ changes.1 in
      let out = expand_loop names_of changed new old tasks in
      let loop = expand_loop-Extends names_of changed new n old tasks distinct in
      let gone = affected-none names_of (lookup n old) (lookup n new) in
      (
        ground (arith, loop.0, gone, contains-sort_strings out.0 n),
        ground (arith, loop.1, gone, contains-sort_strings out.1 n),
      )

  by_no_changes :
      (changes : List String × List String)
      → has_changes changes ≡ false
      → by_changes changes ≡ false
  by_no_changes ([], []) h = affected-none names_of (lookup n old) (lookup n new)
  by_no_changes (x ∷ xs, ys) h = cc
  by_no_changes ([], y ∷ ys) h = cc

module _ (old new : Map String TaskConfig) (n : String) (distinct : Distinct (keys old)) where
  -- The changed senders and pipelines together widen the task delta by their users.
  pub plan_tasks-Extends :
      (senders pipelines tasks : List String × List String)
      → Extends tasks (plan_tasks old new senders pipelines tasks) n (
          by_changes (λ tc. tc.senders) old new n distinct senders
          || by_changes (λ tc. tc.pipelines) old new n distinct pipelines)
  unfolding plan_tasks
  plan_tasks-Extends senders pipelines tasks =
      let widened =
        if has_changes senders
        then expand_task_delta_for_sender_changes old new tasks senders
        else tasks in
      let first = expand_task_delta-Extends (λ tc. tc.senders) old new n distinct tasks senders in
      let second =
        expand_task_delta-Extends (λ tc. tc.pipelines) old new n distinct widened pipelines in
      let no_first = by_no_changes (λ tc. tc.senders) old new n distinct senders in
      let no_second = by_no_changes (λ tc. tc.pipelines) old new n distinct pipelines in
      (
        ground (arith, first.0, second.0, no_first, no_second),
        ground (arith, first.1, second.1, no_first, no_second),
      )
