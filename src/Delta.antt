-- ===== src/Delta.antt =====
-- src/runtime/update_cache.go: what changes between two configurations, and which tasks have to be
-- rebuilt for it. A change of an entry counts as its removal and its addition.
pub mod Examples
pub mod Split
pub mod Tasks
pub mod Plan
pub mod Once
use forward_stub.Config.Business.{Business, SelectorConfig, TaskConfig}
use forward_stub.Config.Stage.{StageConfig}
use forward_stub.Dispatch.{names_of}
use forward_stub.Pipeline.{is_empty}
use forward_stub.Prelude.{
  Bool, List, Option, String, [], false, if◌then◌else◌, none, not, some, true, ◌&&◌, ◌++◌, ◌||◌,
  ◌∷◌,
}
use forward_stub.Prelude.Eq.{DeepEqual, eq_String}
use forward_stub.Prelude.Map.{Map, lookup}
use forward_stub.Prelude.Names.{contains, sort_strings}

module _ {ℓ} {V : Type ℓ} ⦃e : DeepEqual V⦄ where
  -- The first loop of `splitDeltaWithReplace`, over the old map.
  split_old : Map String V → Map String V → List String × List String
  split_old [] new = ([], [])
  split_old ((name, old_cfg) ∷ old) new =
      let (added, removed) = split_old old new in
      elim (lookup name new) [
        | none ↦ (added, name ∷ removed)
        | some new_cfg ↦
            if e.deep_equal old_cfg new_cfg
            then (added, removed)
            else (name ∷ added, name ∷ removed)
      ]

  -- The second loop, over the new map.
  only_new : Map String V → Map String V → List String
  only_new old [] = []
  only_new old ((name, cfg) ∷ new) =
      let rest = only_new old new in elim (lookup name old) [ none ↦ name ∷ rest | some c ↦ rest ]

  -- splitDeltaWithReplace: the added and the removed names.
  pub split_delta_with_replace : Map String V → Map String V → List String × List String
  unfolding split_old only_new
  split_delta_with_replace old new =
      let (added, removed) = split_old old new in
      (sort_strings (added ++ only_new old new), sort_strings removed)

-- taskUsesChangedSender and taskUsesChangedPipeline, on the names that a task refers to
unfoldable pub uses_changed : List String → List String → Bool
uses_changed [] changed = false
uses_changed (name ∷ names) changed =
    let rest = uses_changed names changed in if contains changed name then true else rest

-- if _, ok := set[name]; !ok { slice = append(slice, name); set[name] = struct{}{} }
abbrev pub add_name : List String → String → List String
add_name names name = if contains names name then names else names ++ name ∷ []

-- One round of the two functions below; `names_of` is the field that they read.
expand_step :
    (TaskConfig → List String)
    → List String
    → String
    → TaskConfig
    → Option TaskConfig
    → List String × List String
    → List String × List String
expand_step names_of changed task_name old_tc none tasks = tasks
expand_step names_of changed task_name old_tc (some new_tc) tasks =
    if not (uses_changed (names_of old_tc) changed) && not (uses_changed (names_of new_tc) changed)
    then tasks
    else (add_name tasks.0 task_name, add_name tasks.1 task_name)

expand_loop :
    (TaskConfig → List String)
    → List String
    → Map String TaskConfig
    → Map String TaskConfig
    → List String × List String
    → List String × List String
unfolding expand_step
expand_loop names_of changed new [] tasks = tasks
expand_loop names_of changed new ((task_name, old_tc) ∷ old) tasks =
    expand_loop names_of changed new old
      (expand_step names_of changed task_name old_tc (lookup task_name new) tasks)

expand_task_delta :
    (TaskConfig → List String)
    → Map String TaskConfig
    → Map String TaskConfig
    → List String × List String
    → List String × List String
    → List String × List String
unfolding expand_loop
expand_task_delta names_of old new tasks changes =
    let changed = changes.0 ++ changes.1 in
    let expanded = expand_loop names_of changed new old tasks in
    if is_empty changed then tasks else (sort_strings expanded.0, sort_strings expanded.1)

-- expandTaskDeltaForSenderChanges: old tasks, new tasks, the task delta, the sender delta
pub expand_task_delta_for_sender_changes :
    Map String TaskConfig
    → Map String TaskConfig
    → List String × List String
    → List String × List String
    → List String × List String
unfolding expand_task_delta
expand_task_delta_for_sender_changes = expand_task_delta (λ tc. tc.senders)

-- expandTaskDeltaForPipelineChanges, likewise with the pipeline delta
pub expand_task_delta_for_pipeline_changes :
    Map String TaskConfig
    → Map String TaskConfig
    → List String × List String
    → List String × List String
    → List String × List String
unfolding expand_task_delta
expand_task_delta_for_pipeline_changes = expand_task_delta (λ tc. tc.pipelines)

-- businessDeltaPlan
pub record BusinessDeltaPlan : Type 0 where
  pub receiver_added : List String
  pub receiver_removed : List String
  pub selector_added : List String
  pub selector_removed : List String
  pub task_set_added : List String
  pub task_set_removed : List String
  pub sender_added : List String
  pub sender_removed : List String
  pub pipeline_added : List String
  pub pipeline_removed : List String
  pub task_added : List String
  pub task_removed : List String

-- The Boolean in the tests `len(added) > 0 || len(removed) > 0`.
abbrev pub has_changes : List String × List String → Bool
has_changes (added, removed) = not (is_empty added) || not (is_empty removed)

-- The task delta with what the changed senders and pipelines add to it.
pub plan_tasks :
    Map String TaskConfig
    → Map String TaskConfig
    → List String × List String
    → List String × List String
    → List String × List String
    → List String × List String
unfolding expand_task_delta_for_sender_changes expand_task_delta_for_pipeline_changes
plan_tasks old new senders pipelines tasks =
    let widened =
      if has_changes senders
      then expand_task_delta_for_sender_changes old new tasks senders
      else tasks in
    if has_changes pipelines
    then expand_task_delta_for_pipeline_changes old new widened pipelines
    else widened

module _ {R S : Type 0} ⦃er : DeepEqual R⦄ ⦃es : DeepEqual S⦄ ⦃el : DeepEqual SelectorConfig⦄
    ⦃et : DeepEqual (List String)⦄ ⦃ep : DeepEqual (List StageConfig)⦄
    ⦃ec : DeepEqual TaskConfig⦄ where
  -- planBusinessDelta
  unfoldable pub plan_business_delta : Business R S → Business R S → BusinessDeltaPlan
  unfolding plan_tasks
  plan_business_delta old cfg =
      let receivers = split_delta_with_replace old.receivers cfg.receivers in
      let selectors = split_delta_with_replace old.selectors cfg.selectors in
      let task_sets = split_delta_with_replace old.task_sets cfg.task_sets in
      let senders = split_delta_with_replace old.senders cfg.senders in
      let pipelines = split_delta_with_replace old.pipelines cfg.pipelines in
      let tasks =
        plan_tasks old.tasks cfg.tasks senders pipelines
          (split_delta_with_replace old.tasks cfg.tasks) in
      record {
        receiver_added = receivers.0;
        receiver_removed = receivers.1;
        selector_added = selectors.0;
        selector_removed = selectors.1;
        task_set_added = task_sets.0;
        task_set_removed = task_sets.1;
        sender_added = senders.0;
        sender_removed = senders.1;
        pipeline_added = pipelines.0;
        pipeline_removed = pipelines.1;
        task_added = tasks.0;
        task_removed = tasks.1;
      }
