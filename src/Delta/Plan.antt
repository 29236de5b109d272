-- ===== src/Delta/Plan.antt =====
-- src/runtime/update_cache.go, planBusinessDelta: the tasks of a business delta, from the
-- configurations alone.
use forward_stub.Config.Business.{Business, SelectorConfig, TaskConfig}
use forward_stub.Config.Stage.{StageConfig}
use forward_stub.Delta.{BusinessDeltaPlan, plan_business_delta, split_delta_with_replace}
use forward_stub.Delta.Split.{adds, removes, split_delta_with_replace_lem}
use forward_stub.Delta.Tasks.{affected, plan_tasks-Extends}
use forward_stub.Dispatch.{names_of}
use forward_stub.Prelude.{Bool, List, String, ap, ◌++◌, ◌||◌, ◌∙◌, ◌≡◌}
use forward_stub.Prelude.Eq.{DeepEqual, eq_String}
use forward_stub.Prelude.Map.{keys, lookup}
use forward_stub.Prelude.Names.{Distinct, contains}

-- A task of both configurations that refers, in either of them, to one of the names.
abbrev pub uses_any :
    {R S : Type 0}
    → Business R S
    → Business R S
    → (TaskConfig → List String)
    → List String
    → String
    → Bool
uses_any old cfg names_of names n =
    affected names_of names (lookup n old.tasks) (lookup n cfg.tasks)

module _ {R S : Type 0} ⦃er : DeepEqual R⦄ ⦃es : DeepEqual S⦄ ⦃el : DeepEqual SelectorConfig⦄
    ⦃et : DeepEqual (List String)⦄ ⦃ep : DeepEqual (List StageConfig)⦄ ⦃ec : DeepEqual TaskConfig⦄
    (old cfg : Business R S) where
  abbrev plan : BusinessDeltaPlan
  plan = plan_business_delta old cfg

  -- A task is to be added exactly if it is new, or its configuration differs, or it is in both
  -- configurations and refers to a sender or a pipeline that was added or removed; it is to be
  -- removed exactly if it is gone, or for the last two reasons. The old tasks have distinct names.
  pub plan_business_delta-tasks :
      (n : String)
      → Distinct (keys old.tasks)
      → let users =
          uses_any old cfg (λ tc. tc.senders) (plan.sender_added ++ plan.sender_removed) n
          || uses_any old cfg
              (λ tc. tc.pipelines)
              (plan.pipeline_added ++ plan.pipeline_removed)
              n in
        (contains plan.task_added n ≡ (adds (lookup n old.tasks) (lookup n cfg.tasks) || users))
        × (contains plan.task_removed n
            ≡ (removes (lookup n old.tasks) (lookup n cfg.tasks) || users))
  unfolding plan_business_delta
  plan_business_delta-tasks n distinct =
      let senders = split_delta_with_replace old.senders cfg.senders in
      let pipelines = split_delta_with_replace old.pipelines cfg.pipelines in
      let tasks = split_delta_with_replace old.tasks cfg.tasks in
      let split = split_delta_with_replace_lem old.tasks cfg.tasks n distinct in
      let widened = plan_tasks-Extends old.tasks cfg.tasks n distinct senders pipelines tasks in
      let users =
        uses_any old cfg (λ tc. tc.senders) (senders.0 ++ senders.1) n
        || uses_any old cfg (λ tc. tc.pipelines) (pipelines.0 ++ pipelines.1) n in
      (
        widened.0 ∙ ap (λ (b : Bool). b || users) split.0,
        widened.1 ∙ ap (λ (b : Bool). b || users) split.1,
      )
