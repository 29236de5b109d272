-- ===== src/Delta/Examples.antt =====
-- The theorems on business deltas at two concrete configurations.
use forward_stub.Config.Business.{Business, TaskConfig}
use forward_stub.Delta.{BusinessDeltaPlan, plan_business_delta, split_delta_with_replace}
use forward_stub.Delta.Plan.{plan_business_delta-tasks, uses_any}
use forward_stub.Delta.Split.{split_delta_with_replace_lem}
use forward_stub.Prelude.{Bool, List, String, [], false, refl, true, ◌&&◌, ◌++◌, ◌||◌, ◌∷◌, ◌≡◌}
use forward_stub.Prelude.Eq.{DeepEqual, eq_String, ◌==◌}
use forward_stub.Prelude.Map.{Map}
use forward_stub.Prelude.Names.{contains}
use forward_stub.Samples.{sample_config}

abbrev same_names : List String → List String → Bool
same_names [] [] = true
same_names (x ∷ xs) (y ∷ ys) = x == y && same_names xs ys
same_names _ _ = false

-- Comparisons that tell the values of the examples apart.
abbrev names_equal : DeepEqual (List String)
names_equal = record { deep_equal = same_names }

abbrev tasks_equal : DeepEqual TaskConfig
tasks_equal = record {
  deep_equal = λ a b. same_names a.pipelines b.pipelines && same_names a.senders b.senders;
}

abbrev always_equal : {A : Type 0} → DeepEqual A
always_equal = record { deep_equal = λ a b. true }

split_delta_with_replace_lem_example :
    let old : Map String (List String) = ("a", "x" ∷ []) ∷ ("b", []) ∷ [] in
    let new : Map String (List String) = ("a", "y" ∷ []) ∷ ("c", []) ∷ [] in
    (contains (split_delta_with_replace ⦃e = names_equal⦄ old new).0 "a" ≡ true)
    × (contains (split_delta_with_replace ⦃e = names_equal⦄ old new).1 "a" ≡ true)
split_delta_with_replace_lem_example =
    split_delta_with_replace_lem ⦃e = names_equal⦄ (("a", "x" ∷ []) ∷ ("b", []) ∷ [])
      (("a", "y" ∷ []) ∷ ("c", []) ∷ []) "a" (refl, (refl, tt))

-- The sender `south` is gone; the task `t` still names it.
abbrev smaller_config : Business (Unit {0}) (Unit {0})
smaller_config = record sample_config { senders = ("north", tt) ∷ [] }

abbrev sample_plan : BusinessDeltaPlan
sample_plan =
    plan_business_delta ⦃er = always_equal⦄ ⦃es = always_equal⦄ ⦃el = always_equal⦄
      ⦃et = names_equal⦄ ⦃ep = always_equal⦄ ⦃ec = tasks_equal⦄ sample_config smaller_config

plan_business_delta-tasks_example :
    let users =
      uses_any sample_config smaller_config
        (λ tc. tc.senders)
        (sample_plan.sender_added ++ sample_plan.sender_removed)
        "t"
      || uses_any sample_config smaller_config
          (λ tc. tc.pipelines)
          (sample_plan.pipeline_added ++ sample_plan.pipeline_removed)
          "t" in
    (contains sample_plan.task_added "t" ≡ (false || users))
    × (contains sample_plan.task_removed "t" ≡ (false || users))
plan_business_delta-tasks_example =
    plan_business_delta-tasks ⦃er = always_equal⦄ ⦃es = always_equal⦄ ⦃el = always_equal⦄
      ⦃et = names_equal⦄ ⦃ep = always_equal⦄ ⦃ec = tasks_equal⦄ sample_config smaller_config "t"
      (refl, tt)
