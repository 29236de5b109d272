-- ===== src/Config/Topology.antt =====
-- src/config/validate.go: the checks of `Validate` on how pipelines, tasks, task sets and
-- selectors refer to one another.
pub mod Sound
use forward_stub.Config.Business.{Business, SelectorConfig, TaskConfig}
use forward_stub.Config.Stage.{StageConfig, route_stage_targets}
use forward_stub.Pipeline.{is_empty}
use forward_stub.Prelude.{
  Bool, List, Result, String, [], fail_if, if◌then◌else◌, none, not, ok, some, ◌&&◌, ◌>>=◌, ◌>>◌,
  ◌∷◌,
}
use forward_stub.Prelude.Eq.{eq_String, ◌==◌}
use forward_stub.Prelude.Int.{is_neg}
use forward_stub.Prelude.Map.{Map, is_none, lookup}
use forward_stub.Prelude.Names.{contains}
use forward_stub.Stdlib.Strings.{is_blank}

pub data TopologyError : Type 0 where
  empty_task_name empty_task_set_name empty_selector_name : TopologyError
  task_without_senders bad_execution_model bad_queue_size : String → TopologyError
  missing_pipeline missing_sender : String → String → TopologyError
  unbound_target : String → String → String → TopologyError
  empty_task_set empty_task_in_set empty_match_key : String → TopologyError
  missing_task missing_task_set empty_target missing_default : String → String → TopologyError

abbrev pub Check : Type 0
Check = Result TopologyError (Unit {0})

-- for _, x := range xs { if err := check(x); err != nil { return err } }
abbrev pub each {ℓ κ} :
    {A : Type ℓ} {E : Type κ} → (A → Result E (Unit {0})) → List A → Result E (Unit {0})
each check [] = ok tt
each check (x ∷ xs) = check x >> each check xs

abbrev pub missing {ℓ} : {V : Type ℓ} → String → Map String V → Bool
missing n m = is_none (lookup n m)

-- The stages of a pipeline; those of a name that is not there are none.
abbrev pub stages_of : Map String (List StageConfig) → String → List StageConfig
stages_of pipelines pn = elim (lookup pn pipelines) [ none ↦ [] | some stages ↦ stages ]

-- The innermost loops over a task's pipelines.
unfoldable pub check_stage : String → TaskConfig → String → StageConfig → Check
check_stage tn t pn sc =
    if not (sc.type == "route_offset_bytes_sender")
    then ok tt
    else each (λ target. fail_if (not (contains t.senders target)) (unbound_target tn pn target))
        (route_stage_targets sc)

-- The checks of one task.
unfoldable pub validate_task {ℓ} :
    {S : Type ℓ} → Map String (List StageConfig) → Map String S → String → TaskConfig → Check
unfolding check_stage
validate_task pipelines senders tn t = do
  fail_if (tn == "") empty_task_name
  fail_if (is_empty t.senders) (task_without_senders tn)
  let m = t.execution_model
  fail_if (not (m == "") && not (m == "fastpath") && not (m == "pool") && not (m == "channel"))
      (bad_execution_model tn)
  fail_if (is_neg t.channel_queue_size) (bad_queue_size tn)
  each (λ pn. fail_if (missing pn pipelines) (missing_pipeline tn pn)) t.pipelines
  each (λ sn. fail_if (missing sn senders) (missing_sender tn sn)) t.senders
  each (λ pn. each (check_stage tn t pn) (stages_of pipelines pn)) t.pipelines

-- The checks of one task set.
unfoldable pub validate_task_set : Map String TaskConfig → String → List String → Check
validate_task_set tasks tsn names = do
  fail_if (tsn == "") empty_task_set_name
  fail_if (is_empty names) (empty_task_set tsn)
  each
      (λ tn. (do
        fail_if (tn == "") (empty_task_in_set tsn)
        fail_if (missing tn tasks) (missing_task tsn tn)))
      names

-- One entry of a selector's `matches`.
unfoldable pub validate_match : Map String (List String) → String → String × String → Check
validate_match task_sets sn (key, task_set_name) = do
  fail_if (is_blank key) (empty_match_key sn)
  fail_if (is_blank task_set_name) (empty_target sn key)
  fail_if (missing task_set_name task_sets) (missing_task_set sn task_set_name)

-- The checks of one selector.
unfoldable pub validate_selector : Map String (List String) → String → SelectorConfig → Check
unfolding validate_match
validate_selector task_sets sn sc = do
  fail_if (sn == "") empty_selector_name
  each (validate_match task_sets sn) sc.matches
  fail_if (not (sc.default_task_set == "") && missing sc.default_task_set task_sets)
      (missing_default sn sc.default_task_set)

-- The loops of `Validate` over the tasks, the task sets and the selectors.
unfoldable pub validate_topology : {R S : Type 0} → Business R S → Check
unfolding validate_task validate_task_set validate_selector
validate_topology c = do
  each (λ (tn, t). validate_task c.pipelines c.senders tn t) c.tasks
  each (λ (tsn, names). validate_task_set c.tasks tsn names) c.task_sets
  each (λ (sn, sc). validate_selector c.task_sets sn sc) c.selectors
