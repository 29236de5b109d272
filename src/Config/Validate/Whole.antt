-- ===== src/Config/Validate/Whole.antt =====
-- src/config/validate.go: Validate.
use forward_stub.Config.Business.{SelectorConfig}
use forward_stub.Config.Endpoint.{ReceiverConfig, SenderConfig}
use forward_stub.Config.Snapshot.{Config}
use forward_stub.Config.Stage.{StageConfig, validate_stage_config}
use forward_stub.Config.Topology.{each, validate_selector, validate_task, validate_task_set}
use forward_stub.Config.Validate.{
  Checked, Fault, Parsers, bad_duration, fault, stage_fault, topology_fault,
  validate_logging_config,
}
use forward_stub.Config.Validate.Receivers.{validate_receiver}
use forward_stub.Config.Validate.Senders.{validate_sender}
use forward_stub.Pipeline.{is_empty}
use forward_stub.Prelude.{
  List, Option, Result, String, [], err, fail_if, none, not, ok, some, suc, ℕ, ◌&&◌, ◌>>=◌, ◌>>◌,
  ◌||◌, ◌∷◌,
}
use forward_stub.Prelude.Int.{ltb_ℤ, negsuc, pos}
use forward_stub.Prelude.Map.{Map}
use forward_stub.Stdlib.Strings.{is_blank}

-- An error under the name of its kind.
abbrev pub map_err {ℓ κ υ} :
    {E : Type ℓ} {F : Type κ} {A : Type υ} → (E → F) → Result E A → Result F A
map_err f (ok a) = ok a
map_err f (err e) = err (f e)

-- if m == nil { return err }
abbrev pub required {ℓ} : {A : Type ℓ} → Option A → String → Result Fault A
required none name = err (fault name "" "missing")
required (some a) name = ok a

-- The stages of a pipeline, from the index on.
unfoldable pub validate_stages : Parsers → String → ℕ → List StageConfig → Checked
validate_stages go pn i [] = ok tt
validate_stages go pn i (sc ∷ stages) = do
  map_err (stage_fault pn i) (validate_stage_config go.regexp_ok sc)
  validate_stages go pn (suc i) stages

-- One pipeline.
unfoldable pub validate_pipeline : Parsers → String → List StageConfig → Checked
unfolding validate_stages
validate_pipeline go pn stages = do
  fail_if (is_blank pn) (fault "pipeline" "" "name empty")
  validate_stages go pn 0 stages

-- The part of Validate behind the tests for nil.
unfoldable pub validate_maps :
    Parsers
    → Config
    → Map String ReceiverConfig
    → Map String SelectorConfig
    → Map String (List String)
    → Map String SenderConfig
    → Map String (List StageConfig)
    → Checked
unfolding validate_pipeline
validate_maps go c receivers selectors task_sets senders pipelines = do
  fail_if
      (not (is_blank c.logging.gc_stats_log_interval)
        && bad_duration go c.logging.gc_stats_log_interval)
      (fault "logging" "" "gc_stats_log_interval must be a valid duration > 0")
  validate_logging_config go c.logging
  fail_if (ltb_ℤ c.control.pprof_port (negsuc 0) || ltb_ℤ (pos 65535) c.control.pprof_port)
      (fault "control" "" "pprof_port must be in [-1,65535]")
  each (λ (pn, stages). validate_pipeline go pn stages) pipelines
  each (λ (tn, t). map_err topology_fault (validate_task pipelines senders tn t)) c.tasks
  each (λ (pn, stages). validate_pipeline go pn stages) pipelines
  each (λ (tsn, names). map_err topology_fault (validate_task_set c.tasks tsn names)) task_sets
  each (λ (sn, sc). map_err topology_fault (validate_selector task_sets sn sc)) selectors
  each (λ (rn, r). validate_receiver go selectors rn r) receivers
  each (λ (sn, s). validate_sender go sn s) senders

-- Validate
unfoldable pub validate : Parsers → Config → Checked
validate go c = do
  fail_if (is_empty c.tasks) (fault "tasks" "" "no tasks")
  receivers ← required c.receivers "receivers"
  selectors ← required c.selectors "selectors"
  task_sets ← required c.task_sets "task_sets"
  senders ← required c.senders "senders"
  pipelines ← required c.pipelines "pipelines"
  validate_maps go c receivers selectors task_sets senders pipelines
