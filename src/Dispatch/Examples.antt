-- ===== src/Dispatch/Examples.antt =====
-- The theorems on selectors and the fan-out at a concrete store.
use forward_stub.Config.Stage.{add_targets, route_stage_targets}
use forward_stub.Config.Topology.{
  check_stage, missing, validate_match, validate_selector, validate_task, validate_task_set,
  validate_topology,
}
use forward_stub.Dispatch.{
  ReceiverState, bind_selectors, compile_default, compile_matches, compile_selector,
  compile_selectors, dispatch_to_tasks, rebuild_receiver_selectors, resolve_names,
}
use forward_stub.Dispatch.Fan.{addresses_of, dispatch_to_tasks_lem, handlers, owned}
use forward_stub.Dispatch.Resolve.{IsResolved, rebuild_receiver_selectors_lem}
use forward_stub.Dispatch.Validated.{validated_selectors}
use forward_stub.Prelude.{
  All, List, Result, String, [], ap, arith, false, none, ok, refl, some, ◌∷◌, ◌≡◌,
}
use forward_stub.Prelude.Eq.{eq_String}
use forward_stub.Prelude.Map.{Map, lookup, values}
use forward_stub.Samples.{north, plain_packet, plain_task, sample_config, south}
use forward_stub.Selector.{match}
use forward_stub.Stdlib.Strings.{trim_space}
use forward_stub.Store.{RuntimeError, TaskState, new_task}

abbrev running : Map String TaskState
running =
    (
      "t",
      record {
        name = "t";
        cfg = plain_task ("p" ∷ []) ("north" ∷ "south" ∷ []);
        task =
            new_task "t" (plain_task ("p" ∷ []) ("north" ∷ "south" ∷ [])) [] (north ∷ south ∷ []);
      },
    )
    ∷ []

abbrev receiver : ReceiverState
receiver = record { name = "in"; selector_name = "sel"; selector = none }

abbrev bound_receiver : ReceiverState
bound_receiver = record receiver {
  selector = some (record {
    name = "sel";
    values_by_key = ("video", values running) ∷ [];
    default_values = [];
  });
}

abbrev rebuilt : Result RuntimeError (Unit {0}) × Map String ReceiverState
rebuilt =
    rebuild_receiver_selectors sample_config.selectors sample_config.task_sets running
      (("in", receiver) ∷ [])

rebuilt-eq : rebuilt ≡ (ok tt, ("in", bound_receiver) ∷ [])
unfolding rebuild_receiver_selectors compile_selectors compile_selector compile_matches
    compile_default bind_selectors resolve_names
rebuilt-eq = refl

rebuild_receiver_selectors_lem_example :
    IsResolved running ("t" ∷ []) (match bound_receiver.selector "video")
rebuild_receiver_selectors_lem_example =
    rebuild_receiver_selectors_lem sample_config.selectors sample_config.task_sets running
      (("in", receiver) ∷ []) "in" "video" bound_receiver
      (record { matches = ("video", "set") ∷ []; default_task_set = "" }) (ap (λ r. r.0) rebuilt-eq)
      (ap (λ r. lookup "in" r.1) rebuilt-eq) refl

pub sample_config-accepted : validate_topology sample_config ≡ ok tt
unfolding validate_topology validate_task validate_task_set validate_selector validate_match
    check_stage route_stage_targets add_targets trim_space
sample_config-accepted = refl

sample_tasks-run : (n : String) → missing n sample_config.tasks ≡ false → missing n running ≡ false
sample_tasks-run n h = ground arith

validated_selectors_example : rebuilt.0 ≡ ok tt
validated_selectors_example =
    validated_selectors sample_config running (("in", receiver) ∷ []) sample_config-accepted
      sample_tasks-run

abbrev two_tasks : List String
two_tasks = "a" ∷ "b" ∷ []

dispatch_to_tasks_lem_example :
    (handlers (dispatch_to_tasks 50 plain_packet two_tasks) ≡ "b" ∷ "a" ∷ [])
    × (addresses_of (owned (dispatch_to_tasks 50 plain_packet two_tasks)) ≡ 50 ∷ 7 ∷ [])
    × All
        (λ p. p.envelope ≡ plain_packet.envelope)
        (owned (dispatch_to_tasks 50 plain_packet two_tasks))
dispatch_to_tasks_lem_example = dispatch_to_tasks_lem 50 plain_packet two_tasks
