-- ===== src/Store/Routing.antt =====
-- src/task/task.go, src/config/validate.go, src/runtime/compiler.go: a task of an accepted
-- configuration, compiled and bound, has every sender that its routing stages lead to.
use forward_stub.Compiler.{Regexp, compile_pipelines}
use forward_stub.Compiler.Routes.{Keeps}
use forward_stub.Compiler.Routes.Pipelines.{TargetsIn, compile_pipelines-Keeps}
use forward_stub.Config.Business.{Business, TaskConfig}
use forward_stub.Config.Stage.{StageConfig}
use forward_stub.Config.Topology.{stages_of, validate_topology}
use forward_stub.Config.Topology.Sound.{validate_topology-IsBound}
use forward_stub.Packet.{Packet}
use forward_stub.Pipeline.{Pipeline}
use forward_stub.Prelude.{
  All, List, Option-cases, Result-cases, String, [], arith, inl, inr, ok, some, ◌∷◌, ◌≡◌,
}
use forward_stub.Prelude.Eq.{eq_String}
use forward_stub.Prelude.Int.{pos}
use forward_stub.Prelude.Map.{Map, lookup}
use forward_stub.Store.{bind_pipelines, new_task}
use forward_stub.Task.{Sender, default_to, model_name, resolve_execution_model, run_packet, start}
use forward_stub.Task.NoMiss.{misses, misses-run_packet, sender_names}

bind_pipelines-Keeps :
    (compile : Regexp) (cfg : Map String (List StageConfig)) (compiled : Map String Pipeline)
    (targets : List String) (pns : List String) (pls : List Pipeline)
    → compile_pipelines compile cfg ≡ ok compiled
    → All (λ pn. All (TargetsIn compile targets) (stages_of cfg pn)) pns
    → bind_pipelines compiled pns ≡ ok pls
    → All (λ pl. All (Keeps targets) pl.stages) pls
unfolding bind_pipelines
bind_pipelines-Keeps compile cfg compiled targets [] pls c h e =
    let same : [] ≡ pls = ground arith in rw (← same) tt
bind_pipelines-Keeps compile cfg compiled targets (pn ∷ pns) pls c h e =
    elim (Option-cases (lookup pn compiled)) [
      | inl absent ↦ absurd (ground (arith, absent))
      | inr (pl, found) ↦ elim (Result-cases (bind_pipelines compiled pns)) [
        | inr (failure, failed) ↦ absurd (ground (arith, found, failed))
        | inl (rest, more) ↦
            let same : pl ∷ rest ≡ pls = ground (arith, found, more) in
            rw (← same) (
              compile_pipelines-Keeps compile targets cfg compiled pn pl h.0 c found,
              bind_pipelines-Keeps compile cfg compiled targets pns rest c h.1 more,
            )
      ]
    ]

-- A packet that enters a task without a target sender never meets a target that the task does
-- not have, when the task belongs to a configuration that `Validate` accepts, its pipelines
-- are the compiled ones of the configuration, and its senders have the configured names.
pub no_route_miss :
    {R S : Type 0} (c : Business R S) (compile : Regexp) (compiled : Map String Pipeline)
    (n : String) (tc : TaskConfig) (pls : List Pipeline) (senders : List Sender) (pkt : Packet)
    → validate_topology c ≡ ok tt
    → lookup n c.tasks ≡ some tc
    → compile_pipelines compile c.pipelines ≡ ok compiled
    → bind_pipelines compiled tc.pipelines ≡ ok pls
    → sender_names senders ≡ tc.senders
    → pkt.meta.route_sender ≡ ""
    → misses (run_packet (start (new_task n tc pls senders)) pkt) ≡ 0
unfolding start
no_route_miss c compile compiled n tc pls senders pkt valid has compiles binds names unrouted =
    let bound = validate_topology-IsBound c n tc valid has in
    let kept =
      bind_pipelines-Keeps compile c.pipelines compiled tc.senders tc.pipelines pls compiles
        bound.has_targets binds in
    let t = new_task n tc pls senders in
    let started = record t {
      pool_size = default_to t.pool_size (pos 4096);
      channel_queue_size = default_to t.channel_queue_size (pos 8192);
      execution_model = model_name (resolve_execution_model t.execution_model);
    } in
    misses-run_packet started pkt (rw names kept) unrouted
