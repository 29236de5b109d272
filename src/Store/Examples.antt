-- ===== src/Store/Examples.antt =====
-- The theorems on the store, its cache and its tasks at concrete states.
use forward_stub.Compiler.Examples.{no_regexp, routing_func, sample_pipelines-compile}
use forward_stub.Config.Topology.Sound.{IsBound, validate_topology-IsBound}
use forward_stub.Dispatch.Examples.{sample_config-accepted}
use forward_stub.Prelude.{
  Bool-cases, String, [], err, if◌then◌else◌, inl, inr, nat_eq, none, ok, refl, some, true, ◌∷◌,
  ◌≡◌,
}
use forward_stub.Prelude.Eq.{eq_String, ◌==◌}
use forward_stub.Prelude.Int.{pos, ℤ}
use forward_stub.Prelude.Map.{lookup}
use forward_stub.Samples.{north, plain_packet, plain_task, sample_config, south}
use forward_stub.Store.{
  SenderState, Store, add_task, bind_pipelines, gc_unused_senders, new_task, remove_task,
  retain_senders,
}
use forward_stub.Store.References.{lookup-retain_senders_err}
use forward_stub.Store.Routing.{no_route_miss}
use forward_stub.Store.Sweep.{gc_unused_senders_lem}
use forward_stub.Store.Tasks.{Holds, IsCounted, add_task-IsCounted, remove_task-IsCounted, total}
use forward_stub.Task.{Sender, run_packet, start}
use forward_stub.Task.NoMiss.{misses}

abbrev pub sender_state : Sender → ℤ → SenderState (Unit {0})
sender_state s refs = record { name = s.name; cfg = tt; s = s; refs = refs }

-- Two senders that no task uses.
abbrev pub idle : Store (Unit {0})
idle = record {
  senders = ("north", sender_state north (pos 0)) ∷ ("south", sender_state south (pos 0)) ∷ [];
  tasks = [];
  pipelines = [];
  pipeline_stage_sigs = [];
  stage_cache = [];
  effects = [];
}

idle-counted : (n : String) → Holds (lookup n idle.senders) 0
idle-counted n = elim (Bool-cases ("north" == n)) [
  | inl first ↦ rw (first, Holds) refl
  | inr other ↦ elim (Bool-cases ("south" == n)) [
    | inl second ↦ rw (other, second, Holds) refl
    | inr neither ↦ rw (other, neither, Holds) refl
  ]
]

pub idle-IsCounted : IsCounted idle
idle-IsCounted = record {
  tasks_distinct = tt;
  senders_distinct = (refl, (refl, tt));
  counted = idle-counted;
}

add_task-IsCounted_example : IsCounted (add_task true "t" (plain_task [] ("north" ∷ [])) idle).1
add_task-IsCounted_example =
    add_task-IsCounted true "t" (plain_task [] ("north" ∷ [])) idle refl idle-IsCounted

abbrev busy : Store (Unit {0})
busy = (add_task true "t" (plain_task [] ("north" ∷ [])) idle).1

busy-IsCounted : IsCounted busy
busy-IsCounted = add_task-IsCounted true "t" (plain_task [] ("north" ∷ [])) idle refl idle-IsCounted

remove_task-IsCounted_example : IsCounted (remove_task "t" busy)
remove_task-IsCounted_example = remove_task-IsCounted "t" busy busy-IsCounted

gc_unused_senders_lem_example :
    ((n : String)
      → lookup n (gc_unused_senders busy).senders
        ≡ (if nat_eq (total n busy.tasks) 0 then none else lookup n busy.senders))
    × IsCounted (gc_unused_senders busy)
gc_unused_senders_lem_example = gc_unused_senders_lem busy busy-IsCounted

west_missing : (retain_senders [] ("north" ∷ "west" ∷ []) idle.senders).0 ≡ err "west"
unfolding retain_senders
west_missing = refl

lookup-retain_senders_err_example :
    lookup "north" (retain_senders [] ("north" ∷ "west" ∷ []) idle.senders).1
    ≡ some (sender_state north (pos 0))
lookup-retain_senders_err_example =
    lookup-retain_senders_err [] ("north" ∷ "west" ∷ []) idle.senders "west" "north" west_missing

sample_pipelines-bind :
    bind_pipelines (("p", record { name = "p"; stages = routing_func ∷ [] }) ∷ []) ("p" ∷ [])
    ≡ ok (record { name = "p"; stages = routing_func ∷ [] } ∷ [])
unfolding bind_pipelines
sample_pipelines-bind = refl

no_route_miss_example :
    misses (
      run_packet
        (start (
          new_task "t"
            (plain_task ("p" ∷ []) ("north" ∷ "south" ∷ []))
            (record { name = "p"; stages = routing_func ∷ [] } ∷ [])
            (north ∷ south ∷ [])))
        plain_packet)
    ≡ 0
no_route_miss_example =
    no_route_miss sample_config no_regexp
      (("p", record { name = "p"; stages = routing_func ∷ [] }) ∷ []) "t"
      (plain_task ("p" ∷ []) ("north" ∷ "south" ∷ []))
      (record { name = "p"; stages = routing_func ∷ [] } ∷ []) (north ∷ south ∷ []) plain_packet
      sample_config-accepted refl sample_pipelines-compile sample_pipelines-bind refl refl

validate_topology-IsBound_example :
    IsBound sample_config.pipelines sample_config.senders
      (plain_task ("p" ∷ []) ("north" ∷ "south" ∷ []))
validate_topology-IsBound_example =
    validate_topology-IsBound sample_config "t" (plain_task ("p" ∷ []) ("north" ∷ "south" ∷ []))
      sample_config-accepted refl
