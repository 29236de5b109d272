-- ===== src/Compiler/Examples.antt =====
-- The theorems on compiled stages at a concrete routing stage.
use forward_stub.Stdlib.Hex
use forward_stub.Compiler.{
  Regexp, compile_cases, compile_kind, compile_pipelines, compile_stage, compile_stages,
}
use forward_stub.Compiler.Routes.{RoutesTo, Subset}
use forward_stub.Compiler.Routes.Stages.{compile_stage-routes}
use forward_stub.Compiler.Validated.{accepts, validated_compiles}
use forward_stub.Config.Stage.{
  add_targets, route_stage_targets, stage_kind, validate_cases, validate_kind,
  validate_stage_config,
}
use forward_stub.Pipeline.{StageFunc}
use forward_stub.Pipeline.Route.{route_sender_by_offset_bytes}
use forward_stub.Prelude.{All, [], inl, none, ok, refl, ◌∷◌, ◌≡◌}
use forward_stub.Prelude.Int.{pos}
use forward_stub.Prelude.Names.{sort_strings}
use forward_stub.Samples.{plain_packet, routing_stage, sample_config}
use forward_stub.Stdlib.Strings.{trim_space}

-- A compiler that rejects every pattern.
abbrev pub no_regexp : Regexp
no_regexp pattern = none

routing_stage-accepted : validate_stage_config (accepts no_regexp) routing_stage ≡ ok tt
unfolding validate_stage_config validate_kind stage_kind validate_cases Hex.decode_string trim_space
routing_stage-accepted = refl

validated_compiles_example :
    (stage : StageFunc) × (compile_stage no_regexp routing_stage ≡ ok stage)
validated_compiles_example = validated_compiles no_regexp routing_stage routing_stage-accepted

abbrev pub routing_func : StageFunc
routing_func = route_sender_by_offset_bytes (pos 0) (pos 1) ((0x10 ∷ [], "north") ∷ []) "south"

pub routing_stage-compiles : compile_stage no_regexp routing_stage ≡ ok routing_func
unfolding compile_stage compile_kind stage_kind compile_cases sort_strings Hex.decode_string
routing_stage-compiles = refl

routing_stage-targets : Subset (route_stage_targets routing_stage) ("north" ∷ "south" ∷ [])
unfolding route_stage_targets add_targets
routing_stage-targets x h = h

compile_stage-routes_example :
    All (RoutesTo ("north" ∷ "south" ∷ [])) (routing_func (plain_packet ∷ []))
compile_stage-routes_example =
    compile_stage-routes ("north" ∷ "south" ∷ []) no_regexp routing_stage routing_func
      (plain_packet ∷ []) (λ k. routing_stage-targets) routing_stage-compiles (inl refl, tt)

pub sample_pipelines-compile :
    compile_pipelines no_regexp sample_config.pipelines
    ≡ ok (("p", record { name = "p"; stages = routing_func ∷ [] }) ∷ [])
unfolding compile_pipelines compile_stages
sample_pipelines-compile = rw routing_stage-compiles refl
