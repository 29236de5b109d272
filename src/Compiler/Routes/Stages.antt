-- ===== src/Compiler/Routes/Stages.antt =====
-- src/runtime/compiler.go: each stage function leads packets only to the route targets of its configuration.
use forward_stub.Stdlib.Hex
use forward_stub.Compiler.{
  Regexp, compile_cases, compile_kind, compile_route, compile_stage, with_bytes, with_regexp,
}
use forward_stub.Compiler.Routes.{
  Keeps, RoutesTo, Subset, add_target-grows, add_target_self, compile_cases-TableWithin,
}
use forward_stub.Compiler.Routes.Functions.{
  add_prefix-Keeps, kafka_key-Keeps, match-Keeps, regex_filename-Keeps, regex_path-Keeps,
  replace-Keeps, replace_filename-Keeps, route-Keeps, set_path-Keeps, strip_prefix-Keeps,
}
use forward_stub.Config.Stage.{
  StageConfig, StageError, StageKind, add_prefix, add_targets, match_bytes, regex_filename,
  regex_path, replace_bytes, replace_filename, route_sender_by_bytes, route_stage_targets, set_path,
  set_record_key, stage_kind, strip_prefix, unknown_kind,
}
use forward_stub.Packet.{Packet}
use forward_stub.Pipeline.{StageFunc}
use forward_stub.Pipeline.Route.{route_sender_by_offset_bytes}
use forward_stub.Prelude.{
  All, Bool, List, Option-cases, Result-cases, String, [], arith, fail_if, false, inl, inr, ok,
  refl, true, ◌>>◌, ◌≡◌,
}
use forward_stub.Prelude.Eq.{eq_String, ◌==◌}
use forward_stub.Prelude.Int.{negsuc}
use forward_stub.Prelude.Map.{keys}
use forward_stub.Prelude.Names.{contains, sort_strings}
use forward_stub.Stdlib.Hex.{Bytes}
use forward_stub.Stdlib.Strings.{trim_space}

module _ (targets : List String) where
  default-within :
      (sc : StageConfig)
      → Subset (route_stage_targets sc) targets
      → (sc.default_sender == "") ≡ false
      → contains targets sc.default_sender ≡ true
  unfolding route_stage_targets
  default-within sc sub h =
      sub sc.default_sender (add_target_self (add_targets [] sc.cases) sc.default_sender h)

  cases-within :
      (sc : StageConfig)
      → Subset (route_stage_targets sc) targets
      → Subset (add_targets [] sc.cases) targets
  unfolding route_stage_targets
  cases-within sc sub x h = sub x (add_target-grows (add_targets [] sc.cases) sc.default_sender x h)

  compile_route-Keeps :
      (sc : StageConfig) (stage : StageFunc)
      → Subset (route_stage_targets sc) targets
      → compile_route sc ≡ ok stage
      → Keeps targets stage
  compile_route-Keeps sc stage sub e =
      let hks = sort_strings (keys sc.cases) in
      elim (Result-cases (compile_cases sc.cases (negsuc 0) [] hks)) [
        | inl (r, compiled) ↦
            let same : route_sender_by_offset_bytes sc.offset r.0 r.1 sc.default_sender ≡ stage =
              ground (arith, compiled) in
            rw (← same) (
              route-Keeps targets sc.offset r.0 r.1 sc.default_sender
                (compile_cases-TableWithin sc.cases targets (cases-within sc sub) hks (negsuc 0) []
                  r tt compiled)
                (default-within sc sub))
        | inr (failure, failed) ↦ absurd (ground (arith, failed))
      ]

  with_bytes-Keeps :
      (sc : StageConfig) (f : Bytes → StageFunc) (stage : StageFunc)
      → ((b : Bytes) → Keeps targets (f b))
      → with_bytes sc f ≡ ok stage
      → Keeps targets stage
  with_bytes-Keeps sc f stage h e = elim (Option-cases (Hex.decode_string sc.hex)) [
    | inl bad ↦ absurd (ground (arith, bad))
    | inr (b, good) ↦ let same : f b ≡ stage = ground (arith, good) in rw (← same) (h b)
  ]

  with_regexp-Keeps :
      (compile : Regexp) (sc : StageConfig) (f : (String → String) → StageFunc) (stage : StageFunc)
      → ((g : String → String) → Keeps targets (f g))
      → with_regexp compile sc f ≡ ok stage
      → Keeps targets stage
  with_regexp-Keeps compile sc f stage h e = elim (Option-cases (compile sc.pattern)) [
    | inl bad ↦ absurd (ground (arith, bad))
    | inr (g, good) ↦
        let same : f (g sc.replacement) ≡ stage = ground (arith, good) in
        rw (← same) (h (g sc.replacement))
  ]

  fail_if-Keeps :
      (b : Bool) (failure : StageError) (f stage : StageFunc)
      → Keeps targets f
      → (fail_if b failure >> ok f) ≡ ok stage
      → Keeps targets stage
  fail_if-Keeps true failure f stage h e = cc
  fail_if-Keeps false failure f stage h e = let same : f ≡ stage = ground arith in rw (← same) h

  kind-Keeps :
      (compile : Regexp) (sc : StageConfig) (kind : StageKind) (stage : StageFunc)
      → (kind ≡ route_sender_by_bytes → Subset (route_stage_targets sc) targets)
      → compile_kind compile sc kind ≡ ok stage
      → Keeps targets stage
  unfolding compile_kind
  kind-Keeps compile sc match_bytes stage sub e =
      with_bytes-Keeps sc _ stage (match-Keeps targets sc.offset) e
  kind-Keeps compile sc replace_bytes stage sub e =
      with_bytes-Keeps sc _ stage (replace-Keeps targets sc.offset) e
  kind-Keeps compile sc route_sender_by_bytes stage sub e =
      compile_route-Keeps sc stage (sub refl) e
  kind-Keeps compile sc set_record_key stage sub e =
      fail_if-Keeps _ _ _ stage
        (kafka_key-Keeps targets sc.offset sc.length (trim_space sc.encoding)) e
  kind-Keeps compile sc set_path stage sub e =
      fail_if-Keeps _ _ _ stage (set_path-Keeps targets sc.value) e
  kind-Keeps compile sc strip_prefix stage sub e =
      fail_if-Keeps _ _ _ stage (strip_prefix-Keeps targets sc.prefix) e
  kind-Keeps compile sc add_prefix stage sub e =
      fail_if-Keeps _ _ _ stage (add_prefix-Keeps targets sc.prefix) e
  kind-Keeps compile sc replace_filename stage sub e =
      fail_if-Keeps _ _ _ stage (replace_filename-Keeps targets sc.old sc.new) e
  kind-Keeps compile sc regex_path stage sub e =
      with_regexp-Keeps compile sc _ stage (regex_path-Keeps targets) e
  kind-Keeps compile sc regex_filename stage sub e =
      with_regexp-Keeps compile sc _ stage (regex_filename-Keeps targets) e
  kind-Keeps compile sc unknown_kind stage sub e = cc

  -- A compiled stage, whatever its type, leads packets to no other sender than those of the list,
  -- if the list has the targets that `routeStageTargets` reads from a routing stage.
  pub compile_stage-Keeps :
      (compile : Regexp) (sc : StageConfig) (stage : StageFunc)
      → (stage_kind sc.type ≡ route_sender_by_bytes → Subset (route_stage_targets sc) targets)
      → compile_stage compile sc ≡ ok stage
      → Keeps targets stage
  unfolding compile_stage
  compile_stage-Keeps compile sc stage sub e =
      kind-Keeps compile sc (stage_kind sc.type) stage sub e

-- A compiled stage, whatever its type, sends packets to no other sender than those of the list, if
-- the list has the targets that `routeStageTargets` reads from a routing stage, and the packets
-- that it is given have no target sender or one of the list.
pub compile_stage-routes :
    (targets : List String) (compile : Regexp) (sc : StageConfig) (stage : StageFunc)
    (ps : List Packet)
    → (stage_kind sc.type ≡ route_sender_by_bytes → Subset (route_stage_targets sc) targets)
    → compile_stage compile sc ≡ ok stage
    → All (RoutesTo targets) ps
    → All (RoutesTo targets) (stage ps)
compile_stage-routes targets compile sc stage ps sub e h =
    (compile_stage-Keeps targets compile sc stage sub e).at ps h
