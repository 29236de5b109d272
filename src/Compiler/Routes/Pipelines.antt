-- ===== src/Compiler/Routes/Pipelines.antt =====
-- src/runtime/compiler.go: the compiled pipelines lead packets only to the route targets of
-- their stages.
use mathlib.Core.Path.{subst}
use forward_stub.Compiler.{Regexp, compile_pipelines, compile_stage, compile_stages}
use forward_stub.Compiler.Routes.{Keeps, Subset}
use forward_stub.Compiler.Routes.Stages.{compile_stage-Keeps}
use forward_stub.Config.Stage.{StageConfig, route_sender_by_bytes, route_stage_targets, stage_kind}
use forward_stub.Config.Topology.{stages_of}
use forward_stub.Config.Topology.Sound.{routed_targets}
use forward_stub.Pipeline.{Pipeline, StageFunc}
use forward_stub.Prelude.{
  All, Bool-cases, List, Result-cases, String, [], ap, arith, if◌then◌else◌, inl, inr, none, ok,
  some, sym, true, ◌∷◌, ◌≡◌,
}
use forward_stub.Prelude.Eq.{eq_String, ◌==◌}
use forward_stub.Prelude.Map.{Map, lookup}
use forward_stub.Prelude.Names.{contains}

module _ (compile : Regexp) (targets : List String) where
  -- What the validation says of one stage.
  abbrev pub TargetsIn : StageConfig → Type 0
  TargetsIn sc = All (λ sn. contains targets sn ≡ true) (routed_targets sc)

  All-contains : (xs : List String) → All (λ sn. contains targets sn ≡ true) xs → Subset xs targets
  All-contains [] h x c = cc
  All-contains (y ∷ ys) h x c = elim (Bool-cases (y == x)) [
    | inl same ↦ rw (← (eq_String.beq_iff y x).0 same) h.0
    | inr other ↦ All-contains ys h.1 x (ground (arith, other))
  ]

  route-type : (t : String) → stage_kind t ≡ route_sender_by_bytes → t ≡ "route_offset_bytes_sender"
  unfolding stage_kind
  route-type t h = (eq_String.beq_iff t "route_offset_bytes_sender").0 (ground arith)

  routed :
      (sc : StageConfig)
      → stage_kind sc.type ≡ route_sender_by_bytes
      → TargetsIn sc
      → All (λ sn. contains targets sn ≡ true) (route_stage_targets sc)
  routed sc k h =
      ground
        (arith, h, (eq_String.beq_iff sc.type "route_offset_bytes_sender").1 (route-type sc.type k))

  compile_stages-Keeps :
      (scs : List StageConfig) (stages : List StageFunc)
      → All TargetsIn scs
      → compile_stages compile scs ≡ ok stages
      → All (Keeps targets) stages
  unfolding compile_stages
  compile_stages-Keeps [] stages h e = let same : [] ≡ stages = ground arith in rw (← same) tt
  compile_stages-Keeps (sc ∷ scs) stages h e = elim (Result-cases (compile_stage compile sc)) [
    | inr (failure, failed) ↦ absurd (ground (arith, failed))
    | inl (stage, one) ↦ elim (Result-cases (compile_stages compile scs)) [
      | inr (failure, failed) ↦ absurd (ground (arith, one, failed))
      | inl (rest, more) ↦
          let same : stage ∷ rest ≡ stages = ground (arith, one, more) in
          rw (← same) (
            compile_stage-Keeps targets compile sc stage
                (λ k. All-contains (route_stage_targets sc) (routed sc k h.0)) one,
            compile_stages-Keeps scs rest h.1 more,
          )
    ]
  ]

  pub compile_pipelines-Keeps :
      (cfg : Map String (List StageConfig)) (compiled : Map String Pipeline) (pn : String)
      (pl : Pipeline)
      → All TargetsIn (stages_of cfg pn)
      → compile_pipelines compile cfg ≡ ok compiled
      → lookup pn compiled ≡ some pl
      → All (Keeps targets) pl.stages
  unfolding compile_pipelines
  compile_pipelines-Keeps [] compiled pn pl h e l =
      let same : [] ≡ compiled = ground arith in absurd (ground (arith, ap (lookup pn) same))
  compile_pipelines-Keeps ((name, scs) ∷ cfg) compiled pn pl h e l =
      elim (Result-cases (compile_stages compile scs)) [
        | inr (failure, failed) ↦ absurd (ground (arith, failed))
        | inl (stages, one) ↦ elim (Result-cases (compile_pipelines compile cfg)) [
          | inr (failure, failed) ↦ absurd (ground (arith, one, failed))
          | inl (rest, more) ↦
              let same : (name, record { name = name; stages = stages }) ∷ rest ≡ compiled =
                ground (arith, one, more) in
              let found : lookup pn ((name, record { name = name; stages = stages }) ∷ rest)
                  ≡ some pl =
                subst (λ m. lookup pn m ≡ some pl) (sym same) l in
              elim (Bool-cases (name == pn)) [
                | inl hit ↦
                    let is : record { name = name; stages = stages } ≡ pl = ground (arith, hit) in
                    rw (← is) (
                      compile_stages-Keeps scs stages
                        (subst
                          (λ b. All TargetsIn (elim (if b then some scs else lookup pn cfg) [
                            | none ↦ []
                            | some scs' ↦ scs'
                          ]))
                          hit h)
                        one)
                | inr other ↦
                    let others : All TargetsIn (stages_of cfg pn) =
                      subst
                        (λ b. All TargetsIn (elim (if b then some scs else lookup pn cfg) [
                          | none ↦ []
                          | some scs' ↦ scs'
                        ]))
                        other h in
                    compile_pipelines-Keeps cfg rest pn pl others more (ground (arith, other))
              ]
        ]
      ]
