-- ===== src/Compiler/Routes.antt =====
-- src/runtime/compiler.go, src/config/validate.go: where a routing table can send a packet: the
-- targets that routeStageTargets reads from the configuration.
pub mod Functions
pub mod Stages
pub mod Pipelines
use mathlib.Core.Path.{subst}
use forward_stub.Stdlib.Hex
use forward_stub.Compiler.{compile_cases, lookup_text}
use forward_stub.Config.Stage.{add_target, add_targets}
use forward_stub.Packet.{Packet}
use forward_stub.Pipeline.{One, StageFunc, map_stage}
use forward_stub.Pipeline.Chain.{keep, map_stage-eq-keep}
use forward_stub.Prelude.{
  All, Bool-cases, List, Option-cases, String, [], arith, false, if◌then◌else◌, inl, inr, length,
  ok, some, true, ◌∷◌, ◌≡◌, ◌⊎◌,
}
use forward_stub.Prelude.Eq.{bytes_eq, eq_String, eq_bytes, ◌==◌}
use forward_stub.Prelude.Int.{is_neg, pos, ℤ}
use forward_stub.Prelude.Map.{Map, insert, lookup}
use forward_stub.Prelude.Names.{contains, contains-append}
use forward_stub.Stdlib.Hex.{Bytes}

pub All-keep :
    (P : Packet → Type 0) (one : One) (ps : List Packet)
    → ((p : Packet) → P p → P (one p).0)
    → All P ps
    → All P (keep one ps)
All-keep P one [] h a = tt
All-keep P one (p ∷ ps) h a = elim (Bool-cases (one p).1) [
  | inl stays ↦ rw stays (h p a.0, All-keep P one ps h a.1)
  | inr drops ↦ rw drops (All-keep P one ps h a.1)
]

-- The packet has no target sender, or one of the list.
abbrev pub RoutesTo : List String → Packet → Type 0
RoutesTo targets p = (p.meta.route_sender ≡ "") ⊎ (contains targets p.meta.route_sender ≡ true)

pub record Keeps (targets : List String) (stage : StageFunc) : Type 0 where
  pub at : (ps : List Packet) → All (RoutesTo targets) ps → All (RoutesTo targets) (stage ps)

pub map_stage-Keeps :
    (targets : List String) (one : One)
    → ((p : Packet) → RoutesTo targets p → RoutesTo targets (one p).0)
    → Keeps targets (map_stage one)
map_stage-Keeps targets one h = record {
  at = λ ps a. rw (map_stage-eq-keep one ps) (All-keep (RoutesTo targets) one ps h a);
}

-- Everything that a routing table leads to is in the list.
abbrev pub TableWithin : List String → Map Bytes String → Type 0
TableWithin targets [] = Unit
TableWithin targets ((k, sn) ∷ m) = (contains targets sn ≡ true) × TableWithin targets m

pub lookup-TableWithin :
    (targets : List String) (k : Bytes) (m : Map Bytes String) (sn : String)
    → TableWithin targets m
    → lookup ⦃e = eq_bytes⦄ k m ≡ some sn
    → contains targets sn ≡ true
lookup-TableWithin targets k [] sn h e = cc
lookup-TableWithin targets k ((j, s) ∷ m) sn h e =
    ground (arith, lookup-TableWithin targets k m sn h.1)

pub insert-TableWithin :
    (targets : List String) (k : Bytes) (sn : String) (m : Map Bytes String)
    → contains targets sn ≡ true
    → TableWithin targets m
    → TableWithin targets (insert ⦃e = eq_bytes⦄ k sn m)
insert-TableWithin targets k sn [] c h = (c, tt)
insert-TableWithin targets k sn ((j, s) ∷ m) c h = elim (Bool-cases (bytes_eq j k)) [
  | inl same ↦ rw same (c, h.1)
  | inr other ↦ rw other (h.0, insert-TableWithin targets k sn m c h.1)
]

pub add_target-grows :
    (targets : List String) (sn x : String)
    → contains targets x ≡ true
    → contains (add_target targets sn) x ≡ true
add_target-grows targets sn x h = ground (arith, contains-append targets (sn ∷ []) x)

pub add_target_self :
    (targets : List String) (sn : String)
    → (sn == "") ≡ false
    → contains (add_target targets sn) sn ≡ true
add_target_self targets sn h =
    ground (arith, contains-append targets (sn ∷ []) sn, eq_String.beq_iff sn sn)

add_targets-grows :
    (cases : Map String String) (targets : List String) (x : String)
    → contains targets x ≡ true
    → contains (add_targets targets cases) x ≡ true
unfolding add_targets
add_targets-grows [] targets x h = h
add_targets-grows ((hk, sn) ∷ rest) targets x h =
    add_targets-grows rest (add_target targets sn) x (add_target-grows targets sn x h)

-- `routeStageTargets` has the sender of every case.
add_targets-lookup :
    (cases : Map String String) (targets : List String) (hk : String)
    → (lookup_text hk cases == "") ≡ false
    → contains (add_targets targets cases) (lookup_text hk cases) ≡ true
unfolding add_targets
add_targets-lookup [] targets hk h = absurd (ground arith)
add_targets-lookup ((j, sn) ∷ rest) targets hk h = elim (Bool-cases (j == hk)) [
  | inl same ↦
      let filled : (sn == "") ≡ false = ground (arith, same) in
      rw same
        (add_targets-grows rest (add_target targets sn) sn (add_target_self targets sn filled))
  | inr other ↦
      rw other (add_targets-lookup rest (add_target targets sn) hk (ground (arith, other)))
]

abbrev pub Subset : List String → List String → Type 0
Subset xs ys = (x : String) → contains xs x ≡ true → contains ys x ≡ true

pub compile_cases-TableWithin :
    (cases : Map String String) (targets : List String)
    → Subset (add_targets [] cases) targets
    → (hks : List String) (key_len : ℤ) (routes : Map Bytes String) (r : ℤ × Map Bytes String)
    → TableWithin targets routes
    → compile_cases cases key_len routes hks ≡ ok r
    → TableWithin targets r.1
unfolding compile_cases
compile_cases-TableWithin cases targets sub [] key_len routes r h e =
    let same : routes ≡ r.1 = ground arith in rw (← same) h
compile_cases-TableWithin cases targets sub (hk ∷ rest) key_len routes r h e =
    elim (Option-cases (Hex.decode_string hk)) [
      | inl bad ↦ absurd (ground (arith, bad))
      | inr (v, good) ↦
          let sn = lookup_text hk cases in
          let filled : (sn == "") ≡ false = ground (arith, good) in
          compile_cases-TableWithin cases targets sub rest
            (if is_neg key_len then pos (length v) else key_len) (insert ⦃e = eq_bytes⦄ v sn routes)
            r
            (insert-TableWithin targets v sn routes (sub sn (add_targets-lookup cases [] hk filled))
              h)
            (ground (arith, good))
    ]
