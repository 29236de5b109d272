-- ===== src/Pipeline/Chain.antt =====
-- src/pipeline/pipeline.go and stage_utils.go: what `mapStage` and `Process` compute: a stage is
-- a filter that rewrites, and a pipeline of such stages is one chain of fallible rewrites of the
-- input packet.
use mathlib.Core.List.{append-nil, append_assoc}
use forward_stub.Packet.{Packet}
use forward_stub.Pipeline.{One, filter_rest, map_stage, process, run_stages, scan}
use forward_stub.Prelude.{
  Bool-cases, List, Option, String, [], ap, arith, if◌then◌else◌, inl, inr, map, none, refl, some,
  sym, ◌++◌, ◌∙◌, ◌∷◌, ◌≡◌,
}

-- The packet that a per-packet function lets through.
abbrev pub accept : One → Packet → Option Packet
accept one p = if (one p).1 then some (one p).0 else none

abbrev pub keep_some {ℓ} : {A : Type ℓ} → Option A → List A → List A
keep_some none xs = xs
keep_some (some x) xs = x ∷ xs

-- The rewritten packets, in order, without those that are dropped.
abbrev pub keep : One → List Packet → List Packet
keep one [] = []
keep one (p ∷ ps) = keep_some (accept one p) (keep one ps)

filter_rest-eq-keep : (one : One) (ps : List Packet) → filter_rest one ps ≡ keep one ps
unfolding filter_rest
filter_rest-eq-keep one [] = refl
filter_rest-eq-keep one (p ∷ ps) = ground (arith, filter_rest-eq-keep one ps)

scan-eq-keep : (one : One) (before ps : List Packet) → scan one before ps ≡ before ++ keep one ps
unfolding scan
scan-eq-keep one before [] = sym (append-nil before)
scan-eq-keep one before (p ∷ ps) = elim (Bool-cases (one p).1) [
  | inl stays ↦ rw stays (
      scan-eq-keep one (before ++ (one p).0 ∷ []) ps
      ∙ append_assoc before ((one p).0 ∷ []) (keep one ps))
  | inr drops ↦ rw drops (ap (◌++◌ before) (filter_rest-eq-keep one ps))
]

-- `mapStage` gives the accepted packets in their order, rewritten, whichever of its two loops
-- handles them.
pub map_stage-eq-keep : (one : One) (ps : List Packet) → map_stage one ps ≡ keep one ps
unfolding map_stage
map_stage-eq-keep one [] = refl
map_stage-eq-keep one (p ∷ ps) = scan-eq-keep one [] (p ∷ ps)

abbrev pub and_then {ℓ κ} : {A : Type ℓ} {B : Type κ} → Option A → (A → Option B) → Option B
and_then none f = none
and_then (some a) f = f a

-- One packet through per-packet functions, until one of them drops it.
abbrev pub chain : List One → Packet → Option Packet
chain [] p = some p
chain (one ∷ ones) p = and_then (accept one p) (chain ones)

abbrev pub to_list {ℓ} : {A : Type ℓ} → Option A → List A
to_list none = []
to_list (some a) = a ∷ []

run_stages-eq-chain :
    (ones : List One) (p : Packet)
    → run_stages (map map_stage ones) (p ∷ []) ≡ to_list (chain ones p)
unfolding run_stages
run_stages-eq-chain [] p = refl
run_stages-eq-chain (one ∷ ones) p =
    rw (map_stage-eq-keep one (p ∷ [])) (elim (Bool-cases (one p).1) [
      | inl stays ↦ rw stays (run_stages-eq-chain ones (one p).0)
      | inr drops ↦ rw drops refl
    ])

-- A pipeline of per-packet stages gives at most one packet: the input packet after every stage's
-- rewrite in order, or nothing from the first stage on that drops it.
pub process-eq-chain :
    (name : String) (ones : List One) (p : Packet)
    → process (record { name = name; stages = map map_stage ones }) p ≡ to_list (chain ones p)
unfolding process
process-eq-chain name ones p = run_stages-eq-chain ones p
