-- ===== src/Pipeline.antt =====
-- src/pipeline/pipeline.go and stage_utils.go: a chain of stages over the packets that one
-- input packet has become. The stages themselves are in the modules below.
pub mod Examples
pub mod Chain
pub mod Offset
pub mod Route
pub mod Kafka
pub mod File
use forward_stub.Packet.{Packet}
use forward_stub.Prelude.{Bool, List, String, [], false, if◌then◌else◌, true, ◌++◌, ◌∷◌}

abbrev pub StageFunc : Type 0
StageFunc = List Packet → List Packet

pub record Pipeline : Type 0 where
  pub name : String
  pub stages : List StageFunc

abbrev pub is_empty {ℓ} : {A : Type ℓ} → List A → Bool
is_empty [] = true
is_empty (x ∷ xs) = false

-- The loop of `Process`: no stage runs on an empty list.
unfoldable pub run_stages : List StageFunc → List Packet → List Packet
run_stages [] packets = packets
run_stages (st ∷ rest) packets =
    let next = st packets in if is_empty next then [] else run_stages rest next

unfoldable pub process : Pipeline → Packet → List Packet
unfolding run_stages
process pl p = run_stages pl.stages (p ∷ [])

-- What a per-packet function of a stage does: it rewrites the packet, and says whether it stays.
abbrev pub One : Type 0
One = Packet → Packet × Bool

-- The loop over `in[i+1:]`, once a packet has been dropped.
filter_rest : One → List Packet → List Packet
filter_rest one [] = []
filter_rest one (p ∷ rest) =
    let (p', stays) = one p in let kept = filter_rest one rest in if stays then p' ∷ kept else kept

-- The loop over `in`; the packets before the current one have all stayed.
scan : One → List Packet → List Packet → List Packet
unfolding filter_rest
scan one before [] = before
scan one before (p ∷ rest) =
    let (p', stays) = one p in
    let further = scan one (before ++ p' ∷ []) rest in
    if stays then further else before ++ filter_rest one rest

unfoldable pub map_stage : One → StageFunc
unfolding scan
map_stage one packets = if is_empty packets then [] else scan one [] packets

abbrev pub reject : One
reject p = (p, false)
