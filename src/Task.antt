-- ===== src/Task.antt =====
-- src/task/task.go: a task runs a packet through its pipelines and sends what comes out. A
-- packet is processed by one function with the list of its effects; how packets wait, run and are
-- drained on a stop is a transition system in Task/Lifecycle.
use mathlib.Core.List.{flat_map}
pub mod Examples
pub mod Release
pub mod NoMiss
pub mod Lifecycle
use forward_stub.Packet.{Packet}
use forward_stub.Pipeline.{Pipeline, is_empty, process}
use forward_stub.Prelude.{
  List, String, [], if◌then◌else◌, map, nat_eq, none, not, some, ℕ, ◌++◌, ◌||◌, ◌∷◌,
}
use forward_stub.Prelude.Eq.{eq_String, eq_ℕ, ◌==◌}
use forward_stub.Prelude.Int.{is_nonpos, pos, ℤ}
use forward_stub.Prelude.Map.{Map, insert, lookup}
use forward_stub.Prelude.Names.{contains}

-- A sender that a task holds: `Name()` and the identity of the object. `Send` is an effect.
pub record Sender : Type 0 where
  pub name : String
  pub address : ℕ

pub data ExecutionModel : Type 0 where
  pool fastpath channel : ExecutionModel

-- The fields of Task that the processing of a packet reads. `senders` holds no nil: `addTask`
-- takes them from the store, where `buildSender` has put them.
pub record Task : Type 0 where
  pub name : String
  pub pipelines : List Pipeline
  pub senders : List Sender
  pub pool_size : ℤ
  pub channel_queue_size : ℤ
  pub execution_model : String
  pub senders_by_name : Map String Sender

-- resolveExecutionModel
unfoldable pub resolve_execution_model : String → ExecutionModel
resolve_execution_model m =
    if m == ""
    then pool
    else if m == "fastpath"
    then fastpath
    else if m == "pool"
    then pool
    else if m == "channel"
    then channel
    else pool

abbrev pub model_name : ExecutionModel → String
model_name pool = "pool"
model_name fastpath = "fastpath"
model_name channel = "channel"

-- The loop of `rebuildSenderIndex`: a later sender of the same name takes the place of an earlier.
index_senders : Map String Sender → List Sender → Map String Sender
index_senders idx [] = idx
index_senders idx (s ∷ rest) = index_senders (insert s.name s idx) rest

-- rebuildSenderIndex
unfoldable pub rebuild_sender_index : Task → Task
unfolding index_senders
rebuild_sender_index t = record t { senders_by_name = index_senders [] t.senders }

abbrev pub default_to : ℤ → ℤ → ℤ
default_to value n = if is_nonpos value then n else value

-- Start, on the fields that it settles; a pool that cannot be created is the caller's concern.
unfoldable pub start : Task → Task
unfolding rebuild_sender_index resolve_execution_model
start t = rebuild_sender_index (record t {
  pool_size = default_to t.pool_size (pos 4096);
  channel_queue_size = default_to t.channel_queue_size (pos 8192);
  execution_model = model_name (resolve_execution_model t.execution_model);
})

-- What the processing of a packet does to the outside, in order.
pub data Event : Type 0 where
  sent : Sender → Packet → Event
  route_miss : String → Event
  released : Packet → Event

-- The loop over `t.Pipelines`: nothing is left as soon as one of them drops everything.
pub run_pipelines : List Pipeline → List Packet → List Packet
unfolding flat_map
run_pipelines [] packets = packets
run_pipelines (pl ∷ rest) packets =
    let next = flat_map (process pl) packets in
    if is_empty next then [] else run_pipelines rest next

abbrev broadcast : Packet → List Sender → List Event
broadcast p senders = map (λ s. sent s p) senders

-- One round of the loop over the packets that came out.
deliver_one : Task → Packet → List Event
deliver_one t p =
    if not (p.meta.route_sender == "")
    then elim (lookup p.meta.route_sender t.senders_by_name) [
      | some s ↦ sent s p ∷ []
      | none ↦ route_miss p.meta.route_sender ∷ []
    ]
    else broadcast p t.senders

-- `releaseLater`: the packets that came out and are not the input packet, each pointer once.
release_later : ℕ → List ℕ → List Packet → List Event
release_later input seen [] = []
release_later input seen (p ∷ ps) =
    let rest = release_later input seen ps in
    let marked = release_later input (p.address ∷ seen) ps in
    if nat_eq p.address input || contains ⦃e = eq_ℕ⦄ seen p.address
    then rest
    else released p ∷ marked

-- processAndSend
unfoldable pub process_and_send : Task → Packet → List Event
unfolding flat_map run_pipelines deliver_one release_later
process_and_send t pkt =
    let packets = run_pipelines t.pipelines (pkt ∷ []) in
    flat_map (deliver_one t) packets ++ release_later pkt.address [] packets

-- runPacket
unfoldable pub run_packet : Task → Packet → List Event
unfolding process_and_send
run_packet t pkt = process_and_send t pkt ++ released pkt ∷ []
