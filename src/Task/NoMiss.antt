-- ===== src/Task/NoMiss.antt =====
-- src/task/task.go: when a packet's target sender is always one that the task has.
use mathlib.Core.List.{flat_map}
use forward_stub.Compiler.Routes.{Keeps, RoutesTo}
use forward_stub.Packet.{Packet}
use forward_stub.Pipeline.{Pipeline, StageFunc, is_empty, process, run_stages}
use forward_stub.Prelude.{
  All, All-append, Bool-cases, List, String, [], arith, inl, inr, not, refl, suc, ℕ, ◌&&◌, ◌++◌,
  ◌+◌, ◌∷◌, ◌≡◌,
}
use forward_stub.Prelude.Eq.{eq_String}
use forward_stub.Prelude.Map.{Map, insert, is_none, lookup, lookup-insert}
use forward_stub.Prelude.Names.{contains}
use forward_stub.Task.{
  Event, Sender, Task, broadcast, deliver_one, index_senders, rebuild_sender_index, release_later,
  released, route_miss, run_packet, run_pipelines, sent,
}

-- How often a packet's target sender is none of the task's.
abbrev pub misses : List Event → ℕ
misses [] = 0
misses (sent s p ∷ es) = misses es
misses (route_miss n ∷ es) = suc (misses es)
misses (released p ∷ es) = misses es

abbrev pub sender_names : List Sender → List String
sender_names [] = []
sender_names (s ∷ ss) = s.name ∷ sender_names ss

misses-append : (es fs : List Event) → misses (es ++ fs) ≡ misses es + misses fs
misses-append [] fs = omega arith
misses-append (sent s p ∷ es) fs = misses-append es fs
misses-append (route_miss n ∷ es) fs = omega (arith, misses-append es fs)
misses-append (released p ∷ es) fs = misses-append es fs

misses-broadcast : (p : Packet) (ss : List Sender) → misses (broadcast p ss) ≡ 0
misses-broadcast p [] = refl
misses-broadcast p (s ∷ ss) = misses-broadcast p ss

misses-release_later :
    (input : ℕ) (seen : List ℕ) (ps : List Packet) → misses (release_later input seen ps) ≡ 0
unfolding release_later
misses-release_later input seen [] = refl
misses-release_later input seen (p ∷ ps) =
    ground
      (arith, misses-release_later input seen ps, misses-release_later input (p.address ∷ seen) ps)

-- The index finds exactly the names of the task's senders.
index_senders-finds :
    (x : String) (ss : List Sender) (idx : Map String Sender)
    → is_none (lookup x (index_senders idx ss))
      ≡ (is_none (lookup x idx) && not (contains (sender_names ss) x))
unfolding index_senders
index_senders-finds x [] idx = ground arith
index_senders-finds x (s ∷ ss) idx =
    ground (arith, index_senders-finds x ss (insert s.name s idx), lookup-insert s.name x s idx)

misses-deliver_one :
    (t : Task) (p : Packet)
    → RoutesTo (sender_names t.senders) p
    → misses (deliver_one (rebuild_sender_index t) p) ≡ 0
unfolding deliver_one rebuild_sender_index
misses-deliver_one t p h = ground (
  arith,
  misses-broadcast p t.senders,
  index_senders-finds p.meta.route_sender t.senders [],
  eq_String.beq_iff p.meta.route_sender "",
)

misses-deliver :
    (t : Task) (ps : List Packet)
    → All (RoutesTo (sender_names t.senders)) ps
    → misses (flat_map (deliver_one (rebuild_sender_index t)) ps) ≡ 0
unfolding flat_map
misses-deliver t [] h = refl
misses-deliver t (p ∷ ps) h = omega (
  arith,
  misses-append (deliver_one (rebuild_sender_index t) p)
      (flat_map (deliver_one (rebuild_sender_index t)) ps),
  misses-deliver_one t p h.0,
  misses-deliver t ps h.1,
)

module _ (targets : List String) where
  run_stages-RoutesTo :
      (stages : List StageFunc) (ps : List Packet)
      → All (Keeps targets) stages
      → All (RoutesTo targets) ps
      → All (RoutesTo targets) (run_stages stages ps)
  unfolding run_stages
  run_stages-RoutesTo [] ps k h = h
  run_stages-RoutesTo (st ∷ rest) ps k h =
      let next = k.0.at ps h in
      elim (Bool-cases (is_empty (st ps))) [
        | inl none_left ↦ rw none_left tt
        | inr some_left ↦ rw some_left (run_stages-RoutesTo rest (st ps) k.1 next)
      ]

  process-RoutesTo :
      (pl : Pipeline) (ps : List Packet)
      → All (Keeps targets) pl.stages
      → All (RoutesTo targets) ps
      → All (RoutesTo targets) (flat_map (process pl) ps)
  unfolding process flat_map
  process-RoutesTo pl [] k h = tt
  process-RoutesTo pl (p ∷ ps) k h =
      All-append (RoutesTo targets) (run_stages pl.stages (p ∷ [])) (flat_map (process pl) ps)
        (run_stages-RoutesTo pl.stages (p ∷ []) k (h.0, tt)) (process-RoutesTo pl ps k h.1)

  run_pipelines-RoutesTo :
      (pls : List Pipeline) (ps : List Packet)
      → All (λ pl. All (Keeps targets) pl.stages) pls
      → All (RoutesTo targets) ps
      → All (RoutesTo targets) (run_pipelines pls ps)
  unfolding run_pipelines
  run_pipelines-RoutesTo [] ps k h = h
  run_pipelines-RoutesTo (pl ∷ rest) ps k h =
      let out = flat_map (process pl) ps in
      let next = process-RoutesTo pl ps k.0 h in
      elim (Bool-cases (is_empty out)) [
        | inl none_left ↦ rw none_left tt
        | inr some_left ↦ rw some_left (run_pipelines-RoutesTo rest out k.1 next)
      ]

-- A packet without a target sender meets none that is missing, if no stage of the task's
-- pipelines leads to a sender outside of the task.
pub misses-run_packet :
    (t : Task) (pkt : Packet)
    → All (λ pl. All (Keeps (sender_names t.senders)) pl.stages) t.pipelines
    → pkt.meta.route_sender ≡ ""
    → misses (run_packet (rebuild_sender_index t) pkt) ≡ 0
unfolding run_packet rebuild_sender_index
misses-run_packet t pkt k h =
    let packets = run_pipelines t.pipelines (pkt ∷ []) in
    let deliveries = flat_map (deliver_one (rebuild_sender_index t)) packets in
    let later = release_later pkt.address [] packets in
    omega (
      arith,
      misses-append (deliveries ++ later) (released pkt ∷ []),
      misses-append deliveries later,
      misses-deliver t packets
          (run_pipelines-RoutesTo (sender_names t.senders) t.pipelines (pkt ∷ []) k (inl h, tt)),
      misses-release_later pkt.address [] packets,
    )
