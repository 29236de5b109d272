-- ===== src/Task/Release.antt =====
-- src/task/task.go: every packet that a task has in its hands is released once.
use mathlib.Core.List.{flat_map}
use forward_stub.Packet.{Packet}
use forward_stub.Prelude.{
  Bool-cases, List, [], ap, arith, if◌then◌else◌, inl, inr, nat_eq, refl, suc, ℕ, ◌++◌, ◌+◌, ◌||◌,
  ◌∷◌, ◌≡◌,
}
use forward_stub.Prelude.Eq.{eq_String, eq_ℕ}
use forward_stub.Prelude.Names.{contains}
use forward_stub.Task.{
  Event, Sender, Task, broadcast, deliver_one, release_later, released, route_miss, run_packet,
  run_pipelines, sent,
}

-- How often the packet at an address is released.
abbrev pub releases : ℕ → List Event → ℕ
releases a [] = 0
releases a (sent s p ∷ es) = releases a es
releases a (route_miss n ∷ es) = releases a es
releases a (released p ∷ es) = if nat_eq p.address a then suc (releases a es) else releases a es

releases-append :
    (a : ℕ) (es fs : List Event) → releases a (es ++ fs) ≡ releases a es + releases a fs
releases-append a [] fs = omega arith
releases-append a (sent s p ∷ es) fs = releases-append a es fs
releases-append a (route_miss n ∷ es) fs = releases-append a es fs
releases-append a (released p ∷ es) fs = ground (arith, releases-append a es fs)

releases-broadcast : (a : ℕ) (p : Packet) (ss : List Sender) → releases a (broadcast p ss) ≡ 0
releases-broadcast a p [] = refl
releases-broadcast a p (s ∷ ss) = releases-broadcast a p ss

releases-deliver_one : (a : ℕ) (t : Task) (p : Packet) → releases a (deliver_one t p) ≡ 0
unfolding deliver_one
releases-deliver_one a t p = ground (arith, releases-broadcast a p t.senders)

releases-deliver :
    (a : ℕ) (t : Task) (ps : List Packet) → releases a (flat_map (deliver_one t) ps) ≡ 0
unfolding flat_map
releases-deliver a t [] = refl
releases-deliver a t (p ∷ ps) = omega (
  arith,
  releases-append a (deliver_one t p) (flat_map (deliver_one t) ps),
  releases-deliver_one a t p,
  releases-deliver a t ps,
)

abbrev pub addresses : List Packet → List ℕ
addresses [] = []
addresses (p ∷ ps) = p.address ∷ addresses ps

releases-release_later :
    (a input : ℕ) (seen : List ℕ) (ps : List Packet)
    → releases a (release_later input seen ps) ≡ (
        if nat_eq input a || contains ⦃e = eq_ℕ⦄ seen a
        then 0
        else if contains ⦃e = eq_ℕ⦄ (addresses ps) a
        then 1
        else 0)
unfolding release_later
releases-release_later a input seen [] = ground arith
releases-release_later a input seen (p ∷ ps) = elim (Bool-cases (nat_eq p.address a)) [
  | inl same ↦
      let e : p.address ≡ a = ground arith in
      ground (
        arith,
        same,
        ap (contains ⦃e = eq_ℕ⦄ seen) e,
        releases-release_later a input seen ps,
        releases-release_later a input (p.address ∷ seen) ps,
      )
  | inr other ↦ ground (
    arith,
    other,
    releases-release_later a input seen ps,
    releases-release_later a input (p.address ∷ seen) ps,
  )
]

-- However the pipelines drop, rewrite or multiply packets, a run releases the input packet
-- once, each other packet that comes out once, also if it comes out several times, and nothing
-- else.
pub releases-run_packet :
    (a : ℕ) (t : Task) (pkt : Packet)
    → releases a (run_packet t pkt) ≡ (
        if nat_eq pkt.address a
          || contains ⦃e = eq_ℕ⦄ (addresses (run_pipelines t.pipelines (pkt ∷ []))) a
        then 1
        else 0)
unfolding run_packet
releases-run_packet a t pkt =
    let packets = run_pipelines t.pipelines (pkt ∷ []) in
    let deliveries = flat_map (deliver_one t) packets in
    let later = release_later pkt.address [] packets in
    ground (
      arith,
      releases-append a (deliveries ++ later) (released pkt ∷ []),
      releases-append a deliveries later,
      releases-deliver a t packets,
      releases-release_later a pkt.address [] packets,
    )
