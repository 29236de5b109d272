-- ===== src/Dispatch/Fan.antt =====
-- src/runtime/update_cache.go, dispatchToSelector: one packet in, and who owns it and its clones
-- afterwards.
use forward_stub.Dispatch.{Outcome, clone_to, dispatch_to_tasks, dropped, handled}
use forward_stub.Packet.{Packet, clone}
use forward_stub.Prelude.{All, List, [], ap, drop, length, refl, suc, zero, ℕ, ◌++◌, ◌∷◌, ◌≡◌}

-- The tasks that got a packet, in the order of the calls.
abbrev pub handlers {ℓ} : {T : Type ℓ} → List (Outcome T) → List T
handlers [] = []
handlers (handled t p ∷ os) = t ∷ handlers os
handlers (dropped p ∷ os) = handlers os

-- Every packet that is given to somebody or dropped.
abbrev pub owned {ℓ} : {T : Type ℓ} → List (Outcome T) → List Packet
owned [] = []
owned (handled t p ∷ os) = p ∷ owned os
owned (dropped p ∷ os) = p ∷ owned os

-- The addresses `fresh`, `fresh + 1`, … of the clones.
abbrev pub clone_addresses : ℕ → ℕ → List ℕ
clone_addresses fresh zero = []
clone_addresses fresh (suc n) = fresh ∷ clone_addresses (suc fresh) n

abbrev pub addresses_of : List Packet → List ℕ
addresses_of [] = []
addresses_of (p ∷ ps) = p.address ∷ addresses_of ps

-- The rotation that the loop makes: the first task comes last.
abbrev pub first_last {ℓ} : {A : Type ℓ} → List A → List A
first_last [] = []
first_last (x ∷ xs) = xs ++ x ∷ []

module _ {ℓ} {T : Type ℓ} where
  handlers-clone_to :
      (fresh : ℕ) (pkt : Packet) (ts : List T) (t : T)
      → handlers (clone_to fresh pkt ts ++ handled t pkt ∷ []) ≡ ts ++ t ∷ []
  unfolding clone_to
  handlers-clone_to fresh pkt [] t = refl
  handlers-clone_to fresh pkt (x ∷ ts) t = ap (λ l. x ∷ l) (handlers-clone_to (suc fresh) pkt ts t)

  owned-clone_to :
      (fresh : ℕ) (pkt : Packet) (ts : List T) (t : T)
      → addresses_of (owned (clone_to fresh pkt ts ++ handled t pkt ∷ []))
        ≡ clone_addresses fresh (length ts) ++ pkt.address ∷ []
  unfolding clone_to clone
  owned-clone_to fresh pkt [] t = refl
  owned-clone_to fresh pkt (x ∷ ts) t = ap (λ l. fresh ∷ l) (owned-clone_to (suc fresh) pkt ts t)

  envelopes-clone_to :
      (fresh : ℕ) (pkt : Packet) (ts : List T) (t : T)
      → All (λ p. p.envelope ≡ pkt.envelope) (owned (clone_to fresh pkt ts ++ handled t pkt ∷ []))
  unfolding clone_to clone
  envelopes-clone_to fresh pkt [] t = (refl, tt)
  envelopes-clone_to fresh pkt (x ∷ ts) t = (refl, envelopes-clone_to (suc fresh) pkt ts t)

  -- The fan-out of a packet calls every selected task once, the first one last; the input packet
  -- and one clone for every further task are given away, each clone at the next address from
  -- `fresh` on; without a task the input packet is dropped; and all that
  -- is given away has the metadata and the payload of the input.
  pub dispatch_to_tasks_lem :
      (fresh : ℕ) (pkt : Packet) (tasks : List T)
      → (handlers (dispatch_to_tasks fresh pkt tasks) ≡ first_last tasks)
        × (addresses_of (owned (dispatch_to_tasks fresh pkt tasks))
            ≡ clone_addresses fresh (length (drop 1 tasks)) ++ pkt.address ∷ [])
        × All (λ p. p.envelope ≡ pkt.envelope) (owned (dispatch_to_tasks fresh pkt tasks))
  unfolding dispatch_to_tasks
  dispatch_to_tasks_lem fresh pkt [] = (refl, refl, (refl, tt))
  dispatch_to_tasks_lem fresh pkt (t ∷ []) = (refl, refl, (refl, tt))
  dispatch_to_tasks_lem fresh pkt (t ∷ x ∷ ts) = (
    handlers-clone_to fresh pkt (x ∷ ts) t,
    owned-clone_to fresh pkt (x ∷ ts) t,
    envelopes-clone_to fresh pkt (x ∷ ts) t,
  )
