-- ===== src/Task/Lifecycle/Drain.antt =====
-- src/task/task.go: what is in flight when a task stops.
use forward_stub.Packet.{Packet}
use forward_stub.Prelude.{
  Bool, List, [], arith, false, if◌then◌else◌, length, length-append, nat_eq, refl, suc, true, ℕ,
  ◌++◌, ◌+◌, ◌∷◌, ◌≡◌,
}
use forward_stub.Task.{ExecutionModel}
use forward_stub.Task.Lifecycle.{
  Life, Phase, Reach, Step, at_start, closes, enters, finishes, gets, gives_back, gives_up, go_on,
  puts, refuses, returns, runs_here, serving, started, stop_begins, submit_fails, submits,
  wait_ends, waiting,
}

abbrev past_wait : Phase → Bool
past_wait serving = false
past_wait waiting = false
past_wait _ = true

-- The count is that of the packets in the task; a task that has begun to stop accepts nothing,
-- and nothing is in it once the wait has ended.
pub record IsSound (s : Life) : Type 0 where
  pub counted : s.inflight ≡ length s.entering + (length s.queue + length s.running)
  pub gate : (s.accepting ≡ true) → s.phase ≡ serving
  pub empty : past_wait s.phase ≡ true → s.inflight ≡ 0

pub length-split :
    (s : List Packet) (xs : List Packet) (p : Packet) (ys : List Packet)
    → s ≡ xs ++ p ∷ ys
    → length s ≡ suc (length (xs ++ ys))
length-split s xs p ys e = rw e (omega (arith, length-append xs (p ∷ ys), length-append xs ys))

pub Step-IsSound : {s t : Life} → Step s t → IsSound s → IsSound t
Step-IsSound (refuses s p c) h = record { counted = h.counted; gate = h.gate; empty = h.empty }
Step-IsSound (enters s p c) h = record {
  counted = omega (arith, h.counted);
  gate = h.gate;
  empty = λ e. absurd (ground (arith, h.gate c));
}
Step-IsSound (runs_here s xs p ys m e) h = record {
  counted = omega (arith, h.counted, length-split s.entering xs p ys e);
  gate = h.gate;
  empty = h.empty;
}
Step-IsSound (submits s xs p ys m e) h = record {
  counted = omega (arith, h.counted, length-split s.entering xs p ys e);
  gate = h.gate;
  empty = h.empty;
}
Step-IsSound (submit_fails s xs p ys m e) h = record {
  counted = omega (arith, h.counted, length-split s.entering xs p ys e);
  gate = h.gate;
  empty = λ d. omega (arith, h.empty d);
}
Step-IsSound (puts s xs p ys m e c) h = record {
  counted =
      omega (arith, h.counted, length-split s.entering xs p ys e, length-append s.queue (p ∷ []));
  gate = h.gate;
  empty = h.empty;
}
Step-IsSound (gives_up s xs p ys m e) h = record {
  counted = omega (arith, h.counted, length-split s.entering xs p ys e);
  gate = h.gate;
  empty = λ d. omega (arith, h.empty d);
}
Step-IsSound (gets s p rest m e r) h = record {
  counted = ground (arith, h.counted);
  gate = h.gate;
  empty = h.empty;
}
Step-IsSound (finishes s xs p ys e) h = record {
  counted = omega (arith, h.counted, length-split s.running xs p ys e);
  gate = h.gate;
  empty = λ d. omega (arith, h.empty d);
}
Step-IsSound (gives_back s xs p ys e) h = record {
  counted = h.counted;
  gate = h.gate;
  empty = h.empty;
}
Step-IsSound (stop_begins s e) h = record { counted = h.counted; gate = λ c. cc; empty = λ d. cc }
Step-IsSound (wait_ends s e z) h = record {
  counted = h.counted;
  gate = λ c. absurd (ground (arith, h.gate c));
  empty = λ d. z;
}
Step-IsSound (closes s e) h = record {
  counted = h.counted;
  gate = λ c. absurd (ground (arith, h.gate c));
  empty = λ d. h.empty (ground arith);
}
Step-IsSound (returns s e w) h = record {
  counted = h.counted;
  gate = λ c. absurd (ground (arith, h.gate c));
  empty = λ d. h.empty (ground arith);
}

started-IsSound : (mode : ExecutionModel) (capacity : ℕ) → IsSound (started mode capacity)
started-IsSound mode capacity = record { counted = refl; gate = λ c. refl; empty = λ d. refl }

pub Reach-IsSound :
    {mode : ExecutionModel} {capacity : ℕ} {s : Life} → Reach (started mode capacity) s → IsSound s
Reach-IsSound at_start = started-IsSound _ _
Reach-IsSound (go_on r st) = Step-IsSound st (Reach-IsSound r)

abbrev pub tally : ℕ → List Packet → ℕ
tally a [] = 0
tally a (p ∷ ps) = if nat_eq p.address a then suc (tally a ps) else tally a ps

tally-append : (a : ℕ) (xs ys : List Packet) → tally a (xs ++ ys) ≡ tally a xs + tally a ys
tally-append a [] ys = omega arith
tally-append a (p ∷ xs) ys = ground (arith, tally-append a xs ys)

tally-split :
    (a : ℕ) (s : List Packet) (xs : List Packet) (p : Packet) (ys : List Packet)
    → s ≡ xs ++ p ∷ ys
    → tally a s ≡ tally a (p ∷ []) + tally a (xs ++ ys)
tally-split a s xs p ys e = rw e (ground (arith, tally-append a xs (p ∷ ys), tally-append a xs ys))

abbrev pub Balanced : ℕ → Life → Type 0
Balanced a s =
    tally a s.handed
    ≡ tally a s.given_back
      + (tally a s.releasing + (tally a s.entering + (tally a s.queue + tally a s.running)))

Step-Balanced : (a : ℕ) {s t : Life} → Step s t → Balanced a s → Balanced a t
Step-Balanced a (refuses s p c) h = ground arith
Step-Balanced a (enters s p c) h = ground arith
Step-Balanced a (runs_here s xs p ys m e) h = ground (arith, tally-split a s.entering xs p ys e)
Step-Balanced a (submits s xs p ys m e) h = ground (arith, tally-split a s.entering xs p ys e)
Step-Balanced a (submit_fails s xs p ys m e) h = ground (arith, tally-split a s.entering xs p ys e)
Step-Balanced a (puts s xs p ys m e c) h =
    ground (arith, tally-split a s.entering xs p ys e, tally-append a s.queue (p ∷ []))
Step-Balanced a (gives_up s xs p ys m e) h = ground (arith, tally-split a s.entering xs p ys e)
Step-Balanced a (gets s p rest m e r) h = ground arith
Step-Balanced a (finishes s xs p ys e) h = ground (arith, tally-split a s.running xs p ys e)
Step-Balanced a (gives_back s xs p ys e) h = ground (arith, tally-split a s.releasing xs p ys e)
Step-Balanced a (stop_begins s e) h = h
Step-Balanced a (wait_ends s e z) h = h
Step-Balanced a (closes s e) h = h
Step-Balanced a (returns s e w) h = h

Reach-Balanced :
    (a : ℕ) {mode : ExecutionModel} {capacity : ℕ} {s : Life}
    → Reach (started mode capacity) s
    → Balanced a s
Reach-Balanced a at_start = refl
Reach-Balanced a (go_on r st) = Step-Balanced a st (Reach-Balanced a r)

pub length-empty : (xs : List Packet) → length xs ≡ 0 → xs ≡ []
length-empty [] h = refl
length-empty (x ∷ xs) h = absurd (omega arith)

-- The calls of Handle that are still to release their packets do so.
pub record AllReleased (a : ℕ) (s : Life) : Type 0 where
  pub to : Life
  pub path : Reach s to
  pub same_phase : to.phase ≡ s.phase
  pub same_handed : to.handed ≡ s.handed
  pub none_left : to.releasing ≡ []
  pub released : tally a to.given_back ≡ tally a s.given_back + tally a s.releasing

prepend_step : {s t u : Life} → Step s t → Reach t u → Reach s u
prepend_step st at_start = go_on at_start st
prepend_step st (go_on r last) = go_on (prepend_step st r) last

all_released : (a : ℕ) (ps : List Packet) (s : Life) → s.releasing ≡ ps → AllReleased a s
all_released a [] s e = record {
  to = s;
  path = at_start;
  same_phase = refl;
  same_handed = refl;
  none_left = e;
  released = ground (arith, e);
}
all_released a (p ∷ ps) s e =
    let rest =
      all_released a ps (record s { releasing = ps; given_back = p ∷ s.given_back }) refl in
    record {
      to = rest.to;
      path = prepend_step (gives_back s [] p ps e) rest.path;
      same_phase = rest.same_phase;
      same_handed = rest.same_handed;
      none_left = rest.none_left;
      released = ground (arith, rest.released, e);
    }

-- Once StopGraceful is behind its wait, and so before it releases the pool or closes the channel, no call of Handle is about to send to the channel or to submit, no packet waits in the channel and none runs; every packet that Handle was called with has been released, as often as it was handed over, but for those that a call of Handle has turned away or dropped and is still to release; and the steps of these calls lead to a state in the same phase in which all have been released.
pub drained_lem :
    (a : ℕ) {mode : ExecutionModel} {capacity : ℕ} {s : Life}
    → Reach (started mode capacity) s
    → past_wait s.phase ≡ true
    → (s.entering ≡ [])
      × (s.queue ≡ [])
      × (s.running ≡ [])
      × (tally a s.handed ≡ tally a s.given_back + tally a s.releasing)
      × AllReleased a s
drained_lem a {s = s} r d =
    let h = Reach-IsSound r in
    let z = h.empty d in
    let no_entering = length-empty s.entering (omega (arith, h.counted, z)) in
    let no_queue = length-empty s.queue (omega (arith, h.counted, z)) in
    let no_running = length-empty s.running (omega (arith, h.counted, z)) in
    (
      no_entering,
      no_queue,
      no_running,
      ground (arith, Reach-Balanced a r, no_entering, no_queue, no_running),
      all_released a s.releasing s refl,
    )
