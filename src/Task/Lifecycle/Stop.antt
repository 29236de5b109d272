-- ===== src/Task/Lifecycle/Stop.antt =====
-- src/task/task.go: StopGraceful comes to its end.
use forward_stub.Packet.{Packet}
use forward_stub.Prelude.{
  List, [], arith, inl, inr, length, refl, suc, zero, ℕ, ◌*◌, ◌+◌, ◌<◌, ◌∙◌, ◌∷◌, ◌≡◌, ◌≤◌, ◌⊎◌,
}
use forward_stub.Task.{ExecutionModel, channel, fastpath, pool}
use forward_stub.Task.Lifecycle.{
  Life, Reach, Step, at_start, closes, enters, finishes, gets, gives_back, gives_up, go_on, puts,
  refuses, returns, runs_here, started, stop_begins, stopped, submit_fails, submits, wait_ends,
  waiting,
}
use forward_stub.Task.Lifecycle.Drain.{IsSound, Reach-IsSound, Step-IsSound, length-empty}
use forward_stub.Task.Lifecycle.Order.{IsOrdered, Reach-IsOrdered, Step-IsOrdered}

abbrev work : Life → ℕ
work s = 3 * length s.entering + (2 * length s.queue + length s.running)

-- A step that brings the packets in the task forward, without a new one.
record Forward (s : Life) : Type 0 where
  to : Life
  step : Step s to
  less : work to < work s
  same_mode : to.mode ≡ s.mode
  same_capacity : to.capacity ≡ s.capacity
  same_phase : to.phase ≡ s.phase
  same_handed : to.handed ≡ s.handed

enter-Forward :
    (s : Life) (p : Packet) (ps : List Packet) (m : ExecutionModel)
    → s.mode ≡ m
    → s.entering ≡ p ∷ ps
    → s.queue ≡ []
    → 0 < s.capacity
    → Forward s
enter-Forward s p ps fastpath m e q c = record {
  to = _;
  step = runs_here s [] p ps m e;
  less = ground (arith, e);
  same_mode = refl;
  same_capacity = refl;
  same_phase = refl;
  same_handed = refl;
}
enter-Forward s p ps pool m e q c = record {
  to = _;
  step = submits s [] p ps m e;
  less = ground (arith, e);
  same_mode = refl;
  same_capacity = refl;
  same_phase = refl;
  same_handed = refl;
}
enter-Forward s p ps channel m e q c = record {
  to = _;
  step = puts s [] p ps m e (ground (arith, q));
  less = ground (arith, e, q);
  same_mode = refl;
  same_capacity = refl;
  same_phase = refl;
  same_handed = refl;
}

List-cases : (xs : List Packet) → (xs ≡ []) ⊎ ((p : Packet) × (ps : List Packet) × (xs ≡ p ∷ ps))
List-cases [] = inl refl
List-cases (p ∷ ps) = inr (p, ps, refl)

forward : (s : Life) → IsOrdered s → 0 < s.capacity → (work s ≡ 0) ⊎ Forward s
forward s h c = elim (List-cases s.running) [
  | inr (p, ps, e) ↦ inr (record {
    to = _;
    step = finishes s [] p ps e;
    less = ground (arith, e);
    same_mode = refl;
    same_capacity = refl;
    same_phase = refl;
    same_handed = refl;
  })
  | inl none_runs ↦ elim (List-cases s.queue) [
    | inr (p, ps, e) ↦ elim h.queue_used [
      | inl none_there ↦ absurd (cc (none_there, e))
      | inr m ↦ inr (record {
        to = _;
        step = gets s p ps m e none_runs;
        less = ground (arith, e, none_runs);
        same_mode = refl;
        same_capacity = refl;
        same_phase = refl;
        same_handed = refl;
      })
    ]
    | inl none_queued ↦ elim (List-cases s.entering) [
      | inr (p, ps, e) ↦ inr (enter-Forward s p ps s.mode refl e none_queued c)
      | inl none_enters ↦ inl (ground (arith, none_runs, none_queued, none_enters))
    ]
  ]
]

path-IsSound : {s t : Life} → Reach s t → IsSound s → IsSound t
path-IsSound at_start i = i
path-IsSound (go_on r st) i = Step-IsSound st (path-IsSound r i)

Step-capacity : {s t : Life} → Step s t → t.capacity ≡ s.capacity
Step-capacity (refuses s p c) = refl
Step-capacity (enters s p c) = refl
Step-capacity (runs_here s xs p ys m e) = refl
Step-capacity (submits s xs p ys m e) = refl
Step-capacity (submit_fails s xs p ys m e) = refl
Step-capacity (puts s xs p ys m e c) = refl
Step-capacity (gives_up s xs p ys m e) = refl
Step-capacity (gets s p rest m e r) = refl
Step-capacity (finishes s xs p ys e) = refl
Step-capacity (gives_back s xs p ys e) = refl
Step-capacity (stop_begins s e) = refl
Step-capacity (wait_ends s e z) = refl
Step-capacity (closes s e) = refl
Step-capacity (returns s e w) = refl

Reach-capacity :
    {mode : ExecutionModel} {capacity : ℕ} {s : Life}
    → Reach (started mode capacity) s
    → s.capacity ≡ capacity
Reach-capacity at_start = refl
Reach-capacity (go_on r st) = Step-capacity st ∙ Reach-capacity r

Reach-trans : {s t u : Life} → Reach s t → Reach t u → Reach s u
Reach-trans r at_start = r
Reach-trans r (go_on q st) = go_on (Reach-trans r q) st

record Emptied (s : Life) : Type 0 where
  to : Life
  path : Reach s to
  done : work to ≡ 0
  same_mode : to.mode ≡ s.mode
  same_phase : to.phase ≡ s.phase
  same_handed : to.handed ≡ s.handed

emptied : (n : ℕ) (s : Life) → work s ≤ n → IsOrdered s → 0 < s.capacity → Emptied s
emptied zero s w h c = record {
  to = s;
  path = at_start;
  done = omega (arith, w);
  same_mode = refl;
  same_phase = refl;
  same_handed = refl;
}
emptied (suc n) s w h c = elim (forward s h c) [
  | inl z ↦ record {
    to = s;
    path = at_start;
    done = z;
    same_mode = refl;
    same_phase = refl;
    same_handed = refl;
  }
  | inr f ↦
      let rest =
        emptied n f.to (omega (arith, f.less)) (Step-IsOrdered f.step h) (rw f.same_capacity c) in
      record {
        to = rest.to;
        path = Reach-trans (go_on at_start f.step) rest.path;
        done = rest.done;
        same_mode = rest.same_mode ∙ f.same_mode;
        same_phase = rest.same_phase ∙ f.same_phase;
        same_handed = rest.same_handed ∙ f.same_handed;
      }
]

-- A way to the end of StopGraceful on which no packet is handed to the task.
pub record Stops (s : Life) : Type 0 where
  pub to : Life
  pub path : Reach s to
  pub at_end : to.phase ≡ stopped
  pub nothing_new : to.handed ≡ s.handed

waiting-Stops : (s : Life) → IsSound s → IsOrdered s → 0 < s.capacity → s.phase ≡ waiting → Stops s
waiting-Stops s i h c w =
    let e = emptied (work s) s (omega arith) h c in
    let i' = path-IsSound e.path i in
    let now : e.to.phase ≡ waiting = e.same_phase ∙ w in
    let none : e.to.inflight ≡ 0 = omega (arith, i'.counted, e.done) in
    let quiet : (e.to.queue ≡ []) × (e.to.running ≡ []) = (
      length-empty e.to.queue (omega (arith, e.done)),
      length-empty e.to.running (omega (arith, e.done)),
    ) in
    record {
      to = _;
      path =
          go_on (go_on (go_on e.path (wait_ends e.to now none)) (closes _ refl))
            (returns _ refl λ m. quiet);
      at_end = refl;
      nothing_new = e.same_handed;
    }

-- From every state that a started task with room in its channel reaches while StopGraceful waits,
-- the packets in the task can be brought to their end, and StopGraceful to its return, without a
-- further call of Handle.
pub waiting_can_stop :
    {mode : ExecutionModel} {capacity : ℕ} {s : Life}
    → Reach (started mode capacity) s
    → 0 < capacity
    → s.phase ≡ waiting
    → Stops s
waiting_can_stop {s = s} r c w =
    waiting-Stops s (Reach-IsSound r) (Reach-IsOrdered r) (rw (Reach-capacity r) c) w
