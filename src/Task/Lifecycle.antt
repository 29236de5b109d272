-- ===== src/Task/Lifecycle.antt =====
-- src/task/task.go: Handle, runPacket, channelWorker and StopGraceful of one started task, as the
-- steps of a transition system. What `stateMu` protects is one step; the wait group and the
-- counter `inflightCount` move together and are one number. The pool of goroutines is open: any
-- submission may run at once, wait among those that enter, or fail. A call of Handle that does not
-- hand its packet on releases it only after it has left the wait group or the lock, as a step of its
-- own; runPacket releases the packet first and then leaves, which is one step.
pub mod Drain
pub mod Order
pub mod Stop
use forward_stub.Packet.{Packet}
use forward_stub.Prelude.{Bool, List, [], false, length, suc, true, ℕ, ◌++◌, ◌-◌, ◌<◌, ◌∷◌, ◌≡◌}
use forward_stub.Task.{ExecutionModel, channel, fastpath, pool}

-- Where StopGraceful is: not called, before `inflight.Wait`, behind it, behind `pool.Release` or
-- `close(ch)`, behind `wg.Wait`.
pub data Phase : Type 0 where
  serving waiting drained shut stopped : Phase

pub record Life : Type 0 where
  pub mode : ExecutionModel
  pub capacity : ℕ
  pub accepting : Bool
  pub phase : Phase
  -- the packets of the calls of Handle that have passed the test of `accepting`
  pub entering : List Packet
  -- the channel
  pub queue : List Packet
  -- the packets in runPacket
  pub running : List Packet
  -- the packets that Handle has turned away or taken out of the count, before their Release
  pub releasing : List Packet
  pub inflight : ℕ
  -- all packets that Handle was called with, and all that were released
  pub handed : List Packet
  pub given_back : List Packet
  -- what was sent to the channel, and what its worker received, in order
  pub put : List Packet
  pub got : List Packet

-- The state that `Start` leaves.
abbrev pub started : ExecutionModel → ℕ → Life
started mode capacity = record {
  mode = mode;
  capacity = capacity;
  accepting = true;
  phase = serving;
  entering = [];
  queue = [];
  running = [];
  releasing = [];
  inflight = 0;
  handed = [];
  given_back = [];
  put = [];
  got = [];
}

-- A call of Handle that does not hand its packet on: Done and the counter, with the Release still to come.
abbrev dropped : Life → Packet → List Packet → Life
dropped s p others = record s {
  entering = others;
  releasing = p ∷ s.releasing;
  inflight = s.inflight - 1;
}

pub data Step : Life → Life → Type 0 where
  refuses :
      (s : Life) (p : Packet)
      → s.accepting ≡ false
      → Step s (record s { handed = p ∷ s.handed; releasing = p ∷ s.releasing })
  enters :
      (s : Life) (p : Packet)
      → s.accepting ≡ true
      → Step s
          (record s { handed = p ∷ s.handed; entering = p ∷ s.entering; inflight = suc s.inflight })
  runs_here :
      (s : Life) (xs : List Packet) (p : Packet) (ys : List Packet)
      → s.mode ≡ fastpath
      → s.entering ≡ xs ++ p ∷ ys
      → Step s (record s { entering = xs ++ ys; running = p ∷ s.running })
  submits :
      (s : Life) (xs : List Packet) (p : Packet) (ys : List Packet)
      → s.mode ≡ pool
      → s.entering ≡ xs ++ p ∷ ys
      → Step s (record s { entering = xs ++ ys; running = p ∷ s.running })
  submit_fails :
      (s : Life) (xs : List Packet) (p : Packet) (ys : List Packet)
      → s.mode ≡ pool
      → s.entering ≡ xs ++ p ∷ ys
      → Step s (dropped s p (xs ++ ys))
  puts :
      (s : Life) (xs : List Packet) (p : Packet) (ys : List Packet)
      → s.mode ≡ channel
      → s.entering ≡ xs ++ p ∷ ys
      → length s.queue < s.capacity
      → Step s (record s { entering = xs ++ ys; queue = s.queue ++ p ∷ []; put = s.put ++ p ∷ [] })
  gives_up :
      (s : Life) (xs : List Packet) (p : Packet) (ys : List Packet)
      → s.mode ≡ channel
      → s.entering ≡ xs ++ p ∷ ys
      → Step s (dropped s p (xs ++ ys))
  gets :
      (s : Life) (p : Packet) (rest : List Packet)
      → s.mode ≡ channel
      → s.queue ≡ p ∷ rest
      → s.running ≡ []
      → Step s (record s { queue = rest; running = p ∷ []; got = s.got ++ p ∷ [] })
  finishes :
      (s : Life) (xs : List Packet) (p : Packet) (ys : List Packet)
      → s.running ≡ xs ++ p ∷ ys
      → Step s (record s {
        running = xs ++ ys;
        inflight = s.inflight - 1;
        given_back = p ∷ s.given_back;
      })
  gives_back :
      (s : Life) (xs : List Packet) (p : Packet) (ys : List Packet)
      → s.releasing ≡ xs ++ p ∷ ys
      → Step s (record s { releasing = xs ++ ys; given_back = p ∷ s.given_back })
  stop_begins :
      (s : Life) → s.phase ≡ serving → Step s (record s { accepting = false; phase = waiting })
  wait_ends :
      (s : Life) → s.phase ≡ waiting → s.inflight ≡ 0 → Step s (record s { phase = drained })
  closes : (s : Life) → s.phase ≡ drained → Step s (record s { phase = shut })
  returns :
      (s : Life)
      → s.phase ≡ shut
      → (s.mode ≡ channel → (s.queue ≡ []) × (s.running ≡ []))
      → Step s (record s { phase = stopped })

pub data Reach (s : Life) : Life → Type 0 where
  at_start : Reach s s
  go_on : {t u : Life} → Reach s t → Step t u → Reach s u
