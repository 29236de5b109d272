-- ===== src/Task/Lifecycle/Order.antt =====
-- src/task/task.go: the order of packets and the bounds in the channel model.
use mathlib.Core.List.{append_assoc}
use forward_stub.Prelude.{
  Bool, [], arith, false, inl, inr, length, length-append, ltb, refl, sym, true, ℕ, ◌&&◌, ◌++◌, ◌∙◌,
  ◌∷◌, ◌≡◌, ◌≤◌, ◌⊎◌,
}
use forward_stub.Task.{ExecutionModel, channel}
use forward_stub.Task.Lifecycle.{
  Life, Reach, Step, at_start, closes, enters, finishes, gets, gives_back, gives_up, go_on, puts,
  refuses, returns, runs_here, started, stop_begins, submit_fails, submits, wait_ends,
}
use forward_stub.Task.Lifecycle.Drain.{length-split}

abbrev pub is_channel : ExecutionModel → Bool
is_channel channel = true
is_channel _ = false

-- What the worker received, followed by what is in the channel, is what was sent to it.
pub record IsOrdered (s : Life) : Type 0 where
  pub in_order : s.put ≡ s.got ++ s.queue
  pub fits : length s.queue ≤ s.capacity
  pub one_runs : (is_channel s.mode && ltb 1 (length s.running)) ≡ false
  pub queue_used : (s.queue ≡ []) ⊎ (s.mode ≡ channel)

pub Step-IsOrdered : {s t : Life} → Step s t → IsOrdered s → IsOrdered t
Step-IsOrdered (refuses s p c) h = record {
  in_order = h.in_order;
  fits = h.fits;
  one_runs = h.one_runs;
  queue_used = h.queue_used;
}
Step-IsOrdered (enters s p c) h = record {
  in_order = h.in_order;
  fits = h.fits;
  one_runs = h.one_runs;
  queue_used = h.queue_used;
}
Step-IsOrdered (runs_here s xs p ys m e) h = record {
  in_order = h.in_order;
  fits = h.fits;
  one_runs = rw m refl;
  queue_used = h.queue_used;
}
Step-IsOrdered (submits s xs p ys m e) h = record {
  in_order = h.in_order;
  fits = h.fits;
  one_runs = rw m refl;
  queue_used = h.queue_used;
}
Step-IsOrdered (submit_fails s xs p ys m e) h = record {
  in_order = h.in_order;
  fits = h.fits;
  one_runs = h.one_runs;
  queue_used = h.queue_used;
}
Step-IsOrdered (puts s xs p ys m e c) h = record {
  in_order = rw h.in_order (append_assoc s.got s.queue (p ∷ []));
  fits = omega (arith, length-append s.queue (p ∷ []));
  one_runs = h.one_runs;
  queue_used = inr m;
}
Step-IsOrdered (gives_up s xs p ys m e) h = record {
  in_order = h.in_order;
  fits = h.fits;
  one_runs = h.one_runs;
  queue_used = h.queue_used;
}
Step-IsOrdered (gets s p rest m e r) h = record {
  in_order = h.in_order ∙ rw e (sym (append_assoc s.got (p ∷ []) rest));
  fits = ground (arith, h.fits);
  one_runs = ground arith;
  queue_used = inr m;
}
Step-IsOrdered (finishes s xs p ys e) h = record {
  in_order = h.in_order;
  fits = h.fits;
  one_runs = ground (arith, h.one_runs, length-split s.running xs p ys e);
  queue_used = h.queue_used;
}
Step-IsOrdered (gives_back s xs p ys e) h = record {
  in_order = h.in_order;
  fits = h.fits;
  one_runs = h.one_runs;
  queue_used = h.queue_used;
}
Step-IsOrdered (stop_begins s e) h = record {
  in_order = h.in_order;
  fits = h.fits;
  one_runs = h.one_runs;
  queue_used = h.queue_used;
}
Step-IsOrdered (wait_ends s e z) h = record {
  in_order = h.in_order;
  fits = h.fits;
  one_runs = h.one_runs;
  queue_used = h.queue_used;
}
Step-IsOrdered (closes s e) h = record {
  in_order = h.in_order;
  fits = h.fits;
  one_runs = h.one_runs;
  queue_used = h.queue_used;
}
Step-IsOrdered (returns s e w) h = record {
  in_order = h.in_order;
  fits = h.fits;
  one_runs = h.one_runs;
  queue_used = h.queue_used;
}

-- In every state that a started task reaches, the worker of the channel has received the packets
-- in the order in which they were sent and no other, at most one of them runs in the channel
-- model, the channel holds no more than its capacity, and it is used in the channel model only.
pub Reach-IsOrdered :
    {mode : ExecutionModel} {capacity : ℕ} {s : Life}
    → Reach (started mode capacity) s
    → IsOrdered s
Reach-IsOrdered at_start = record {
  in_order = refl;
  fits = omega arith;
  one_runs = ground arith;
  queue_used = inl refl;
}
Reach-IsOrdered (go_on r st) = Step-IsOrdered st (Reach-IsOrdered r)
