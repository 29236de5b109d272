-- ===== src/Schedule/Overlap.antt =====
-- src/schedule/interval_job.go: how many rounds run, and when none does.
use forward_stub.Prelude.{Bool, arith, false, if◌then◌else◌, refl, true, ◌+◌, ◌≡◌, ◌≤◌}
use forward_stub.Schedule.{
  IntervalJob, JobPhase, JobReach, JobState, JobStep, draining, job_begins, job_cancelled,
  job_leaves, job_returns, job_ticks, no_steps, not_started, one_more, returned, round_ends,
  round_gone, start_run,
}

abbrev has_left : JobPhase → Bool
has_left draining = true
has_left returned = true
has_left _ = false

pub record AreSound (j : IntervalJob) (s : JobState) : Type 0 where
  pub single : j.allow_overlap ≡ false → s.in_run ≡ (if s.running then 1 else 0)
  pub all_run : j.allow_overlap ≡ true → s.skipped ≡ 0
  pub told : has_left s.phase ≡ true → s.cancelled ≡ true
  pub quiet : s.phase ≡ returned → s.in_run + s.leaving ≡ 0
  pub counted : s.triggers ≡ s.skipped + (s.ended + (s.leaving + s.in_run))

start_run-phase : (j : IntervalJob) (s : JobState) → (start_run j s).phase ≡ s.phase
start_run-phase j s = ground arith

start_run-AreSound :
    (j : IntervalJob) (s : JobState)
    → ¬ (s.phase ≡ returned)
    → AreSound j s
    → AreSound j (start_run j s)
start_run-AreSound j s alive h = record {
  single = λ e. ground (arith, h.single e, e);
  all_run = λ e. ground (arith, h.all_run e, e);
  told = λ e. ground (arith, h.told, e);
  quiet = λ e. absurd (alive (rw (← start_run-phase j s) e));
  counted = ground (arith, h.counted);
}

begun-AreSound :
    (j : IntervalJob) (immediate : Bool) (s : JobState)
    → ¬ (s.phase ≡ returned)
    → AreSound j s
    → AreSound j (if immediate then start_run j s else s)
begun-AreSound j true s alive h = start_run-AreSound j s alive h
begun-AreSound j false s alive h = h

JobStep-AreSound : (j : IntervalJob) {s t : JobState} → JobStep j s t → AreSound j s → AreSound j t
JobStep-AreSound j (job_begins s e) h =
    let v = begun-AreSound j j.immediate_start s (λ r. cc) h in
    record {
      single = v.single;
      all_run = v.all_run;
      told = λ l. absurd (ground arith);
      quiet = λ l. absurd (ground arith);
      counted = v.counted;
    }
JobStep-AreSound j (job_ticks s e) h = start_run-AreSound j s (λ r. cc) h
JobStep-AreSound j (job_cancelled s) h = record {
  single = h.single;
  all_run = h.all_run;
  told = λ e. refl;
  quiet = h.quiet;
  counted = h.counted;
}
JobStep-AreSound j (job_leaves s e c) h = record {
  single = h.single;
  all_run = h.all_run;
  told = λ l. c;
  quiet = λ l. cc;
  counted = h.counted;
}
JobStep-AreSound j (round_ends s n e) h = record {
  single = λ o. ground (arith, h.single o, o, e);
  all_run = h.all_run;
  told = h.told;
  quiet = λ r. absurd (omega (arith, h.quiet r));
  counted = omega (arith, h.counted);
}
JobStep-AreSound j (round_gone s n e) h = record {
  single = h.single;
  all_run = h.all_run;
  told = h.told;
  quiet = λ r. absurd (omega (arith, h.quiet r));
  counted = omega (arith, h.counted);
}
JobStep-AreSound j (job_returns s e z) h = record {
  single = h.single;
  all_run = h.all_run;
  told = λ l. h.told (ground arith);
  quiet = λ l. z;
  counted = h.counted;
}

pub JobReach-AreSound : (j : IntervalJob) {s : JobState} → JobReach j not_started s → AreSound j s
JobReach-AreSound j no_steps = record {
  single = λ o. refl;
  all_run = λ o. refl;
  told = λ l. cc;
  quiet = λ l. refl;
  counted = refl;
}
JobReach-AreSound j (one_more r st) = JobStep-AreSound j st (JobReach-AreSound j r)

-- In every state that a job reaches: without overlap at most one round of the task runs, and with overlap no trigger is skipped; every trigger has been skipped, or its round runs or has ended; and once Start has returned, its context is done and no round is left.
pub rounds_lem :
    (j : IntervalJob) {s : JobState}
    → JobReach j not_started s
    → (j.allow_overlap ≡ false → s.in_run ≤ 1)
      × (j.allow_overlap ≡ true → s.skipped ≡ 0)
      × (s.triggers ≡ s.skipped + (s.ended + (s.leaving + s.in_run)))
      × (s.phase ≡ returned → (s.cancelled ≡ true) × (s.in_run + s.leaving ≡ 0))
rounds_lem j r =
    let h = JobReach-AreSound j r in
    (
      λ o. ground (arith, h.single o),
      h.all_run,
      h.counted,
      λ e. (h.told (ground (arith, e)), h.quiet e),
    )
