-- ===== src/Schedule/Return.antt =====
-- src/schedule/interval_job.go: Start comes to its end.
use forward_stub.Prelude.{arith, refl, suc, true, zero, ℕ, ◌&&◌, ◌≡◌}
use forward_stub.Schedule.{
  IntervalJob, JobReach, JobState, JobStep, draining, job_leaves, job_returns, no_steps, one_more,
  returned, round_ends, round_gone, ticking,
}

-- Start can return from the state without a further round.
abbrev pub CanReturn : IntervalJob → JobState → Type 0
CanReturn j s = (t : JobState) × JobReach j s t × (t.phase ≡ returned) × (t.triggers ≡ s.triggers)

prepend : {j : IntervalJob} {s t u : JobState} → JobStep j s t → JobReach j t u → JobReach j s u
prepend st no_steps = one_more no_steps st
prepend st (one_more r last) = one_more (prepend st r) last

gone_CanReturn :
    (j : IntervalJob) (m : ℕ) (s : JobState)
    → s.phase ≡ draining
    → s.in_run ≡ 0
    → s.leaving ≡ m
    → CanReturn j s
gone_CanReturn j zero s p r l =
    (record s { phase = returned }, one_more no_steps (job_returns s p (omega arith)), refl, refl)
gone_CanReturn j (suc m) s p r l =
    let (t, path, e, same) =
      gone_CanReturn j m (record s { leaving = m; ended = suc s.ended }) p r refl in
    (t, prepend (round_gone s m l) path, e, same)

ended_CanReturn :
    (j : IntervalJob) (n : ℕ) (s : JobState) → s.phase ≡ draining → s.in_run ≡ n → CanReturn j s
ended_CanReturn j zero s p r = gone_CanReturn j s.leaving s p r refl
ended_CanReturn j (suc n) s p r =
    let (t, path, e, same) =
      ended_CanReturn j n
        (record s { in_run = n; leaving = suc s.leaving; running = j.allow_overlap && s.running }) p
        refl in
    (t, prepend (round_ends s n r) path, e, same)

-- When the context is done, Start in its loop can return by steps among which no further round is started, once the rounds that run have ended.
pub cancelled_CanReturn :
    (j : IntervalJob) (s : JobState) → s.phase ≡ ticking → s.cancelled ≡ true → CanReturn j s
cancelled_CanReturn j s p c =
    let (t, path, e, same) = ended_CanReturn j s.in_run (record s { phase = draining }) refl refl in
    (t, prepend (job_leaves s p c) path, e, same)
