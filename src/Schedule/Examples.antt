-- ===== src/Schedule/Examples.antt =====
-- src/schedule/interval_job.go: a job whose first tick comes while its first round runs.
use forward_stub.Prelude.{[], false, none, ok, refl, some, true, ◌+◌, ◌∷◌, ◌≡◌, ◌≤◌}
use forward_stub.Prelude.Int.{pos}
use forward_stub.Schedule.{
  IntervalJob, JobReach, JobState, apply_options, job_begins, job_cancelled, job_leaves,
  job_returns, job_ticks, new_interval_job, no_steps, not_started, one_more, returned, round_ends,
  round_gone, ticking, with_immediate_start,
}
use forward_stub.Schedule.Overlap.{rounds_lem}
use forward_stub.Schedule.Return.{CanReturn, cancelled_CanReturn}

abbrev job : IntervalJob
job = record { name = "flush"; interval = pos 5; immediate_start = true; allow_overlap = false }

job-built : new_interval_job "flush" (pos 5) true (none ∷ some with_immediate_start ∷ []) ≡ ok job
unfolding new_interval_job apply_options
job-built = refl

abbrev after_one_tick : JobState
after_one_tick = record {
  phase = ticking;
  cancelled = false;
  running = true;
  in_run = 1;
  leaving = 0;
  triggers = 2;
  skipped = 1;
  ended = 0;
}

ticked : JobReach job not_started after_one_tick
ticked = one_more (one_more no_steps (job_begins not_started refl)) (job_ticks _ refl)

abbrev at_end : JobState
at_end = record {
  phase = returned;
  cancelled = true;
  running = false;
  in_run = 0;
  leaving = 0;
  triggers = 2;
  skipped = 1;
  ended = 1;
}

ended : JobReach job not_started at_end
ended =
    one_more
      (one_more
        (one_more (one_more (one_more ticked (job_cancelled _)) (job_leaves _ refl refl))
          (round_ends _ 0 refl))
        (round_gone _ 0 refl))
      (job_returns _ refl refl)

rounds_lem_example :
    (job.allow_overlap ≡ false → at_end.in_run ≤ 1)
    × (job.allow_overlap ≡ true → at_end.skipped ≡ 0)
    × (at_end.triggers ≡ at_end.skipped + (at_end.ended + (at_end.leaving + at_end.in_run)))
    × (at_end.phase ≡ returned → (at_end.cancelled ≡ true) × (at_end.in_run + at_end.leaving ≡ 0))
rounds_lem_example = rounds_lem job ended

cancelled_CanReturn_example : CanReturn job (record after_one_tick { cancelled = true })
cancelled_CanReturn_example =
    cancelled_CanReturn job (record after_one_tick { cancelled = true }) refl refl
