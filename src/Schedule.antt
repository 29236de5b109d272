-- ===== src/Schedule.antt =====
-- src/schedule/interval_job.go: NewIntervalJob, and Start of a job as the steps of a transition system. The goroutine
-- of Start is in one phase; a round of the task is a goroutine of its own, which may end at any time. The test of
-- `running` and the start of a round are one step, since Start alone makes it.
pub mod Overlap
pub mod Return
pub mod Examples
use forward_stub.Prelude.{
  Bool, List, Option, Result, String, [], err, false, if◌then◌else◌, none, not, ok, some, suc, true,
  ℕ, ◌&&◌, ◌+◌, ◌||◌, ◌∷◌, ◌≡◌,
}
use forward_stub.Prelude.Eq.{eq_String, ◌==◌}
use forward_stub.Prelude.Int.{is_nonpos, ℤ}

-- The errors of NewIntervalJob.
pub data JobError : Type 0 where
  empty_name interval_not_positive no_run : JobError

pub record IntervalJob : Type 0 where
  pub name : String
  pub interval : ℤ
  pub immediate_start : Bool
  pub allow_overlap : Bool

abbrev pub with_immediate_start : IntervalJob → IntervalJob
with_immediate_start job = record job { immediate_start = true }

abbrev pub with_allow_overlap : IntervalJob → IntervalJob
with_allow_overlap job = record job { allow_overlap = true }

-- for _, opt := range opts { if opt != nil { opt(job) } }
unfoldable pub apply_options : List (Option (IntervalJob → IntervalJob)) → IntervalJob → IntervalJob
apply_options [] job = job
apply_options (none ∷ opts) job = apply_options opts job
apply_options (some opt ∷ opts) job = apply_options opts (opt job)

-- NewIntervalJob; `has_run` says that `run` is not nil.
unfoldable pub new_interval_job :
    String → ℤ → Bool → List (Option (IntervalJob → IntervalJob)) → Result JobError IntervalJob
unfolding apply_options
new_interval_job name interval has_run opts =
    if name == ""
    then err empty_name
    else if is_nonpos interval
    then err interval_not_positive
    else if not has_run
    then err no_run
    else ok (
        apply_options opts (record {
          name = name;
          interval = interval;
          immediate_start = false;
          allow_overlap = false;
        }))

-- Where Start is: not called, in its loop, before `wg.Wait`, behind it.
pub data JobPhase : Type 0 where
  unstarted ticking draining returned : JobPhase

pub record JobState : Type 0 where
  pub phase : JobPhase
  -- ctx.Done() is closed
  pub cancelled : Bool
  pub running : Bool
  -- the goroutines in `run`, and those behind `running.Store(false)`
  pub in_run : ℕ
  pub leaving : ℕ
  -- how often startRun was called, how often it skipped the round, and the goroutines that are gone
  pub triggers : ℕ
  pub skipped : ℕ
  pub ended : ℕ

abbrev pub not_started : JobState
not_started = record {
  phase = unstarted;
  cancelled = false;
  running = false;
  in_run = 0;
  leaving = 0;
  triggers = 0;
  skipped = 0;
  ended = 0;
}

-- startRun
abbrev pub start_run : IntervalJob → JobState → JobState
start_run j s =
    if not j.allow_overlap && s.running
    then record s { triggers = suc s.triggers; skipped = suc s.skipped }
    else record s {
      triggers = suc s.triggers;
      running = not j.allow_overlap || s.running;
      in_run = suc s.in_run;
    }

module _ (j : IntervalJob) where
  pub data JobStep : JobState → JobState → Type 0 where
    job_begins :
        (s : JobState)
        → s.phase ≡ unstarted
        → JobStep s (record (if j.immediate_start then start_run j s else s) { phase = ticking })
    job_ticks : (s : JobState) → s.phase ≡ ticking → JobStep s (start_run j s)
    job_cancelled : (s : JobState) → JobStep s (record s { cancelled = true })
    job_leaves :
        (s : JobState)
        → s.phase ≡ ticking
        → s.cancelled ≡ true
        → JobStep s (record s { phase = draining })
    round_ends :
        (s : JobState) (n : ℕ)
        → s.in_run ≡ suc n
        → JobStep s (record s {
          in_run = n;
          leaving = suc s.leaving;
          running = j.allow_overlap && s.running;
        })
    round_gone :
        (s : JobState) (n : ℕ)
        → s.leaving ≡ suc n
        → JobStep s (record s { leaving = n; ended = suc s.ended })
    job_returns :
        (s : JobState)
        → s.phase ≡ draining
        → s.in_run + s.leaving ≡ 0
        → JobStep s (record s { phase = returned })

  pub data JobReach (s : JobState) : JobState → Type 0 where
    no_steps : JobReach s s
    one_more : {t u : JobState} → JobReach s t → JobStep t u → JobReach s u
