-- ===== src/Store.antt =====
-- src/runtime/update_cache.go, store.go, types.go: the running tasks and senders of the store, and
-- the reference counts that say which sender a task still uses. What the store's lock protects is
-- one step here. Statistics counters and logging are left out.
pub mod Examples
pub mod References
pub mod Tasks
pub mod Others
pub mod Sweep
pub mod Cache
pub mod Routing
pub mod Senders
use forward_stub.Config.Business.{TaskConfig}
use forward_stub.Pipeline.{Pipeline}
use forward_stub.Prelude.{
  Bool, List, Result, String, [], err, if◌then◌else◌, none, ok, some, ◌++◌, ◌>>=◌, ◌>>◌, ◌∷◌,
}
use forward_stub.Prelude.Eq.{eq_String}
use forward_stub.Prelude.Int.{int_dec, int_inc, is_nonpos, ℤ}
use forward_stub.Prelude.Map.{Map, adjust, delete, insert, lookup}
use forward_stub.Store.Cache.{StageCache, release_task_stage_refs, retain_task_stage_refs}
use forward_stub.Task.{Sender, Task, start}

-- SenderState
pub record SenderState (S : Type 0) : Type 0 where
  pub name : String
  pub cfg : S
  pub s : Sender
  pub refs : ℤ

-- TaskState
pub record TaskState : Type 0 where
  pub name : String
  pub cfg : TaskConfig
  pub task : Task

pub data RuntimeError : Type 0 where
  pipeline_not_found sender_not_found : String → String → RuntimeError
  start_failed build_failed : String → RuntimeError
  task_not_found : String → String → RuntimeError

-- What the store does to running objects.
pub data Effect : Type 0 where
  closed_sender : Sender → Effect
  stopped_task : String → Effect

pub record Store (S : Type 0) : Type 0 where
  pub senders : Map String (SenderState S)
  pub tasks : Map String TaskState
  pub pipelines : Map String Pipeline
  pub pipeline_stage_sigs : Map String (List String)
  pub stage_cache : StageCache
  pub effects : List Effect

-- ss.Refs++ and ss.Refs--
abbrev pub retain : {S : Type 0} → SenderState S → SenderState S
retain ss = record ss { refs = int_inc ss.refs }

abbrev pub let_go : {S : Type 0} → SenderState S → SenderState S
let_go ss = record ss { refs = int_dec ss.refs }

module _ {S : Type 0} where
  -- releaseSenderRefs, and the same loop in `addTask` and `removeTask`
  pub release_sender_refs : List String → Map String (SenderState S) → Map String (SenderState S)
  release_sender_refs [] table = table
  release_sender_refs (name ∷ names) table = release_sender_refs names (adjust let_go name table)

  -- The loop over `tc.Senders` in `addTask`: the senders, each with one more reference, or the
  -- name that is missing, with the references taken back that were added before.
  unfoldable pub retain_senders :
      List String
      → List String
      → Map String (SenderState S)
      → Result String (List Sender) × Map String (SenderState S)
  unfolding release_sender_refs
  retain_senders retained [] table = (ok [], table)
  retain_senders retained (sn ∷ rest) table =
      let (senders, after) = retain_senders (retained ++ sn ∷ []) rest (adjust retain sn table) in
      elim (lookup sn table) [
        | none ↦ (err sn, release_sender_refs retained table)
        | some ss ↦ ((do found ← senders; ok (ss.s ∷ found)), after)
      ]

-- The loop over `tc.Pipelines` in `addTask`.
unfoldable pub bind_pipelines : Map String Pipeline → List String → Result String (List Pipeline)
bind_pipelines compiled [] = ok []
bind_pipelines compiled (pn ∷ rest) = elim (lookup pn compiled) [
  | none ↦ err pn
  | some pl ↦ (do pls ← bind_pipelines compiled rest; ok (pl ∷ pls))
]

abbrev pub new_task : String → TaskConfig → List Pipeline → List Sender → Task
new_task name tc pipelines senders = record {
  name = name;
  pipelines = pipelines;
  senders = senders;
  pool_size = tc.pool_size;
  channel_queue_size = tc.channel_queue_size;
  execution_model = tc.execution_model;
  senders_by_name = [];
}

module _ {S : Type 0} where
  -- The rest of `addTask`, once the senders are retained: `starts` says whether `Start` succeeds.
  unfoldable pub finish_task :
      Bool
      → String
      → TaskConfig
      → List Pipeline
      → List Sender
      → Store S
      → Result RuntimeError (Unit {0}) × Store S
  finish_task starts name tc pipelines senders st =
      if starts
      then (
        ok tt,
        record st {
          tasks =
              insert name
                (record {
                  name = name;
                  cfg = tc;
                  task = start (new_task name tc pipelines senders);
                })
                st.tasks;
          stage_cache =
              retain_task_stage_refs st.pipeline_stage_sigs name tc.pipelines st.stage_cache;
        },
      )
      else (
        err (start_failed name),
        record st { senders = release_sender_refs tc.senders st.senders },
      )

  -- The outcome of the loop over the senders.
  unfoldable pub with_senders :
      Bool
      → String
      → TaskConfig
      → List Pipeline
      → Result String (List Sender)
      → Store S
      → Result RuntimeError (Unit {0}) × Store S
  unfolding finish_task
  with_senders starts name tc pipelines (err sn) st = (err (sender_not_found name sn), st)
  with_senders starts name tc pipelines (ok senders) st =
      finish_task starts name tc pipelines senders st

  -- addTask
  unfoldable pub add_task :
      Bool → String → TaskConfig → Store S → Result RuntimeError (Unit {0}) × Store S
  unfolding with_senders
  add_task starts name tc st = elim (bind_pipelines st.pipelines tc.pipelines) [
    | err pn ↦ (err (pipeline_not_found name pn), st)
    | ok pipelines ↦
        let (senders, table) = retain_senders [] tc.senders st.senders in
        with_senders starts name tc pipelines senders (record st { senders = table })
  ]

  -- removeTask
  pub remove_task : String → Store S → Store S
  remove_task name st = elim (lookup name st.tasks) [
    | none ↦ st
    | some ts ↦ record st {
      tasks = delete name st.tasks;
      senders = release_sender_refs ts.cfg.senders st.senders;
      stage_cache =
          release_task_stage_refs st.pipeline_stage_sigs name ts.cfg.pipelines st.stage_cache;
      effects = st.effects ++ stopped_task name ∷ [];
    }
  ]

  -- The loop of `gcUnusedSenders`: what stays, and what is closed.
  sweep : Map String (SenderState S) → Map String (SenderState S) × List Effect
  sweep [] = ([], [])
  sweep ((name, ss) ∷ rest) =
      let (kept, closed) = sweep rest in
      if is_nonpos ss.refs then (kept, closed_sender ss.s ∷ closed) else ((name, ss) ∷ kept, closed)

  -- gcUnusedSenders
  pub gc_unused_senders : Store S → Store S
  unfolding sweep
  gc_unused_senders st =
      let (kept, closed) = sweep st.senders in
      record st { senders = kept; effects = st.effects ++ closed }
