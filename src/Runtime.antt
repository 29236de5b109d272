-- ===== src/Runtime.antt =====
-- src/runtime/update_cache.go, store.go: a new configuration is loaded into the running store. Parameters: whether a
-- task starts and a receiver can be built, and the senders that are built. The store's locks make each step one.
pub mod Update
pub mod Replace
pub mod Tasks
pub mod Counted
pub mod Planned
pub mod Rebuilt
pub mod Running
pub mod Loaded
pub mod Outcome
pub mod Examples
use forward_stub.Config.Business.{SelectorConfig, TaskConfig}
use forward_stub.Config.Endpoint.{ReceiverConfig, SenderConfig}
use forward_stub.Config.Stage.{StageConfig, StageError}
use forward_stub.Dispatch.{ReceiverState}
use forward_stub.Pipeline.{StageFunc}
use forward_stub.Prelude.{
  Bool, List, Option, Result, String, [], err, false, if◌then◌else◌, none, ok, some, ◌∷◌,
}
use forward_stub.Prelude.Eq.{DeepEqual, eq_String}
use forward_stub.Prelude.Int.{pos}
use forward_stub.Prelude.Map.{Map, lookup}
use forward_stub.Prelude.Names.{contains}
use forward_stub.Store.{RuntimeError, Store, add_task, remove_task}
use forward_stub.Task.{Sender}

-- What buildSender, buildReceiver and Start of a task give, the signature and the function of a stage, and
-- reflect.DeepEqual.
pub record World : Type 0 where
  pub starts : String → Bool
  pub build_sender : String → SenderConfig → Option Sender
  pub build_receiver : String → ReceiverConfig → Bool
  pub signature : StageConfig → String
  pub compile : StageConfig → Result StageError StageFunc
  pub selector_equal : DeepEqual SelectorConfig
  pub task_set_equal : DeepEqual (List String)
  pub pipeline_equal : DeepEqual (List StageConfig)
  pub task_equal : DeepEqual TaskConfig
  pub receiver_equal : DeepEqual ReceiverConfig
  pub sender_equal : DeepEqual SenderConfig

pub data ReceiverEvent : Type 0 where
  receiver_started receiver_stopped : String → ReceiverEvent

abbrev pub Stored : Type 0
Stored = Store SenderConfig

-- The fields of the Store; a receiver has its state and its configuration, and the events are the calls on receivers.
pub record Live : Type 0 where
  pub store : Stored
  pub receivers : Map String ReceiverState
  pub receiver_cfg : Map String ReceiverConfig
  pub selectors : Map String SelectorConfig
  pub task_sets : Map String (List String)
  pub pipeline_cfg : Map String (List StageConfig)
  pub events : List ReceiverEvent

-- A step that may return an error.
abbrev pub Act : Type 0 → Type 0
Act A = A → Result RuntimeError (Unit {0}) × A

-- if err := first(); err != nil { return err }; second
abbrev pub after_step :
    {A : Type 0} → Result RuntimeError (Unit {0}) × A → Act A → Result RuntimeError (Unit {0}) × A
after_step (ok u, b) second = second b
after_step (err e, b) second = (err e, b)

infixl 5 ◌&>◌
abbrev pub ◌&>◌ : {A : Type 0} → Act A → Act A → Act A
(first &> second) a = after_step (first a) second

abbrev pub always_ok : {A : Type 0} → (A → A) → Act A
always_ok f a = (ok tt, f a)

abbrev pub no_step : {A : Type 0} → Act A
no_step a = (ok tt, a)

-- The TaskConfig of a name that the map does not have.
abbrev pub zero_task : TaskConfig
zero_task = record {
  pool_size = pos 0;
  execution_model = "";
  channel_queue_size = pos 0;
  pipelines = [];
  senders = [];
  log_payload_send = false;
  payload_log_max_bytes = pos 0;
}

abbrev pub config_of : Map String TaskConfig → String → TaskConfig
config_of tasks name = elim (lookup name tasks) [ none ↦ zero_task | some tc ↦ tc ]

module _ (w : World) (tasks : Map String TaskConfig) where
  -- The loop over `taskRemoved`.
  pub replace_tasks : List String → List String → Act Stored
  replace_tasks added [] = no_step
  replace_tasks added (name ∷ removed) =
      always_ok (remove_task name)
      &> (if contains added name
          then add_task (w.starts name) name (config_of tasks name)
          else no_step)
      &> replace_tasks added removed

  -- The loop over `taskAdded`.
  pub add_tasks : List String → List String → Act Stored
  add_tasks removed [] = no_step
  add_tasks removed (name ∷ added) =
      (if contains removed name
        then no_step
        else add_task (w.starts name) name (config_of tasks name))
      &> add_tasks removed added
