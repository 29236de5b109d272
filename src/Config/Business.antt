-- ===== src/Config/Business.antt =====
-- src/config/config.go: the parts of the business configuration that tasks and selectors have.
-- Receiver and sender configurations are only compared and handed to the constructors here, so
-- that their types are parameters.
use forward_stub.Config.Stage.{StageConfig}
use forward_stub.Prelude.{Bool, List, String}
use forward_stub.Prelude.Int.{ℤ}
use forward_stub.Prelude.Map.{Map}

pub record SelectorConfig : Type 0 where
  pub matches : Map String String
  pub default_task_set : String

pub record TaskConfig : Type 0 where
  pub pool_size : ℤ
  pub execution_model : String
  pub channel_queue_size : ℤ
  pub pipelines : List String
  pub senders : List String
  pub log_payload_send : Bool
  pub payload_log_max_bytes : ℤ

-- The maps of a Config, by the names of their entries.
pub record Business (R S : Type 0) : Type 0 where
  pub receivers : Map String R
  pub selectors : Map String SelectorConfig
  pub task_sets : Map String (List String)
  pub senders : Map String S
  pub pipelines : Map String (List StageConfig)
  pub tasks : Map String TaskConfig
