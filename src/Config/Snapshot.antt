-- ===== src/Config/Snapshot.antt =====
-- src/config/config.go: Config; src/config/business_defaults.go: Merge and ApplyDefaults. A map that may be nil
-- is an option.
use forward_stub.Config.Business.{SelectorConfig, TaskConfig}
use forward_stub.Config.Defaults.{control_defaults, logging_defaults, task_defaults}
use forward_stub.Config.Defaults.Receivers.{receiver_defaults}
use forward_stub.Config.Defaults.Senders.{sender_defaults}
use forward_stub.Config.Endpoint.{ReceiverConfig, SenderConfig}
use forward_stub.Config.Stage.{StageConfig}
use forward_stub.Config.System.{BusinessDefaultsConfig, ControlConfig, LoggingConfig}
use forward_stub.Prelude.{List, Option, String, [], ◌∷◌}
use forward_stub.Prelude.Int.{ℤ}
use forward_stub.Prelude.Map.{Map, map_option}

pub record SystemConfig : Type 0 where
  pub control : ControlConfig
  pub logging : LoggingConfig
  pub business_defaults : BusinessDefaultsConfig

pub record BusinessConfig : Type 0 where
  pub version : ℤ
  pub receivers : Option (Map String ReceiverConfig)
  pub selectors : Option (Map String SelectorConfig)
  pub task_sets : Option (Map String (List String))
  pub senders : Option (Map String SenderConfig)
  pub pipelines : Option (Map String (List StageConfig))
  pub tasks : Map String TaskConfig

pub record Config : Type 0 where
  pub version : ℤ
  pub control : ControlConfig
  pub logging : LoggingConfig
  pub receivers : Option (Map String ReceiverConfig)
  pub selectors : Option (Map String SelectorConfig)
  pub task_sets : Option (Map String (List String))
  pub senders : Option (Map String SenderConfig)
  pub pipelines : Option (Map String (List StageConfig))
  pub tasks : Map String TaskConfig

-- Merge
unfoldable pub merge : SystemConfig → BusinessConfig → Config
merge s b = record {
  version = b.version;
  control = s.control;
  logging = s.logging;
  receivers = b.receivers;
  selectors = b.selectors;
  task_sets = b.task_sets;
  senders = b.senders;
  pipelines = b.pipelines;
  tasks = b.tasks;
}

-- for name, v := range m { ...; m[name] = v }
abbrev pub map_values {ℓ} : {V : Type ℓ} → (V → V) → Map String V → Map String V
map_values f [] = []
map_values f ((name, v) ∷ m) = (name, f v) ∷ map_values f m

-- ApplyDefaults of a Config; parameter: the number of CPUs.
unfoldable pub apply_defaults : ℤ → BusinessDefaultsConfig → Config → Config
apply_defaults num_cpu d c =
    let logging = logging_defaults c.logging in
    let payload_log_max_bytes = logging.payload_log_max_bytes in
    record c {
      control = control_defaults c.control;
      logging = logging;
      tasks = map_values (task_defaults payload_log_max_bytes d.task) c.tasks;
      receivers =
          map_option (map_values (receiver_defaults num_cpu payload_log_max_bytes d.receiver))
            c.receivers;
      senders = map_option (map_values (sender_defaults d.sender)) c.senders;
    }
