-- ===== src/Config/Defaults.antt =====
-- src/config/business_defaults.go: the tests that the defaults are made of, the defaults of the system part and of
-- tasks. The receivers and the senders have child modules.
pub mod Receivers
pub mod Senders
pub mod First
pub mod Settled
pub mod Precedence
pub mod Again
use forward_stub.Config.Business.{TaskConfig}
use forward_stub.Config.System.{BusinessTaskDefaultsConfig, ControlConfig, LoggingConfig}
use forward_stub.Prelude.{
  Bool, Option, String, false, if◌then◌else◌, none, not, some, true, zero, ◌&&◌,
}
use forward_stub.Prelude.Eq.{eq_String, ◌==◌}
use forward_stub.Prelude.Int.{is_nonpos, ltb_ℤ, pos, ℤ}

-- if v == "" && d != "" { v = d }
unfoldable pub inherit_text : String → String → String
inherit_text v d = if v == "" && not (d == "") then d else v

-- if v <= 0 && d > 0 { v = d }
unfoldable pub inherit_int : ℤ → ℤ → ℤ
inherit_int v d = if is_nonpos v && not (is_nonpos d) then d else v

-- if v == nil && d != nil { v = d }, on pointers to values and on slices
unfoldable pub inherit_option {ℓ} : {A : Type ℓ} → Option A → Option A → Option A
inherit_option none d = d
inherit_option (some v) d = some v

-- if v == "" { v = d }
unfoldable pub or_text : String → String → String
or_text v d = if v == "" then d else v

-- if v <= 0 { v = d }
unfoldable pub or_int : ℤ → ℤ → ℤ
or_int v d = if is_nonpos v then d else v

-- if v == 0 { v = d }
unfoldable pub or_nonzero : ℤ → ℤ → ℤ
or_nonzero (pos zero) d = d
or_nonzero v d = v

-- if v == nil { v = d }
unfoldable pub or_option {ℓ} : {A : Type ℓ} → Option A → A → Option A
or_option none d = some d
or_option (some v) d = some v

-- BoolValue
unfoldable pub bool_value : Option Bool → Bool
bool_value none = false
bool_value (some b) = b

-- max
unfoldable pub max_int : ℤ → ℤ → ℤ
max_int a b = if ltb_ℤ b a then a else b

-- applySystemDefaults on the control part
unfoldable pub control_defaults : ControlConfig → ControlConfig
control_defaults c = record c {
  timeout_sec = or_int c.timeout_sec (pos 5);
  config_watch_interval = or_text c.config_watch_interval "2s";
  pprof_port = or_nonzero c.pprof_port (pos 6060);
}

-- applySystemDefaults on the logging part
unfoldable pub logging_defaults : LoggingConfig → LoggingConfig
logging_defaults l = record l {
  level = or_text l.level "info";
  max_size_mb = or_int l.max_size_mb (pos 100);
  max_backups = or_int l.max_backups (pos 5);
  max_age_days = or_int l.max_age_days (pos 30);
  compress = or_option l.compress true;
  gc_stats_log_enabled = or_option l.gc_stats_log_enabled false;
  gc_stats_log_interval = or_text l.gc_stats_log_interval "1m";
  traffic_stats_interval = or_text l.traffic_stats_interval "1s";
  traffic_stats_sample_every = or_int l.traffic_stats_sample_every (pos 1);
  payload_log_max_bytes = or_int l.payload_log_max_bytes (pos 256);
}

-- The values that a task takes from the system's defaults.
unfoldable pub inherit_task : BusinessTaskDefaultsConfig → TaskConfig → TaskConfig
inherit_task d t = record t {
  pool_size = inherit_int t.pool_size d.pool_size;
  channel_queue_size = inherit_int t.channel_queue_size d.channel_queue_size;
  execution_model = inherit_text t.execution_model d.execution_model;
  payload_log_max_bytes = inherit_int t.payload_log_max_bytes d.payload_log_max_bytes;
}

-- The values that the code supplies to a task.
unfoldable pub complete_task : ℤ → TaskConfig → TaskConfig
complete_task payload_log_max_bytes t = record t {
  pool_size = or_int t.pool_size (pos 4096);
  channel_queue_size = or_int t.channel_queue_size (pos 8192);
  payload_log_max_bytes = or_int t.payload_log_max_bytes payload_log_max_bytes;
}

-- The loop over the tasks.
unfoldable pub task_defaults : ℤ → BusinessTaskDefaultsConfig → TaskConfig → TaskConfig
unfolding inherit_task complete_task
task_defaults payload_log_max_bytes d t = complete_task payload_log_max_bytes (inherit_task d t)
