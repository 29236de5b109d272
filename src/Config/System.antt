-- ===== src/Config/System.antt =====
-- src/config/config.go: the system part of the configuration and the defaults that it has for the
-- business part.
use forward_stub.Prelude.{Bool, List, Option, String}
use forward_stub.Prelude.Int.{ℤ}

pub record BusinessTaskDefaultsConfig : Type 0 where
  pub execution_model : String
  pub pool_size : ℤ
  pub channel_queue_size : ℤ
  pub payload_log_max_bytes : ℤ

pub record BusinessReceiverDefaultsConfig : Type 0 where
  pub multicore : Option Bool
  pub num_event_loop : ℤ
  pub socket_recv_buffer : ℤ
  pub payload_log_max_bytes : ℤ
  pub dial_timeout : String
  pub conn_idle_timeout : String
  pub metadata_max_age : String
  pub retry_backoff : String
  pub session_timeout : String
  pub heartbeat_interval : String
  pub rebalance_timeout : String
  pub balancers : Option (List String)
  pub auto_commit : Option Bool
  pub auto_commit_interval : String
  pub fetch_max_partition_bytes : ℤ
  pub isolation_level : String
  pub wait_timeout : String
  pub drain_max_items : ℤ
  pub drain_buffer_bytes : ℤ

pub record BusinessSenderDefaultsConfig : Type 0 where
  pub concurrency : ℤ
  pub socket_send_buffer : ℤ
  pub dial_timeout : String
  pub request_timeout : String
  pub retry_timeout : String
  pub retry_backoff : String
  pub conn_idle_timeout : String
  pub metadata_max_age : String
  pub partitioner : String
  pub send_mode : String
  pub async_queue_size : ℤ
  pub async_backpressure : String
  pub close_flush_timeout : String

pub record BusinessDefaultsConfig : Type 0 where
  pub task : BusinessTaskDefaultsConfig
  pub receiver : BusinessReceiverDefaultsConfig
  pub sender : BusinessSenderDefaultsConfig

pub record ControlConfig : Type 0 where
  pub api : String
  pub timeout_sec : ℤ
  pub config_watch_interval : String
  pub pprof_port : ℤ

pub record LoggingConfig : Type 0 where
  pub level : String
  pub file : String
  pub max_size_mb : ℤ
  pub max_backups : ℤ
  pub max_age_days : ℤ
  pub compress : Option Bool
  pub traffic_stats_interval : String
  pub traffic_stats_sample_every : ℤ
  pub payload_log_max_bytes : ℤ
  pub gc_stats_log_enabled : Option Bool
  pub gc_stats_log_interval : String
