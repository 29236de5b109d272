-- ===== src/Config/Endpoint.antt =====
-- src/config/config.go: the configurations of receivers and senders. An acks value is its text; a
-- list of balancers may be nil.
use forward_stub.Prelude.{Bool, List, Option, String}
use forward_stub.Prelude.Int.{ℤ}

pub record ReceiverMatchKeyConfig : Type 0 where
  pub mode : String
  pub fixed_value : String

pub record LocalGeneratorConfig : Type 0 where
  pub interval : String
  pub rate_per_sec : ℤ
  pub tick_interval : String
  pub payload_format : String
  pub payload_data : String
  pub start_delay : String
  pub total_packets : ℤ
  pub remote : String
  pub local : String

pub record NotifyOnSuccessConfig : Type 0 where
  pub type : String
  pub remote : String
  pub topic : String
  pub record_key_source : String
  pub client_id : String
  pub username : String
  pub password : String
  pub sasl_mechanism : String
  pub tls : Bool
  pub tls_skip_verify : Bool
  pub dial_timeout : String
  pub request_timeout : String
  pub retry_timeout : String
  pub retry_backoff : String
  pub metadata_max_age : String
  pub conn_idle_timeout : String
  pub dcps_config_file : String
  pub domain_id : ℤ
  pub topic_name : String
  pub message_model : String
  pub reliable : Bool
  pub queue_depth : ℤ
  pub max_blocking_time_msec : ℤ
  pub compress : Bool

pub record ReceiverConfig : Type 0 where
  pub type : String
  pub listen : String
  pub multicore : Option Bool
  pub num_event_loop : ℤ
  pub read_buffer_cap : ℤ
  pub socket_recv_buffer : ℤ
  pub frame : String
  pub selector : String
  pub match_key : ReceiverMatchKeyConfig
  pub generator : LocalGeneratorConfig
  pub topic : String
  pub group_id : String
  pub username : String
  pub password : String
  pub sasl_mechanism : String
  pub tls : Bool
  pub tls_skip_verify : Bool
  pub client_id : String
  pub dial_timeout : String
  pub conn_idle_timeout : String
  pub metadata_max_age : String
  pub retry_backoff : String
  pub start_offset : String
  pub session_timeout : String
  pub heartbeat_interval : String
  pub rebalance_timeout : String
  pub balancers : Option (List String)
  pub auto_commit : Option Bool
  pub auto_commit_interval : String
  pub fetch_min_bytes : ℤ
  pub fetch_max_bytes : ℤ
  pub fetch_max_partition_bytes : ℤ
  pub isolation_level : String
  pub fetch_max_wait_ms : ℤ
  pub remote_dir : String
  pub poll_interval_sec : ℤ
  pub chunk_size : ℤ
  pub endpoint : String
  pub bucket : String
  pub region : String
  pub access_key : String
  pub secret_key : String
  pub use_ssl : Bool
  pub force_path_style : Bool
  pub prefix : String
  pub host_key_fingerprint : String
  pub dcps_config_file : String
  pub domain_id : ℤ
  pub topic_name : String
  pub message_model : String
  pub reliable : Bool
  pub queue_depth : ℤ
  pub max_blocking_time_msec : ℤ
  pub consumer_group : String
  pub compress : Bool
  pub wait_timeout : String
  pub drain_max_items : ℤ
  pub drain_buffer_bytes : ℤ
  pub log_payload_recv : Bool
  pub payload_log_max_bytes : ℤ

pub record SenderConfig : Type 0 where
  pub type : String
  pub remote : String
  pub frame : String
  pub concurrency : ℤ
  pub socket_send_buffer : ℤ
  pub topic : String
  pub username : String
  pub password : String
  pub sasl_mechanism : String
  pub tls : Bool
  pub tls_skip_verify : Bool
  pub client_id : String
  pub dial_timeout : String
  pub request_timeout : String
  pub retry_timeout : String
  pub retry_backoff : String
  pub conn_idle_timeout : String
  pub metadata_max_age : String
  pub acks : String
  pub idempotent : Option Bool
  pub retries : ℤ
  pub max_in_flight_requests_per_connection : ℤ
  pub linger_ms : ℤ
  pub batch_max_bytes : ℤ
  pub max_buffered_bytes : ℤ
  pub max_buffered_records : ℤ
  pub compression : String
  pub compression_level : ℤ
  pub partitioner : String
  pub record_key : String
  pub record_key_source : String
  pub send_mode : String
  pub async_queue_size : ℤ
  pub async_backpressure : String
  pub close_flush_timeout : String
  pub dcps_config_file : String
  pub domain_id : ℤ
  pub topic_name : String
  pub message_model : String
  pub reliable : Bool
  pub queue_depth : ℤ
  pub max_blocking_time_msec : ℤ
  pub compress : Bool
  pub batch_num : ℤ
  pub batch_size : ℤ
  pub batch_delay : String
  pub local_ip : String
  pub local_port : ℤ
  pub iface : String
  pub ttl : ℤ
  pub loop : Bool
  pub remote_dir : String
  pub temp_suffix : String
  pub host_key_fingerprint : String
  pub endpoint : String
  pub bucket : String
  pub region : String
  pub access_key : String
  pub secret_key : String
  pub use_ssl : Bool
  pub force_path_style : Bool
  pub key_prefix : String
  pub part_size : ℤ
  pub storage_class : String
  pub content_type : String
  pub notify_on_success : List NotifyOnSuccessConfig
