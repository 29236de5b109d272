-- ===== src/Config/Validate/Senders.antt =====
-- src/config/validate.go: the checks of one sender.
use forward_stub.Config.Defaults.{bool_value, or_option}
use forward_stub.Config.Endpoint.{NotifyOnSuccessConfig, SenderConfig}
use forward_stub.Config.Topology.{each}
use forward_stub.Config.Validate.{
  Checked, Parsers, fault, is_one_of, strip_addr_scheme, validate_host_port, validate_kafka_auth,
  validate_positive_duration_by_type, validate_positive_duration_field,
}
use forward_stub.Config.Validate.Power.{validate_sender_concurrency}
use forward_stub.Config.Validate.Receivers.{validate_fingerprint}
use forward_stub.Pipeline.{is_empty}
use forward_stub.Prelude.{
  Bool, List, String, [], err, fail_if, if◌then◌else◌, not, ok, true, ◌&&◌, ◌>>◌, ◌||◌, ◌∷◌,
}
use forward_stub.Prelude.Eq.{eq_String, ◌==◌}
use forward_stub.Prelude.Int.{is_minus_one, is_neg, is_nonpos, is_zero, negsuc, pos, ℤ}
use forward_stub.Stdlib.Strings.{is_blank, trim_space}

-- KafkaAcksConfig.Int
unfoldable pub acks_int : Parsers → String → ℤ
acks_int go a =
    let v = go.to_lower (trim_space a) in
    if v == "0" then pos 0 else if v == "1" then pos 1 else negsuc 0

-- KafkaAcksConfig.IsValid
unfoldable pub acks_is_valid : Parsers → String → Bool
acks_is_valid go a = is_one_of (go.to_lower (trim_space a)) ("" ∷ "0" ∷ "1" ∷ "all" ∷ "-1" ∷ [])

-- The cases of the loop in validateNotifyOnSuccess.
unfoldable pub validate_kafka_notifier : Parsers → String → NotifyOnSuccessConfig → Checked
validate_kafka_notifier go sender_name nc = do
  let duration =
      validate_positive_duration_by_type go "sender" sender_name "notify_on_success.kafka"
  fail_if (is_blank nc.remote)
      (fault "sender" sender_name "notify_on_success kafka requires remote")
  fail_if (is_blank nc.topic) (fault "sender" sender_name "notify_on_success kafka requires topic")
  validate_kafka_auth "notify_on_success" sender_name nc.sasl_mechanism nc.username nc.password
  duration "dial_timeout" nc.dial_timeout
  duration "request_timeout" nc.request_timeout
  duration "retry_timeout" nc.retry_timeout
  duration "retry_backoff" nc.retry_backoff
  duration "metadata_max_age" nc.metadata_max_age
  duration "conn_idle_timeout" nc.conn_idle_timeout
  fail_if
      (not (
        is_one_of (trim_space nc.record_key_source) (
          "" ∷ "transfer_id" ∷ "file_path" ∷ "file_name" ∷ "sender_name" ∷ "receiver_name"
          ∷ "fetch_path" ∷ [])))
      (fault "sender" sender_name "notify_on_success kafka record_key_source unsupported")

unfoldable pub validate_dds_notifier : Parsers → String → NotifyOnSuccessConfig → Checked
validate_dds_notifier go sender_name nc = do
  fail_if (is_blank nc.dcps_config_file)
      (fault "sender" sender_name "notify_on_success dds_skydds requires dcps_config_file")
  fail_if (is_neg nc.domain_id)
      (fault "sender" sender_name "notify_on_success dds_skydds domain_id must be >= 0")
  fail_if (is_blank nc.topic_name)
      (fault "sender" sender_name "notify_on_success dds_skydds requires topic_name")
  fail_if (not (go.to_lower (trim_space nc.message_model) == "octet")) (
      fault "sender" sender_name
        "notify_on_success dds_skydds message_model only supports octet in this version")
  fail_if (is_neg nc.queue_depth)
      (fault "sender" sender_name "notify_on_success dds_skydds queue_depth must be >= 0")
  fail_if (is_neg nc.max_blocking_time_msec) (
      fault "sender" sender_name "notify_on_success dds_skydds max_blocking_time_msec must be >= 0")

-- validateNotifyOnSuccess
unfoldable pub validate_notify_on_success :
    Parsers → String → String → List NotifyOnSuccessConfig → Checked
unfolding validate_kafka_notifier validate_dds_notifier
validate_notify_on_success go sender_name sender_type notifiers =
    if is_empty notifiers
    then ok tt
    else if not (trim_space sender_type == "oss")
    then err (fault "sender" sender_name "notify_on_success only supports oss")
    else each
        (λ nc.
          let typ = trim_space nc.type in
          if typ == "kafka"
          then validate_kafka_notifier go sender_name nc
          else if typ == "dds_skydds"
          then validate_dds_notifier go sender_name nc
          else if typ == ""
          then err (fault "sender" sender_name "notify_on_success type required")
          else err (fault "sender" sender_name "notify_on_success unsupported type"))
        notifiers

-- validateKafkaSenderOptions
unfoldable pub validate_kafka_sender_options : Parsers → String → SenderConfig → Checked
validate_kafka_sender_options go name sc = do
  let duration = validate_positive_duration_field go "sender" name
  duration "dial_timeout" sc.dial_timeout
  duration "request_timeout" sc.request_timeout
  duration "retry_timeout" sc.retry_timeout
  duration "retry_backoff" sc.retry_backoff
  duration "conn_idle_timeout" sc.conn_idle_timeout
  duration "metadata_max_age" sc.metadata_max_age
  duration "close_flush_timeout" sc.close_flush_timeout
  fail_if (not (is_one_of sc.send_mode ("" ∷ "sync" ∷ "async" ∷ [])))
      (fault "sender" name "kafka send_mode must be sync or async")
  fail_if (is_nonpos sc.async_queue_size) (fault "sender" name "kafka async_queue_size must be > 0")
  fail_if (not (is_one_of sc.async_backpressure ("" ∷ "block" ∷ "error" ∷ [])))
      (fault "sender" name "kafka async_backpressure must be block or error")
  fail_if (not (is_one_of sc.partitioner ("" ∷ "sticky" ∷ "round_robin" ∷ "hash_key" ∷ [])))
      (fault "sender" name "kafka partitioner unsupported")
  fail_if (not (sc.record_key == "") && not (sc.record_key_source == ""))
      (fault "sender" name "kafka record_key and record_key_source are mutually exclusive")
  fail_if
      (not (sc.record_key_source == "")
        && not (
            is_one_of sc.record_key_source (
              "payload" ∷ "match_key" ∷ "kafka_record_key" ∷ "remote" ∷ "local" ∷ "file_name"
              ∷ "file_path" ∷ "transfer_id" ∷ "route_sender" ∷ [])))
      (fault "sender" name "kafka record_key_source unsupported")
  fail_if (sc.partitioner == "hash_key" && sc.record_key == "" && sc.record_key_source == "")
      (fault "sender" name "kafka partitioner hash_key requires record_key or record_key_source")
  fail_if
      (not (is_zero sc.compression_level)
        && not (is_one_of sc.compression ("gzip" ∷ "lz4" ∷ "zstd" ∷ [])))
      (fault "sender" name "kafka compression_level requires compression in gzip/lz4/zstd")

-- The cases of `switch s.Type`.
unfoldable pub validate_udp_sender : Parsers → String → SenderConfig → Checked
validate_udp_sender go sn s = do
  fail_if (is_blank s.remote) (fault "sender" sn "requires remote")
  validate_host_port go "sender" sn "remote" (strip_addr_scheme s.remote)
  fail_if (is_nonpos s.local_port) (fault "sender" sn "requires local_port")
  fail_if (not (is_blank s.local_ip) && not (go.is_ip (trim_space s.local_ip)))
      (fault "sender" sn "local_ip invalid")

unfoldable pub validate_tcp_sender : Parsers → String → SenderConfig → Checked
validate_tcp_sender go sn s = do
  fail_if (is_blank s.remote) (fault "sender" sn "tcp_gnet requires remote")
  validate_host_port go "sender" sn "remote" (strip_addr_scheme s.remote)
  fail_if (not (s.frame == "") && not (s.frame == "u16be"))
      (fault "sender" sn "tcp_gnet frame must be empty or u16be")

unfoldable pub validate_kafka_sender : Parsers → String → SenderConfig → Checked
unfolding acks_int acks_is_valid bool_value validate_kafka_sender_options
validate_kafka_sender go sn s = do
  fail_if (s.remote == "") (fault "sender" sn "kafka requires remote as brokers csv")
  fail_if (s.topic == "") (fault "sender" sn "kafka requires topic")
  fail_if (not (acks_is_valid go s.acks)) (fault "sender" sn "kafka acks must be one of 0/1/all/-1")
  fail_if (not (is_one_of s.compression ("" ∷ "none" ∷ "gzip" ∷ "snappy" ∷ "lz4" ∷ "zstd" ∷ [])))
      (fault "sender" sn "kafka compression unsupported")
  let idempotent = bool_value (or_option s.idempotent true)
  fail_if (idempotent && not (is_minus_one (acks_int go s.acks)))
      (fault "sender" sn "kafka idempotent=true requires acks=all/-1")
  fail_if (is_neg s.retries) (fault "sender" sn "kafka retries must be >= 0")
  fail_if (is_neg s.max_in_flight_requests_per_connection)
      (fault "sender" sn "kafka max_in_flight_requests_per_connection must be >= 0")
  fail_if (is_neg s.max_buffered_bytes) (fault "sender" sn "kafka max_buffered_bytes must be >= 0")
  fail_if (is_neg s.max_buffered_records)
      (fault "sender" sn "kafka max_buffered_records must be >= 0")
  validate_kafka_sender_options go sn s
  validate_kafka_auth "sender" sn s.sasl_mechanism s.username s.password

unfoldable pub validate_dds_sender : Parsers → String → SenderConfig → Checked
validate_dds_sender go sn s = do
  fail_if (is_blank s.dcps_config_file) (fault "sender" sn "dds_skydds requires dcps_config_file")
  fail_if (is_neg s.domain_id) (fault "sender" sn "dds_skydds domain_id must be >= 0")
  fail_if (is_blank s.topic_name) (fault "sender" sn "dds_skydds requires topic_name")
  let model = go.to_lower (trim_space s.message_model)
  fail_if (not (model == "octet") && not (model == "batch_octet"))
      (fault "sender" sn "dds_skydds message_model must be octet or batch_octet")
  if model == "batch_octet"
      then (do
        fail_if (is_nonpos s.batch_num)
            (fault "sender" sn "dds_skydds batch_num must be > 0 when message_model=batch_octet")
        fail_if (is_nonpos s.batch_size)
            (fault "sender" sn "dds_skydds batch_size must be > 0 when message_model=batch_octet")
        validate_positive_duration_field go "sender" sn "batch_delay" s.batch_delay)
      else fail_if
          (not (is_zero s.batch_num) || not (is_zero s.batch_size) || not (is_blank s.batch_delay))
          (fault "sender" sn "dds_skydds batch_* only allowed when message_model=batch_octet")
  fail_if (is_neg s.queue_depth) (fault "sender" sn "dds_skydds queue_depth must be >= 0")
  fail_if (is_neg s.max_blocking_time_msec)
      (fault "sender" sn "dds_skydds max_blocking_time_msec must be >= 0")

unfoldable pub validate_sftp_sender : Parsers → String → SenderConfig → Checked
validate_sftp_sender go sn s = do
  fail_if (s.remote == "") (fault "sender" sn "sftp requires remote")
  fail_if (s.username == "" || s.password == "")
      (fault "sender" sn "sftp requires username and password")
  fail_if (s.remote_dir == "") (fault "sender" sn "sftp requires remote_dir")
  validate_fingerprint go "sender" sn s.host_key_fingerprint

unfoldable pub validate_oss_sender : String → SenderConfig → Checked
validate_oss_sender sn s = do
  fail_if (is_blank s.endpoint) (fault "sender" sn "oss requires endpoint")
  fail_if (is_blank s.bucket) (fault "sender" sn "oss requires bucket")
  fail_if (is_blank s.access_key || is_blank s.secret_key)
      (fault "sender" sn "oss requires access_key and secret_key")
  fail_if (is_nonpos s.part_size) (fault "sender" sn "oss part_size must be > 0")

unfoldable pub validate_sender_type : Parsers → String → SenderConfig → Checked
validate_sender_type go sn s =
    if s.type == "udp_unicast" || s.type == "udp_multicast"
    then validate_udp_sender go sn s
    else if s.type == "tcp_gnet"
    then validate_tcp_sender go sn s
    else if s.type == "kafka"
    then validate_kafka_sender go sn s
    else if s.type == "dds_skydds"
    then validate_dds_sender go sn s
    else if s.type == "sftp"
    then validate_sftp_sender go sn s
    else if s.type == "oss"
    then validate_oss_sender sn s
    else err (fault "sender" sn "unknown type")

-- The loop over the senders.
unfoldable pub validate_sender : Parsers → String → SenderConfig → Checked
unfolding validate_sender_type validate_notify_on_success
validate_sender go sn s = do
  validate_sender_concurrency sn s.concurrency
  validate_notify_on_success go sn s.type s.notify_on_success
  validate_sender_type go sn s
