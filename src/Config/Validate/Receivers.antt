-- ===== src/Config/Validate/Receivers.antt =====
-- src/config/validate.go: the checks of one receiver.
use forward_stub.Config.Defaults.{bool_value, or_option}
use forward_stub.Config.Endpoint.{ReceiverConfig}
use forward_stub.Config.Topology.{each, missing}
use forward_stub.Config.Validate.{
  Checked, Parsers, fault, is_one_of, strip_addr_scheme, validate_host_port, validate_kafka_auth,
  validate_positive_duration_by_type, validate_positive_duration_field,
  validate_ssh_host_key_fingerprint,
}
use forward_stub.Pipeline.{is_empty}
use forward_stub.Prelude.{
  List, Option, String, [], err, fail_if, if◌then◌else◌, none, not, ok, some, true, ◌&&◌, ◌>>=◌,
  ◌>>◌, ◌||◌, ◌∷◌,
}
use forward_stub.Prelude.Eq.{eq_String, ◌==◌}
use forward_stub.Prelude.Int.{is_neg, is_nonpos, ltb_ℤ, pos, ℤ}
use forward_stub.Prelude.Map.{Map}
use forward_stub.Stdlib.Strings.{is_blank, trim_space}

-- The modes of each type in validateReceiverMatchKey; none for an unknown type.
unfoldable pub match_key_modes : String → Option (List String)
match_key_modes typ =
    if typ == "udp_gnet"
    then some ("" ∷ "remote_addr" ∷ "remote_ip" ∷ "local_addr" ∷ "local_ip" ∷ "fixed" ∷ [])
    else if typ == "tcp_gnet"
    then some ("" ∷ "remote_addr" ∷ "remote_ip" ∷ "local_addr" ∷ "local_port" ∷ "fixed" ∷ [])
    else if typ == "kafka"
    then some ("" ∷ "topic" ∷ "topic_partition" ∷ "fixed" ∷ [])
    else if typ == "sftp" || typ == "oss"
    then some ("" ∷ "remote_path" ∷ "filename" ∷ "fixed" ∷ [])
    else if typ == "dds_skydds" || typ == "local_timer"
    then some ("" ∷ "fixed" ∷ [])
    else none

-- validateReceiverMatchKey
unfoldable pub validate_receiver_match_key : String → ReceiverConfig → Checked
unfolding match_key_modes
validate_receiver_match_key name rc = do
  let mode = trim_space rc.match_key.mode
  let fixed_value = rc.match_key.fixed_value
  modes ← elim (match_key_modes rc.type) [
    | none ↦ err (fault "receiver" name "unknown type")
    | some modes ↦ ok modes
  ]
  fail_if (not (is_one_of mode modes)) (fault "receiver" name "unsupported match_key.mode")
  fail_if (mode == "fixed" && is_blank fixed_value)
      (fault "receiver" name "match_key.fixed_value is empty")
  fail_if (not (mode == "fixed") && not (is_blank fixed_value))
      (fault "receiver" name "match_key.fixed_value needs mode=fixed")

-- validateLocalTimerReceiver
unfoldable pub validate_local_timer_receiver : Parsers → String → ReceiverConfig → Checked
validate_local_timer_receiver go name rc = do
  let g = rc.generator
  let duration = validate_positive_duration_by_type go "receiver" name "local_timer"
  fail_if (is_blank g.payload_data)
      (fault "receiver" name "local_timer generator payload_data required")
  fail_if (not (is_one_of (trim_space g.payload_format) ("hex" ∷ "text" ∷ "base64" ∷ [])))
      (fault "receiver" name "local_timer generator payload_format must be one of hex/text/base64")
  fail_if (is_neg g.rate_per_sec)
      (fault "receiver" name "local_timer generator rate_per_sec must be > 0")
  let has_interval = not (is_blank g.interval)
  let has_rate = not (is_nonpos g.rate_per_sec)
  fail_if (if has_interval then has_rate else not has_rate) (
      fault "receiver" name
        "local_timer generator interval and rate_per_sec must be configured exactly one")
  if has_interval then duration "generator.interval" g.interval else ok tt
  if not (is_blank g.tick_interval)
      then duration "generator.tick_interval" g.tick_interval
      else ok tt
  if not (is_blank g.start_delay) then duration "generator.start_delay" g.start_delay else ok tt
  fail_if (is_neg g.total_packets)
      (fault "receiver" name "local_timer generator total_packets must be >= 0")

-- d, _ := time.ParseDuration(value)
unfoldable pub duration_or_zero : Parsers → String → ℤ
duration_or_zero go value = elim (go.parse_duration value) [ none ↦ pos 0 | some d ↦ d ]

abbrev pub elements {ℓ} : {A : Type ℓ} → Option (List A) → List A
elements none = []
elements (some xs) = xs

-- validateKafkaReceiverOptions
unfoldable pub validate_kafka_receiver_options : Parsers → String → ReceiverConfig → Checked
unfolding duration_or_zero bool_value
validate_kafka_receiver_options go name rc = do
  let duration = validate_positive_duration_field go "receiver" name
  duration "dial_timeout" rc.dial_timeout
  duration "conn_idle_timeout" rc.conn_idle_timeout
  duration "metadata_max_age" rc.metadata_max_age
  duration "retry_backoff" rc.retry_backoff
  duration "session_timeout" rc.session_timeout
  duration "heartbeat_interval" rc.heartbeat_interval
  duration "rebalance_timeout" rc.rebalance_timeout
  duration "auto_commit_interval" rc.auto_commit_interval
  fail_if (is_neg rc.fetch_max_partition_bytes)
      (fault "receiver" name "kafka fetch_max_partition_bytes must be >= 0")
  fail_if
      (not (is_nonpos rc.fetch_max_bytes)
        && not (is_nonpos rc.fetch_max_partition_bytes)
        && ltb_ℤ rc.fetch_max_bytes rc.fetch_max_partition_bytes)
      (fault "receiver" name "kafka fetch_max_partition_bytes must be <= fetch_max_bytes")
  fail_if (not (is_one_of rc.isolation_level ("" ∷ "read_uncommitted" ∷ "read_committed" ∷ [])))
      (fault "receiver" name "kafka isolation_level unsupported")
  fail_if (is_empty (elements rc.balancers))
      (fault "receiver" name "kafka balancers must not be empty")
  each
      (λ balancer.
        fail_if (not (is_one_of balancer ("range" ∷ "round_robin" ∷ "cooperative_sticky" ∷ [])))
          (fault "receiver" name "kafka balancer unsupported"))
      (elements rc.balancers)
  fail_if
      (not (rc.session_timeout == "")
        && not (rc.heartbeat_interval == "")
        && not (
            ltb_ℤ (duration_or_zero go rc.heartbeat_interval)
              (duration_or_zero go rc.session_timeout)))
      (fault "receiver" name "kafka heartbeat_interval must be less than session_timeout")
  let auto_commit = bool_value (or_option rc.auto_commit true)
  fail_if (not auto_commit && not (is_blank rc.auto_commit_interval))
      (fault "receiver" name "kafka auto_commit_interval requires auto_commit=true")

-- The cases of `switch r.Type`.
unfoldable pub validate_net_receiver : Parsers → String → ReceiverConfig → Checked
validate_net_receiver go rn r = do
  fail_if (is_blank r.listen) (fault "receiver" rn "requires listen")
  validate_host_port go "receiver" rn "listen" (strip_addr_scheme r.listen)
  fail_if (r.type == "tcp_gnet" && not (r.frame == "") && not (r.frame == "u16be"))
      (fault "receiver" rn "tcp_gnet frame must be empty or u16be")

unfoldable pub validate_kafka_receiver : Parsers → String → ReceiverConfig → Checked
unfolding validate_kafka_receiver_options
validate_kafka_receiver go rn r = do
  fail_if (r.listen == "") (fault "receiver" rn "kafka requires listen as brokers csv")
  fail_if (r.topic == "") (fault "receiver" rn "kafka requires topic")
  fail_if (not (is_one_of r.start_offset ("" ∷ "earliest" ∷ "latest" ∷ [])))
      (fault "receiver" rn "kafka start_offset must be earliest/latest")
  validate_kafka_receiver_options go rn r
  validate_kafka_auth "receiver" rn r.sasl_mechanism r.username r.password

unfoldable pub validate_dds_receiver : Parsers → String → ReceiverConfig → Checked
validate_dds_receiver go rn r = do
  fail_if (is_blank r.dcps_config_file) (fault "receiver" rn "dds_skydds requires dcps_config_file")
  fail_if (is_neg r.domain_id) (fault "receiver" rn "dds_skydds domain_id must be >= 0")
  fail_if (is_blank r.topic_name) (fault "receiver" rn "dds_skydds requires topic_name")
  let model = go.to_lower (trim_space r.message_model)
  fail_if (not (model == "octet") && not (model == "batch_octet"))
      (fault "receiver" rn "dds_skydds message_model must be octet or batch_octet")
  validate_positive_duration_by_type go "receiver" rn "dds_skydds" "wait_timeout" r.wait_timeout
  fail_if (is_nonpos r.drain_max_items)
      (fault "receiver" rn "dds_skydds drain_max_items must be > 0")
  fail_if (is_nonpos r.drain_buffer_bytes)
      (fault "receiver" rn "dds_skydds drain_buffer_bytes must be > 0")
  fail_if (is_neg r.queue_depth) (fault "receiver" rn "dds_skydds queue_depth must be >= 0")
  fail_if (is_neg r.max_blocking_time_msec)
      (fault "receiver" rn "dds_skydds max_blocking_time_msec must be >= 0")

-- The end of the cases "sftp" of receivers and senders.
unfoldable pub validate_fingerprint : Parsers → String → String → String → Checked
unfolding validate_ssh_host_key_fingerprint
validate_fingerprint go kind name f = do
  fail_if (f == "") (fault kind name "sftp requires host_key_fingerprint")
  elim (validate_ssh_host_key_fingerprint go f) [
    | ok u ↦ ok tt
    | err e ↦ err (fault kind name "sftp host_key_fingerprint invalid")
  ]

unfoldable pub validate_sftp_receiver : Parsers → String → ReceiverConfig → Checked
validate_sftp_receiver go rn r = do
  fail_if (r.listen == "") (fault "receiver" rn "sftp requires listen")
  fail_if (r.username == "" || r.password == "")
      (fault "receiver" rn "sftp requires username and password")
  fail_if (r.remote_dir == "") (fault "receiver" rn "sftp requires remote_dir")
  validate_fingerprint go "receiver" rn r.host_key_fingerprint

unfoldable pub validate_oss_receiver : String → ReceiverConfig → Checked
validate_oss_receiver rn r = do
  fail_if (is_blank r.endpoint) (fault "receiver" rn "oss requires endpoint")
  fail_if (is_blank r.bucket) (fault "receiver" rn "oss requires bucket")
  fail_if (is_blank r.access_key || is_blank r.secret_key)
      (fault "receiver" rn "oss requires access_key and secret_key")
  fail_if (is_neg r.chunk_size) (fault "receiver" rn "oss chunk_size must be >= 0")

unfoldable pub validate_receiver_type : Parsers → String → ReceiverConfig → Checked
validate_receiver_type go rn r =
    if r.type == "udp_gnet" || r.type == "tcp_gnet"
    then validate_net_receiver go rn r
    else if r.type == "local_timer"
    then validate_local_timer_receiver go rn r
    else if r.type == "kafka"
    then validate_kafka_receiver go rn r
    else if r.type == "dds_skydds"
    then validate_dds_receiver go rn r
    else if r.type == "sftp"
    then validate_sftp_receiver go rn r
    else if r.type == "oss"
    then validate_oss_receiver rn r
    else err (fault "receiver" rn "unknown type")

-- The loop over the receivers.
unfoldable pub validate_receiver {ℓ} :
    {V : Type ℓ} → Parsers → Map String V → String → ReceiverConfig → Checked
validate_receiver go selectors rn r = do
  fail_if (is_blank r.selector) (fault "receiver" rn "selector required")
  fail_if (missing r.selector selectors) (fault "receiver" rn "selector not found")
  validate_receiver_match_key rn r
  validate_receiver_type go rn r
