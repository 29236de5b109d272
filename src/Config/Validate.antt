-- ===== src/Config/Validate.antt =====
-- src/config/validate.go: the checks that the receivers, the senders and the system part share. Parameters: the
-- functions of Go's time, net, base64 and strings packages. An error has what it is about, the name, and the text
-- of the message without its formatted values.
use Prim.Native.String
use Prim.Native.String.{◌++◌ as join_texts}
pub mod Power
pub mod Receivers
pub mod Senders
pub mod Whole
pub mod Keys
pub mod Accepted
use forward_stub.Config.Stage.{StageError}
use forward_stub.Config.System.{LoggingConfig}
use forward_stub.Config.Topology.{TopologyError}
use forward_stub.Prelude.{
  Bool, List, Option, Result, String, [], err, fail_if, false, if◌then◌else◌, length, nat_eq, none,
  not, ok, some, true, ℕ, ◌&&◌, ◌>>=◌, ◌>>◌, ◌||◌, ◌∷◌,
}
use forward_stub.Prelude.Eq.{eq_String, ◌==◌}
use forward_stub.Prelude.Int.{is_neg, is_nonpos, ℤ}
use forward_stub.Prelude.Map.{is_none, values}
use forward_stub.Stdlib.Hex.{Bytes}
use forward_stub.Stdlib.Strings.{after_prefix, is_blank, trim_prefix, trim_space}

-- What time.ParseDuration, net.SplitHostPort, net.ParseIP, base64.RawStdEncoding.DecodeString,
-- regexp.Compile and strings.ToLower give.
pub record Parsers : Type 0 where
  pub parse_duration : String → Option ℤ
  pub split_host_port : String → Option (String × String)
  pub is_ip : String → Bool
  pub decode_base64 : String → Option Bytes
  pub regexp_ok : String → Bool
  pub to_lower : String → String

pub data Fault : Type 0 where
  fault : String → String → String → Fault
  stage_fault : String → ℕ → StageError → Fault
  topology_fault : TopologyError → Fault

abbrev pub Checked : Type 0
Checked = Result Fault (Unit {0})

-- d, err := time.ParseDuration(value); err != nil || d <= 0
unfoldable pub bad_duration : Parsers → String → Bool
bad_duration go value = elim (go.parse_duration value) [ none ↦ true | some d ↦ is_nonpos d ]

-- validatePositiveDurationByType
unfoldable pub validate_positive_duration_by_type :
    Parsers → String → String → String → String → String → Checked
unfolding bad_duration
validate_positive_duration_by_type go kind name typ field value =
    if is_blank value
    then ok tt
    else fail_if (bad_duration go value) (
        fault kind name
          (join_texts typ (join_texts " " (join_texts field " must be a valid duration > 0"))))

-- validatePositiveDurationField
unfoldable pub validate_positive_duration_field :
    Parsers → String → String → String → String → Checked
unfolding validate_positive_duration_by_type
validate_positive_duration_field go kind name field value =
    validate_positive_duration_by_type go kind name "kafka" field value

-- switch value { case values[0], values[1], ...: }
abbrev pub is_one_of : String → List String → Bool
is_one_of value [] = false
is_one_of value (v ∷ values) = value == v || is_one_of value values

-- validateKafkaAuth
unfoldable pub validate_kafka_auth : String → String → String → String → String → Checked
validate_kafka_auth kind name mechanism username password =
    if mechanism == "" && username == "" && password == ""
    then ok tt
    else if username == "" || password == ""
    then err (fault kind name "kafka auth requires both username and password")
    else if mechanism == "" || mechanism == "PLAIN" || mechanism == "plain"
    then ok tt
    else err (fault kind name "kafka unsupported sasl_mechanism")

-- validateHostPort
unfoldable pub validate_host_port : Parsers → String → String → String → String → Checked
validate_host_port go kind name field addr =
    if is_blank addr
    then err (fault kind name (join_texts field " must be host:port"))
    else elim (go.split_host_port addr) [
      | none ↦ err (fault kind name (join_texts field " must be host:port"))
      | some (host, port) ↦
          fail_if (is_blank port) (fault kind name (join_texts field " must include port"))
    ]

-- strings.Index(addr, "://"), and what follows it
after_scheme : String → Option String
after_scheme String.[] = none
after_scheme (String.◌∷◌ c s) =
    let rest = after_scheme s in
    elim (after_prefix (String.◌∷◌ c s) "://") [ some t ↦ some t | none ↦ rest ]

-- stripAddrScheme
unfoldable pub strip_addr_scheme : String → String
unfolding after_scheme
strip_addr_scheme addr =
    let trimmed = trim_space addr in
    elim (after_scheme trimmed) [ none ↦ trimmed | some rest ↦ rest ]

-- ValidateSSHHostKeyFingerprint
unfoldable pub validate_ssh_host_key_fingerprint : Parsers → String → Checked
validate_ssh_host_key_fingerprint go f = do
  let v = trim_space f
  fail_if (v == "") (fault "fingerprint" "" "empty fingerprint")
  fail_if (is_none (after_prefix v "SHA256:")) (fault "fingerprint" "" "must start with SHA256:")
  let raw = trim_space (trim_prefix v "SHA256:")
  fail_if (raw == "") (fault "fingerprint" "" "missing base64 digest")
  digest ← elim (go.decode_base64 raw) [
    | none ↦ err (fault "fingerprint" "" "invalid base64 digest")
    | some digest ↦ ok digest
  ]
  fail_if (not (nat_eq (length digest) 32)) (fault "fingerprint" "" "invalid digest length")

-- validateLoggingConfig
unfoldable pub validate_logging_config : Parsers → LoggingConfig → Checked
unfolding bad_duration
validate_logging_config go lc = do
  fail_if
      (not (
        is_one_of (go.to_lower (trim_space lc.level))
          ("" ∷ "debug" ∷ "info" ∷ "warn" ∷ "warning" ∷ "error" ∷ [])))
      (fault "logging" "" "level unsupported")
  fail_if (not (is_blank lc.traffic_stats_interval) && bad_duration go lc.traffic_stats_interval)
      (fault "logging" "" "traffic_stats_interval must be a valid duration > 0")
  fail_if (is_neg lc.traffic_stats_sample_every)
      (fault "logging" "" "traffic_stats_sample_every must be >= 0")
