-- ===== src/Config/Validate/Keys.antt =====
-- src/config/validate.go, src/receiver/match_key.go: the match key modes that the checks accept are those that compile.
use forward_stub.Config.Endpoint.{ReceiverConfig, ReceiverMatchKeyConfig}
use forward_stub.Config.Topology.{missing}
use forward_stub.Config.Validate.{Parsers, is_one_of}
use forward_stub.Config.Validate.Receivers.{
  match_key_modes, validate_receiver, validate_receiver_match_key,
}
use forward_stub.MatchKey.{
  SplitHostPort, compile_kafka_match_key_builder, compile_local_timer_match_key_builder,
  compile_oss_match_key_builder, compile_sftp_match_key_builder, compile_tcp_match_key_builder,
  compile_udp_match_key_builder,
}
use forward_stub.Prelude.{
  Bool, Result, String, [], arith, false, if◌then◌else◌, is_ok, ok, refl, true, ◌∷◌, ◌≡◌,
}
use forward_stub.Prelude.Eq.{eq_String, ◌==◌}
use forward_stub.Prelude.Int.{ℤ}
use forward_stub.Prelude.Map.{Map}
use forward_stub.Stdlib.Strings.{trim_space}

-- The match key of a receiver can be compiled, by the constructor of its type.
abbrev pub key_compiles : (ℤ → String) → SplitHostPort → ReceiverConfig → Bool
key_compiles itoa split r =
    if r.type == "udp_gnet"
    then is_ok (compile_udp_match_key_builder split r.match_key)
    else if r.type == "tcp_gnet"
    then is_ok (compile_tcp_match_key_builder itoa split r.match_key)
    else if r.type == "kafka"
    then is_ok (compile_kafka_match_key_builder itoa r.match_key r.topic)
    else if r.type == "sftp"
    then is_ok (compile_sftp_match_key_builder r.match_key r.remote_dir)
    else if r.type == "oss"
    then is_ok (compile_oss_match_key_builder r.match_key r.bucket)
    else if r.type == "local_timer"
    then is_ok (compile_local_timer_match_key_builder r.match_key)
    else r.type == "dds_skydds"

is_ok-if {ℓ κ} :
    {E : Type ℓ} {A : Type κ} (b : Bool) (m n : Result E A)
    → is_ok (if b then m else n) ≡ (if b then is_ok m else is_ok n)
is_ok-if true m n = refl
is_ok-if false m n = refl

-- One of the modes of its type compiles.
module _ (itoa : ℤ → String) (split : SplitHostPort) (k : ReceiverMatchKeyConfig) (t : String) where
  udp_compiles :
      is_one_of
          (trim_space k.mode)
          ("" ∷ "remote_addr" ∷ "remote_ip" ∷ "local_addr" ∷ "local_ip" ∷ "fixed" ∷ [])
        ≡ true
      → is_ok (compile_udp_match_key_builder split k) ≡ true
  unfolding compile_udp_match_key_builder
  udp_compiles h = simp is_ok-if (ground arith)

  tcp_compiles :
      is_one_of
          (trim_space k.mode)
          ("" ∷ "remote_addr" ∷ "remote_ip" ∷ "local_addr" ∷ "local_port" ∷ "fixed" ∷ [])
        ≡ true
      → is_ok (compile_tcp_match_key_builder itoa split k) ≡ true
  unfolding compile_tcp_match_key_builder
  tcp_compiles h = simp is_ok-if (ground arith)

  kafka_compiles :
      is_one_of (trim_space k.mode) ("" ∷ "topic" ∷ "topic_partition" ∷ "fixed" ∷ []) ≡ true
      → is_ok (compile_kafka_match_key_builder itoa k t) ≡ true
  unfolding compile_kafka_match_key_builder
  kafka_compiles h = simp is_ok-if (ground arith)

  sftp_compiles :
      is_one_of (trim_space k.mode) ("" ∷ "remote_path" ∷ "filename" ∷ "fixed" ∷ []) ≡ true
      → is_ok (compile_sftp_match_key_builder k t) ≡ true
  unfolding compile_sftp_match_key_builder
  sftp_compiles h = simp is_ok-if (ground arith)

  oss_compiles :
      is_one_of (trim_space k.mode) ("" ∷ "remote_path" ∷ "filename" ∷ "fixed" ∷ []) ≡ true
      → is_ok (compile_oss_match_key_builder k t) ≡ true
  unfolding compile_oss_match_key_builder
  oss_compiles h = simp is_ok-if (ground arith)

  local_timer_compiles :
      is_one_of (trim_space k.mode) ("" ∷ "fixed" ∷ []) ≡ true
      → is_ok (compile_local_timer_match_key_builder k) ≡ true
  unfolding compile_local_timer_match_key_builder
  local_timer_compiles h = simp is_ok-if (ground arith)

pub key_compiles_lem :
    (itoa : ℤ → String) (split : SplitHostPort) (rn : String) (r : ReceiverConfig)
    → validate_receiver_match_key rn r ≡ ok tt
    → key_compiles itoa split r ≡ true
unfolding validate_receiver_match_key match_key_modes
key_compiles_lem itoa split rn r h =
    let k = r.match_key in
    ground (
      arith,
      h,
      udp_compiles itoa split k "",
      tcp_compiles itoa split k "",
      kafka_compiles itoa split k r.topic,
      sftp_compiles itoa split k r.remote_dir,
      oss_compiles itoa split k r.bucket,
      local_timer_compiles itoa split k "",
    )

pub receiver_lem :
    {V : Type 0} (go : Parsers) (selectors : Map String V) (itoa : ℤ → String)
    (split : SplitHostPort) (rn : String) (r : ReceiverConfig)
    → validate_receiver go selectors rn r ≡ ok tt
    → (missing r.selector selectors ≡ false) × (key_compiles itoa split r ≡ true)
unfolding validate_receiver
receiver_lem go selectors itoa split rn r h =
    (ground arith, key_compiles_lem itoa split rn r (ground arith))
