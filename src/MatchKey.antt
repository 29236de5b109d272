-- ===== src/MatchKey.antt =====
-- src/receiver/match_key.go: how a receiver makes the match key of a packet from where it came from.
-- Texts are sequences of code points. Parameters: what net.SplitHostPort and strconv.Itoa give.
use forward_stub.Stdlib.Path
use Prim.Native.Char.{Char, code}
use Prim.Native.String
use Prim.Native.String.{◌++◌ as join_texts}
pub mod Escape
pub mod Fields
pub mod Examples
use forward_stub.Config.Endpoint.{ReceiverMatchKeyConfig}
use forward_stub.Prelude.{
  Bool, List, Option, Result, String, [], err, false, if◌then◌else◌, nat_eq, none, not, ok, refl,
  some, ◌&&◌, ◌||◌, ◌∷◌, ◌≡◌,
}
use forward_stub.Prelude.Eq.{eq_String, ◌==◌}
use forward_stub.Prelude.Int.{ℤ}
use forward_stub.Stdlib.Strings.{trim_space}

pub is_backslash : Char → Bool
is_backslash c = nat_eq (code c) b'\\'

-- The one-character texts that matchKeyEscaper replaces.
is_mark : Char → Bool
is_mark c = nat_eq (code c) b'|' || nat_eq (code c) b'='

-- matchKeyEscaper.Replace. The pattern for backslashes is a raw text of two; `half` says that the
-- first of such a pair has just been copied.
escape_from : Bool → String → String
unfolding is_backslash is_mark
escape_from half String.[] = String.[]
escape_from half (String.◌∷◌ c s) =
    let rest = escape_from (is_backslash c && not half) s in
    if is_backslash c && half
    then String.◌∷◌ c (String.◌∷◌ c (String.◌∷◌ c rest))
    else if is_mark c
    then String.◌∷◌ "\\" (String.◌∷◌ c rest)
    else String.◌∷◌ c rest

unfoldable pub escape : String → String
unfolding escape_from
escape s = escape_from false s

escapes : escape "a|b=c\\d\\\\" ≡ "a\\|b\\=c\\d\\\\\\\\"
unfolding escape
escapes = refl

-- The writes to a strings.Builder.
abbrev pub written : List String → String
written [] = ""
written (t ∷ ts) = join_texts t (written ts)

-- buildSingleFieldMatchKey, and precomputeSingleFieldMatchKey, which calls it
unfoldable pub build_single_field_match_key : String → String → String → String
build_single_field_match_key proto field_name value =
    written (proto ∷ "|" ∷ field_name ∷ "=" ∷ escape value ∷ [])

-- buildTwoFieldMatchKey
unfoldable pub build_two_field_match_key : String → String → String → String → String → String
build_two_field_match_key proto name_a value_a name_b value_b =
    written (proto ∷ "|" ∷ name_a ∷ "=" ∷ escape value_a ∷ "|" ∷ name_b ∷ "=" ∷ escape value_b ∷ [])

-- appendRawSingleFieldPrefix
unfoldable pub append_raw_single_field_prefix : String → String → String → String
append_raw_single_field_prefix proto field_name escaped_value =
    written (proto ∷ "|" ∷ field_name ∷ "=" ∷ escaped_value ∷ [])

-- net.Addr, by the types that the code tells apart: the text of the IP, if there is one, and the port.
pub data Addr : Type 0 where
  udp_addr tcp_addr : Option String → ℤ → Addr
  other_addr : Addr

-- The fields of connState that a match key reads.
pub record ConnState : Type 0 where
  pub remote : String
  pub local : String
  pub remote_addr : Option Addr
  pub local_addr : Option Addr

-- The error of ErrUnsupportedReceiverMatchKeyMode: the receiver's type and the mode.
abbrev pub ModeError : Type 0
ModeError = String × String

abbrev pub SplitHostPort : Type 0
SplitHostPort = String → Option (String × String)

-- matchKeyHostFromString
unfoldable pub match_key_host_from_string : SplitHostPort → String → String
match_key_host_from_string split_host_port addr =
    if addr == ""
    then ""
    else elim (split_host_port addr) [ some (host, port) ↦ host | none ↦ addr ]

-- matchKeyPortFromString
unfoldable pub match_key_port_from_string : SplitHostPort → String → String
match_key_port_from_string split_host_port addr =
    if addr == "" then "" else elim (split_host_port addr) [ some (host, port) ↦ port | none ↦ "" ]

-- matchKeyHostIP
unfoldable pub match_key_host_ip : SplitHostPort → Option Addr → String → String
unfolding match_key_host_from_string
match_key_host_ip split_host_port (some (udp_addr (some ip) port)) fallback = ip
match_key_host_ip split_host_port (some (tcp_addr (some ip) port)) fallback = ip
match_key_host_ip split_host_port _ fallback = match_key_host_from_string split_host_port fallback

-- matchKeyPort
unfoldable pub match_key_port : (ℤ → String) → SplitHostPort → Option Addr → String → String
unfolding match_key_port_from_string
match_key_port itoa split_host_port (some (udp_addr ip port)) fallback = itoa port
match_key_port itoa split_host_port (some (tcp_addr ip port)) fallback = itoa port
match_key_port itoa split_host_port _ fallback = match_key_port_from_string split_host_port fallback

abbrev pub compat_default : String
compat_default = "compat_default"

-- What the compilers below return: a builder and the mode in force.
abbrev pub Builder : Type 0 → Type 0
Builder A = Result ModeError ((A → String) × String)

-- The arguments of a udpMatchKeyBuilder: remote, local, remoteAddr, localAddr.
abbrev pub UdpArgs : Type 0
UdpArgs = (String × String) × (Option Addr × Option Addr)

-- compileUDPMatchKeyBuilder
unfoldable pub compile_udp_match_key_builder :
    SplitHostPort → ReceiverMatchKeyConfig → Builder UdpArgs
compile_udp_match_key_builder split_host_port cfg =
    let mode = trim_space cfg.mode in
    let field = build_single_field_match_key "udp" in
    if mode == ""
    then ok (λ a. field "src_addr" a.0.0, compat_default)
    else if mode == "remote_addr"
    then ok (λ a. field "remote_addr" a.0.0, mode)
    else if mode == "remote_ip"
    then ok (λ a. field "remote_ip" (match_key_host_ip split_host_port a.1.0 a.0.0), mode)
    else if mode == "local_addr"
    then ok (λ a. field "local_addr" a.0.1, mode)
    else if mode == "local_ip"
    then ok (λ a. field "local_ip" (match_key_host_ip split_host_port a.1.1 a.0.1), mode)
    else if mode == "fixed"
    then ok (λ a. field "fixed" cfg.fixed_value, mode)
    else err ("udp_gnet", mode)

-- compileTCPMatchKeyBuilder
unfoldable pub compile_tcp_match_key_builder :
    (ℤ → String) → SplitHostPort → ReceiverMatchKeyConfig → Builder ConnState
compile_tcp_match_key_builder itoa split_host_port cfg =
    let mode = trim_space cfg.mode in
    let field = build_single_field_match_key "tcp" in
    if mode == ""
    then ok (λ cs. field "src_addr" cs.remote, compat_default)
    else if mode == "remote_addr"
    then ok (λ cs. field "remote_addr" cs.remote, mode)
    else if mode == "remote_ip"
    then ok
        (λ cs. field "remote_ip" (match_key_host_ip split_host_port cs.remote_addr cs.remote), mode)
    else if mode == "local_addr"
    then ok (λ cs. field "local_addr" cs.local, mode)
    else if mode == "local_port"
    then ok (
      λ cs. field "local_port" (match_key_port itoa split_host_port cs.local_addr cs.local),
      mode,
    )
    else if mode == "fixed"
    then ok (λ cs. field "fixed" cfg.fixed_value, mode)
    else err ("tcp_gnet", mode)

-- compileKafkaMatchKeyBuilder; the builder reads the partition of a record.
unfoldable pub compile_kafka_match_key_builder :
    (ℤ → String) → ReceiverMatchKeyConfig → String → Builder ℤ
compile_kafka_match_key_builder itoa cfg topic =
    let mode = trim_space cfg.mode in
    let raw : String → String =
      λ name. append_raw_single_field_prefix "kafka" name (escape topic) in
    if mode == ""
    then ok (
      λ partition. join_texts (join_texts (raw "topic") "|partition=") (itoa partition),
      compat_default,
    )
    else if mode == "topic"
    then ok (λ partition. build_single_field_match_key "kafka" "topic" topic, mode)
    else if mode == "topic_partition"
    then ok
        (λ partition. join_texts (join_texts (raw "topic_partition") "|") (itoa partition), mode)
    else if mode == "fixed"
    then ok (λ partition. build_single_field_match_key "kafka" "fixed" cfg.fixed_value, mode)
    else err ("kafka", mode)

-- compileSFTPMatchKeyBuilder; the builder reads the path of a file.
unfoldable pub compile_sftp_match_key_builder : ReceiverMatchKeyConfig → String → Builder String
compile_sftp_match_key_builder cfg remote_dir =
    let mode = trim_space cfg.mode in
    let field = build_single_field_match_key "sftp" in
    if mode == ""
    then ok (
      λ p.
          build_two_field_match_key "sftp" "remote_dir" (trim_space remote_dir) "file_name"
            (Path.base p),
      compat_default,
    )
    else if mode == "remote_path"
    then ok (λ p. field "remote_path" p, mode)
    else if mode == "filename"
    then ok (λ p. field "filename" (Path.base p), mode)
    else if mode == "fixed"
    then ok (λ p. field "fixed" cfg.fixed_value, mode)
    else err ("sftp", mode)

-- compileOSSMatchKeyBuilder; the builder reads the key of an object.
unfoldable pub compile_oss_match_key_builder : ReceiverMatchKeyConfig → String → Builder String
compile_oss_match_key_builder cfg bucket =
    let mode = trim_space cfg.mode in
    let field = build_single_field_match_key "oss" in
    if mode == ""
    then ok
        (λ k. build_two_field_match_key "oss" "bucket" (trim_space bucket) "key" k, compat_default)
    else if mode == "remote_path"
    then ok (λ k. field "remote_path" k, mode)
    else if mode == "filename"
    then ok (λ k. field "filename" (Path.base k), mode)
    else if mode == "fixed"
    then ok (λ k. field "fixed" cfg.fixed_value, mode)
    else err ("oss", mode)

-- compileLocalTimerMatchKeyBuilder
unfoldable pub compile_local_timer_match_key_builder : ReceiverMatchKeyConfig → Builder (Unit {0})
compile_local_timer_match_key_builder cfg =
    let mode = trim_space cfg.mode in
    let field = build_single_field_match_key "local" in
    if mode == ""
    then ok (λ u. field "receiver" "local_timer", compat_default)
    else if mode == "fixed"
    then ok (λ u. field "fixed" cfg.fixed_value, mode)
    else err ("local_timer", mode)
