-- ===== src/Config/Stage.antt =====
-- src/config/config.go: StageConfig; src/config/validate.go: the checks of one stage.
use forward_stub.Stdlib.Hex
use forward_stub.Pipeline.{is_empty}
use forward_stub.Prelude.{
  Bool, List, Result, String, [], err, fail_if, if◌then◌else◌, length, nat_eq, none, not, ok, some,
  ℕ, ◌&&◌, ◌++◌, ◌>>◌, ◌||◌, ◌∷◌,
}
use forward_stub.Prelude.Eq.{eq_String, ◌==◌}
use forward_stub.Prelude.Int.{is_neg, is_nonpos, negsuc, pos, to_nat, ℤ}
use forward_stub.Prelude.Map.{Map, is_none}
use forward_stub.Prelude.Names.{contains}
use forward_stub.Stdlib.Strings.{is_blank, trim_space}

pub record StageConfig : Type 0 where
  pub type : String
  pub offset : ℤ
  pub length : ℤ
  pub encoding : String
  pub hex : String
  pub cases : Map String String
  pub default_sender : String
  pub value : String
  pub prefix : String
  pub old : String
  pub new : String
  pub pattern : String
  pub replacement : String

-- The errors of both `validateStageConfig` and `compileStage`.
pub data StageError : Type 0 where
  negative_offset invalid_hex no_cases : StageError
  invalid_case_hex empty_case empty_case_sender : String → StageError
  case_length_mismatch : String → ℤ → ℕ → StageError
  bad_length bad_encoding no_value no_prefix no_old : StageError
  invalid_pattern unknown_stage_type : String → StageError

-- The loop over `sc.Cases`; `key_len` is -1 until the first case has been read.
unfoldable pub validate_cases : ℤ → Map String String → Result StageError (Unit {0})
validate_cases key_len [] = ok tt
validate_cases key_len ((hk, sender_name) ∷ rest) = elim (Hex.decode_string hk) [
  | none ↦ err (invalid_case_hex hk)
  | some v ↦
      let n = length v in
      let further = validate_cases (if is_neg key_len then pos n else key_len) rest in
      if nat_eq n 0
      then err (empty_case hk)
      else if not (is_neg key_len) && not (nat_eq n (to_nat key_len))
      then err (case_length_mismatch hk key_len n)
      else if is_blank sender_name
      then err (empty_case_sender hk)
      else further
]

-- The cases of the `switch sc.Type` in `validateStageConfig` and in `compileStage`.
pub data StageKind : Type 0 where
  match_bytes replace_bytes route_sender_by_bytes set_record_key set_path : StageKind
  strip_prefix add_prefix replace_filename regex_path regex_filename unknown_kind : StageKind

unfoldable pub stage_kind : String → StageKind
stage_kind t =
    if t == "match_offset_bytes"
    then match_bytes
    else if t == "replace_offset_bytes"
    then replace_bytes
    else if t == "route_offset_bytes_sender"
    then route_sender_by_bytes
    else if t == "set_kafka_record_key_from_offset_bytes"
    then set_record_key
    else if t == "set_target_file_path"
    then set_path
    else if t == "rewrite_target_path_strip_prefix"
    then strip_prefix
    else if t == "rewrite_target_path_add_prefix"
    then add_prefix
    else if t == "rewrite_target_filename_replace"
    then replace_filename
    else if t == "rewrite_target_path_regex"
    then regex_path
    else if t == "rewrite_target_filename_regex"
    then regex_filename
    else unknown_kind

-- The checks under each case; `regexp_ok` says whether regexp.Compile accepts a pattern.
unfoldable pub validate_kind :
    (String → Bool) → StageConfig → StageKind → Result StageError (Unit {0})
validate_kind regexp_ok sc match_bytes = do
  fail_if (is_neg sc.offset) negative_offset
  fail_if (is_none (Hex.decode_string sc.hex)) invalid_hex
validate_kind regexp_ok sc replace_bytes = do
  fail_if (is_neg sc.offset) negative_offset
  fail_if (is_none (Hex.decode_string sc.hex)) invalid_hex
validate_kind regexp_ok sc route_sender_by_bytes = do
  fail_if (is_neg sc.offset) negative_offset
  fail_if (is_empty sc.cases) no_cases
  validate_cases (negsuc 0) sc.cases
validate_kind regexp_ok sc set_record_key = do
  fail_if (is_neg sc.offset) negative_offset
  fail_if (is_nonpos sc.length) bad_length
  let encoding = trim_space sc.encoding
  fail_if (not (encoding == "text" || encoding == "hex")) bad_encoding
validate_kind regexp_ok sc set_path = fail_if (is_blank sc.value) no_value
validate_kind regexp_ok sc strip_prefix = fail_if (is_blank sc.prefix) no_prefix
validate_kind regexp_ok sc add_prefix = fail_if (is_blank sc.prefix) no_prefix
validate_kind regexp_ok sc replace_filename = fail_if (sc.old == "") no_old
validate_kind regexp_ok sc regex_path =
    fail_if (not (regexp_ok sc.pattern)) (invalid_pattern sc.pattern)
validate_kind regexp_ok sc regex_filename =
    fail_if (not (regexp_ok sc.pattern)) (invalid_pattern sc.pattern)
validate_kind regexp_ok sc unknown_kind = err (unknown_stage_type sc.type)

-- validateStageConfig
unfoldable pub validate_stage_config : (String → Bool) → StageConfig → Result StageError (Unit {0})
unfolding validate_kind
validate_stage_config regexp_ok sc = validate_kind regexp_ok sc (stage_kind sc.type)

-- if sn == "" || containsString(targets, sn) { continue }; targets = append(targets, sn)
abbrev pub add_target : List String → String → List String
add_target targets sn = if sn == "" || contains targets sn then targets else targets ++ sn ∷ []

-- The loop of `routeStageTargets`.
unfoldable pub add_targets : List String → Map String String → List String
add_targets targets [] = targets
add_targets targets ((hk, sn) ∷ rest) = add_targets (add_target targets sn) rest

-- routeStageTargets
unfoldable pub route_stage_targets : StageConfig → List String
unfolding add_targets
route_stage_targets sc = add_target (add_targets [] sc.cases) sc.default_sender
