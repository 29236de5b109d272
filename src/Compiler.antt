-- ===== src/Compiler.antt =====
-- src/runtime/compiler.go: the stage function of a stage's configuration. Go's regular
-- expressions are a parameter: `compile` gives, for a pattern that it accepts, the function that
-- ReplaceAllString computes from a replacement and a text.
use forward_stub.Stdlib.Hex
pub mod Examples
pub mod Validated
pub mod Routes
use forward_stub.Config.Stage.{
  StageConfig, StageError, StageKind, add_prefix, bad_encoding, case_length_mismatch, empty_case,
  empty_case_sender, invalid_case_hex, invalid_hex, invalid_pattern, match_bytes, no_cases, no_old,
  no_prefix, no_value, regex_filename, regex_path, replace_bytes, replace_filename,
  route_sender_by_bytes, set_path, set_record_key, stage_kind, strip_prefix, unknown_kind,
  unknown_stage_type,
}
use forward_stub.Pipeline.{Pipeline, StageFunc, is_empty}
use forward_stub.Pipeline.File.{
  rewrite_target_filename_regex, rewrite_target_filename_replace, rewrite_target_path_add_prefix,
  rewrite_target_path_regex, rewrite_target_path_strip_prefix, set_target_file_path,
}
use forward_stub.Pipeline.Kafka.{set_kafka_record_key_from_offset_bytes}
use forward_stub.Pipeline.Offset.{match_offset_bytes, replace_offset_bytes}
use forward_stub.Pipeline.Route.{route_sender_by_offset_bytes}
use forward_stub.Prelude.{
  List, Option, Result, String, [], err, fail_if, if◌then◌else◌, length, nat_eq, none, not, ok,
  some, ◌&&◌, ◌>>=◌, ◌>>◌, ◌||◌, ◌∷◌,
}
use forward_stub.Prelude.Eq.{eq_String, eq_bytes, ◌==◌}
use forward_stub.Prelude.Int.{is_neg, negsuc, pos, to_nat, ℤ}
use forward_stub.Prelude.Map.{Map, insert, keys, lookup}
use forward_stub.Prelude.Names.{sort_strings}
use forward_stub.Stdlib.Hex.{Bytes}
use forward_stub.Stdlib.Strings.{trim_space}

abbrev pub Regexp : Type 0
Regexp = String → Option (String → String → String)

-- A Go map's zero value for a key that it does not hold.
abbrev pub or_empty : Option String → String
or_empty none = ""
or_empty (some v) = v

abbrev pub lookup_text : String → Map String String → String
lookup_text k m = or_empty (lookup k m)

-- The loop over the sorted keys of `sc.Cases`: the common length of the keys, and the routes.
pub compile_cases :
    Map String String
    → ℤ
    → Map Bytes String
    → List String
    → Result StageError (ℤ × Map Bytes String)
compile_cases cases key_len routes [] = ok (key_len, routes)
compile_cases cases key_len routes (hk ∷ rest) = elim (Hex.decode_string hk) [
  | none ↦ err (invalid_case_hex hk)
  | some v ↦
      let n = length v in
      let sn = lookup_text hk cases in
      let further =
        compile_cases cases (if is_neg key_len then pos n else key_len)
          (insert ⦃e = eq_bytes⦄ v sn routes) rest in
      if nat_eq n 0
      then err (empty_case hk)
      else if not (is_neg key_len) && not (nat_eq n (to_nat key_len))
      then err (case_length_mismatch hk key_len n)
      else if sn == ""
      then err (empty_case_sender hk)
      else further
]

abbrev compile_route : StageConfig → Result StageError StageFunc
compile_route sc = do
  fail_if (is_empty sc.cases) no_cases
  compiled ← compile_cases sc.cases (negsuc 0) [] (sort_strings (keys sc.cases))
  ok (route_sender_by_offset_bytes sc.offset compiled.0 compiled.1 sc.default_sender)

abbrev with_bytes : StageConfig → (Bytes → StageFunc) → Result StageError StageFunc
with_bytes sc stage = elim (Hex.decode_string sc.hex) [
  | none ↦ err invalid_hex
  | some b ↦ ok (stage b)
]

abbrev with_regexp :
    Regexp → StageConfig → ((String → String) → StageFunc) → Result StageError StageFunc
with_regexp compile sc stage = elim (compile sc.pattern) [
  | none ↦ err (invalid_pattern sc.pattern)
  | some replace ↦ ok (stage (replace sc.replacement))
]

compile_kind : Regexp → StageConfig → StageKind → Result StageError StageFunc
unfolding compile_cases
compile_kind compile sc match_bytes = with_bytes sc (match_offset_bytes sc.offset)
compile_kind compile sc replace_bytes = with_bytes sc (replace_offset_bytes sc.offset)
compile_kind compile sc route_sender_by_bytes = compile_route sc
compile_kind compile sc set_record_key = do
  let encoding = trim_space sc.encoding
  fail_if (not (encoding == "text" || encoding == "hex")) bad_encoding
  ok (set_kafka_record_key_from_offset_bytes sc.offset sc.length encoding)
compile_kind compile sc set_path = do
  fail_if (sc.value == "") no_value
  ok (set_target_file_path sc.value)
compile_kind compile sc strip_prefix = do
  fail_if (sc.prefix == "") no_prefix
  ok (rewrite_target_path_strip_prefix sc.prefix)
compile_kind compile sc add_prefix = do
  fail_if (sc.prefix == "") no_prefix
  ok (rewrite_target_path_add_prefix sc.prefix)
compile_kind compile sc replace_filename = do
  fail_if (sc.old == "") no_old
  ok (rewrite_target_filename_replace sc.old sc.new)
compile_kind compile sc regex_path = with_regexp compile sc rewrite_target_path_regex
compile_kind compile sc regex_filename = with_regexp compile sc rewrite_target_filename_regex
compile_kind compile sc unknown_kind = err (unknown_stage_type sc.type)

-- compileStage
unfoldable pub compile_stage : Regexp → StageConfig → Result StageError StageFunc
unfolding compile_kind
compile_stage compile sc = compile_kind compile sc (stage_kind sc.type)

-- The stages of one pipeline, in order.
unfoldable pub compile_stages : Regexp → List StageConfig → Result StageError (List StageFunc)
compile_stages compile [] = ok []
compile_stages compile (sc ∷ scs) = do
  st ← compile_stage compile sc
  rest ← compile_stages compile scs
  ok (st ∷ rest)

abbrev name_error {ℓ} : {A : Type ℓ} → String → Result StageError A → Result (String × StageError) A
name_error name (ok a) = ok a
name_error name (err e) = err (name, e)

-- CompilePipelines; the error names the pipeline.
unfoldable pub compile_pipelines :
    Regexp → Map String (List StageConfig) → Result (String × StageError) (Map String Pipeline)
unfolding compile_stages
compile_pipelines compile [] = ok []
compile_pipelines compile ((name, cfgs) ∷ rest) = do
  stages ← name_error name (compile_stages compile cfgs)
  others ← compile_pipelines compile rest
  ok ((name, record { name = name; stages = stages }) ∷ others)
