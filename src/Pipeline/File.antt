-- ===== src/Pipeline/File.antt =====
-- src/pipeline/stages_file.go: the target path and file name. Go's regular expressions are a
-- parameter: a compiled expression is the function that its ReplaceAllString computes.
use Prim.Native.String.{◌++◌ as join_texts}
use forward_stub.Stdlib.Path
use forward_stub.Packet.{Packet, with_meta}
use forward_stub.Pipeline.{One, StageFunc, map_stage}
use forward_stub.Prelude.{String, if◌then◌else◌, not, true, ◌||◌}
use forward_stub.Prelude.Eq.{eq_String, ◌==◌}
use forward_stub.Stdlib.Strings.{is_blank, replace_all, trim_prefix, trim_space}

-- targetPathOrSource
unfoldable pub target_path_or_source : Packet → String
target_path_or_source p =
    if not (is_blank p.meta.target_file_path) then p.meta.target_file_path else p.meta.file_path

-- targetFilenameOrSource
unfoldable pub target_filename_or_source : Packet → String
unfolding target_path_or_source
target_filename_or_source p =
    let b = Path.base (trim_space (target_path_or_source p)) in
    if not (is_blank p.meta.target_file_name)
    then p.meta.target_file_name
    else if not (is_blank p.meta.file_name)
    then p.meta.file_name
    else if b == "." || b == "/"
    then ""
    else b

-- replacePathBase
unfoldable pub replace_path_base : String → String → String
replace_path_base file_path file_name =
    let name = trim_space file_name in
    let d = Path.dir file_path in
    if name == ""
    then (if Path.base (trim_space file_path) == "." then "" else file_path)
    else if d == "." || d == "/" || d == ""
    then name
    else Path.join d name

-- cleanPathPrefix
unfoldable pub clean_path_prefix : String → String
clean_path_prefix prefix =
    let p = trim_space prefix in
    if p == "" then "" else Path.trim_slashes (Path.clean (join_texts "/" p))

abbrev with_target_path : String → Packet → Packet
with_target_path path p = with_meta (record p.meta { target_file_path = path }) p

abbrev with_target_name : String → Packet → Packet
with_target_name name p = with_meta (record p.meta { target_file_name = name }) p

-- SetTargetFilePath
unfoldable pub set_target_file_path : String → StageFunc
set_target_file_path value = map_stage (λ p. (with_target_path value p, true))

unfoldable pub strip_prefix_one : String → One
unfolding target_path_or_source
strip_prefix_one prefix p =
    (with_target_path (trim_prefix (trim_prefix (target_path_or_source p) prefix) "/") p, true)

-- RewriteTargetPathStripPrefix
unfoldable pub rewrite_target_path_strip_prefix : String → StageFunc
unfolding strip_prefix_one
rewrite_target_path_strip_prefix prefix = map_stage (strip_prefix_one (trim_space prefix))

unfoldable pub add_prefix_one : String → One
unfolding target_path_or_source
add_prefix_one prefix p =
    let cur = trim_prefix (target_path_or_source p) "/" in
    if prefix == ""
    then (with_target_path cur p, true)
    else (with_target_path (Path.join prefix cur) p, true)

-- RewriteTargetPathAddPrefix
unfoldable pub rewrite_target_path_add_prefix : String → StageFunc
unfolding add_prefix_one clean_path_prefix
rewrite_target_path_add_prefix prefix = map_stage (add_prefix_one (clean_path_prefix prefix))

-- A rewrite of the file name; the path is then taken from the packet with the new name.
unfoldable pub rewrite_name_one : (String → String) → One
unfolding target_path_or_source target_filename_or_source replace_path_base
rewrite_name_one rewrite p =
    let named = with_target_name (rewrite (target_filename_or_source p)) p in
    (
      with_target_path (replace_path_base (target_path_or_source named) named.meta.target_file_name)
          named,
      true,
    )

-- RewriteTargetFilenameReplace
unfoldable pub rewrite_target_filename_replace : String → String → StageFunc
unfolding rewrite_name_one
rewrite_target_filename_replace old new = map_stage (rewrite_name_one (λ s. replace_all s old new))

unfoldable pub rewrite_path_one : (String → String) → One
unfolding target_path_or_source
rewrite_path_one rewrite p = (with_target_path (rewrite (target_path_or_source p)) p, true)

-- RewriteTargetPathRegex, given ReplaceAllString with its expression and replacement
unfoldable pub rewrite_target_path_regex : (String → String) → StageFunc
unfolding rewrite_path_one
rewrite_target_path_regex rewrite = map_stage (rewrite_path_one rewrite)

-- RewriteTargetFilenameRegex, likewise
unfoldable pub rewrite_target_filename_regex : (String → String) → StageFunc
unfolding rewrite_name_one
rewrite_target_filename_regex rewrite = map_stage (rewrite_name_one rewrite)
