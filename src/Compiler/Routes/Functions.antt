-- ===== src/Compiler/Routes/Functions.antt =====
-- src/pipeline: the stage functions keep the target senders of packets within a list.
use mathlib.Core.Path.{subst}
use forward_stub.Stdlib.Hex
use forward_stub.Compiler.Routes.{Keeps, RoutesTo, TableWithin, lookup-TableWithin, map_stage-Keeps}
use forward_stub.Packet.{Packet}
use forward_stub.Pipeline.{One, StageFunc, map_stage, reject}
use forward_stub.Pipeline.File.{
  add_prefix_one, clean_path_prefix, rewrite_name_one, rewrite_path_one,
  rewrite_target_filename_regex, rewrite_target_filename_replace, rewrite_target_path_add_prefix,
  rewrite_target_path_regex, rewrite_target_path_strip_prefix, set_target_file_path,
  strip_prefix_one,
}
use forward_stub.Pipeline.Kafka.{key_one, set_kafka_record_key_from_offset_bytes}
use forward_stub.Pipeline.Offset.{
  match_offset_bytes, match_one, replace_offset_bytes, replace_one, slice,
}
use forward_stub.Pipeline.Route.{route_one, route_sender_by_offset_bytes}
use forward_stub.Prelude.{
  Bool, List, Option-cases, String, arith, false, if◌then◌else◌, inl, inr, length, refl, sym, true,
  ◌||◌, ◌≡◌, ◌⊎◌,
}
use forward_stub.Prelude.Eq.{eq_String, eq_bytes, ◌==◌}
use forward_stub.Prelude.Int.{int_add, is_neg, is_nonpos, ltb_ℤ, to_nat, ℤ}
use forward_stub.Prelude.Map.{Map, lookup}
use forward_stub.Prelude.Names.{contains}
use forward_stub.Stdlib.Hex.{Bytes}
use forward_stub.Stdlib.Strings.{replace_all, trim_space}

-- A per-packet function that leaves the target sender alone.
abbrev LeavesRoute : One → Type 0
LeavesRoute one = (p : Packet) → (one p).0.meta.route_sender ≡ p.meta.route_sender

module _ (targets : List String) where
  LeavesRoute-Keeps : (one : One) → LeavesRoute one → Keeps targets (map_stage one)
  LeavesRoute-Keeps one same =
      map_stage-Keeps targets one
        λ p h. subst (λ (s : String). (s ≡ "") ⊎ (contains targets s ≡ true)) (sym (same p)) h

  Keeps-if :
      (b : Bool) (f g : StageFunc)
      → Keeps targets f
      → Keeps targets g
      → Keeps targets (if b then f else g)
  Keeps-if true f g hf hg = hf
  Keeps-if false f g hf hg = hg

  reject-Keeps : Keeps targets (map_stage reject)
  reject-Keeps = LeavesRoute-Keeps reject (λ p. refl)

  pub match-Keeps : (offset : ℤ) (b : Bytes) → Keeps targets (match_offset_bytes offset b)
  unfolding match_offset_bytes
  match-Keeps offset b =
      let end = int_add offset (length b) in
      let one = match_one offset end b in
      Keeps-if (is_neg offset) _ _ reject-Keeps
        (Keeps-if (ltb_ℤ end offset) _ _ reject-Keeps (LeavesRoute-Keeps one (λ p. ground arith)))

  pub replace-Keeps : (offset : ℤ) (b : Bytes) → Keeps targets (replace_offset_bytes offset b)
  unfolding replace_offset_bytes
  replace-Keeps offset b =
      let end = int_add offset (length b) in
      let one = replace_one offset end b in
      Keeps-if (is_neg offset) _ _ reject-Keeps
        (Keeps-if (ltb_ℤ end offset) _ _ reject-Keeps (LeavesRoute-Keeps one (λ p. ground arith)))

  pub kafka_key-Keeps :
      (offset n : ℤ) (encoding : String)
      → Keeps targets (set_kafka_record_key_from_offset_bytes offset n encoding)
  unfolding set_kafka_record_key_from_offset_bytes
  kafka_key-Keeps offset n encoding =
      let end = int_add offset (to_nat n) in
      let text = key_one (λ b. b) offset end in
      let hex = key_one Hex.encode offset end in
      Keeps-if (is_neg offset || is_nonpos n) _ _ reject-Keeps (
        Keeps-if (ltb_ℤ end offset) _ _ reject-Keeps (
          Keeps-if (encoding == "text") _ _ (LeavesRoute-Keeps text (λ p. ground arith)) (
            Keeps-if (encoding == "hex") _ _ (LeavesRoute-Keeps hex (λ p. ground arith))
              reject-Keeps)))

  pub set_path-Keeps : (value : String) → Keeps targets (set_target_file_path value)
  unfolding set_target_file_path
  set_path-Keeps value = LeavesRoute-Keeps _ (λ p. refl)

  pub strip_prefix-Keeps :
      (prefix : String) → Keeps targets (rewrite_target_path_strip_prefix prefix)
  unfolding rewrite_target_path_strip_prefix
  strip_prefix-Keeps prefix = LeavesRoute-Keeps (strip_prefix_one (trim_space prefix)) (λ p. refl)

  pub add_prefix-Keeps : (prefix : String) → Keeps targets (rewrite_target_path_add_prefix prefix)
  unfolding rewrite_target_path_add_prefix
  add_prefix-Keeps prefix =
      LeavesRoute-Keeps (add_prefix_one (clean_path_prefix prefix)) (λ p. ground arith)

  pub replace_filename-Keeps :
      (old new : String) → Keeps targets (rewrite_target_filename_replace old new)
  unfolding rewrite_target_filename_replace
  replace_filename-Keeps old new =
      LeavesRoute-Keeps (rewrite_name_one (λ s. replace_all s old new)) (λ p. refl)

  pub regex_path-Keeps :
      (rewrite : String → String) → Keeps targets (rewrite_target_path_regex rewrite)
  unfolding rewrite_target_path_regex
  regex_path-Keeps rewrite = LeavesRoute-Keeps (rewrite_path_one rewrite) (λ p. refl)

  pub regex_filename-Keeps :
      (rewrite : String → String) → Keeps targets (rewrite_target_filename_regex rewrite)
  unfolding rewrite_target_filename_regex
  regex_filename-Keeps rewrite = LeavesRoute-Keeps (rewrite_name_one rewrite) (λ p. refl)

  route_one_lem :
      (offset end : ℤ) (routes : Map Bytes String) (default_sender : String) (p : Packet)
      → TableWithin targets routes
      → ((default_sender == "") ≡ false → contains targets default_sender ≡ true)
      → RoutesTo targets p
      → RoutesTo targets (route_one offset end routes default_sender p).0
  unfolding route_one
  route_one_lem offset end routes default_sender p t d h =
      let key = slice p.payload (to_nat offset) (to_nat end) in
      elim (Option-cases (lookup ⦃e = eq_bytes⦄ key routes)) [
        | inl miss ↦ ground (arith, miss)
        | inr (sn, found) ↦ ground (arith, found, lookup-TableWithin targets key routes sn t found)
      ]

  pub route-Keeps :
      (offset key_len : ℤ) (routes : Map Bytes String) (default_sender : String)
      → TableWithin targets routes
      → ((default_sender == "") ≡ false → contains targets default_sender ≡ true)
      → Keeps targets (route_sender_by_offset_bytes offset key_len routes default_sender)
  unfolding route_sender_by_offset_bytes
  route-Keeps offset key_len routes default_sender t d =
      let end = int_add offset (to_nat key_len) in
      let one = route_one offset end routes default_sender in
      Keeps-if (is_neg offset || is_nonpos key_len) _ _ reject-Keeps (
        Keeps-if (ltb_ℤ end offset) _ _ reject-Keeps (
          map_stage-Keeps targets one
            λ p h. route_one_lem offset end routes default_sender p t d h))
