-- ===== src/MatchKey/Examples.antt =====
-- src/receiver/match_key.go: keys of two fields at concrete texts.
use forward_stub.MatchKey.{build_two_field_match_key, escape, escape_from, is_backslash, is_mark}
use forward_stub.MatchKey.Fields.{is_plain, two_fields-injective}
use forward_stub.Prelude.{String, refl, true, ◌≡◌}

compact_key :
    build_two_field_match_key "kafka" "topic" "a|b" "partition" "3"
    ≡ "kafka|topic=a\\|b|partition=3"
unfolding build_two_field_match_key escape escape_from is_mark is_backslash
compact_key = refl

partition-is_plain : is_plain "partition" ≡ true
unfolding is_plain is_backslash
partition-is_plain = refl

abbrev topic : String
topic = "orders"

abbrev partition : String
partition = "3"

two_fields-injective_example : (topic ≡ topic) × (partition ≡ partition)
two_fields-injective_example =
    two_fields-injective "kafka" "topic" "partition" topic partition topic partition
      partition-is_plain refl
