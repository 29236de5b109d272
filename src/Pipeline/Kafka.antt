-- ===== src/Pipeline/Kafka.antt =====
-- src/pipeline/stages_kafka.go: the Kafka record key, taken from a field of the payload.
pub mod Key
use forward_stub.Stdlib.Hex
use forward_stub.Packet.{with_meta}
use forward_stub.Pipeline.{One, StageFunc, map_stage, reject}
use forward_stub.Pipeline.Offset.{slice}
use forward_stub.Prelude.{String, false, if◌then◌else◌, length, true, ◌||◌}
use forward_stub.Prelude.Eq.{eq_String, ◌==◌}
use forward_stub.Prelude.Int.{int_add, is_neg, is_nonpos, ltb_ℤ, pos, to_nat, ℤ}
use forward_stub.Stdlib.Hex.{Bytes}

unfoldable pub key_one : (Bytes → Bytes) → ℤ → ℤ → One
key_one encoder offset end p = if ltb_ℤ (pos (length p.payload)) end then (p, false) else (
  with_meta
      (record p.meta { kafka_record_key = encoder (slice p.payload (to_nat offset) (to_nat end)) })
      p,
  true,
)

-- SetKafkaRecordKeyFromOffsetBytes; the length of the field is an int, and not only a length.
unfoldable pub set_kafka_record_key_from_offset_bytes : ℤ → ℤ → String → StageFunc
unfolding key_one int_add
set_kafka_record_key_from_offset_bytes offset field_length encoding =
    let end = int_add offset (to_nat field_length) in
    if is_neg offset || is_nonpos field_length
    then map_stage reject
    else if ltb_ℤ end offset
    then map_stage reject
    else if encoding == "text"
    then map_stage (key_one (λ b. b) offset end)
    else if encoding == "hex"
    then map_stage (key_one Hex.encode offset end)
    else map_stage reject
