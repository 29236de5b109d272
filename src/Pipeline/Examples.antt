-- ===== src/Pipeline/Examples.antt =====
-- The theorems on pipelines and offset stages at concrete packets.
use forward_stub.Packet.{with_meta, with_payload}
use forward_stub.Pipeline.{One, map_stage, process}
use forward_stub.Pipeline.Chain.{chain, keep, map_stage-eq-keep, process-eq-chain, to_list}
use forward_stub.Pipeline.Kafka.{set_kafka_record_key_from_offset_bytes}
use forward_stub.Pipeline.Kafka.Key.{kafka_key_lem, key_bytes}
use forward_stub.Pipeline.Offset.{match_offset_bytes, replace_offset_bytes}
use forward_stub.Pipeline.Offset.Laws.{holds_at, match_offset_bytes-eq-select, select}
use forward_stub.Pipeline.Offset.Replace.{replace_offset_bytes_lem}
use forward_stub.Prelude.{[], arith, leb, length, map, some, take, true, ℕ, ◌∷◌, ◌≡◌}
use forward_stub.Prelude.Int.{pos}
use forward_stub.Samples.{plain_packet}
use forward_stub.Stdlib.Hex.{Bytes}

abbrev drop_short : One
drop_short p = (with_payload (take 2 p.payload) p, leb 3 (length p.payload))

map_stage-eq-keep_example :
    map_stage drop_short (plain_packet ∷ plain_packet ∷ [])
    ≡ keep drop_short (plain_packet ∷ plain_packet ∷ [])
map_stage-eq-keep_example = map_stage-eq-keep drop_short (plain_packet ∷ plain_packet ∷ [])

process-eq-chain_example :
    process
      (record { name = "p"; stages = map map_stage (drop_short ∷ drop_short ∷ []) })
      plain_packet
    ≡ to_list (chain (drop_short ∷ drop_short ∷ []) plain_packet)
process-eq-chain_example = process-eq-chain "p" (drop_short ∷ drop_short ∷ []) plain_packet

match_offset_bytes-eq-select_example :
    match_offset_bytes (pos 1) (0x20 ∷ 0x30 ∷ []) (plain_packet ∷ [])
    ≡ select (λ p. holds_at 1 (0x20 ∷ 0x30 ∷ []) p.payload) (plain_packet ∷ [])
match_offset_bytes-eq-select_example =
    match_offset_bytes-eq-select 1 (0x20 ∷ 0x30 ∷ []) (plain_packet ∷ []) (omega arith)
      (omega arith, (omega arith, (omega arith, tt)))
      ((omega arith, (omega arith, (omega arith, (omega arith, (omega arith, tt))))), tt)

replace_offset_bytes_lem_example :
    (replace_offset_bytes (pos 2) (0xff ∷ []) (plain_packet ∷ [])
      ≡ with_payload (0x10 ∷ 0x20 ∷ 0xff ∷ 0x40 ∷ []) plain_packet ∷ [])
    × (length {A = ℕ} (0x10 ∷ 0x20 ∷ 0xff ∷ 0x40 ∷ []) ≡ length plain_packet.payload)
    × (match_offset_bytes
          (pos 2)
          (0xff ∷ [])
          (replace_offset_bytes (pos 2) (0xff ∷ []) (plain_packet ∷ []))
        ≡ replace_offset_bytes (pos 2) (0xff ∷ []) (plain_packet ∷ []))
replace_offset_bytes_lem_example =
    replace_offset_bytes_lem 2 (0xff ∷ []) plain_packet (omega arith, (omega arith, tt))
      (omega arith, (omega arith, (omega arith, (omega arith, (omega arith, tt))))) (omega arith)

kafka_key_lem_example :
    (key : Bytes) × (set_kafka_record_key_from_offset_bytes
        (pos 1)
        (pos 2)
        "hex"
        (plain_packet ∷ [])
      ≡ with_meta (record plain_packet.meta { kafka_record_key = key }) plain_packet ∷ [])
    × (key_bytes "hex" key ≡ some (0x20 ∷ 0x30 ∷ []))
kafka_key_lem_example =
    kafka_key_lem 1 2 true plain_packet
      (omega arith, (omega arith, (omega arith, (omega arith, (omega arith, tt))))) (omega arith)
      (omega arith)
