-- ===== src/Pipeline/Kafka/Key.antt =====
-- src/pipeline/stages_kafka.go: the record key against the field of the payload that it comes
-- from.
use forward_stub.Stdlib.Hex
use forward_stub.Packet.{Packet, with_meta}
use forward_stub.Pipeline.Chain.{map_stage-eq-keep}
use forward_stub.Pipeline.Kafka.{key_one, set_kafka_record_key_from_offset_bytes}
use forward_stub.Pipeline.Offset.{slice}
use forward_stub.Pipeline.Offset.Laws.{All-drop, All-take, IsPayload}
use forward_stub.Prelude.{
  All, Bool, Option, String, [], arith, drop, false, if◌then◌else◌, length, refl, some, true, ℕ,
  ◌+◌, ◌-◌, ◌<◌, ◌∷◌, ◌≡◌, ◌≤◌,
}
use forward_stub.Prelude.Eq.{eq_String, ◌==◌}
use forward_stub.Prelude.Int.{pos, wrap_int_small}
use forward_stub.Stdlib.Hex.{Bytes, IsByte}

All-slice : (b : Bytes) (from to : ℕ) → All IsByte b → All IsByte (slice b from to)
All-slice b from to h = All-take (to - from) (drop from b) (All-drop from b h)

-- The bytes that a key stands for in an encoding.
abbrev pub key_bytes : String → Bytes → Option Bytes
key_bytes encoding key = if encoding == "hex" then Hex.decode key else some key

-- For a field of at least one byte that the payload has, and either of the encodings, the stage keeps
-- the packet, changes nothing but its record key, and the bytes of the field can be read back
-- from the key.
pub kafka_key_lem :
    (o n : ℕ) (hex_key : Bool) (p : Packet)
    → IsPayload p.payload
    → 0 < n
    → o + n ≤ length p.payload
    → let encoding : String = if hex_key then "hex" else "text" in
      (key : Bytes) × (set_kafka_record_key_from_offset_bytes (pos o) (pos n) encoding (p ∷ [])
        ≡ with_meta (record p.meta { kafka_record_key = key }) p ∷ [])
      × (key_bytes encoding key ≡ some (slice p.payload o (o + n)))
unfolding set_kafka_record_key_from_offset_bytes key_one
kafka_key_lem o n true p hp positive fits = (
  Hex.encode (slice p.payload o (o + n)),
  rw (wrap_int_small (o + n) (omega (arith, hp.0)))
      (ground (arith, map_stage-eq-keep (key_one Hex.encode (pos o) (pos (o + n))) (p ∷ []))),
  Hex.decode-encode (slice p.payload o (o + n)) (All-slice p.payload o (o + n) hp.1),
)
kafka_key_lem o n false p hp positive fits = (
  slice p.payload o (o + n),
  rw (wrap_int_small (o + n) (omega (arith, hp.0)))
      (ground (arith, map_stage-eq-keep (key_one (λ b. b) (pos o) (pos (o + n))) (p ∷ []))),
  refl,
)
