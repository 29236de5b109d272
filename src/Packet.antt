-- ===== src/Packet.antt =====
-- src/packet/packet.go and pool.go: the packet that receivers produce, pipelines rewrite and
-- senders read. A pointer to a packet is its address; what `ReleaseFn` gives back is a pool buffer.
use forward_stub.Prelude.{Bool, List, Option, String, [], none, some, ℕ, ◌∷◌}
use forward_stub.Prelude.Int.{ℤ}
use forward_stub.Stdlib.Hex.{Bytes}

pub data Proto : Type 0 where
  proto_udp proto_tcp proto_kafka proto_sftp proto_sky_dds proto_local proto_oss : Proto

pub data PayloadKind : Type 0 where
  stream file_chunk : PayloadKind

pub record Meta : Type 0 where
  pub proto : Proto
  pub receiver_name : String
  pub remote : String
  pub local : String
  pub match_key : String
  pub kafka_record_key : Bytes
  pub transfer_id : String
  pub file_name : String
  pub file_path : String
  pub target_file_name : String
  pub target_file_path : String
  pub offset : ℤ
  pub total_size : ℤ
  pub checksum : String
  pub eof : Bool
  pub route_sender : String

pub record Envelope : Type 0 where
  pub kind : PayloadKind
  pub meta : Meta
  pub payload : Bytes

pub record Packet : Type 0 where
  pub address : ℕ
  pub envelope : Envelope
  pub open envelope use *
  pub release_fn : Option ℕ

abbrev pub with_meta : Meta → Packet → Packet
with_meta m p = record p { envelope = record p.envelope { meta = m } }

abbrev pub with_payload : Bytes → Packet → Packet
with_payload b p = record p { envelope = record p.envelope { payload = b } }

-- Packet.Release: the packet after it, and the buffers that `ReleaseFn` gave back.
unfoldable pub release : Packet → Packet × List ℕ
release p = elim p.release_fn [
  | none ↦ (p, [])
  | some buffer ↦ (record p { release_fn = none }, buffer ∷ [])
]

-- Packet.Clone, with the address of the new packet and the buffer that `CopyFrom` took for it.
unfoldable pub clone : ℕ → ℕ → Packet → Packet
clone address buffer p = record {
  address = address;
  envelope = p.envelope;
  release_fn = some buffer;
}
