-- ===== src/Samples.antt =====
-- Small inputs that the example modules share.
use forward_stub.Config.Business.{Business, TaskConfig}
use forward_stub.Config.Stage.{StageConfig}
use forward_stub.Packet.{Meta, Packet, proto_udp, stream}
use forward_stub.Prelude.{List, String, [], false, some, ◌∷◌}
use forward_stub.Prelude.Int.{pos}
use forward_stub.Task.{Sender}

abbrev pub plain_meta : Meta
plain_meta = record {
  proto = proto_udp;
  receiver_name = "in";
  remote = "10.0.0.1:4000";
  local = "10.0.0.2:5000";
  match_key = "video";
  kafka_record_key = [];
  transfer_id = "";
  file_name = "";
  file_path = "";
  target_file_name = "";
  target_file_path = "";
  offset = pos 0;
  total_size = pos 0;
  checksum = "";
  eof = false;
  route_sender = "";
}

-- Four bytes from a pool buffer.
abbrev pub plain_packet : Packet
plain_packet = record {
  address = 7;
  envelope = record { kind = stream; meta = plain_meta; payload = 0x10 ∷ 0x20 ∷ 0x30 ∷ 0x40 ∷ [] };
  release_fn = some 1;
}

-- A stage configuration with nothing but its type.
abbrev pub bare_stage : String → StageConfig
bare_stage type = record {
  type = type;
  offset = pos 0;
  length = pos 0;
  encoding = "";
  hex = "";
  cases = [];
  default_sender = "";
  value = "";
  prefix = "";
  old = "";
  new = "";
  pattern = "";
  replacement = "";
}

-- Packets whose first byte is 10 in hex go to the sender `north`, others to `south`.
abbrev pub routing_stage : StageConfig
routing_stage = record (bare_stage "route_offset_bytes_sender") {
  cases = ("10", "north") ∷ [];
  default_sender = "south";
}

abbrev pub plain_task : List String → List String → TaskConfig
plain_task pipelines senders = record {
  pool_size = pos 2;
  execution_model = "fastpath";
  channel_queue_size = pos 0;
  pipelines = pipelines;
  senders = senders;
  log_payload_send = false;
  payload_log_max_bytes = pos 0;
}

abbrev pub north : Sender
north = record { name = "north"; address = 100 }

abbrev pub south : Sender
south = record { name = "south"; address = 200 }

-- One task with a routing pipeline, behind one selector.
abbrev pub sample_config : Business (Unit {0}) (Unit {0})
sample_config = record {
  receivers = ("in", tt) ∷ [];
  selectors = ("sel", record { matches = ("video", "set") ∷ []; default_task_set = "" }) ∷ [];
  task_sets = ("set", "t" ∷ []) ∷ [];
  senders = ("north", tt) ∷ ("south", tt) ∷ [];
  pipelines = ("p", routing_stage ∷ []) ∷ [];
  tasks = ("t", plain_task ("p" ∷ []) ("north" ∷ "south" ∷ [])) ∷ [];
}
