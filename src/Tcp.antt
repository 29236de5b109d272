-- ===== src/Tcp.antt =====
-- src/receiver/framing.go, src/receiver/gnet_tcp.go and src/sender/gnet_tcp.go: the frames of a TCP stream, with the
-- length of each in front as two bytes. A read of a connection is a list of bytes.
-- The frames that Feed cuts share the array of the connection's buffer, which OnTraffic writes to before it copies them.
pub mod Feed
pub mod Alias
pub mod Stream
pub mod Examples
use forward_stub.MatchKey.{ConnState}
use forward_stub.Packet.{Envelope, proto_tcp, stream}
use forward_stub.Pipeline.{is_empty}
use forward_stub.Prelude.{
  Bool, List, Result, String, [], drop, err, false, if◌then◌else◌, length, ltb, map, not, ok, suc,
  take, ℕ, ◌%◌, ◌*◌, ◌++◌, ◌+◌, ◌/◌, ◌∷◌,
}
use forward_stub.Prelude.Int.{pos}
use forward_stub.Stdlib.Hex.{Bytes}

-- binary.BigEndian.Uint16
abbrev pub uint16 : ℕ → ℕ → ℕ
uint16 hi lo = hi * 256 + lo

-- The loop of U16BEFramer.Feed: the frames, and what remains. The fuel is for the turns of the loop, which take
-- two bytes or more each.
unfoldable pub feed_from : ℕ → Bytes → List Bytes × Bytes
feed_from (suc fuel) (hi ∷ lo ∷ rest) =
    let n = uint16 hi lo in
    let further = feed_from fuel (drop n rest) in
    if ltb (length rest) n then ([], hi ∷ lo ∷ rest) else (take n rest ∷ further.0, further.1)
feed_from fuel buf = ([], buf)

-- U16BEFramer.Feed
unfoldable pub feed : Bytes → List Bytes × Bytes
unfolding feed_from
feed buf = feed_from (length buf) buf

-- connState, with the addresses of the connection.
pub record Conn : Type 0 where
  pub buf : Bytes
  pub peer : ConnState
  pub match_key : String

-- OnOpen
unfoldable pub on_open : (ConnState → String) → ConnState → Conn
on_open match_key_builder peer = record {
  buf = [];
  peer = peer;
  match_key = match_key_builder peer;
}

-- The envelope of the packets of OnTraffic.
unfoldable pub tcp_envelope : String → Conn → Bytes → Envelope
tcp_envelope name cs payload = record {
  kind = stream;
  payload = payload;
  meta = record {
    proto = proto_tcp;
    receiver_name = name;
    remote = cs.peer.remote;
    local = cs.peer.local;
    match_key = cs.match_key;
    kafka_record_key = [];
    transfer_id = "";
    file_name = "";
    file_path = "";
    target_file_name = "";
    target_file_path = "";
    offset = pos 0;
    total_size = pos 0;
    checksum = "";
    eof = false;
    route_sender = "";
  };
}

-- cs.buf = append(cs.buf[:0], remain...): the array of the buffer after what remains is copied to its front.
unfoldable pub overwritten : Bytes → Bytes → Bytes
overwritten buf remain = remain ++ drop (length remain) buf

-- The frames of Feed are parts of the buffer's array: what they hold when the array has become another one.
unfoldable pub frames_in : Bytes → List Bytes → List Bytes
frames_in array [] = []
frames_in array (fr ∷ frames) =
    let here = drop 2 array in take (length fr) here ∷ frames_in (drop (length fr) here) frames

-- OnTraffic: the packets that it hands over, and the connection after it. `framed` says that the receiver has a framer.
unfoldable pub on_traffic : Bool → String → Conn → Bytes → List Envelope × Conn
unfolding feed tcp_envelope overwritten frames_in
on_traffic framed name cs in_ =
    let buf = cs.buf ++ in_ in
    let fed = feed buf in
    if is_empty in_
    then ([], cs)
    else if not framed
    then (tcp_envelope name cs buf ∷ [], record cs { buf = [] })
    else (
      map (tcp_envelope name cs) (frames_in (overwritten buf fed.1) fed.0),
      record cs { buf = fed.1 },
    )

-- What Send writes to the connection; the error is the length.
unfoldable pub written_by_send : Bool → Bytes → Result ℕ Bytes
written_by_send with_u16be_len payload =
    let n = length payload in
    if not with_u16be_len
    then ok payload
    else if ltb 65535 n
    then err n
    else ok (n / 256 ∷ n % 256 ∷ payload)
