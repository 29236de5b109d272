-- ===== src/Tcp/Stream.antt =====
-- src/receiver/gnet_tcp.go, src/sender/gnet_tcp.go: what a connection delivers of what was sent over it.
use mathlib.Core.List.{append-nil, append_assoc, map-append}
use forward_stub.MatchKey.{ConnState}
use forward_stub.Packet.{Envelope}
use forward_stub.Prelude.{
  Bool, Bool-cases, List, Result, Result-cases, String, [], ap, arith, drop, false, inl, inr,
  length, length-append, ltb, map, ok, refl, sym, take, true, ℕ, ◌%◌, ◌&&◌, ◌++◌, ◌/◌, ◌>>=◌, ◌∙◌,
  ◌∷◌, ◌≡◌,
}
use forward_stub.Stdlib.Hex.{Bytes}
use forward_stub.Tcp.{
  Conn, feed, frames_in, on_open, on_traffic, overwritten, tcp_envelope, uint16, written_by_send,
}
use forward_stub.Tcp.Alias.{frames_in-keeps, keeps, length-overwritten, sizes-frames_in}
use forward_stub.Tcp.Feed.{feed-append, feed-cons, feed-needs_more, feed-stuck, needs_more}

-- The reads of a connection, one after the other.
unfoldable pub receive : Bool → String → Conn → List Bytes → List Envelope × Conn
unfolding on_traffic
receive framed name cs [] = ([], cs)
receive framed name cs (chunk ∷ chunks) =
    let now = on_traffic framed name cs chunk in
    let later = receive framed name now.1 chunks in (now.0 ++ later.0, later.1)

abbrev pub joined : List Bytes → Bytes
joined [] = []
joined (xs ∷ xss) = xs ++ joined xss

-- What a sender writes for the payloads, one Send after the other.
unfoldable pub send_all : Bool → List Bytes → Result ℕ Bytes
unfolding written_by_send
send_all framed [] = ok []
send_all framed (payload ∷ payloads) = do
  bytes ← written_by_send framed payload
  rest ← send_all framed payloads
  ok (bytes ++ rest)

-- Each read that completes a frame leaves at most two bytes of the next one.
abbrev pub reads_keep : Bytes → List Bytes → Bool
reads_keep buf [] = true
reads_keep buf (chunk ∷ chunks) =
    let fed = feed (buf ++ chunk) in keeps fed && reads_keep fed.1 chunks

no_read :
    (buf : Bytes) (chunks : List Bytes)
    → needs_more buf ≡ true
    → reads_keep buf ([] ∷ chunks) ≡ true
    → reads_keep buf chunks ≡ true
no_read buf chunks e = rw (append-nil buf) (rw (feed-stuck buf e) (λ k. k))

receive_lem :
    (name : String) (cs : Conn) (chunks : List Bytes)
    → needs_more cs.buf ≡ true
    → reads_keep cs.buf chunks ≡ true
    → receive true name cs chunks ≡ (
      map (tcp_envelope name cs) (feed (cs.buf ++ joined chunks)).0,
      record cs { buf = (feed (cs.buf ++ joined chunks)).1 },
    )
unfolding receive on_traffic tcp_envelope
receive_lem name cs [] e k = rw (append-nil cs.buf) (rw (feed-stuck cs.buf e) refl)
receive_lem name cs ([] ∷ chunks) e k = receive_lem name cs chunks e (no_read cs.buf chunks e k)
receive_lem name cs ((x ∷ xs) ∷ chunks) e k =
    let buf = cs.buf ++ (x ∷ xs) in
    let fed = feed buf in
    let next = record cs { buf = fed.1 } in
    rw
      (
        frames_in-keeps buf (ground (arith, k)),
        receive_lem name next chunks (feed-needs_more buf) (ground (arith, k)),
        ← append_assoc cs.buf (x ∷ xs) (joined chunks),
        feed-append buf (joined chunks),
        map-append (tcp_envelope name cs) fed.0 (feed (fed.1 ++ joined chunks)).0,
      )
      refl

abbrev pub sizes : List Envelope → List ℕ
sizes = map (λ e. length e.payload)

sizes-map :
    (name : String) (cs : Conn) (frames : List Bytes)
    → sizes (map (tcp_envelope name cs) frames) ≡ map length frames
unfolding tcp_envelope
sizes-map name cs [] = refl
sizes-map name cs (fr ∷ frames) = ap (◌∷◌ (length fr)) (sizes-map name cs frames)

sizes-receive_lem :
    (name : String) (cs : Conn) (chunks : List Bytes)
    → needs_more cs.buf ≡ true
    → (sizes (receive true name cs chunks).0 ≡ map length (feed (cs.buf ++ joined chunks)).0)
      × ((receive true name cs chunks).1 ≡ record cs { buf = (feed (cs.buf ++ joined chunks)).1 })
unfolding receive on_traffic
sizes-receive_lem name cs [] e = rw (append-nil cs.buf) (rw (feed-stuck cs.buf e) (refl, refl))
sizes-receive_lem name cs ([] ∷ chunks) e = sizes-receive_lem name cs chunks e
sizes-receive_lem name cs ((x ∷ xs) ∷ chunks) e =
    let buf = cs.buf ++ (x ∷ xs) in
    let fed = feed buf in
    let next = record cs { buf = fed.1 } in
    let (later, at_end) = sizes-receive_lem name next chunks (feed-needs_more buf) in
    let frames = frames_in (overwritten buf fed.1) fed.0 in
    let now : sizes (map (tcp_envelope name cs) frames) ≡ map length fed.0 =
      sizes-map name cs frames
      ∙ sizes-frames_in buf (overwritten buf fed.1) (length-overwritten buf) in
    let whole : feed (cs.buf ++ ((x ∷ xs) ++ joined chunks))
        ≡ (fed.0 ++ (feed (fed.1 ++ joined chunks)).0, (feed (fed.1 ++ joined chunks)).1) =
      ap feed (sym (append_assoc cs.buf (x ∷ xs) (joined chunks)))
      ∙ feed-append buf (joined chunks) in
    (
      map-append (λ (v : Envelope). length v.payload) (map (tcp_envelope name cs) frames)
            (receive true name next chunks).0
          ∙ ap (λ (ns : List ℕ). ns ++ sizes (receive true name next chunks).0) now
          ∙ ap (λ (ns : List ℕ). map length fed.0 ++ ns) later
          ∙ sym (
              ap (λ (r : List Bytes × Bytes). map length r.0) whole
              ∙ map-append length fed.0 (feed (fed.1 ++ joined chunks)).0),
      at_end ∙ ap (λ (r : List Bytes × Bytes). record cs { buf = r.1 }) (sym whole),
    )

take-whole : (xs ys : Bytes) → take (length xs) (xs ++ ys) ≡ xs
take-whole [] ys = refl
take-whole (x ∷ xs) ys = ap (◌∷◌ x) (take-whole xs ys)

drop-whole : (xs ys : Bytes) → drop (length xs) (xs ++ ys) ≡ ys
drop-whole [] ys = refl
drop-whole (x ∷ xs) ys = drop-whole xs ys

feed-send_all :
    (payloads : List Bytes) (bytes : Bytes)
    → send_all true payloads ≡ ok bytes
    → feed bytes ≡ (payloads, [])
unfolding send_all written_by_send
feed-send_all [] bytes h = let is : bytes ≡ [] = ground (arith, h) in rw is (feed-stuck [] refl)
feed-send_all (p ∷ ps) bytes h = elim (Bool-cases (ltb 65535 (length p))) [
  | inl long ↦ absurd (ground (arith, h, long))
  | inr short ↦ elim (Result-cases (send_all true ps)) [
    | inr (e, bad) ↦ absurd (ground (arith, h, short, bad))
    | inl (rest, good) ↦
        let n = length p in
        let is : bytes ≡ n / 256 ∷ n % 256 ∷ (p ++ rest) = ground (arith, h, short, good) in
        let sized : uint16 (n / 256) (n % 256) ≡ n = omega arith in
        let whole : ltb (length (p ++ rest)) (uint16 (n / 256) (n % 256)) ≡ false =
          rw (sized, length-append p rest) (ground arith) in
        rw is (
          rw (feed-cons (n / 256) (n % 256) (p ++ rest) whole)
            (rw sized (rw (take-whole p rest, drop-whole p rest, feed-send_all ps rest good) refl)))
  ]
]

-- If the sender with the length prefix accepts the payloads, the bytes that it writes arrive in reads cut anywhere, and each read that completes a frame leaves at most two bytes of the next one, the receiver makes one packet of each payload, in order and with the connection's match key, and its buffer is empty at the end.
pub receive-send_all :
    (name : String) (builder : ConnState → String) (peer : ConnState) (payloads chunks : List Bytes)
    → send_all true payloads ≡ ok (joined chunks)
    → reads_keep [] chunks ≡ true
    → receive true name (on_open builder peer) chunks
      ≡ (map (tcp_envelope name (on_open builder peer)) payloads, on_open builder peer)
unfolding on_open
receive-send_all name builder peer payloads chunks h k =
    let cs = on_open builder peer in
    rw (receive_lem name cs chunks refl k) (rw (feed-send_all payloads (joined chunks) h) refl)

-- However the bytes that the sender with the length prefix writes for payloads it accepts are cut into reads, the receiver makes one packet for each payload, in order and as long as the payload, and its buffer is empty at the end.
pub sizes-receive :
    (name : String) (builder : ConnState → String) (peer : ConnState) (payloads chunks : List Bytes)
    → send_all true payloads ≡ ok (joined chunks)
    → (sizes (receive true name (on_open builder peer) chunks).0 ≡ map length payloads)
      × ((receive true name (on_open builder peer) chunks).1 ≡ on_open builder peer)
unfolding on_open
sizes-receive name builder peer payloads chunks h =
    let cs = on_open builder peer in
    let both = sizes-receive_lem name cs chunks refl in
    rw (feed-send_all payloads (joined chunks) h) at both
