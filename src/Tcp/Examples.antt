-- ===== src/Tcp/Examples.antt =====
-- src/receiver/framing.go, src/receiver/gnet_tcp.go and src/sender/gnet_tcp.go: a stream of two frames in three reads.
use forward_stub.MatchKey.{ConnState}
use forward_stub.Prelude.{[], arith, length, map, none, ok, refl, true, ℕ, ◌∷◌, ◌≡◌}
use forward_stub.Tcp.{feed, feed_from, on_open, on_traffic, tcp_envelope}
use forward_stub.Tcp.Feed.{feed_from_lem, needs_more}
use forward_stub.Tcp.Stream.{
  joined, reads_keep, receive, receive-send_all, send_all, sizes, sizes-receive,
}

abbrev peer : ConnState
peer = record {
  remote = "10.0.0.1:4000";
  local = "10.0.0.2:9000";
  remote_addr = none;
  local_addr = none;
}

feed_from_lem_example :
    (feed_from 7 (0 ∷ 1 ∷ 7 ∷ 0 ∷ 5 ∷ 1 ∷ []) ≡ feed (0 ∷ 1 ∷ 7 ∷ 0 ∷ 5 ∷ 1 ∷ []))
    × (needs_more (feed_from 7 (0 ∷ 1 ∷ 7 ∷ 0 ∷ 5 ∷ 1 ∷ [])).1 ≡ true)
feed_from_lem_example = feed_from_lem 7 (0 ∷ 1 ∷ 7 ∷ 0 ∷ 5 ∷ 1 ∷ []) (omega arith)

feeds : feed (0 ∷ 1 ∷ 7 ∷ 0 ∷ 5 ∷ 1 ∷ []) ≡ ((7 ∷ []) ∷ [], 0 ∷ 5 ∷ 1 ∷ [])
unfolding feed
feeds = refl

sends :
    send_all true ((7 ∷ 8 ∷ []) ∷ (9 ∷ []) ∷ [])
    ≡ ok (joined ((0 ∷ []) ∷ (2 ∷ 7 ∷ 8 ∷ 0 ∷ []) ∷ (1 ∷ 9 ∷ []) ∷ []))
unfolding send_all
sends = refl

kept : reads_keep [] ((0 ∷ []) ∷ (2 ∷ 7 ∷ 8 ∷ 0 ∷ []) ∷ (1 ∷ 9 ∷ []) ∷ []) ≡ true
unfolding feed
kept = refl

cut_sends :
    send_all true ((7 ∷ []) ∷ (8 ∷ 9 ∷ []) ∷ [])
    ≡ ok (joined ((0 ∷ 1 ∷ 7 ∷ 0 ∷ 2 ∷ 8 ∷ []) ∷ (9 ∷ []) ∷ []))
unfolding send_all
cut_sends = refl

receive-send_all_example :
    receive true "r"
      (on_open (λ cs. cs.remote) peer)
      ((0 ∷ []) ∷ (2 ∷ 7 ∷ 8 ∷ 0 ∷ []) ∷ (1 ∷ 9 ∷ []) ∷ [])
    ≡ (
      map (tcp_envelope "r" (on_open (λ cs. cs.remote) peer)) ((7 ∷ 8 ∷ []) ∷ (9 ∷ []) ∷ []),
      on_open (λ cs. cs.remote) peer,
    )
receive-send_all_example =
    receive-send_all "r" (λ cs. cs.remote) peer ((7 ∷ 8 ∷ []) ∷ (9 ∷ []) ∷ [])
      ((0 ∷ []) ∷ (2 ∷ 7 ∷ 8 ∷ 0 ∷ []) ∷ (1 ∷ 9 ∷ []) ∷ []) sends kept

-- A read with a whole frame and three bytes of the next: the payload 7 is handed over as 1.
overwrites :
    receive true "r" (on_open (λ cs. cs.remote) peer) ((0 ∷ 1 ∷ 7 ∷ 0 ∷ 5 ∷ 1 ∷ []) ∷ []) ≡ (
      tcp_envelope "r" (on_open (λ cs. cs.remote) peer) (1 ∷ []) ∷ [],
      record (on_open (λ cs. cs.remote) peer) { buf = 0 ∷ 5 ∷ 1 ∷ [] },
    )
unfolding receive on_traffic feed on_open
overwrites = refl

sizes-receive_example :
    (sizes
        (receive true "r"
          (on_open (λ cs. cs.remote) peer)
          ((0 ∷ 1 ∷ 7 ∷ 0 ∷ 2 ∷ 8 ∷ []) ∷ (9 ∷ []) ∷ [])).0
      ≡ map (length {A = ℕ}) ((7 ∷ []) ∷ (8 ∷ 9 ∷ []) ∷ []))
    × ((receive true "r"
          (on_open (λ cs. cs.remote) peer)
          ((0 ∷ 1 ∷ 7 ∷ 0 ∷ 2 ∷ 8 ∷ []) ∷ (9 ∷ []) ∷ [])).1
        ≡ on_open (λ cs. cs.remote) peer)
sizes-receive_example =
    sizes-receive "r" (λ cs. cs.remote) peer ((7 ∷ []) ∷ (8 ∷ 9 ∷ []) ∷ [])
      ((0 ∷ 1 ∷ 7 ∷ 0 ∷ 2 ∷ 8 ∷ []) ∷ (9 ∷ []) ∷ []) cut_sends
