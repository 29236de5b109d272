-- ===== src/Task/Examples.antt =====
-- The theorems on tasks at a concrete task, packet and run.
use forward_stub.Prelude.{[], arith, false, refl, ◌+◌, ◌∷◌, ◌≡◌}
use forward_stub.Prelude.Int.{pos}
use forward_stub.Samples.{north, plain_packet, south}
use forward_stub.Task.{Task, channel, run_packet}
use forward_stub.Task.Lifecycle.{
  Life, Reach, at_start, drained, enters, gives_up, go_on, puts, started, stop_begins, wait_ends,
  waiting,
}
use forward_stub.Task.Lifecycle.Drain.{AllReleased, drained_lem, tally}
use forward_stub.Task.Lifecycle.Order.{IsOrdered, Reach-IsOrdered}
use forward_stub.Task.Lifecycle.Stop.{Stops, waiting_can_stop}
use forward_stub.Task.Release.{releases, releases-run_packet}

-- One pipeline that lets every packet through, and two senders.
abbrev plain : Task
plain = record {
  name = "t";
  pipelines = record { name = "p"; stages = (λ ps. ps) ∷ [] } ∷ [];
  senders = north ∷ south ∷ [];
  pool_size = pos 1;
  channel_queue_size = pos 1;
  execution_model = "fastpath";
  senders_by_name = [];
}

releases-run_packet_example : releases 7 (run_packet plain plain_packet) ≡ 1
releases-run_packet_example = releases-run_packet 7 plain plain_packet

-- A packet comes while the task serves, and waits in the channel.
abbrev put_state : Life
put_state = record (started channel 2) {
  handed = plain_packet ∷ [];
  queue = plain_packet ∷ [];
  put = plain_packet ∷ [];
  inflight = 1;
}

put_path : Reach (started channel 2) put_state
put_path =
    go_on (go_on at_start (enters _ plain_packet refl))
      (puts _ [] plain_packet [] refl refl (omega arith))

abbrev waiting_state : Life
waiting_state = record put_state { accepting = false; phase = waiting }

waiting_path : Reach (started channel 2) waiting_state
waiting_path = go_on put_path (stop_begins _ refl)

-- StopGraceful is behind its wait, and a packet that the channel did not take is not yet released.
abbrev unreleased_state : Life
unreleased_state = record (started channel 2) {
  accepting = false;
  phase = drained;
  handed = plain_packet ∷ [];
  releasing = plain_packet ∷ [];
}

unreleased_path : Reach (started channel 2) unreleased_state
unreleased_path =
    go_on
      (go_on (go_on (go_on at_start (enters _ plain_packet refl)) (stop_begins _ refl))
        (gives_up _ [] plain_packet [] refl refl))
      (wait_ends _ refl refl)

drained_lem_example :
    (unreleased_state.entering ≡ [])
    × (unreleased_state.queue ≡ [])
    × (unreleased_state.running ≡ [])
    × (tally 7 unreleased_state.handed
        ≡ tally 7 unreleased_state.given_back + tally 7 unreleased_state.releasing)
    × AllReleased 7 unreleased_state
drained_lem_example = drained_lem 7 unreleased_path refl

waiting_can_stop_example : Stops waiting_state
waiting_can_stop_example = waiting_can_stop waiting_path (omega arith) refl

Reach-IsOrdered_example : IsOrdered put_state
Reach-IsOrdered_example = Reach-IsOrdered put_path
