-- ===== src/Store/Senders/Examples.antt =====
-- The theorems on a change of the senders at a concrete store.
use forward_stub.Prelude.{Option, String, [], false, ok, refl, some, ◌∷◌, ◌≡◌}
use forward_stub.Prelude.Eq.{DeepEqual, eq_String}
use forward_stub.Prelude.Int.{pos}
use forward_stub.Prelude.Map.{Map, lookup}
use forward_stub.Samples.{north}
use forward_stub.Store.Examples.{idle, idle-IsCounted}
use forward_stub.Store.Senders.{apply_sender_delta, build_changed, replaced_senders}
use forward_stub.Store.Senders.Applied.{apply_sender_delta-IsCounted}
use forward_stub.Store.Senders.Configured.{apply_sender_delta-configured}
use forward_stub.Store.Tasks.{IsCounted}
use forward_stub.Task.{Sender}

-- No configuration counts as unchanged.
abbrev never_equal : DeepEqual (Unit {0})
never_equal = record { deep_equal = λ a b. false }

abbrev make : String → Unit {0} → Option Sender
make name cfg = some (record { name = name; address = 300 })

-- `north` is built anew, `south` is not configured any more.
abbrev next_senders : Map String (Unit {0})
next_senders = ("north", tt) ∷ []

apply_sender_delta-IsCounted_example :
    IsCounted (apply_sender_delta ⦃e = never_equal⦄ make next_senders idle).1
apply_sender_delta-IsCounted_example =
    apply_sender_delta-IsCounted ⦃e = never_equal⦄ make next_senders idle idle-IsCounted

north-replaced : (apply_sender_delta ⦃e = never_equal⦄ make next_senders idle).0 ≡ ok (north ∷ [])
unfolding apply_sender_delta build_changed replaced_senders
north-replaced = refl

apply_sender_delta-configured_example :
    lookup "north" (apply_sender_delta ⦃e = never_equal⦄ make next_senders idle).1.senders
    ≡ some (record {
      name = "north";
      cfg = tt;
      s = record { name = "north"; address = 300 };
      refs = pos 0;
    })
apply_sender_delta-configured_example =
    apply_sender_delta-configured ⦃e = never_equal⦄ make next_senders idle (north ∷ []) "north" tt
      (refl, tt) (refl, (refl, tt)) north-replaced refl
