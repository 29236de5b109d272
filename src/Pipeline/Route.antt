-- ===== src/Pipeline/Route.antt =====
-- src/pipeline/stages_route.go: the packet's target sender, chosen by a field of its payload.
use forward_stub.Packet.{with_meta}
use forward_stub.Pipeline.{One, StageFunc, map_stage, reject}
use forward_stub.Pipeline.Offset.{slice}
use forward_stub.Prelude.{String, false, if◌then◌else◌, length, none, not, some, true, ◌||◌}
use forward_stub.Prelude.Eq.{eq_String, eq_bytes, ◌==◌}
use forward_stub.Prelude.Int.{int_add, is_neg, is_nonpos, ltb_ℤ, pos, to_nat, ℤ}
use forward_stub.Prelude.Map.{Map, lookup}
use forward_stub.Stdlib.Hex.{Bytes}

unfoldable pub route_one : ℤ → ℤ → Map Bytes String → String → One
route_one offset end routes default_sender p =
    if ltb_ℤ (pos (length p.payload)) end
    then (p, false)
    else elim (lookup ⦃e = eq_bytes⦄ (slice p.payload (to_nat offset) (to_nat end)) routes) [
      | some sn ↦ (with_meta (record p.meta { route_sender = sn }) p, true)
      | none ↦
          if not (default_sender == "")
          then (with_meta (record p.meta { route_sender = default_sender }) p, true)
          else (p, false)
    ]

-- RouteSenderByOffsetBytes
unfoldable pub route_sender_by_offset_bytes : ℤ → ℤ → Map Bytes String → String → StageFunc
unfolding route_one int_add
route_sender_by_offset_bytes offset key_len routes default_sender =
    let end = int_add offset (to_nat key_len) in
    if is_neg offset || is_nonpos key_len
    then map_stage reject
    else if ltb_ℤ end offset
    then map_stage reject
    else map_stage (route_one offset end routes default_sender)
