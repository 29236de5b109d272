-- ===== src/Pipeline/Offset.antt =====
-- src/pipeline/stages_offset.go: matching and replacing bytes at a fixed offset of the payload.
pub mod Laws
pub mod Replace
use forward_stub.Packet.{with_payload}
use forward_stub.Pipeline.{One, StageFunc, map_stage, reject}
use forward_stub.Prelude.{
  Bool, [], drop, false, if◌then◌else◌, length, nat_eq, suc, take, true, zero, ℕ, ◌*◌, ◌++◌, ◌+◌,
  ◌-◌, ◌||◌, ◌∷◌,
}
use forward_stub.Prelude.Eq.{bytes_eq}
use forward_stub.Prelude.Int.{int_add, is_neg, ltb_ℤ, pos, to_nat, ℤ}
use forward_stub.Stdlib.Hex.{Bytes}

-- payload[from:to]
abbrev pub slice : Bytes → ℕ → ℕ → Bytes
slice b from to = take (to - from) (drop from b)

-- binary.LittleEndian.UintN on the first bytes. The stages pass slices of that many bytes, so
-- that a missing byte, for which Go panics, is never read.
unfoldable pub little_endian : ℕ → Bytes → ℕ
little_endian zero b = 0
little_endian (suc n) [] = 0
little_endian (suc n) (x ∷ xs) = x + 256 * little_endian n xs

-- b[0]
abbrev pub first_byte : Bytes → ℕ
first_byte [] = 0
first_byte (x ∷ xs) = x

-- buildOffsetMatcher
build_offset_matcher : Bytes → Bytes → Bool
unfolding little_endian
build_offset_matcher want got =
    let n = length want in
    if nat_eq n 0
    then true
    else if nat_eq n 1
    then nat_eq (first_byte got) (first_byte want)
    else if nat_eq n 2 || nat_eq n 4 || nat_eq n 8
    then nat_eq (little_endian n got) (little_endian n want)
    else bytes_eq got want

-- The functions that the stages give to `mapStage`; `offset` is not negative where they run.
unfoldable pub match_one : ℤ → ℤ → Bytes → One
unfolding build_offset_matcher
match_one offset end want p =
    if ltb_ℤ (pos (length p.payload)) end
    then (p, false)
    else (p, build_offset_matcher want (slice p.payload (to_nat offset) (to_nat end)))

-- MatchOffsetBytes
unfoldable pub match_offset_bytes : ℤ → Bytes → StageFunc
unfolding match_one int_add build_offset_matcher
match_offset_bytes offset want =
    let end = int_add offset (length want) in
    if is_neg offset
    then map_stage reject
    else if ltb_ℤ end offset
    then map_stage reject
    else map_stage (match_one offset end want)

-- copy(payload[from:to], bytes), where the two have the same length
abbrev pub overwrite : Bytes → ℕ → ℕ → Bytes → Bytes
overwrite b from to bytes = take from b ++ (bytes ++ drop to b)

unfoldable pub replace_one : ℤ → ℤ → Bytes → One
replace_one offset end bytes p =
    if ltb_ℤ (pos (length p.payload)) end
    then (p, false)
    else (with_payload (overwrite p.payload (to_nat offset) (to_nat end) bytes) p, true)

-- ReplaceOffsetBytes
unfoldable pub replace_offset_bytes : ℤ → Bytes → StageFunc
unfolding replace_one int_add
replace_offset_bytes offset bytes =
    let end = int_add offset (length bytes) in
    if is_neg offset
    then map_stage reject
    else if ltb_ℤ end offset
    then map_stage reject
    else map_stage (replace_one offset end bytes)
