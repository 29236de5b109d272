-- ===== src/Pipeline/Offset/Laws.antt =====
-- src/pipeline/stages_offset.go: what the offset stages do to a list of packets, against plain
-- slices of the payload.
use forward_stub.Packet.{Packet}
use forward_stub.Pipeline.{One, map_stage, reject}
use forward_stub.Pipeline.Chain.{keep, map_stage-eq-keep}
use forward_stub.Pipeline.Offset.{
  build_offset_matcher, little_endian, match_offset_bytes, match_one, slice,
}
use forward_stub.Prelude.{
  All, Bool, List, [], arith, drop, if◌then◌else◌, inl, inr, leb, length, length-drop, length-take,
  nat_eq, refl, suc, sym, take, zero, ℕ, ◌&&◌, ◌+◌, ◌-◌, ◌<◌, ◌∙◌, ◌∷◌, ◌≡◌, ◌≤◌,
}
use forward_stub.Prelude.Eq.{bytes_eq}
use forward_stub.Prelude.Int.{int_half, lt_cases, pos, wrap_int_large, wrap_int_small}
use forward_stub.Stdlib.Hex.{Bytes, IsByte}

-- The specialised comparisons of 1, 2, 4 and 8 bytes agree with equality of the bytes.
little_endian-injective :
    (n : ℕ) (a b : Bytes)
    → length a ≡ n
    → length b ≡ n
    → All IsByte a
    → All IsByte b
    → nat_eq (little_endian n a) (little_endian n b) ≡ bytes_eq a b
unfolding little_endian
little_endian-injective zero [] [] ha hb ba bb = refl
little_endian-injective zero (x ∷ a) b ha hb ba bb = absurd (omega arith)
little_endian-injective zero [] (y ∷ b) ha hb ba bb = absurd (omega arith)
little_endian-injective (suc n) [] b ha hb ba bb = absurd (omega arith)
little_endian-injective (suc n) (x ∷ a) [] ha hb ba bb = absurd (omega arith)
little_endian-injective (suc n) (x ∷ a) (y ∷ b) ha hb ba bb =
    let ih = little_endian-injective n a b (omega arith) (omega arith) ba.1 bb.1 in
    ground (arith, ih)

-- Over bytes of the length that it was built for, the matcher is equality.
matcher-eq-bytes_eq :
    (want got : Bytes)
    → length got ≡ length want
    → All IsByte want
    → All IsByte got
    → build_offset_matcher want got ≡ bytes_eq got want
unfolding build_offset_matcher
matcher-eq-bytes_eq [] [] h bw bg = refl
matcher-eq-bytes_eq [] (g ∷ gs) h bw bg = absurd (omega arith)
matcher-eq-bytes_eq (w ∷ []) (g ∷ []) h bw bg = ground arith
matcher-eq-bytes_eq (w ∷ ws) got h bw bg =
    ground (arith, little_endian-injective (length (w ∷ ws)) got (w ∷ ws) h refl bg bw)

-- What a Go slice of bytes is: of a length that an int holds, with bytes for elements.
abbrev pub IsPayload : Bytes → Type 0
IsPayload b = (length b < int_half) × All IsByte b

pub All-take : (n : ℕ) (b : Bytes) → All IsByte b → All IsByte (take n b)
All-take zero b h = tt
All-take (suc n) [] h = tt
All-take (suc n) (x ∷ b) h = (h.0, All-take n b h.1)

pub All-drop : (n : ℕ) (b : Bytes) → All IsByte b → All IsByte (drop n b)
All-drop zero b h = h
All-drop (suc n) [] h = tt
All-drop (suc n) (x ∷ b) h = All-drop n b h.1

pub length-slice :
    (b : Bytes) (from to : ℕ) → from ≤ to → to ≤ length b → length (slice b from to) ≡ to - from
length-slice b from to h k =
    length-take (to - from) (drop from b) (omega (arith, length-drop from b))

-- The payload has the bytes at the offset.
abbrev pub holds_at : ℕ → Bytes → Bytes → Bool
holds_at o want b = let end = o + length want in leb end (length b) && bytes_eq (slice b o end) want

abbrev pub select : (Packet → Bool) → List Packet → List Packet
select test [] = []
select test (p ∷ ps) = let rest = select test ps in if test p then p ∷ rest else rest

keep-eq-select :
    (one : One) (test : Packet → Bool) (ps : List Packet)
    → All (λ p. one p ≡ (p, test p)) ps
    → keep one ps ≡ select test ps
keep-eq-select one test [] h = refl
keep-eq-select one test (p ∷ ps) h = rw h.0 (ground (arith, keep-eq-select one test ps h.1))

keep-reject : (ps : List Packet) → map_stage reject ps ≡ []
keep-reject ps = map_stage-eq-keep reject ps ∙ none_kept ps
  where
    none_kept : (qs : List Packet) → keep reject qs ≡ []
    none_kept [] = refl
    none_kept (q ∷ qs) = none_kept qs

match_one_lem :
    (o : ℕ) (want : Bytes) (p : Packet)
    → All IsByte want
    → IsPayload p.payload
    → match_one (pos o) (pos (o + length want)) want p ≡ (p, holds_at o want p.payload)
unfolding match_one
match_one_lem o want p bw bp = elim (lt_cases (length p.payload) (o + length want)) [
  | inl short ↦ ground arith
  | inr fits ↦ ground (
    arith,
    matcher-eq-bytes_eq want (slice p.payload o (o + length want))
        (length-slice p.payload o (o + length want) (omega arith) fits ∙ omega arith) bw
        (All-take _ _ (All-drop o p.payload bp.1)),
  )
]

match_one_each :
    (o : ℕ) (want : Bytes) (ps : List Packet)
    → All IsByte want
    → All (λ p. IsPayload p.payload) ps
    → All
        (λ p. match_one (pos o) (pos (o + length want)) want p ≡ (p, holds_at o want p.payload))
        ps
match_one_each o want [] bw hp = tt
match_one_each o want (p ∷ ps) bw hp =
    (match_one_lem o want p bw hp.0, match_one_each o want ps bw hp.1)

select_none :
    (o : ℕ) (want : Bytes) (ps : List Packet)
    → int_half ≤ o + length want
    → All (λ p. IsPayload p.payload) ps
    → select (λ p. holds_at o want p.payload) ps ≡ []
select_none o want [] h hp = refl
select_none o want (p ∷ ps) h hp = ground (arith, select_none o want ps h hp.1)

-- `MatchOffsetBytes` keeps the packets whose payload has the wanted bytes at the offset, as they
-- are and in order, and drops the others, those with a payload too short among them; also where
-- the end of the field wraps round. The offset is an int, and the payloads and the wanted bytes are
-- slices of bytes whose length is one.
pub match_offset_bytes-eq-select :
    (o : ℕ) (want : Bytes) (ps : List Packet)
    → o < int_half
    → IsPayload want
    → All (λ p. IsPayload p.payload) ps
    → match_offset_bytes (pos o) want ps ≡ select (λ p. holds_at o want p.payload) ps
unfolding match_offset_bytes
match_offset_bytes-eq-select o want ps ho hw hp = elim (lt_cases (o + length want) int_half) [
  | inl fits ↦ rw (wrap_int_small (o + length want) fits) (
      ground (
        arith,
        map_stage-eq-keep (match_one (pos o) (pos (o + length want)) want) ps,
        keep-eq-select _ _ ps (match_one_each o want ps hw.1 hp),
      ))
  | inr wraps ↦
      rw (wrap_int_large o (length want) ho hw.0 wraps)
        (keep-reject ps ∙ sym (select_none o want ps wraps hp))
]
