-- ===== src/Pipeline/Offset/Replace.antt =====
-- src/pipeline/stages_offset.go: what the replacing stage does, and that the matching stage sees
-- what it wrote.
use native.Mathlib.Nat.{zero-add, suc-add}
use forward_stub.Packet.{Packet, with_payload}
use forward_stub.Pipeline.Chain.{map_stage-eq-keep}
use forward_stub.Pipeline.Offset.{
  match_offset_bytes, overwrite, replace_offset_bytes, replace_one, slice,
}
use forward_stub.Pipeline.Offset.Laws.{All-drop, All-take, IsPayload, match_offset_bytes-eq-select}
use forward_stub.Prelude.{
  All-append, [], ap, arith, drop, get_elem?, inl, inr, length, length-append, length-drop,
  length-take, refl, suc, take, zero, ℕ, ◌++◌, ◌+◌, ◌-◌, ◌<◌, ◌∙◌, ◌∷◌, ◌≡◌, ◌≤◌, ◌⊎◌,
}
use forward_stub.Prelude.Eq.{bytes_eq, bytes_eq_refl}
use forward_stub.Prelude.Int.{pos, wrap_int_small}
use forward_stub.Stdlib.Hex.{Bytes, IsByte}

take-append : (a b : Bytes) (n : ℕ) → length a ≡ n → take n (a ++ b) ≡ a
take-append [] b zero h = refl
take-append [] b (suc n) h = absurd (omega arith)
take-append (x ∷ a) b zero h = absurd (omega arith)
take-append (x ∷ a) b (suc n) h = ap (◌∷◌ x) (take-append a b n (omega arith))

-- Reading `overwrite` position by position.
get_elem?-overwrite :
    (b : Bytes) (o n : ℕ) (w : Bytes) (i : ℕ)
    → length w ≡ n
    → o + n ≤ length b
    → (i < o) ⊎ (o + n ≤ i)
    → get_elem? (take o b ++ (w ++ drop (o + n) b)) i ≡ get_elem? b i
get_elem?-overwrite b zero n w i hw hb (inl h) = elim h [ ]
get_elem?-overwrite b zero n w i hw hb (inr h) =
    rw (zero-add n) (behind b n w i hw (omega arith) (omega arith))
  where
    behind :
        (b : Bytes) (n : ℕ) (w : Bytes) (i : ℕ)
        → length w ≡ n
        → n ≤ length b
        → n ≤ i
        → get_elem? (w ++ drop n b) i ≡ get_elem? b i
    behind b zero [] i hw hb h = refl
    behind b zero (x ∷ w) i hw hb h = absurd (omega arith)
    behind b (suc n) [] i hw hb h = absurd (omega arith)
    behind [] (suc n) w i hw hb h = absurd (omega arith)
    behind (y ∷ b) (suc n) (x ∷ w) zero hw hb h = elim h [ ]
    behind (y ∷ b) (suc n) (x ∷ w) (suc i) hw hb h =
        behind b n w i (omega arith) (omega arith) (omega arith)
get_elem?-overwrite [] (suc o) n w i hw hb h = absurd (omega arith)
get_elem?-overwrite (y ∷ b) (suc o) n w zero hw hb h = refl
get_elem?-overwrite (y ∷ b) (suc o) n w (suc i) hw hb h =
    rw (suc-add o n) (get_elem?-overwrite b o n w i hw (omega arith) (down h))
  where
    down : (suc i < suc o) ⊎ (suc o + n ≤ suc i) → (i < o) ⊎ (o + n ≤ i)
    down (inl l) = inl (omega arith)
    down (inr l) = inr (omega arith)

drop-take : (o : ℕ) (b r : Bytes) → o ≤ length b → drop o (take o b ++ r) ≡ r
drop-take zero b r h = refl
drop-take (suc o) [] r h = absurd (omega arith)
drop-take (suc o) (x ∷ b) r h = drop-take o b r (omega arith)

abbrev replaced : ℕ → Bytes → Packet → Packet
replaced o w p = with_payload (overwrite p.payload o (o + length w) w) p

length-overwrite :
    (b : Bytes) (o : ℕ) (w : Bytes)
    → o + length w ≤ length b
    → length (overwrite b o (o + length w) w) ≡ length b
length-overwrite b o w h = omega (
  arith,
  length-append (take o b) (w ++ drop (o + length w) b),
  length-append w (drop (o + length w) b),
  length-take o b,
  length-drop (o + length w) b,
)

slice-overwrite :
    (b : Bytes) (o : ℕ) (w : Bytes)
    → o + length w ≤ length b
    → slice (overwrite b o (o + length w) w) o (o + length w) ≡ w
slice-overwrite b o w h =
    rw (drop-take o b (w ++ drop (o + length w) b) (omega arith))
      (take-append w (drop (o + length w) b) (o + length w - o) (omega arith))

replace_fits :
    (o : ℕ) (w : Bytes) (p : Packet)
    → IsPayload p.payload
    → o + length w ≤ length p.payload
    → replace_offset_bytes (pos o) w (p ∷ []) ≡ replaced o w p ∷ []
unfolding replace_offset_bytes
replace_fits o w p hp fits =
    rw (wrap_int_small (o + length w) (omega arith))
      (ground (arith, map_stage-eq-keep (replace_one (pos o) (pos (o + length w)) w) (p ∷ [])))

match_replaced :
    (o : ℕ) (w : Bytes) (p : Packet)
    → IsPayload w
    → IsPayload p.payload
    → o + length w ≤ length p.payload
    → match_offset_bytes (pos o) w (replaced o w p ∷ []) ≡ replaced o w p ∷ []
match_replaced o w p hw hp fits =
    match_offset_bytes-eq-select o w (replaced o w p ∷ []) (omega arith) hw (sized, tt)
    ∙ ground (
      arith,
      length-overwrite p.payload o w fits,
      ap (λ b. bytes_eq b w) (slice-overwrite p.payload o w fits),
      bytes_eq_refl w,
    )
  where
    sized : IsPayload (replaced o w p).payload
    sized = (
      omega (arith, length-overwrite p.payload o w fits),
      All-append IsByte (take o p.payload) (w ++ drop (o + length w) p.payload)
          (All-take o p.payload hp.1)
          (All-append IsByte w _ hw.1 (All-drop (o + length w) p.payload hp.1)),
    )

-- A replacement that fits keeps the packet, whose payload is the old one with the bytes in place
-- of those at the offset and is as long as before, and the matching stage with the same offset
-- and bytes lets it through.
pub replace_offset_bytes_lem :
    (o : ℕ) (w : Bytes) (p : Packet)
    → IsPayload w
    → IsPayload p.payload
    → o + length w ≤ length p.payload
    → let payload = take o p.payload ++ (w ++ drop (o + length w) p.payload) in
      (replace_offset_bytes (pos o) w (p ∷ []) ≡ with_payload payload p ∷ [])
      × (length payload ≡ length p.payload)
      × (match_offset_bytes (pos o) w (replace_offset_bytes (pos o) w (p ∷ []))
          ≡ replace_offset_bytes (pos o) w (p ∷ []))
replace_offset_bytes_lem o w p hw hp fits = (
  replace_fits o w p hp fits,
  length-overwrite p.payload o w fits,
  rw (replace_fits o w p hp fits) (match_replaced o w p hw hp fits),
)
