-- ===== src/Tcp/Feed.antt =====
-- src/receiver/framing.go: the loop ends with a remainder without a whole frame, and does not depend on how a
-- stream is cut.
use forward_stub.Prelude.{
  Bool, Bool-cases, [], ap, arith, drop, false, inl, inr, length, length-append, length-drop, ltb,
  refl, suc, take, true, zero, ℕ, ◌++◌, ◌∷◌, ◌≡◌, ◌≤◌,
}
use forward_stub.Stdlib.Hex.{Bytes}
use forward_stub.Tcp.{feed, feed_from, uint16}

-- The condition under which the loop returns.
abbrev pub needs_more : Bytes → Bool
needs_more (hi ∷ lo ∷ rest) = ltb (length rest) (uint16 hi lo)
needs_more buf = true

feed_from-fuel :
    (f g : ℕ) (buf : Bytes) → length buf ≤ f → length buf ≤ g → feed_from f buf ≡ feed_from g buf
unfolding feed_from
feed_from-fuel zero zero buf h k = refl
feed_from-fuel zero (suc g) [] h k = refl
feed_from-fuel zero (suc g) (x ∷ buf) h k = absurd (omega arith)
feed_from-fuel (suc f) zero [] h k = refl
feed_from-fuel (suc f) zero (x ∷ buf) h k = absurd (omega arith)
feed_from-fuel (suc f) (suc g) [] h k = refl
feed_from-fuel (suc f) (suc g) (x ∷ []) h k = refl
feed_from-fuel (suc f) (suc g) (hi ∷ lo ∷ rest) h k =
    let n = uint16 hi lo in
    rw
      (feed_from-fuel f g (drop n rest) (omega (arith, length-drop n rest))
        (omega (arith, length-drop n rest)))
      refl

-- One turn of the loop.
pub feed-cons :
    (hi lo : ℕ) (rest : Bytes)
    → ltb (length rest) (uint16 hi lo) ≡ false
    → feed (hi ∷ lo ∷ rest) ≡ (
      take (uint16 hi lo) rest ∷ (feed (drop (uint16 hi lo) rest)).0,
      (feed (drop (uint16 hi lo) rest)).1,
    )
unfolding feed feed_from
feed-cons hi lo rest e =
    let n = uint16 hi lo in
    rw
      (
        e,
        feed_from-fuel (suc (length rest)) (length (drop n rest)) (drop n rest)
            (omega (arith, length-drop n rest)) (omega arith),
      )
      refl

pub feed-stuck : (buf : Bytes) → needs_more buf ≡ true → feed buf ≡ ([], buf)
unfolding feed feed_from
feed-stuck [] e = refl
feed-stuck (x ∷ []) e = refl
feed-stuck (hi ∷ lo ∷ rest) e = rw e refl

-- To go through a buffer frame by frame.
pub by_frames {ℓ} :
    (P : Bytes → Type ℓ)
    → ((buf : Bytes) → needs_more buf ≡ true → P buf)
    → ((hi lo : ℕ) (rest : Bytes)
        → ltb (length rest) (uint16 hi lo) ≡ false
        → P (drop (uint16 hi lo) rest)
        → P (hi ∷ lo ∷ rest))
    → (fuel : ℕ) (buf : Bytes) → length buf ≤ fuel
    → P buf
by_frames P stuck frame fuel [] h = stuck [] refl
by_frames P stuck frame fuel (x ∷ []) h = stuck (x ∷ []) refl
by_frames P stuck frame zero (hi ∷ lo ∷ rest) h = absurd (omega arith)
by_frames P stuck frame (suc fuel) (hi ∷ lo ∷ rest) h =
    elim (Bool-cases (ltb (length rest) (uint16 hi lo))) [
      | inl e ↦ stuck (hi ∷ lo ∷ rest) e
      | inr e ↦ frame hi lo rest e (
          by_frames P stuck frame fuel (drop (uint16 hi lo) rest)
            (omega (arith, length-drop (uint16 hi lo) rest)))
    ]

pub feed-needs_more : (buf : Bytes) → needs_more (feed buf).1 ≡ true
feed-needs_more buf =
    by_frames (λ b. needs_more (feed b).1 ≡ true) (λ b e. rw (feed-stuck b e) e)
      (λ hi lo rest e p. rw (feed-cons hi lo rest e) p) (length buf) buf (omega arith)

-- With fuel for the length of the buffer the loop of `Feed` comes to its end: its result is that of `feed`, and what remains is less than one frame.
pub feed_from_lem :
    (fuel : ℕ) (buf : Bytes)
    → length buf ≤ fuel
    → (feed_from fuel buf ≡ feed buf) × (needs_more (feed_from fuel buf).1 ≡ true)
unfolding feed
feed_from_lem fuel buf h =
    let e = feed_from-fuel fuel (length buf) buf h (omega arith) in (e, rw e (feed-needs_more buf))

pub take-append : (n : ℕ) (xs ys : Bytes) → n ≤ length xs → take n (xs ++ ys) ≡ take n xs
take-append zero xs ys h = refl
take-append (suc n) [] ys h = absurd (omega arith)
take-append (suc n) (x ∷ xs) ys h = ap (◌∷◌ x) (take-append n xs ys (omega arith))

pub drop-append : (n : ℕ) (xs ys : Bytes) → n ≤ length xs → drop n (xs ++ ys) ≡ drop n xs ++ ys
drop-append zero xs ys h = refl
drop-append (suc n) [] ys h = absurd (omega arith)
drop-append (suc n) (x ∷ xs) ys h = drop-append n xs ys (omega arith)

pub feed-append :
    (x y : Bytes)
    → feed (x ++ y) ≡ ((feed x).0 ++ (feed ((feed x).1 ++ y)).0, (feed ((feed x).1 ++ y)).1)
feed-append x y =
    by_frames
      (λ b. feed (b ++ y) ≡ ((feed b).0 ++ (feed ((feed b).1 ++ y)).0, (feed ((feed b).1 ++ y)).1))
      (λ b e. rw (feed-stuck b e) refl)
      (λ hi lo rest e p. rw (feed-cons hi lo rest e) (longer hi lo rest e p)) (length x) x
      (omega arith)
  where
    longer :
        (hi lo : ℕ) (rest : Bytes)
        → ltb (length rest) (uint16 hi lo) ≡ false
        → feed (drop (uint16 hi lo) rest ++ y) ≡ (
          (feed (drop (uint16 hi lo) rest)).0
              ++ (feed ((feed (drop (uint16 hi lo) rest)).1 ++ y)).0,
          (feed ((feed (drop (uint16 hi lo) rest)).1 ++ y)).1,
        )
        → feed (hi ∷ lo ∷ (rest ++ y)) ≡ (
          take (uint16 hi lo) rest
              ∷ ((feed (drop (uint16 hi lo) rest)).0
                  ++ (feed ((feed (drop (uint16 hi lo) rest)).1 ++ y)).0),
          (feed ((feed (drop (uint16 hi lo) rest)).1 ++ y)).1,
        )
    longer hi lo rest e p =
        let n = uint16 hi lo in
        let fits : n ≤ length rest = ground arith in
        let whole : ltb (length (rest ++ y)) n ≡ false = rw (length-append rest y) (ground arith) in
        rw (feed-cons hi lo (rest ++ y) whole)
          (rw (take-append n rest y fits, drop-append n rest y fits) (rw p refl))
