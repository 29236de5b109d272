-- ===== src/Tcp/Alias.antt =====
-- src/receiver/gnet_tcp.go: what the frames of a read hold once the rest is copied to the front of their array.
use forward_stub.Pipeline.{is_empty}
use forward_stub.Prelude.{
  Bool, Bool-cases, List, [], ap, arith, drop, inl, inr, leb, length, length-append, length-drop,
  length-take, map, refl, take, true, ◌||◌, ◌∙◌, ◌∷◌, ◌≡◌, ◌≤◌,
}
use forward_stub.Stdlib.Hex.{Bytes}
use forward_stub.Tcp.{feed, frames_in, overwritten, uint16}
use forward_stub.Tcp.Feed.{by_frames, feed-cons, feed-stuck}

-- The frames have not changed where they stand: none is there, or the rest is within the first one's length bytes.
abbrev pub keeps : List Bytes × Bytes → Bool
keeps fed = is_empty fed.0 || leb (length fed.1) 2

-- The frames hang on what follows the first two bytes only.
frames_in-same :
    (a b : Bytes) (frames : List Bytes)
    → drop 2 a ≡ drop 2 b
    → frames_in a frames ≡ frames_in b frames
unfolding frames_in
frames_in-same a b [] e = refl
frames_in-same a b (fr ∷ frames) e =
    ap (λ (here : Bytes). take (length fr) here ∷ frames_in (drop (length fr) here) frames) e

drop-overwritten :
    (buf remain : Bytes) → length remain ≤ 2 → drop 2 (overwritten buf remain) ≡ drop 2 buf
unfolding overwritten
drop-overwritten buf [] h = refl
drop-overwritten [] (x ∷ []) h = refl
drop-overwritten (b ∷ buf) (x ∷ []) h = refl
drop-overwritten [] (x ∷ y ∷ []) h = refl
drop-overwritten (b ∷ []) (x ∷ y ∷ []) h = refl
drop-overwritten (b ∷ c ∷ buf) (x ∷ y ∷ []) h = refl
drop-overwritten buf (x ∷ y ∷ z ∷ xs) h = absurd (omega arith)

-- Where they stand in the buffer, the frames are those that Feed gives.
frames_in-feed : (buf : Bytes) → frames_in buf (feed buf).0 ≡ (feed buf).0
unfolding frames_in
frames_in-feed buf =
    by_frames (λ b. frames_in b (feed b).0 ≡ (feed b).0) (λ b e. rw (feed-stuck b e) refl)
      (λ hi lo rest e p. rw (feed-cons hi lo rest e) (
        rw (length-take (uint16 hi lo) rest (ground arith))
          (ap (◌∷◌ (take (uint16 hi lo) rest)) p)))
      (length buf) buf (omega arith)

pub frames_in-keeps :
    (buf : Bytes)
    → keeps (feed buf) ≡ true
    → frames_in (overwritten buf (feed buf).1) (feed buf).0 ≡ (feed buf).0
unfolding frames_in
frames_in-keeps buf h = elim (Bool-cases (leb (length (feed buf).1) 2)) [
  | inl short ↦
      frames_in-same (overwritten buf (feed buf).1) buf (feed buf).0
        (drop-overwritten buf (feed buf).1 (ground arith))
      ∙ frames_in-feed buf
  | inr long ↦ no_frames (feed buf).0 (ground (arith, h, long))
]
  where
    no_frames :
        (frames : List Bytes)
        → is_empty frames ≡ true
        → frames_in (overwritten buf (feed buf).1) frames ≡ frames
    no_frames [] e = refl
    no_frames (fr ∷ frames) e = absurd (ground arith)

-- Each frame keeps its length.
pub sizes-frames_in :
    (buf array : Bytes)
    → length array ≡ length buf
    → map length (frames_in array (feed buf).0) ≡ map length (feed buf).0
unfolding frames_in
sizes-frames_in buf =
    by_frames
      (λ b.
        (array : Bytes)
        → length array ≡ length b
        → map length (frames_in array (feed b).0) ≡ map length (feed b).0)
      (λ b e array l. rw (feed-stuck b e) refl)
      (λ hi lo rest e p array l. rw (feed-cons hi lo rest e) (
        let n = uint16 hi lo in
        let fits : n ≤ length rest = ground arith in
        let rest_long : n ≤ length (drop 2 array) = omega (arith, length-drop 2 array, fits) in
        rw (length-take n rest fits) (
          rw (length-take n (drop 2 array) rest_long) (
            ap (◌∷◌ n) (
              p (drop n (drop 2 array)) (
                omega (
                  arith,
                  length-drop n (drop 2 array),
                  length-drop 2 array,
                  length-drop n rest,
                )))))))
      (length buf) buf (omega arith)

length-remain : (buf : Bytes) → length (feed buf).1 ≤ length buf
length-remain buf =
    by_frames (λ b. length (feed b).1 ≤ length b) (λ b e. rw (feed-stuck b e) (omega arith))
      (λ hi lo rest e p.
        rw (feed-cons hi lo rest e) (omega (arith, p, length-drop (uint16 hi lo) rest)))
      (length buf) buf (omega arith)

pub length-overwritten : (buf : Bytes) → length (overwritten buf (feed buf).1) ≡ length buf
unfolding overwritten
length-overwritten buf = omega (
  arith,
  length-remain buf,
  length-append (feed buf).1 (drop (length (feed buf).1) buf),
  length-drop (length (feed buf).1) buf,
)
