-- ===== src/Config/Validate/Power.antt =====
-- src/config/validate.go: the concurrency of a sender is a power of two.
use forward_stub.Config.Validate.{Checked, fault}
use forward_stub.Prelude.{
  Bool-cases, String, ap, arith, fail_if, if◌then◌else◌, inl, inr, nat_eq, not, ok, refl, suc, true,
  zero, ℕ, ◌%◌, ◌*◌, ◌+◌, ◌-◌, ◌/◌, ◌<◌, ◌^◌, ◌↔◌, ◌≡◌, ◌⊎◌,
}
use forward_stub.Prelude.Int.{is_nonpos, negsuc, pos, to_nat, ℤ}

-- The bitwise and of two numbers below 2 ^ bits.
unfoldable pub bit_and : ℕ → ℕ → ℕ → ℕ
bit_and zero a b = 0
bit_and (suc bits) a b = (a % 2) * (b % 2) + 2 * bit_and bits (a / 2) (b / 2)

-- validateSenderConcurrency
unfoldable pub validate_sender_concurrency : String → ℤ → Checked
unfolding bit_and
validate_sender_concurrency sender_name concurrency =
    if is_nonpos concurrency
    then ok tt
    else fail_if (not (nat_eq (bit_and 63 (to_nat concurrency) (to_nat concurrency - 1)) 0))
        (fault "sender" sender_name "concurrency must be a power of two")

bit_and_self : (bits n : ℕ) → n < 2 ^ bits → bit_and bits n n ≡ n
unfolding bit_and
bit_and_self zero n h = omega arith
bit_and_self (suc bits) n h =
    rw (bit_and_self bits (n / 2) (omega arith))
      (parts (n % 2) (n / 2) n (omega arith) (omega arith))
  where
    parts : (r q n : ℕ) → r < 2 → n ≡ 2 * q + r → r * r + 2 * q ≡ n
    parts zero q n h e = omega arith
    parts (suc zero) q n h e = omega arith
    parts (suc (suc r)) q n h e = absurd (omega arith)

-- A positive number shares no bit with the one before it exactly if it is a power of two.
module _ (bits n : ℕ) (h : 0 < n) (small : n < 2 ^ suc bits) where
  even_and : n % 2 ≡ 0 → bit_and (suc bits) n (n - 1) ≡ 2 * bit_and bits (n / 2) (n / 2 - 1)
  unfolding bit_and
  even_and e = let half : (n - 1) / 2 ≡ n / 2 - 1 = omega arith in rw e (rw half (omega arith))

  odd_and : n % 2 ≡ 1 → bit_and (suc bits) n (n - 1) ≡ 2 * (n / 2)
  unfolding bit_and
  odd_and e =
      let half : (n - 1) / 2 ≡ n / 2 = omega arith in
      let bit : (n - 1) % 2 ≡ 0 = omega arith in
      rw e (rw half (rw bit (rw (bit_and_self bits (n / 2) (omega arith)) (omega arith))))

pub power_lem :
    (bits n : ℕ) → 0 < n → n < 2 ^ bits → (bit_and bits n (n - 1) ≡ 0) ↔ ((k : ℕ) × (n ≡ 2 ^ k))
power_lem zero n h l = absurd (omega arith)
power_lem (suc bits) n h l = elim (Bool-cases (nat_eq (n % 2) 0)) [
  | inl b ↦
      let e : n % 2 ≡ 0 = ground arith in
      let half = power_lem bits (n / 2) (omega arith) (omega arith) in
      rw (even_and bits n h l e)
        ((λ z. let (k, p) = half.0 (omega arith) in (suc k, omega arith)), halves n e half.1)
  | inr b ↦
      let e : n % 2 ≡ 1 = ground arith in
      rw (odd_and bits n h l e) ((λ z. (0, omega arith)), odd n e)
]
  where
    halves :
        (n : ℕ)
        → n % 2 ≡ 0
        → (((k : ℕ) × (n / 2 ≡ 2 ^ k)) → bit_and bits (n / 2) (n / 2 - 1) ≡ 0)
        → ((k : ℕ) × (n ≡ 2 ^ k))
        → 2 * bit_and bits (n / 2) (n / 2 - 1) ≡ 0
    halves n e f (zero, p) = absurd (omega arith)
    halves n e f (suc k, p) = rw (f (k, omega arith)) refl

    odd : (n : ℕ) → n % 2 ≡ 1 → ((k : ℕ) × (n ≡ 2 ^ k)) → 2 * (n / 2) ≡ 0
    odd n e (zero, p) = omega arith
    odd n e (suc k, p) = absurd (omega arith)

fail_if-zero : {E : Type 0} (x : ℕ) (e : E) → (fail_if (not (nat_eq x 0)) e ≡ ok tt) ↔ (x ≡ 0)
fail_if-zero x e = (λ h. ground (arith, h), λ h. rw h refl)

-- A sender's concurrency below 2 ^ 63 in absolute value is accepted exactly if it is not positive or is a power of two.
pub validate_sender_concurrency_lem :
    (sn : String) (c : ℤ)
    → to_nat c < 2 ^ 63
    → (validate_sender_concurrency sn c ≡ ok tt)
      ↔ ((is_nonpos c ≡ true) ⊎ ((k : ℕ) × (c ≡ pos (2 ^ k))))
unfolding validate_sender_concurrency
validate_sender_concurrency_lem sn (negsuc n) h = ((λ e. inl refl), λ e. refl)
validate_sender_concurrency_lem sn (pos zero) h = ((λ e. inl refl), λ e. refl)
validate_sender_concurrency_lem sn (pos (suc n)) h =
    let power = power_lem 63 (suc n) (omega arith) h in
    let zero_test =
      fail_if-zero (bit_and 63 (suc n) (suc n - 1))
        (fault "sender" sn "concurrency must be a power of two") in
    (
      (λ e. inr (let (k, p) = power.0 (zero_test.0 e) in (k, ap pos p))),
      λ o. elim o [ inl bad ↦ cc | inr (k, p) ↦ zero_test.1 (power.1 (k, ap to_nat p)) ],
    )
