-- ===== src/Checksum/Fold.antt =====
-- Folding the carries of a sum in ones' complement arithmetic.
use making_chat_on_c.Base.{
  ℕ, zero, suc, ◌+◌, ◌-◌, ◌/◌, ◌%◌, ◌^◌, ◌≤◌, ◌<◌, ◌≡◌, ◌*◌, refl, List, [], ◌∷◌, some, arith, ◌==◌,
  if◌then◌else◌,
}
use making_chat_on_c.Checksum.{
  add_words, fold_carries, fold_fuel, fold_twice, compute_checksum, complement_of, complement16,
}

-- The sum in 16-bit ones' complement arithmetic: 0 for 0, else the number from 1 to 65535 that
-- is equal to it modulo 65535.
unfoldable pub ones_sum : ℕ → ℕ
ones_sum n = if n == 0 then 0 else (n - 1) % 65535 + 1

pub ones_sum-lt : (n : ℕ) → ones_sum n < 65536
unfolding ones_sum
ones_sum-lt n = ground arith

pub ones_sum_small : (n : ℕ) → n < 65536 → ones_sum n ≡ n
unfolding ones_sum
ones_sum_small n h = ground arith

pub ones_sum_fold : (n : ℕ) → ones_sum (n % 65536 + n / 65536) ≡ ones_sum n
unfolding ones_sum
ones_sum_fold n = ground arith

-- One bound for each round, from the last to the first.
abbrev bound : ℕ → ℕ
bound zero = 0
bound (suc zero) = 65536
bound (suc (suc zero)) = 65537
bound (suc (suc (suc zero))) = 131072
bound (suc (suc (suc (suc zero)))) = 4294967296 + 65536
bound (suc (suc (suc (suc (suc zero))))) = 2 ^ 48 + 2 ^ 16
bound other = 2 ^ 64

round_bound :
    (fuel sum : ℕ)
    → fuel < 6
    → sum < bound (suc fuel)
    → 65536 ≤ sum
    → sum % 2 ^ 16 + sum / 2 ^ 16 < bound fuel
round_bound zero sum f h big = absurd (omega arith)
round_bound (suc zero) sum f h big = omega arith
round_bound (suc (suc zero)) sum f h big = omega arith
round_bound (suc (suc (suc zero))) sum f h big = omega arith
round_bound (suc (suc (suc (suc zero)))) sum f h big = omega arith
round_bound (suc (suc (suc (suc (suc zero))))) sum f h big = omega arith
round_bound (suc (suc (suc (suc (suc (suc n)))))) sum f h big = absurd (omega arith)

bound-le : (fuel : ℕ) → bound fuel ≤ 2 ^ 64
bound-le zero = omega arith
bound-le (suc zero) = omega arith
bound-le (suc (suc zero)) = omega arith
bound-le (suc (suc (suc zero))) = omega arith
bound-le (suc (suc (suc (suc zero)))) = omega arith
bound-le (suc (suc (suc (suc (suc zero))))) = omega arith
bound-le (suc (suc (suc (suc (suc (suc n)))))) = omega arith

fold_carries-bound :
    (fuel sum : ℕ) → fuel ≤ 6 → sum < bound fuel → fold_carries fuel sum ≡ some (ones_sum sum)
unfolding fold_carries
fold_carries-bound zero sum f h = absurd (omega arith)
fold_carries-bound (suc fuel) sum f h = ground (
  arith,
  fold_carries-bound fuel ((sum % 2 ^ 16 + sum / 2 ^ 16) % 2 ^ 64),
  round_bound fuel sum,
  bound-le fuel,
  ones_sum_small sum,
  ones_sum_fold sum,
)

-- The loop on the carries ends within the fuel for every 64-bit sum.
pub fold_carries-ones_sum :
    (sum : ℕ) → sum < 2 ^ 64 → fold_carries fold_fuel sum ≡ some (ones_sum sum)
fold_carries-ones_sum sum h = fold_carries-bound 6 sum (omega arith) h

pub fold_twice-ones_sum : (sum : ℕ) → sum < 2 ^ 31 → fold_twice sum ≡ 65535 - ones_sum sum
unfolding fold_twice ones_sum
fold_twice-ones_sum sum h = ground arith

add_words-lt : (sum : ℕ) (buffer : List ℕ) → sum < 2 ^ 64 → add_words sum buffer < 2 ^ 64
unfolding add_words
add_words-lt sum [] h = h
add_words-lt sum (b ∷ []) h = omega arith
add_words-lt sum (lo ∷ hi ∷ rest) h =
    add_words-lt ((sum + (lo + 256 * hi)) % 2 ^ 64) rest (omega arith)

-- `compute_checksum` ends on any buffer.
pub compute_checksum_ends :
    (buffer : List ℕ) → (c : ℕ) × (compute_checksum buffer ≡ some c) × (c ≤ 65535)
unfolding compute_checksum complement_of complement16
compute_checksum_ends buffer =
    let ended = fold_carries-ones_sum (add_words 0 buffer) (add_words-lt 0 buffer (omega arith)) in
    (65535 - ones_sum (add_words 0 buffer) % 2 ^ 16, rw ended refl, omega arith)
