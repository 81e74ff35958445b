-- ===== src/Pipeline.antt =====
-- task5_designPattren/st_pipeline.c: the test for primes, and what each active object of the
-- pipeline does to a number.
pub mod Prime
pub mod Numbers
pub mod Shared
pub mod Stages
pub mod Turns
pub mod Drains
pub mod Races
mod Tests
use making_chat_on_c.Base.{
  ℕ, zero, suc, ◌+◌, ◌-◌, ◌%◌, ◌^◌, ◌==◌, Bool, true, false, List, [], ◌∷◌, Option, none, some, ltb,
  if◌then◌else◌, ◌||◌, ◌++◌, not,
}
use making_chat_on_c.Base.Int.{ℤ, pos, negsuc, sub_ℕ}

-- `at_most_sqrt i num` is the test `i <= sqrt(num)`, of which `sqrt` is the C library's.
module _ (at_most_sqrt : ℕ → ℕ → Bool) where
  -- The loop of `isPrime`; `none` is out of fuel. `i` is an `unsigned int`.
  unfoldable pub no_odd_factor : ℕ → ℕ → ℕ → Option ℕ
  no_odd_factor zero num i = none
  no_odd_factor (suc fuel) num i =
      let rest = no_odd_factor fuel num ((i + 2) % 2 ^ 32) in
      if at_most_sqrt i num then (if num % i == 0 then some 0 else rest) else some 1

  unfoldable pub is_prime : ℕ → ℕ → Option ℕ
  is_prime fuel num =
      if num == 2
      then some 1
      else if ltb num 2 || (num % 2 == 0)
      then some 0
      else no_odd_factor fuel num 3

infixl 5 ◌>>=◌
abbrev ◌>>=◌ : {A B : Type 0} → Option A → (A → Option B) → Option B
none >>= f = none
some a >>= f = f a

-- An `int` with a number added or subtracted; `none` is an overflow, which C leaves undefined.
unfoldable pub plus : ℤ → ℕ → Option ℤ
plus (pos m) n = if ltb (m + n) (2 ^ 31) then some (pos (m + n)) else none
plus (negsuc m) n = some (sub_ℕ n (suc m))

unfoldable pub minus : ℤ → ℕ → Option ℤ
minus (pos m) n = some (sub_ℕ m n)
minus (negsuc m) n = if ltb (m + n) (2 ^ 31) then some (negsuc (m + n)) else none

-- The conversion of an `int` to the `unsigned int` of `isPrime`.
unfoldable pub to_unsigned : ℤ → ℕ
to_unsigned (pos n) = n
to_unsigned (negsuc n) = 2 ^ 32 - suc n

-- A printed line: a number, or `true` or `false`.
pub data Shown : Type 0 where
  number : ℤ → Shown
  truth : Bool → Shown

-- `srand` and `rand` are the C library's; `r` is what `rand` returns.
unfoldable pub generate : ℕ → ℕ
generate r = r % 900000 + 100000

module _ (at_most_sqrt : ℕ → ℕ → Bool) (fuel : ℕ) where
  unfoldable pub show_prime : ℤ → Option (List Shown)
  show_prime num = do
    verdict ← is_prime at_most_sqrt fuel (to_unsigned num)
    some (number num ∷ truth (not (verdict == 0)) ∷ [])

  -- The new value of `*num`, and what is printed.
  unfoldable pub part_d_b : ℤ → Option (ℤ × List Shown)
  unfolding show_prime plus
  part_d_b num = do new ← plus num 11; shown ← show_prime new; some (new, shown)

  unfoldable pub part_d_c : ℤ → Option (ℤ × List Shown)
  unfolding show_prime minus
  part_d_c num = do new ← minus num 13; shown ← show_prime new; some (new, shown)

  unfoldable pub part_d_d : ℤ → Option (ℤ × List Shown)
  unfolding show_prime plus
  part_d_d num = do shown ← show_prime num; new ← plus num 2; some (new, shown ++ number new ∷ [])

  -- One number through the three objects behind the first, with no other in between.
  unfoldable pub pass_through : ℤ → Option (ℤ × List Shown)
  unfolding part_d_b part_d_c part_d_d
  pass_through num = do
    (num, first) ← part_d_b num
    (num, second) ← part_d_c num
    (num, third) ← part_d_d num
    some (num, first ++ second ++ third)
