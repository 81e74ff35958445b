-- ===== src/Pipeline/Prime.antt =====
-- `isPrime` of task5_designPattren/st_pipeline.c and the prime numbers.
use making_chat_on_c.Base.{
  ℕ, zero, suc, ◌+◌, ◌*◌, ◌/◌, ◌%◌, ◌^◌, ◌==◌, ◌<◌, ◌≤◌, ◌≡◌, ◌≢◌, ◌⊎◌, inl, inr, Bool, true, false,
  Option, some, ltb, leb, arith, Bool-cases, refl, ◌∙◌, ap,
}
use native.Mathlib.Decide.{dec_lt}
use native.Mathlib.Nat.{
  mul-mod_right, mul-mod_left, mul-le-mul, mul-le-mul_left, mul-le-mul_right, div-add-mod,
  mul_assoc,
}
use making_chat_on_c.Pipeline.{no_odd_factor, is_prime}

abbrev pub IsPrime : ℕ → Type 0
IsPrime n = (1 < n) × ((d : ℕ) → 1 < d → d < n → n % d ≢ 0)

-- The answer is 1 for a prime and 0 for any other number.
abbrev pub Decides : Option ℕ → ℕ → Type 0
Decides r n = ((r ≡ some 1) × IsPrime n) ⊎ ((r ≡ some 0) × (¬ IsPrime n))

-- No number from 2 up to `i` divides `n`.
abbrev NoneBelow : ℕ → ℕ → Type 0
NoneBelow n i = (d : ℕ) → 1 < d → d < i → n % d ≢ 0

-- A factor of a number without small factors is at least as large as they were sought.
large_factor : (n i d q : ℕ) → NoneBelow n i → n ≡ d * q → 1 < d → 1 < q → i * i ≤ n
large_factor n i d q none_below e h g =
    let d_large : i ≤ d = elim (dec_lt d i) [
      | yes p ↦ absurd (none_below d h p (rw e (mul-mod_right d q)))
      | no p ↦ omega arith
    ] in
    let q_large : i ≤ q = elim (dec_lt q i) [
      | yes p ↦ absurd (none_below q g p (rw e (mul-mod_left d q)))
      | no p ↦ omega arith
    ] in
    rw e (mul-le-mul d_large q_large)

cofactor_large : (n d q : ℕ) → n ≡ d * q → d < n → 1 < q
cofactor_large n d zero e h = absurd (omega (arith, e))
cofactor_large n d (suc zero) e h = absurd (omega (arith, e))
cofactor_large n d (suc (suc q)) e h = omega arith

all_sought : (n i : ℕ) → NoneBelow n i → 1 < n → n < i * i → IsPrime n
all_sought n i none_below big h = (
  big,
  λ d one small divides.
      let e : n ≡ d * (n / d) = omega (arith, div-add-mod n d, divides) in
      let least =
        large_factor n i d (n / d) none_below e one (cofactor_large n d (n / d) e small) in
      omega arith,
)

even_divisor : (n d : ℕ) → n % 2 ≡ 1 → d % 2 ≡ 0 → n % d ≢ 0
even_divisor n d odd even divides =
    let e : n ≡ d * (n / d) = omega (arith, div-add-mod n d, divides) in
    let f : d ≡ 2 * (d / 2) = omega arith in
    let g : n ≡ 2 * (d / 2 * (n / d)) = e ∙ ap (λ x. x * (n / d)) f ∙ mul_assoc 2 (d / 2) (n / d) in
    omega arith

two_more : (n i : ℕ) → n % 2 ≡ 1 → i % 2 ≡ 1 → n % i ≢ 0 → NoneBelow n i → NoneBelow n (i + 2)
two_more n i odd odd_i fails none_below d one small = elim (dec_lt d i) [
  | yes p ↦ none_below d one p
  | no p ↦ elim (dec_lt i d) [
    | yes q ↦ even_divisor n d odd (omega arith)
    | no q ↦ let e : d ≡ i = omega arith in rw e fails
  ]
]

square_lt : (i n : ℕ) → i * i ≤ n → n < 2 ^ 32 → i < 65536
square_lt i n h small = elim (dec_lt i 65536) [
  | yes p ↦ p
  | no p ↦ let above : 65536 ≤ i = omega arith in absurd (omega (arith, mul-le-mul_right i above))
]

le_of_leb : (a b : ℕ) → leb a b ≡ true → a ≤ b
le_of_leb a b h = ground arith

lt_of_leb : (a b : ℕ) → leb a b ≡ false → b < a
lt_of_leb a b h = ground arith

eq_of_test : (a b : ℕ) → (a == b) ≡ true → a ≡ b
eq_of_test a b h = ground arith

ne_of_test : (a b : ℕ) → (a == b) ≡ false → a ≢ b
ne_of_test a b h e = ground arith

composite : (n d : ℕ) → 1 < d → d < n → n % d ≡ 0 → ¬ IsPrime n
composite n d one small divides prime = prime.1 d one small divides

two_IsPrime : (n : ℕ) → n ≡ 2 → IsPrime n
two_IsPrime n e = (omega arith, λ d one small divides. omega arith)

odd_of_test : (n : ℕ) → (n % 2 == 0) ≡ false → n % 2 ≡ 1
odd_of_test n h = let fails = ne_of_test (n % 2) 0 h in omega (arith, fails)

only_two : (n : ℕ) → n % 2 ≡ 1 → NoneBelow n 3
only_two n odd d one small = let e : d ≡ 2 = omega arith in rw e (λ even. omega arith)

module _ (at_most_sqrt : ℕ → ℕ → Bool)
    (rounds : (i num : ℕ) → num < 2 ^ 32 → at_most_sqrt i num ≡ leb (i * i) num) where
  no_odd_factor-Decides :
      (fuel num i : ℕ)
      → num < 2 ^ 32
      → num % 2 ≡ 1
      → i % 2 ≡ 1
      → 2 < i
      → i ≤ 65537
      → 65538 < i + 2 * fuel
      → 1 < num
      → NoneBelow num i
      → Decides (no_odd_factor at_most_sqrt fuel num i) num
  unfolding no_odd_factor
  no_odd_factor-Decides zero num i small odd odd_i three bound enough big none_below =
      absurd (omega arith)
  no_odd_factor-Decides (suc fuel) num i small odd odd_i three bound enough big none_below =
      rw (rounds i num small) (elim (Bool-cases (leb (i * i) num)) [
        | inl p ↦
            let square = le_of_leb (i * i) num p in
            let below = square_lt i num square small in
            let twice : i * 2 ≤ i * i = mul-le-mul_left i (omega arith) in
            rw p (elim (Bool-cases (num % i == 0)) [
              | inl q ↦
                  rw q (inr (refl, composite num i (omega arith) (omega arith) (eq_of_test _ _ q)))
              | inr q ↦
                  let next : (i + 2) % 2 ^ 32 ≡ i + 2 = omega arith in
                  rw (q, next)
                    (no_odd_factor-Decides fuel num (i + 2) small odd (omega arith) (omega arith)
                      (omega arith) (omega arith) big
                      (two_more num i odd odd_i (ne_of_test _ _ q) none_below))
            ])
        | inr p ↦ rw p (inl (refl, all_sought num i none_below big (lt_of_leb _ _ p)))
      ])

  -- `isPrime` returns 1 for a prime and 0 for any other number, for every `unsigned int` and
  -- within 32768 rounds. Condition: `i <= sqrt(num)` holds exactly when the square of `i` is at
  -- most `num`.
  pub is_prime-Decides :
      (fuel num : ℕ) → 32768 ≤ fuel → num < 2 ^ 32 → Decides (is_prime at_most_sqrt fuel num) num
  unfolding is_prime
  is_prime-Decides fuel num enough small = elim (Bool-cases (num == 2)) [
    | inl two ↦ rw two (inl (refl, two_IsPrime num (eq_of_test _ _ two)))
    | inr other ↦ elim (Bool-cases (ltb num 2)) [
      | inl low ↦ rw (other, low) (inr (refl, λ prime. ground (arith, prime.0)))
      | inr high ↦ elim (Bool-cases (num % 2 == 0)) [
        | inl even ↦
            rw (other, high, even)
              (inr (refl, composite num 2 (omega arith) (ground arith) (eq_of_test _ _ even)))
        | inr odd ↦
            rw (other, high, odd)
              (no_odd_factor-Decides fuel num 3 small (odd_of_test num odd) (omega arith)
                (omega arith) (omega arith) (omega arith) (ground arith)
                (only_two num (odd_of_test num odd)))
      ]
    ]
  ]
