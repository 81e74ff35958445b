-- ===== src/Pipeline/Numbers.antt =====
-- What the pipeline of task5_designPattren/st_pipeline.c prints for a number.
use making_chat_on_c.Base.{
  ℕ, ◌*◌, ◌+◌, ◌-◌, ◌^◌, ◌<◌, ◌≤◌, ◌≡◌, ◌↔◌, inl, inr, Bool, true, false, List, [], ◌∷◌, ◌++◌, some,
  leb, arith, refl, sym, le→leb,
}
use making_chat_on_c.Base.Int.{pos}
use making_chat_on_c.Pipeline.{
  plus, to_unsigned, Shown, number, truth, generate, show_prime, part_d_b, part_d_c, part_d_d,
  pass_through,
}
use making_chat_on_c.Pipeline.Prime.{IsPrime, is_prime-Decides}

pub generate_bounds : (r : ℕ) → (100000 ≤ generate r) × (generate r < 1000000)
unfolding generate
generate_bounds r = omega arith

-- What is printed for `n`, with the two verdicts.
abbrev pub printed : ℕ → Bool → Bool → List Shown
printed n v w =
    number (pos (n + 11))
    ∷ truth v
    ∷ number (pos (n - 2))
    ∷ truth w
    ∷ number (pos (n - 2))
    ∷ truth w
    ∷ number (pos n)
    ∷ []

module _ (at_most_sqrt : ℕ → ℕ → Bool)
    (rounds : (i num : ℕ) → num < 2 ^ 32 → at_most_sqrt i num ≡ leb (i * i) num) (fuel : ℕ)
    (enough : 32768 ≤ fuel) where
  -- The verdict printed for a number that is not negative.
  pub show_prime_lem :
      (n : ℕ)
      → n < 2 ^ 32
      → (v : Bool) × (show_prime at_most_sqrt fuel (pos n) ≡ some (number (pos n) ∷ truth v ∷ []))
        × ((v ≡ true) ↔ IsPrime n)
  unfolding show_prime to_unsigned
  show_prime_lem n small = elim (is_prime-Decides at_most_sqrt rounds fuel n enough small) [
    | inl (e, prime) ↦ (true, rw e refl, ((λ _. prime), λ _. refl))
    | inr (e, fails) ↦ (false, rw e refl, ((λ h. cc), λ prime. absurd (fails prime)))
  ]

  plus_pos : (n k : ℕ) → n + k < 2 ^ 31 → plus (pos n) k ≡ some (pos (n + k))
  unfolding plus
  plus_pos n k small = ground arith

  -- The three parts, given the verdict that is printed.
  pub part_d_b_lem :
      (n : ℕ) (shown : List Shown)
      → n + 11 < 2 ^ 31
      → show_prime at_most_sqrt fuel (pos (n + 11)) ≡ some shown
      → part_d_b at_most_sqrt fuel (pos n) ≡ some (pos (n + 11), shown)
  unfolding part_d_b
  part_d_b_lem n shown small e = rw (plus_pos n 11 small, e) refl

  pub part_d_c_lem :
      (n m : ℕ) (shown : List Shown)
      → n ≡ m + 13
      → show_prime at_most_sqrt fuel (pos m) ≡ some shown
      → part_d_c at_most_sqrt fuel (pos n) ≡ some (pos m, shown)
  unfolding part_d_c
  part_d_c_lem n m shown e f =
      let less : n - 13 ≡ m = omega arith in rw (le→leb 13 n (omega arith), less, f) refl

  pub part_d_d_lem :
      (n m : ℕ) (shown : List Shown)
      → m ≡ n + 2
      → m < 2 ^ 31
      → show_prime at_most_sqrt fuel (pos n) ≡ some shown
      → part_d_d at_most_sqrt fuel (pos n) ≡ some (pos m, shown ++ number (pos m) ∷ [])
  unfolding part_d_d
  part_d_d_lem n m shown e small f = rw (f, plus_pos n 2 (omega arith), sym e) refl

  -- A number that `partD_a` generates comes through the other three objects unchanged, and they
  -- print `n + 11` with whether it is prime, `n - 2` with whether that is prime, the same again,
  -- and `n`. Conditions: the number is alone in the pipeline, and `i <= sqrt(num)` holds exactly
  -- when the square of `i` is at most `num`.
  pass_through_lem :
      (r : ℕ)
      → (v w : Bool) × (pass_through at_most_sqrt fuel (pos (generate r))
          ≡ some (pos (generate r), printed (generate r) v w))
        × ((v ≡ true) ↔ IsPrime (generate r + 11))
        × ((w ≡ true) ↔ IsPrime (generate r - 2))
  unfolding pass_through
  pass_through_lem r =
      let n = generate r in
      let (least, most) = generate_bounds r in
      let (v, e, v_iff) = show_prime_lem (n + 11) (omega arith) in
      let (w, f, w_iff) = show_prime_lem (n - 2) (omega arith) in
      let b = part_d_b_lem n _ (omega arith) e in
      let c = part_d_c_lem (n + 11) (n - 2) _ (omega arith) f in
      let d = part_d_d_lem (n - 2) n _ (omega arith) (omega arith) f in
      (v, w, rw (b, c, d) refl, v_iff, w_iff)
