-- ===== src/Pipeline/Races.antt =====
-- The pipeline of task5_designPattren/st_pipeline.c when `sleep(1)` returns while a number is still
-- on its way.
use making_chat_on_c.Base.{
  ℕ, ◌*◌, ◌+◌, ◌-◌, ◌^◌, ◌<◌, ◌≤◌, ◌≡◌, inl, inr, suc, ◌++◌, Bool, true, List, [], ◌∷◌, some, leb,
  arith, refl, sym,
}
use making_chat_on_c.Base.Int.{ℤ, pos}
use making_chat_on_c.Pipeline.{Shown, generate}
use making_chat_on_c.Pipeline.Numbers.{
  generate_bounds, show_prime_lem, part_d_b_lem, part_d_c_lem, part_d_d_lem,
}
use making_chat_on_c.Pipeline.Shared.{
  Follower, part_b, part_c, part_d, holds, worker, set_worker, hand_on, Shared, IsThrough, function,
  SharedStep, SharedReach, feed, finish, take, run, run_gone, pass, begin, further,
}

module _ (at_most_sqrt : ℕ → ℕ → Bool) (fuel size : ℕ) (forwards : Follower → Bool)
    (wakes : Shared → Type 0) where
  pass_on :
      (p : Follower) {s : Shared} {b : Bool}
      → forwards p ≡ b
      → (worker p s).changed ≡ 1
      → SharedStep at_most_sqrt fuel size forwards wakes s
          (hand_on b p (set_worker p (record (worker p s) { changed = 0 }) s))
  pass_on p e changed = rw (sym e) (pass p changed)

  -- An object takes a pointer, runs its function and hands the pointer on.
  pub turn :
      (p : Follower) (n : ℕ) (v new : ℤ) (out : List Shown) {s : Shared} {b : Bool}
      → forwards p ≡ b
      → SharedReach at_most_sqrt fuel size forwards wakes s
      → (worker p s).queue ≡ suc n
      → (worker p s).taken ≡ 0
      → (worker p s).changed ≡ 0
      → s.cell ≡ holds v
      → function at_most_sqrt fuel p v ≡ some (new, out)
      → SharedReach at_most_sqrt fuel size forwards wakes (
          hand_on b p (
            set_worker p
              (record { queue = n; taken = 0; changed = 0 })
              (record s { cell = holds new; shown = s.shown ++ out })))
  turn part_b n v new out of_p reach some_queued idle done cell computes =
      further
        (further (further reach (take part_b n some_queued idle done))
          (run part_b v new out refl done cell computes))
        (pass_on part_b of_p refl)
  turn part_c n v new out of_p reach some_queued idle done cell computes =
      further
        (further (further reach (take part_c n some_queued idle done))
          (run part_c v new out refl done cell computes))
        (pass_on part_c of_p refl)
  turn part_d n v new out of_p reach some_queued idle done cell computes =
      further
        (further (further reach (take part_d n some_queued idle done))
          (run part_d v new out refl done cell computes))
        (pass_on part_d of_p refl)

-- The sleep says nothing about the other threads.
abbrev pub AnyTime : Shared → Type 0
AnyTime s = Unit {0}

module _ (at_most_sqrt : ℕ → ℕ → Bool)
    (rounds : (i num : ℕ) → num < 2 ^ 32 → at_most_sqrt i num ≡ leb (i * i) num) (fuel : ℕ)
    (enough : 32768 ≤ fuel) where
  runs_b :
      (n : ℕ)
      → n < 1000100
      → (out : List Shown) × (function at_most_sqrt fuel part_b (pos n) ≡ some (pos (n + 11), out))
  runs_b n small =
      let (v, e, v_iff) = show_prime_lem at_most_sqrt rounds fuel enough (n + 11) (omega arith) in
      (_, part_d_b_lem at_most_sqrt rounds fuel enough n _ (omega arith) e)

  runs_c :
      (n m : ℕ)
      → n ≡ m + 13
      → n < 1000100
      → (out : List Shown) × (function at_most_sqrt fuel part_c (pos n) ≡ some (pos m, out))
  runs_c n m less small =
      let (v, e, v_iff) = show_prime_lem at_most_sqrt rounds fuel enough m (omega arith) in
      (_, part_d_c_lem at_most_sqrt rounds fuel enough n m _ less e)

  runs_d :
      (n m : ℕ)
      → m ≡ n + 2
      → n < 1000100
      → (out : List Shown) × (function at_most_sqrt fuel part_d (pos n) ≡ some (pos m, out))
  runs_d n m more small =
      let (v, e, v_iff) = show_prime_lem at_most_sqrt rounds fuel enough n (omega arith) in
      (_, part_d_d_lem at_most_sqrt rounds fuel enough n m _ more (omega arith) e)

  -- With two numbers there are runs in which all that is printed depends on the second alone: the
  -- objects read the second number twice. And with one number there is a run in which an object
  -- reads the local after `partD_a` has returned. Conditions: `sleep(1)` may return while a number
  -- is on its way, the `flag` of the second and of the third object is not 1, `i <= sqrt(num)` holds exactly when the square of `i` is at most `num`, and
  -- `isPrime` has fuel for 32768 rounds.
  pub first_number_lost :
      (forwards : Follower → Bool) (r : ℕ)
      → forwards part_b ≡ true
      → forwards part_c ≡ true
      → ((out : List Shown) × ((first : ℕ)
            → (s : Shared) × SharedReach at_most_sqrt fuel 2 forwards AnyTime s
              × IsThrough s
              × (s.drawn ≡ r ∷ first ∷ [])
              × (s.shown ≡ out)))
        × ((s : Shared) × SharedReach at_most_sqrt fuel 1 forwards AnyTime s × (s.broken ≡ true))
  first_number_lost forwards r of_b of_c =
      let n = generate r in
      let (least, most) = generate_bounds r in
      let (out₁, e₁) = runs_b n (omega arith) in
      let (out₂, e₂) = runs_b (n + 11) (omega arith) in
      let (out₃, e₃) = runs_c (n + 11 + 11) (n + 9) (omega arith) (omega arith) in
      let (out₄, e₄) = runs_c (n + 9) (n - 4) (omega arith) (omega arith) in
      let (out₅, e₅) = runs_d (n - 4) (n - 2) (omega arith) (omega arith) in
      let (out₆, e₆) = runs_d (n - 2) n (omega arith) (omega arith) in
      (
        (
          _,
          λ first.
              let fed =
                further (further begin (feed first (inl refl) (omega arith)))
                  (feed r (inr tt) (omega arith)) in
              let b₁ =
                turn at_most_sqrt fuel 2 forwards AnyTime part_b 1 _ _ out₁ of_b fed refl refl refl
                  refl e₁ in
              let b₂ =
                turn at_most_sqrt fuel 2 forwards AnyTime part_b 0 _ _ out₂ of_b b₁ refl refl refl
                  refl e₂ in
              let c₁ =
                turn at_most_sqrt fuel 2 forwards AnyTime part_c 1 _ _ out₃ of_c b₂ refl refl refl
                  refl e₃ in
              let c₂ =
                turn at_most_sqrt fuel 2 forwards AnyTime part_c 0 _ _ out₄ of_c c₁ refl refl refl
                  refl e₄ in
              let d₁ =
                turn at_most_sqrt fuel 2 forwards AnyTime part_d 1 _ _ out₅ refl c₂ refl refl refl
                  refl e₅ in
              let d₂ =
                turn at_most_sqrt fuel 2 forwards AnyTime part_d 0 _ _ out₆ refl d₁ refl refl refl
                  refl e₆ in
              (_, d₂, refl, refl, refl),
        ),
        (
          _,
          further
              (further
                (further (further begin (feed r (inl refl) (omega arith)))
                  (take part_b 0 refl refl refl))
                (finish (inr tt) refl))
              (run_gone part_b refl (inl refl)),
          refl,
        ),
      )
