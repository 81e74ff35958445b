-- ===== src/Pipeline/Drains.antt =====
-- The pipeline of task5_designPattren/st_pipeline.c comes to rest between two numbers.
use making_chat_on_c.Base.{
  ℕ, zero, suc, ◌*◌, ◌+◌, ◌^◌, ◌<◌, ◌≤◌, ◌≡◌, ◌⊎◌, inl, inr, Bool, true, false, leb, arith, refl,
  ◌∙◌,
}
use making_chat_on_c.Pipeline.Shared.{
  Follower, part_b, part_c, part_d, Shared, worker, IsThrough, before_b, before_c, before_d,
  SharedStep, SharedReach, feed, finish, take, run, run_gone, run_overflow, pass, begin, further,
}
use making_chat_on_c.Pipeline.Stages.{Prints, StageOf, all_out, at_b, at_c, at_d}
use making_chat_on_c.Pipeline.Turns.{can_run, reach_keeps}

-- The steps that the pointers in the pipeline have before them.
abbrev weight : Shared → ℕ
weight s =
    9 * s.second.queue
    + 8 * s.second.taken
    + 7 * s.second.changed
    + 6 * s.third.queue
    + 5 * s.third.taken
    + 4 * s.third.changed
    + 3 * s.fourth.queue
    + 2 * s.fourth.taken
    + s.fourth.changed

-- A thread holds one pointer at most.
abbrev HoldsOne : Shared → Type 0
HoldsOne s =
    (s.second.taken + s.second.changed ≤ 1)
    × (s.third.taken + s.third.changed ≤ 1)
    × (s.fourth.taken + s.fourth.changed ≤ 1)

one_of_two : (a b : ℕ) → a + b ≡ 1 → ((a ≡ 1) × (b ≡ 0)) ⊎ ((a ≡ 0) × (b ≡ 1))
one_of_two zero b e = inr (refl, omega arith)
one_of_two (suc a) b e = inl (omega arith, omega arith)

zero_or_one : (a : ℕ) → a ≤ 1 → (a ≡ 0) ⊎ (a ≡ 1)
zero_or_one zero h = inl refl
zero_or_one (suc a) h = inr (omega arith)

module _ (at_most_sqrt : ℕ → ℕ → Bool)
    (rounds : (i num : ℕ) → num < 2 ^ 32 → at_most_sqrt i num ≡ leb (i * i) num) (fuel : ℕ)
    (enough : 32768 ≤ fuel) (size : ℕ) (forwards : Follower → Bool) (of_b : forwards part_b ≡ true)
    (of_c : forwards part_c ≡ true) where
  step-HoldsOne :
      {s t : Shared}
      → HoldsOne s
      → SharedStep at_most_sqrt fuel size forwards IsThrough s t
      → HoldsOne t
  step-HoldsOne h (feed r awake more) = h
  step-HoldsOne h (finish awake all) = h
  step-HoldsOne (b, c, d) (take part_b n some_queued idle done) = (omega arith, c, d)
  step-HoldsOne (b, c, d) (take part_c n some_queued idle done) = (b, omega arith, d)
  step-HoldsOne (b, c, d) (take part_d n some_queued idle done) = (b, c, omega arith)
  step-HoldsOne (b, c, d) (run part_b v new out taken changed cell computes) = (omega arith, c, d)
  step-HoldsOne (b, c, d) (run part_c v new out taken changed cell computes) = (b, omega arith, d)
  step-HoldsOne (b, c, d) (run part_d v new out taken changed cell computes) = (b, c, omega arith)
  step-HoldsOne h (run_gone p taken lost) = h
  step-HoldsOne h (run_overflow p v taken cell overflows) = h
  step-HoldsOne (b, c, d) (pass part_b changed) = rw of_b (omega arith, c, d)
  step-HoldsOne (b, c, d) (pass part_c changed) = rw of_c (b, omega arith, d)
  step-HoldsOne (b, c, d) (pass part_d changed) = (b, c, omega arith)

  reach-HoldsOne :
      {s : Shared} → SharedReach at_most_sqrt fuel size forwards IsThrough s → HoldsOne s
  reach-HoldsOne begin = (omega arith, omega arith, omega arith)
  reach-HoldsOne (further reach step) = step-HoldsOne (reach-HoldsOne reach) step

  -- A step of one of the three threads.
  abbrev Moves : Shared → Type 0
  Moves s =
      (t : Shared) × SharedStep at_most_sqrt fuel size forwards IsThrough s t
      × (weight t < weight s)
      × (t.drawn ≡ s.drawn)

  second-Moves : (s : Shared) → s.second.changed ≡ 1 → Moves s
  second-Moves s changed = (_, pass part_b changed, rw of_b (omega arith), rw of_b refl)

  third-Moves : (s : Shared) → s.third.changed ≡ 1 → Moves s
  third-Moves s changed = (_, pass part_c changed, rw of_c (omega arith), rw of_c refl)

  runs :
      (p : Follower) (s : Shared)
      → (worker p s).taken ≡ 1
      → (worker p s).changed ≡ 0
      → StageOf s
      → Moves s
  runs part_b s taken changed stage =
      let (v, new, out, cell, computes) =
        can_run at_most_sqrt rounds fuel enough part_b s taken stage in
      (_, run part_b v new out taken changed cell computes, omega arith, refl)
  runs part_c s taken changed stage =
      let (v, new, out, cell, computes) =
        can_run at_most_sqrt rounds fuel enough part_c s taken stage in
      (_, run part_c v new out taken changed cell computes, omega arith, refl)
  runs part_d s taken changed stage =
      let (v, new, out, cell, computes) =
        can_run at_most_sqrt rounds fuel enough part_d s taken stage in
      (_, run part_d v new out taken changed cell computes, omega arith, refl)

  StageOf-Moves : (s : Shared) → HoldsOne s → StageOf s → IsThrough s ⊎ Moves s
  StageOf-Moves s h (all_out through prints) = inl through
  StageOf-Moves s (h2, h3, h4) (at_b r rest one others drawn cell prints) =
      inr (elim (one_of_two s.second.queue s.second.taken one) [
        | inl (queued, idle) ↦ (_, take part_b 0 queued idle (omega arith), omega arith, refl)
        | inr (unqueued, taken) ↦
            runs part_b s taken (omega arith) (at_b r rest one others drawn cell prints)
      ])
  StageOf-Moves s (h2, h3, h4) (at_c r rest before v one others drawn cell prints v_iff shown) =
      inr (elim (one_of_two (s.second.changed + s.third.queue) s.third.taken one) [
        | inl (early, idle) ↦ elim (one_of_two s.second.changed s.third.queue early) [
          | inl (changed, unqueued) ↦ second-Moves s changed
          | inr (passed, queued) ↦ (_, take part_c 0 queued idle (omega arith), omega arith, refl)
        ]
        | inr (unqueued, taken) ↦
            runs part_c s taken (omega arith)
              (at_c r rest before v one others drawn cell prints v_iff shown)
      ])
  StageOf-Moves s (h2, h3, h4)
        (at_d r rest before v w one others drawn cell prints v_iff w_iff shown) =
      inr (elim (one_of_two (s.third.changed + s.fourth.queue) s.fourth.taken one) [
        | inl (early, idle) ↦ elim (one_of_two s.third.changed s.fourth.queue early) [
          | inl (changed, unqueued) ↦ third-Moves s changed
          | inr (passed, queued) ↦ elim (zero_or_one s.fourth.changed (omega arith)) [
            | inl done ↦ (_, take part_d 0 queued idle done, omega arith, refl)
            | inr changed ↦ (_, pass part_d changed, omega arith, refl)
          ]
        ]
        | inr (unqueued, taken) ↦
            runs part_d s taken (omega arith)
              (at_d r rest before v w one others drawn cell prints v_iff w_iff shown)
      ])

  abbrev pub ComesThrough : Shared → Type 0
  ComesThrough s =
      (t : Shared) × SharedReach at_most_sqrt fuel size forwards IsThrough t
      × IsThrough t
      × (t.drawn ≡ s.drawn)

  comes_through :
      (n : ℕ) (s : Shared)
      → weight s < n
      → SharedReach at_most_sqrt fuel size forwards IsThrough s
      → ComesThrough s
  comes_through zero s h reach = absurd (omega arith)
  comes_through (suc n) s h reach =
      elim (StageOf-Moves s (reach-HoldsOne reach)
        (reach_keeps at_most_sqrt rounds fuel enough of_b of_c reach).1) [
          | inl through ↦ (s, reach, through, refl)
          | inr (t, step, less, same) ↦
              let (u, reached, through, drawn) =
                comes_through n t (omega arith) (further reach step) in
              (u, reached, through, drawn ∙ same)
        ]

  printed_or_under_way :
      (s : Shared) → StageOf s → Prints s.drawn s.shown ⊎ (0 < before_b s + before_c s + before_d s)
  printed_or_under_way s (all_out through prints) = inl prints
  printed_or_under_way s (at_b r rest one others drawn cell prints) = inr (omega arith)
  printed_or_under_way s (at_c r rest before v one others drawn cell prints v_iff shown) =
      inr (omega arith)
  printed_or_under_way s (at_d r rest before v w one others drawn cell prints v_iff w_iff shown) =
      inr (omega arith)

  -- While `partD_a` goes on only once the last number has come through, nothing undefined happens;
  -- a number is on its way, or each number drawn has been printed like one alone: `n + 11` and
  -- whether it is prime, `n - 2` and whether that is prime, twice, and `n`, in the order of the
  -- numbers; and from every state the threads can come to where no number is on its way. Conditions:
  -- the `flag` of the second and of the third object, which nothing sets, is not 1,
  -- `i <= sqrt(num)` holds exactly when the square of `i` is at most `num`, and `isPrime` has fuel
  -- for 32768 rounds.
  pub reach-Prints :
      {s : Shared}
      → SharedReach at_most_sqrt fuel size forwards IsThrough s
      → (s.broken ≡ false)
        × (Prints s.drawn s.shown ⊎ (0 < before_b s + before_c s + before_d s))
        × ComesThrough s
  reach-Prints {s = s} reach =
      let (whole, stage) = reach_keeps at_most_sqrt rounds fuel enough of_b of_c reach in
      (whole, printed_or_under_way s stage, comes_through (suc (weight s)) s (omega arith) reach)
