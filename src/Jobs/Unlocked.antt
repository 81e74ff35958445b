-- ===== src/Jobs/Unlocked.antt =====
-- threads_mutex_example/problem.c: what can go wrong without the mutex.
use making_chat_on_c.Base.{ℕ, ◌<◌, ◌≡◌, List, [], ◌∷◌, arith, refl}
use making_chat_on_c.Jobs.{
  Line, started, finished, Place, outside, entered, loaded, counted, looping, printed, done, State,
  move, start, Work, load, store, print_started, print_finished, FreeStep, begin, return, FreeReach,
}
use making_chat_on_c.Jobs

-- A state in which the first two threads have returned.
abbrev pub BothDone : ℕ → ℕ → List Line → Type 0
BothDone n counter output =
    (s : State) × FreeReach n s
    × (s.place 0 ≡ done)
    × (s.place 1 ≡ done)
    × (s.counter ≡ counter)
    × (s.output ≡ output)

module _ {n : ℕ} (two : 1 < n) where
  first : 0 < n
  first = omega arith

  run : {s t : State} (i : ℕ) → i < n → FreeReach n s → Work i s t → FreeReach n t
  run i below r step = Jobs.FreeReach.later r (Jobs.FreeStep.work i below step)

  enter_both : FreeReach n (move (move start 0 entered) 1 entered)
  unfolding move
  enter_both =
      Jobs.FreeReach.later (Jobs.FreeReach.later Jobs.FreeReach.here (begin 0 first refl))
        (begin 1 two refl)

  return_both :
      {s : State}
      → FreeReach n s
      → s.place 0 ≡ printed
      → s.place 1 ≡ printed
      → FreeReach n (move (move s 0 done) 1 done)
  unfolding move
  return_both r p q =
      Jobs.FreeReach.later (Jobs.FreeReach.later r (return 0 first p)) (return 1 two q)

  -- With two threads or more problem.c can lose a count, so that the shared number is 1 after two
  -- jobs, and it can print the number of another job as finished, so that `Job 2 finished` comes
  -- twice and `Job 1 finished` never.
  pub races :
      BothDone n 1 (started 1 ∷ started 1 ∷ finished 1 ∷ finished 1 ∷ [])
      × BothDone n 2 (started 1 ∷ started 2 ∷ finished 2 ∷ finished 2 ∷ [])
  unfolding move
  races =
      let a = run 1 two (run 0 first enter_both (load refl)) (load refl) in
      let b = run 1 two (run 0 first a (store 0 refl)) (store 0 refl) in
      let c = run 1 two (run 0 first b (print_started refl)) (print_started refl) in
      let d = run 1 two (run 0 first c (print_finished refl)) (print_finished refl) in
      let f =
        run 0 first (run 0 first (run 0 first enter_both (load refl)) (store 0 refl))
          (print_started refl) in
      let g = run 1 two (run 1 two (run 1 two f (load refl)) (store 1 refl)) (print_started refl) in
      let h = run 1 two (run 0 first g (print_finished refl)) (print_finished refl) in
      (
        (_, return_both d refl refl, refl, refl, refl, refl),
        (_, return_both h refl refl, refl, refl, refl, refl),
      )
