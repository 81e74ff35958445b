-- ===== src/Active/Joined.antt =====
-- What `main` of task5_designPattren/st_pipeline.c comes to.
use making_chat_on_c.Base.{
  ℕ, ◌<◌, ◌≤◌, ◌≡◌, ◌≢◌, ◌⊎◌, inl, inr, Bool, true, false, [], ap, refl, ◌∙◌, arith, some,
}
use mathlib.Core.Path.{subst}
use native.Mathlib.Decide.{dec_lt}
use making_chat_on_c.Active.{
  Place, waiting, busy, leaving, left, Line, Step, runner, submit, take, take_null, emit, pass,
  keep, leave, leave_last,
}
use making_chat_on_c.Active.Progress.{no_deadlock}
use making_chat_on_c.Active.Main.{
  PipelinePlace, reading, allocating, ready, joining, returned, undefined, PipelineState,
  PipelineStep, read_arguments, create_objects, give_arguments, join, join_again, generate,
  close_line, part_d_a, thread, PipelineReach,
}
use making_chat_on_c.Active.Steps.{Given, AllLeft}
use making_chat_on_c.Active.Phases.{Begun, Phase, Good, reach-Good}

left_or_not : (p : Place) → (p ≡ left) ⊎ (p ≢ left)
left_or_not left = inl refl
left_or_not waiting = inr (λ e. absurd cc)
left_or_not (busy task) = inr (λ e. absurd cc)
left_or_not leaving = inr (λ e. absurd cc)

-- `main` has returned 1, or is in its second join of the first thread, with all threads gone.
abbrev pub IsOver : PipelineState → Type 0
IsOver m = (m.place ≡ returned 1) ⊎ ((m.place ≡ undefined) × AllLeft 4 m.line)

module _ (forwards : ℕ → Bool) (first : forwards 0 ≡ false) where
  -- A step of a thread in the line is one of the program, or else `partD_a` can return.
  pipeline_step :
      {size : ℕ} (m : PipelineState) (i : ℕ) {t : Line} (step : Step 4 forwards m.line t)
      → runner step ≡ some i
      → m.closing ≡ true
      → (q : PipelineState) × PipelineStep size forwards m q
  pipeline_step m i (submit task) runs closed = absurd cc
  pipeline_step m i (take j task rest below place queue real) runs closed =
      (_, thread (take j task rest below place queue real) refl)
  pipeline_step m i (take_null j rest below place queue) runs closed =
      (_, thread (take_null j rest below place queue) refl)
  pipeline_step m i (emit j task new below place does) runs closed =
      (_, thread (keep j task (omega arith) place (inl does)) (ground arith))
  pipeline_step m i (pass j task below place does) runs closed =
      (_, thread (pass j task below place does) refl)
  pipeline_step m i (keep j task below place does) runs closed =
      (_, thread (keep j task below place does) (ground arith))
  pipeline_step m i (leave j below place) runs closed = (_, thread (leave j below place) refl)
  pipeline_step m i (leave_last j last place) runs closed =
      (_, thread (leave_last j last place) refl)

  -- While `partD_a` is to run or runs.
  opening_step :
      {size : ℕ} (m : PipelineState)
      → m.generated ≤ size
      → m.closing ≡ false
      → Given (m.line.object 0)
      → (q : PipelineState) × PipelineStep size forwards m q
  opening_step m bound unclosed (inl (place, arr, real, queue)) =
      (_, thread (take 0 arr [] (omega arith) place queue real) refl)
  opening_step {size} m bound unclosed (inr (task, place)) = elim (dec_lt m.generated size) [
    | yes more ↦ (_, part_d_a (generate task 1 (λ e. absurd (omega arith)) place unclosed more))
    | no all ↦ (_, part_d_a (close_line task place unclosed (omega arith)))
  ]

  joining_step :
      {size : ℕ} (m : PipelineState) (i : ℕ)
      → Good size forwards m
      → m.place ≡ joining i
      → i < 4
      → AllLeft i m.line
      → Begun m.line m.closing
      → (((m.line.object i).place ≡ left) ⊎ ((m.line.object i).place ≢ left))
      → (q : PipelineState) × PipelineStep size forwards m q
  joining_step m i h e below gone begun (inl at_left) = (_, join i e below at_left)
  joining_step m i h e below gone (inr (unclosed, given)) (inr running) =
      opening_step m h.bound unclosed given
  joining_step m i h e below gone (inl closed) (inr running) =
      let (t, step, runs) = no_deadlock i h.reach (h.nulls ∙ closed) below gone running in
      pipeline_step m i step runs closed

  -- In every state that `main` of the pipeline, `partD_a` and the threads reach, `main` has returned
  -- 1, or is in the join of a thread that was joined before, with all four threads gone, or else
  -- the program can take a step: it never returns 0 and is never stuck. Conditions: the first
  -- object does not forward, as `main` sets its flag.
  pub pipeline_main_joins_twice :
      {size : ℕ} {m : PipelineState}
      → PipelineReach size forwards m
      → IsOver m ⊎ ((q : PipelineState) × PipelineStep size forwards m q)
  pipeline_main_joins_twice {size} {m} r = go m.place refl
    where
      h : Good size forwards m
      h = reach-Good forwards first r

      go :
          (p : PipelinePlace)
          → m.place ≡ p
          → IsOver m ⊎ ((q : PipelineState) × PipelineStep size forwards m q)
      go reading e = inr (_, read_arguments e)
      go allocating e = inr (_, create_objects e)
      go ready e = inr (_, give_arguments 1 e (λ f. absurd (omega arith)))
      go (joining i) e =
          let (few, gone, begun) = subst (λ p. Phase p m.line m.closing) e h.phase in
          elim (dec_lt i 4) [
            | yes below ↦
                inr (joining_step m i h e below gone begun (left_or_not (m.line.object i).place))
            | no last ↦
                let at_end : i ≡ 4 = omega arith in inr (_, join_again (e ∙ ap joining at_end))
          ]
      go (returned n) e =
          inl (inl (e ∙ ap returned (subst (λ p. Phase p m.line m.closing) e h.phase)))
      go undefined e = inl (inr (e, subst (λ p. Phase p m.line m.closing) e h.phase))
