-- ===== src/Active/Phases.antt =====
-- What holds of the line of task5_designPattren/st_pipeline.c where its `main` is.
use making_chat_on_c.Base.{
  ℕ, suc, ◌≤◌, ◌≡◌, ◌≢◌, ◌⊎◌, inl, inr, Bool, true, false, [], ◌∷◌, ◌++◌, ap, sym, refl, ◌∙◌, arith,
}
use mathlib.Core.Path.{subst}
use native.Mathlib.Decide.{dec_lt}
use making_chat_on_c.Active.{
  busy, left, Line, put, deliver, start, Step, submit, emit, Reach, here, later,
}
use making_chat_on_c.Active.Progress.{has_null, has_null-append}
use making_chat_on_c.Active.Main.{
  PipelinePlace, reading, allocating, ready, joining, returned, undefined, PipelineState, give,
  allowed, PipelineStep, refuse_arguments, read_arguments, no_memory, create_objects,
  give_arguments, join, join_again, generate, close_line, part_d_a, thread, PipelineReach, initial,
  after,
}
use making_chat_on_c.Active.Steps.{
  Untouched, Given, AllLeft, Step-left, allowed-submitted, step-Untouched, step-Given,
}

abbrev pub Early : Line → Bool → Type 0
Early s closing = (closing ≡ false) × Untouched (s.object 0)

-- Before the `NULL` of `partD_a` the first object has the arguments.
abbrev pub Begun : Line → Bool → Type 0
Begun s closing = (closing ≡ true) ⊎ ((closing ≡ false) × Given (s.object 0))

-- What holds where `main` is.
abbrev pub Phase : PipelinePlace → Line → Bool → Type 0
Phase reading s closing = Early s closing
Phase allocating s closing = Early s closing
Phase ready s closing = Early s closing
Phase (joining i) s closing = (i ≤ 4) × AllLeft i s × Begun s closing
Phase (returned n) s closing = n ≡ 1
Phase undefined s closing = AllLeft 4 s

pub record Good (size : ℕ) (forwards : ℕ → Bool) (m : PipelineState) : Type 0 where
  pub reach : Reach 4 forwards m.line
  pub nulls : has_null m.line.submitted ≡ m.closing
  pub bound : m.generated ≤ size
  pub phase : Phase m.place m.line m.closing

-- The arguments arrive at the first object.
give-Given : (s : Line) (arr : ℕ) → arr ≢ 0 → Untouched (s.object 0) → Given ((give s arr).object 0)
unfolding give put
give-Given s arr real (p, q) = inl (p, arr, real, ap (λ l. l ++ arr ∷ []) q)

AllLeft-suc : (i : ℕ) (s : Line) → AllLeft i s → (s.object i).place ≡ left → AllLeft (suc i) s
AllLeft-suc i s gone at_left j below = elim (dec_lt j i) [
  | yes before ↦ gone j before
  | no reached ↦
      let same : i ≡ j = omega arith in subst (λ k. (s.object k).place ≡ left) same at_left
]

module _ (forwards : ℕ → Bool) (first : forwards 0 ≡ false) where
  thread-Phase :
      {s t : Line} (p : PipelinePlace) (closing : Bool) (step : Step 4 forwards s t)
      → allowed closing step ≡ true
      → Phase p s closing
      → Phase p t closing
  thread-Phase reading closing step may (c, h) = (c, step-Untouched closing step may h)
  thread-Phase allocating closing step may (c, h) = (c, step-Untouched closing step may h)
  thread-Phase ready closing step may (c, h) = (c, step-Untouched closing step may h)
  thread-Phase (joining i) true step may (few, gone, h) =
      (few, (λ j below. Step-left step j (gone j below)), inl refl)
  thread-Phase (joining i) false step may (few, gone, inl h) = absurd cc
  thread-Phase (joining i) false step may (few, gone, inr (c, h)) =
      (few, (λ j below. Step-left step j (gone j below)), inr (refl, step-Given step may first h))
  thread-Phase (returned n) closing step may h = h
  thread-Phase undefined closing step may gone = λ j below. Step-left step j (gone j below)

  generate-Phase :
      (s : Line) (p : PipelinePlace) (task num : ℕ)
      → (s.object 0).place ≡ busy task
      → Phase p s false
      → Phase p
          (deliver s 0 (record (s.object 0) { sent = (s.object 0).sent ++ num ∷ [] }) (num ∷ []))
          false
  unfolding deliver
  generate-Phase s reading task num place (c, (p, q)) = absurd cc
  generate-Phase s allocating task num place (c, (p, q)) = absurd cc
  generate-Phase s ready task num place (c, (p, q)) = absurd cc
  generate-Phase s (joining i) task num place (few, gone, h) = (
    few,
    (λ j below.
        Step-left {forwards = forwards} {s = s} (emit 0 task num (omega arith) place first) j
          (gone j below)),
    inr (refl, inr (task, place)),
  )
  generate-Phase s (returned n) task num place h = h
  generate-Phase s undefined task num place gone = λ j below.
      Step-left {forwards = forwards} {s = s} (emit 0 task num (omega arith) place first) j
        (gone j below)

  close-Phase :
      (s : Line) (p : PipelinePlace) (task : ℕ)
      → (s.object 0).place ≡ busy task
      → Phase p s false
      → Phase p (give s 0) true
  unfolding give put
  close-Phase s reading task place (c, (p, q)) = absurd cc
  close-Phase s allocating task place (c, (p, q)) = absurd cc
  close-Phase s ready task place (c, (p, q)) = absurd cc
  close-Phase s (joining i) task place (few, gone, h) = (
    few,
    (λ j below. Step-left {forwards = forwards} {s = s} (submit 0) j (gone j below)),
    inl refl,
  )
  close-Phase s (returned n) task place h = h
  close-Phase s undefined task place gone =
      λ j below. Step-left {forwards = forwards} {s = s} (submit 0) j (gone j below)

  step-Good :
      {size : ℕ} {m q : PipelineState}
      → PipelineStep size forwards m q
      → Good size forwards m
      → Good size forwards q
  unfolding give put deliver
  step-Good (refuse_arguments e) h = record {
    reach = h.reach;
    nulls = h.nulls;
    bound = h.bound;
    phase = refl;
  }
  step-Good {m = m} (read_arguments e) h = record {
    reach = h.reach;
    nulls = h.nulls;
    bound = h.bound;
    phase = subst (λ p. Phase p m.line m.closing) e h.phase;
  }
  step-Good (no_memory e) h = record {
    reach = h.reach;
    nulls = h.nulls;
    bound = h.bound;
    phase = refl;
  }
  step-Good {m = m} (create_objects e) h = record {
    reach = h.reach;
    nulls = h.nulls;
    bound = h.bound;
    phase = subst (λ p. Phase p m.line m.closing) e h.phase;
  }
  step-Good {m = m} (give_arguments arr e real) h =
      let (c, early) = subst (λ p. Phase p m.line m.closing) e h.phase in
      record {
        reach = later h.reach (submit arr);
        nulls = ground (arith, h.nulls, has_null-append m.line.submitted (arr ∷ []), real);
        bound = h.bound;
        phase = (
          omega arith,
          (λ j below. absurd (omega arith)),
          inr (c, give-Given m.line arr real early),
        );
      }
  step-Good {m = m} (join i e below at_left) h =
      let (few, gone, begun) = subst (λ p. Phase p m.line m.closing) e h.phase in
      record {
        reach = h.reach;
        nulls = h.nulls;
        bound = h.bound;
        phase = (omega arith, AllLeft-suc i m.line gone at_left, begun);
      }
  step-Good {m = m} (join_again e) h =
      let (few, gone, begun) = subst (λ p. Phase p m.line m.closing) e h.phase in
      record { reach = h.reach; nulls = h.nulls; bound = h.bound; phase = gone }
  step-Good {m = m} (part_d_a (generate task num real place unclosed more)) h = record {
    reach = later h.reach (emit 0 task num (omega arith) place first);
    nulls = h.nulls;
    bound = omega arith;
    phase =
        subst
          (λ c.
            Phase m.place
              (deliver m.line 0
                (record (m.line.object 0) { sent = (m.line.object 0).sent ++ num ∷ [] }) (num ∷ []))
              c)
          (sym unclosed)
          (generate-Phase m.line m.place task num place
            (subst (λ c. Phase m.place m.line c) unclosed h.phase));
  }
  step-Good {m = m} (part_d_a (close_line task place unclosed all)) h = record {
    reach = later h.reach (submit 0);
    nulls = ground (arith, has_null-append m.line.submitted (0 ∷ []));
    bound = h.bound;
    phase =
        close-Phase m.line m.place task place
          (subst (λ c. Phase m.place m.line c) unclosed h.phase);
  }
  step-Good {m = m} (thread step may) h = record {
    reach = later h.reach step;
    nulls = ap has_null (allowed-submitted m.closing step may) ∙ h.nulls;
    bound = h.bound;
    phase = thread-Phase m.place m.closing step may h.phase;
  }

  here-Good :
      {size : ℕ}
      → Good size forwards
          (record { line = start; generated = 0; closing = false; place = reading })
  here-Good = record {
    reach = here;
    nulls = refl;
    bound = omega arith;
    phase = (refl, (refl, refl));
  }

  pub reach-Good :
      {size : ℕ} {m : PipelineState} → PipelineReach size forwards m → Good size forwards m
  reach-Good initial = here-Good
  reach-Good (after r step) = step-Good step (reach-Good r)
