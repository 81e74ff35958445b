-- ===== src/Pipeline/Turns.antt =====
-- The pipeline of task5_designPattren/st_pipeline.c while a number is out before the next one goes
-- in: every one of them is read by the objects in turn.
use making_chat_on_c.Base.{
  ℕ, ◌*◌, ◌+◌, ◌-◌, ◌^◌, ◌<◌, ◌≤◌, ◌≡◌, ◌↔◌, inl, inr, Bool, true, false, List, [], ◌∷◌, ◌++◌, some,
  leb, arith, refl, sym,
}
use mathlib.Core.List.{append_assoc}
use making_chat_on_c.Base.Int.{ℤ, pos}
use making_chat_on_c.Pipeline.{Shown, number, truth, generate}
use making_chat_on_c.Pipeline.Numbers.{
  generate_bounds, show_prime_lem, part_d_b_lem, part_d_c_lem, part_d_d_lem,
}
use making_chat_on_c.Pipeline.Stages.{
  first_two, Stage, all_out, at_b, at_c, at_d, StageOf, moved, IsOrderly, take_keeps, pass_keeps,
  drained, awake-IsThrough,
}
use making_chat_on_c.Pipeline.Shared.{
  Follower, part_b, part_c, part_d, holds, Shared, worker, set_worker, before_b, before_c, before_d,
  IsThrough, function, SharedStep, SharedReach, feed, finish, take, run, run_gone, run_overflow,
  pass, begin, further,
}

module _ (at_most_sqrt : ℕ → ℕ → Bool)
    (rounds : (i num : ℕ) → num < 2 ^ 32 → at_most_sqrt i num ≡ leb (i * i) num) (fuel : ℕ)
    (enough : 32768 ≤ fuel) where
  -- The function of an object that holds the pointer: what it reads, and what comes of it.
  Turn : Follower → Shared → ℕ → ℕ → ℕ → Type 0
  Turn p s b c d =
      (v new : ℤ) × (out : List Shown) × (s.cell ≡ holds v)
      × (function at_most_sqrt fuel p v ≡ some (new, out))
      × Stage s.drawn (holds new) (s.shown ++ out) b c d

  part_b-Turn :
      (s : Shared)
      → s.second.taken ≡ 1
      → StageOf s
      → Turn part_b s s.second.queue (1 + s.third.queue + s.third.taken) (before_d s)
  unfolding Turn
  part_b-Turn s taken (all_out none_left prints) = absurd (omega arith)
  part_b-Turn s taken (at_b r rest one others drawn cell prints) =
      let (least, most) = generate_bounds r in
      let (v, e, v_iff) =
        show_prime_lem at_most_sqrt rounds fuel enough (generate r + 11) (omega arith) in
      (
        pos (generate r),
        pos (generate r + 11),
        _,
        cell,
        part_d_b_lem at_most_sqrt rounds fuel enough (generate r) _ (omega arith) e,
        at_c r rest s.shown v (omega arith) (omega arith) drawn refl prints v_iff refl,
      )
  part_b-Turn s taken (at_c r rest before v one others drawn cell prints v_iff shown) =
      absurd (omega arith)
  part_b-Turn s taken (at_d r rest before v w one others drawn cell prints v_iff w_iff shown) =
      absurd (omega arith)

  part_c-Turn :
      (s : Shared)
      → s.third.taken ≡ 1
      → StageOf s
      → Turn part_c s
          (before_b s)
          (s.second.changed + s.third.queue)
          (1 + s.fourth.queue + s.fourth.taken)
  unfolding Turn
  part_c-Turn s taken (all_out none_left prints) = absurd (omega arith)
  part_c-Turn s taken (at_b r rest one others drawn cell prints) = absurd (omega arith)
  part_c-Turn s taken (at_c r rest before v one others drawn cell prints v_iff shown) =
      let (least, most) = generate_bounds r in
      let (w, e, w_iff) =
        show_prime_lem at_most_sqrt rounds fuel enough (generate r - 2) (omega arith) in
      (
        pos (generate r + 11),
        pos (generate r - 2),
        _,
        cell,
        part_d_c_lem at_most_sqrt rounds fuel enough (generate r + 11) (generate r - 2) _
            (omega arith) e,
        at_d r rest before v w (omega arith) (omega arith) drawn refl prints v_iff w_iff (
            rw shown (
              append_assoc before (number (pos (generate r + 11)) ∷ truth v ∷ [])
                (number (pos (generate r - 2)) ∷ truth w ∷ []))),
      )
  part_c-Turn s taken (at_d r rest before v w one others drawn cell prints v_iff w_iff shown) =
      absurd (omega arith)

  part_d-Turn :
      (s : Shared)
      → s.fourth.taken ≡ 1
      → StageOf s
      → Turn part_d s (before_b s) (before_c s) (s.third.changed + s.fourth.queue)
  unfolding Turn
  part_d-Turn s taken (all_out none_left prints) = absurd (omega arith)
  part_d-Turn s taken (at_b r rest one others drawn cell prints) = absurd (omega arith)
  part_d-Turn s taken (at_c r rest before v one others drawn cell prints v_iff shown) =
      absurd (omega arith)
  part_d-Turn s taken (at_d r rest before v w one others drawn cell prints v_iff w_iff shown) =
      let (least, most) = generate_bounds r in
      let (w', e, w'_iff) =
        show_prime_lem at_most_sqrt rounds fuel enough (generate r - 2) (omega arith) in
      let same : w' ≡ w = truths w' w w'_iff w_iff in
      (
        pos (generate r - 2),
        pos (generate r),
        _,
        cell,
        part_d_d_lem at_most_sqrt rounds fuel enough (generate r - 2) (generate r) _ (omega arith)
            (omega arith) e,
        all_out (omega arith) (
            rw drawn (
              before,
              v,
              w,
              prints,
              rw (shown, same) (append_assoc before (first_two (generate r) v w) _),
              v_iff,
              w_iff,
            )),
      )
    where
      truths : {P : Type 0} → (x y : Bool) → ((x ≡ true) ↔ P) → ((y ≡ true) ↔ P) → x ≡ y
      truths true true f g = refl
      truths false false f g = refl
      truths true false f g = sym (g.1 (f.0 refl))
      truths false true f g = f.1 (g.0 refl)

  -- What the function does is determined, so the step of a run is that turn.
  Turn-Stage :
      (p : Follower) (s : Shared) (b c d : ℕ) (v new : ℤ) (out : List Shown)
      → Turn p s b c d
      → s.cell ≡ holds v
      → function at_most_sqrt fuel p v ≡ some (new, out)
      → Stage s.drawn (holds new) (s.shown ++ out) b c d
  unfolding Turn
  Turn-Stage p s b c d v new out (v', new', out', cell', computes', next) cell computes =
      let same : v ≡ v' = cc in
      let result : new ≡ new' = cc in let shows : out ≡ out' = cc in rw (result, shows) next

  run_keeps :
      (p : Follower) (s : Shared) (v new : ℤ) (out : List Shown)
      → (worker p s).taken ≡ 1
      → (worker p s).changed ≡ 0
      → s.cell ≡ holds v
      → function at_most_sqrt fuel p v ≡ some (new, out)
      → IsOrderly s
      → IsOrderly (
          set_worker p
            (record (worker p s) { taken = 0; changed = 1 })
            (record s { cell = holds new; shown = s.shown ++ out }))
  run_keeps part_b s v new out taken changed cell computes (whole, stage) = (
    whole,
    moved (omega arith) refl refl
        (Turn-Stage part_b s _ _ _ v new out (part_b-Turn s taken stage) cell computes),
  )
  run_keeps part_c s v new out taken changed cell computes (whole, stage) = (
    whole,
    moved refl (omega arith) refl
        (Turn-Stage part_c s _ _ _ v new out (part_c-Turn s taken stage) cell computes),
  )
  run_keeps part_d s v new out taken changed cell computes (whole, stage) = (
    whole,
    moved refl refl (omega arith)
        (Turn-Stage part_d s _ _ _ v new out (part_d-Turn s taken stage) cell computes),
  )

  -- The function of an object that holds the pointer finds a number, and does not overflow.
  pub can_run :
      (p : Follower) (s : Shared)
      → (worker p s).taken ≡ 1
      → StageOf s
      → (v new : ℤ) × (out : List Shown) × (s.cell ≡ holds v)
        × (function at_most_sqrt fuel p v ≡ some (new, out))
  unfolding Turn
  can_run part_b s taken stage =
      let (v, new, out, cell, computes, next) = part_b-Turn s taken stage in
      (v, new, out, cell, computes)
  can_run part_c s taken stage =
      let (v, new, out, cell, computes, next) = part_c-Turn s taken stage in
      (v, new, out, cell, computes)
  can_run part_d s taken stage =
      let (v, new, out, cell, computes, next) = part_d-Turn s taken stage in
      (v, new, out, cell, computes)

  module _ {forwards : Follower → Bool} (of_b : forwards part_b ≡ true)
      (of_c : forwards part_c ≡ true) where
    step_keeps :
        {size : ℕ} {s t : Shared}
        → IsOrderly s
        → SharedStep at_most_sqrt fuel size forwards IsThrough s t
        → IsOrderly t
    step_keeps {s = s} (whole, stage) (feed r awake more) =
        let through = awake-IsThrough s awake stage in
        (whole, at_b r s.drawn (omega arith) (omega arith) refl refl (drained s through stage))
    step_keeps {s = s} (whole, stage) (finish awake all) =
        let through = awake-IsThrough s awake stage in
        (whole, all_out through (drained s through stage))
    step_keeps {s = s} kept (take p n some_queued idle done) =
        take_keeps p s n some_queued idle kept
    step_keeps {s = s} kept (run p v new out taken changed cell computes) =
        run_keeps p s v new out taken changed cell computes kept
    step_keeps {s = s} (whole, stage) (run_gone p taken lost) =
        let (v, new, out, cell, computes) = can_run p s taken stage in
        elim lost [ inl e ↦ absurd (cc) | inr e ↦ absurd (cc) ]
    step_keeps {s = s} (whole, stage) (run_overflow p v taken cell overflows) =
        let (v', new, out, cell', computes) = can_run p s taken stage in
        let same : v ≡ v' = cc in absurd (cc)
    step_keeps {s = s} kept (pass p changed) = pass_keeps forwards of_b of_c p s changed kept

    pub reach_keeps :
        {size : ℕ} {s : Shared}
        → SharedReach at_most_sqrt fuel size forwards IsThrough s
        → IsOrderly s
    reach_keeps begin = (refl, all_out refl refl)
    reach_keeps (further reach step) = step_keeps (reach_keeps reach) step
