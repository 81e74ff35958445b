-- ===== src/Pipeline/Tests.antt =====
-- The theorems on the pipeline at concrete numbers.
use making_chat_on_c.Base.{
  ◌⊎◌, ◌<◌, ◌+◌, inl, ℕ, ◌*◌, ◌≡◌, Bool, true, false, List, [], ◌∷◌, some, leb, refl, arith,
}
use making_chat_on_c.Base.Int.{pos}
use making_chat_on_c.Pipeline.{
  is_prime, generate, no_odd_factor, part_d_b, part_d_c, part_d_d, plus, minus, show_prime,
  to_unsigned, Shown,
}
use making_chat_on_c.Pipeline.Shared.{
  Follower, part_b, part_c, part_d, holds, Shared, at_rest, IsThrough, before_b, before_c, before_d,
  SharedReach, feed, begin, further,
}
use making_chat_on_c.Pipeline.Stages.{Prints}
use making_chat_on_c.Pipeline.Drains.{ComesThrough, reach-Prints}
use making_chat_on_c.Pipeline.Races.{AnyTime, turn, first_number_lost}
use making_chat_on_c.Pipeline.Prime.{Decides, is_prime-Decides}
use making_chat_on_c.Pipeline.Numbers.{printed}

-- A square root that is rounded so that the test is exact.
abbrev exact : ℕ → ℕ → Bool
exact i num = leb (i * i) num

is_prime-Decides_example : Decides (is_prime exact 32768 1000003) 1000003
is_prime-Decides_example =
    is_prime-Decides exact (λ i num small. refl) 32768 1000003 (omega arith) (omega arith)

abbrev always : Follower → Bool
always p = true

-- 100007 has gone through the pipeline alone.
abbrev one_out : Shared
one_out = record {
  cell = holds (pos 100007);
  drawn = 7 ∷ [];
  second = at_rest;
  third = at_rest;
  fourth = at_rest;
  shown = printed 100007 false false;
  broken = false;
}

one_out-SharedReach : SharedReach exact 32768 1 always IsThrough one_out
unfolding part_d_b part_d_c part_d_d plus minus show_prime to_unsigned is_prime no_odd_factor
    generate
one_out-SharedReach =
    let fed = further begin (feed 7 (inl refl) (omega arith)) in
    let b =
      turn exact 32768 1 always IsThrough part_b 0 (pos 100007) (pos 100018) _ refl fed refl refl
        refl refl refl in
    let c =
      turn exact 32768 1 always IsThrough part_c 0 (pos 100018) (pos 100005) _ refl b refl refl refl
        refl refl in
    turn exact 32768 1 always IsThrough part_d 0 (pos 100005) (pos 100007) _ refl c refl refl refl
      refl refl

reach-Prints_example :
    (one_out.broken ≡ false)
    × (Prints one_out.drawn one_out.shown
        ⊎ (0 < before_b one_out + before_c one_out + before_d one_out))
    × ComesThrough exact (λ i num small. refl) 32768 (omega arith) 1 always refl refl one_out
reach-Prints_example =
    reach-Prints exact (λ i num small. refl) 32768 (omega arith) 1 always refl refl
      one_out-SharedReach

first_number_lost_example :
    ((out : List Shown) × ((first : ℕ)
        → (s : Shared) × SharedReach exact 32768 2 always AnyTime s
          × IsThrough s
          × (s.drawn ≡ 7 ∷ first ∷ [])
          × (s.shown ≡ out)))
    × ((s : Shared) × SharedReach exact 32768 1 always AnyTime s × (s.broken ≡ true))
first_number_lost_example =
    first_number_lost exact (λ i num small. refl) 32768 (omega arith) always 7 refl refl

is_prime_997 : is_prime exact 20 997 ≡ some 1
unfolding is_prime no_odd_factor
is_prime_997 = refl

is_prime_961 : is_prime exact 20 961 ≡ some 0
unfolding is_prime no_odd_factor
is_prime_961 = refl
