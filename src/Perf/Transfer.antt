-- ===== src/Perf/Transfer.antt =====
-- The loops of task3_making-chat-on-c/prartb_2.c that hand over all data through calls that take
-- some of it each.
use making_chat_on_c.Base.{
  ℕ, zero, suc, ◌==◌, ◌<◌, ◌≤◌, ◌≡◌, ◌∙◌, sym, ap, refl, Bool, true, false, List, [], ◌∷◌, ◌++◌,
  Option, some, length, take, drop, arith, length-drop, take-drop,
}
use mathlib.Core.List.{append-nil, append_assoc}
use making_chat_on_c.Os.{Call, Answer, send, write}
use making_chat_on_c.Os.Guarantee.{Ensures, Checks, Ensures-of_Checks}
use making_chat_on_c.Perf.{write_all, send_all}

-- The bytes that were taken, oldest first.
abbrev pub accept_step : (c : Call) → Answer c → List ℕ → List ℕ
accept_step (write fd bytes) (some n) taken = taken ++ take n bytes
accept_step (send fd bytes) (some n) taken = taken ++ take n bytes
accept_step c r taken = taken

-- All of `bytes` was taken, or the answer is `false`.
abbrev pub Delivered : List ℕ → Bool → List ℕ → Type 0
Delivered bytes true taken = taken ≡ bytes
Delivered bytes false taken = Unit {0}

-- The program neither exits nor runs out of fuel.
abbrev pub Never : {S : Type 0} → Option ℕ → S → Type 0
Never status taken = ⊥

-- What is left after `n` bytes.
split_on :
    (all taken bytes : List ℕ) (n : ℕ)
    → all ≡ taken ++ bytes
    → all ≡ (taken ++ take n bytes) ++ drop n bytes
split_on all taken bytes n e =
    e
    ∙ ap (λ l. taken ++ l) (sym (take-drop n bytes))
    ∙ sym (append_assoc taken (take n bytes) (drop n bytes))

not_empty : (n : ℕ) → (suc n == 0) ≡ false
not_empty n = ground arith

-- Each call takes at least one byte, so that a round of fuel for each byte is enough.
fewer :
    (n b : ℕ) (bytes : List ℕ) (fuel : ℕ)
    → n ≤ length (b ∷ bytes)
    → 0 < n
    → length (b ∷ bytes) < suc fuel
    → length (drop n (b ∷ bytes)) < fuel
fewer n b bytes fuel le some_taken enough = omega (arith, length-drop n (b ∷ bytes) le)

write_all-Checks :
    (fuel fd : ℕ) (all bytes taken : List ℕ)
    → all ≡ taken ++ bytes
    → length bytes < fuel
    → Checks accept_step (Delivered all) Never taken (write_all fuel fd bytes)
unfolding write_all
write_all-Checks zero fd all bytes taken e enough = absurd (omega arith)
write_all-Checks (suc fuel) fd all [] taken e enough = sym (e ∙ append-nil taken)
write_all-Checks (suc fuel) fd all (b ∷ bytes) taken e enough =
    rw (not_empty (length bytes), Checks)
      (
        tt,
        λ n le least.
            write_all-Checks fuel fd all (drop n (b ∷ bytes)) _ (split_on all taken (b ∷ bytes) n e)
              (fewer n b bytes fuel le (least (omega arith)) enough),
      )

send_all-Checks :
    (fuel fd : ℕ) (all bytes taken : List ℕ)
    → all ≡ taken ++ bytes
    → length bytes < fuel
    → Checks accept_step (Delivered all) Never taken (send_all fuel fd bytes)
unfolding send_all
send_all-Checks zero fd all bytes taken e enough = absurd (omega arith)
send_all-Checks (suc fuel) fd all [] taken e enough = sym (e ∙ append-nil taken)
send_all-Checks (suc fuel) fd all (b ∷ bytes) taken e enough =
    rw (not_empty (length bytes), Checks)
      (
        tt,
        λ n le least.
            send_all-Checks fuel fd all (drop n (b ∷ bytes)) _ (split_on all taken (b ∷ bytes) n e)
              (fewer n b bytes fuel le (least (omega arith)) enough),
      )

-- The two loops that transmit the data end, however little each call takes, within one round more
-- than there are bytes. If no call fails, exactly the bytes of the data were taken, in order; if
-- one fails, the loop ends with `false`.
pub transmit_all :
    (fd : ℕ) (bytes : List ℕ)
    → Ensures accept_step (Delivered bytes) Never [] (write_all (suc (length bytes)) fd bytes)
      × Ensures accept_step (Delivered bytes) Never [] (send_all (suc (length bytes)) fd bytes)
transmit_all fd bytes = (
  Ensures-of_Checks accept_step (Delivered bytes) Never [] (write_all (suc (length bytes)) fd bytes)
      (write_all-Checks (suc (length bytes)) fd bytes bytes [] refl (omega arith)),
  Ensures-of_Checks accept_step (Delivered bytes) Never [] (send_all (suc (length bytes)) fd bytes)
      (send_all-Checks (suc (length bytes)) fd bytes bytes [] refl (omega arith)),
)
