-- ===== src/Early/Typed.antt =====
-- The chat of task3_making-chat-on-c/partb.c next to that of stnc.c.
use making_chat_on_c.Base.{
  ℕ, zero, suc, ◌≡◌, refl, List, [], ◌∷◌, Option, none, some, reads_as, if◌then◌else◌,
}
use making_chat_on_c.Os.{ret, exit, call, ◌>>◌, sys, print, read, send, shutdown}
use making_chat_on_c.Chat.{terminated, send_typed}
use making_chat_on_c.Early.Chat.{typed_loop}

module _ (sock : ℕ) where
  -- The loop over standard input is that of stnc.c if nothing but the `shutdown` follows it.
  pub typed_loop-send_typed :
      (fuel : ℕ)
      → typed_loop fuel (λ bytes. do sys (send sock bytes); ret tt) (sys (shutdown sock))
        ≡ send_typed fuel sock
  unfolding typed_loop send_typed terminated
  typed_loop-send_typed zero = refl
  typed_loop-send_typed (suc fuel) =
      λ i. call (read 0 1024) (λ got. chunk got (typed_loop-send_typed fuel) i)
    where
      chunk :
          (got : Option (List ℕ))
          → typed_loop fuel (λ bytes. do sys (send sock bytes); ret tt) (sys (shutdown sock))
            ≡ send_typed fuel sock
          → elim got [
            | none ↦ sys (shutdown sock)
            | some [] ↦ sys (shutdown sock)
            | some (b ∷ bytes) ↦ terminated (b ∷ bytes) λ buffer.
                if reads_as buffer "exit\n"
                then (do sys (print "client leaves the chat..." []); exit 0)
                else (do
                  (do sys (send sock (b ∷ bytes)); ret (tt {0}))
                  typed_loop fuel (λ bytes. do sys (send sock bytes); ret tt) (sys (shutdown sock)))
          ]
            ≡ elim got [
              | none ↦ sys (shutdown sock)
              | some [] ↦ sys (shutdown sock)
              | some (b ∷ bytes) ↦ terminated (b ∷ bytes) λ buffer.
                  if reads_as buffer "exit\n"
                  then (do sys (print "client leaves the chat..." []); exit 0)
                  else (do sys (send sock (b ∷ bytes)); send_typed fuel sock)
            ]
      chunk none same = refl
      chunk (some []) same = refl
      chunk (some (b ∷ bytes)) same = λ i. terminated (b ∷ bytes) λ buffer.
          if reads_as buffer "exit\n"
          then (do sys (print "client leaves the chat..." []); exit 0)
          else (do sys (send sock (b ∷ bytes)); same i)
