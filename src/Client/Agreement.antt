-- ===== src/Client/Agreement.antt =====
-- The two words of the command line of task3_making-chat-on-c/client.c, and what the control
-- connection of server.c makes of them.
use making_chat_on_c.Base.{
  ℕ, ◌≡◌, refl, ap, Bool, true, false, ◌&&◌, List, [], ◌∷◌, ◌++◌, none, String, bytes_eq, codes,
  c_string, reads_as, ZeroFree, arith,
}
use making_chat_on_c.Os.{Text}
use making_chat_on_c.Server.Dispatch.{choose}
use making_chat_on_c.Client.Dispatch.{select}

c_string-ZeroFree : (word : Text) → ZeroFree word → c_string (word ++ 0 ∷ []) ≡ word
c_string-ZeroFree [] free = refl
c_string-ZeroFree (b ∷ word) (positive, free) = ground (arith, c_string-ZeroFree word free)

same :
    (word : Text) (text : String)
    → ZeroFree word
    → reads_as (word ++ 0 ∷ []) text ≡ bytes_eq word (codes text)
same word text free = ap (λ w. bytes_eq w (codes text)) (c_string-ZeroFree word free)

and_false : (b : Bool) → (b && false) ≡ false
and_false true = refl
and_false false = refl

-- Whatever the first buffer holds.
nothing : (buffer : List ℕ) → choose buffer (0 ∷ []) ≡ none
unfolding choose
nothing buffer = simp and_false

-- The server chooses the transport that the client selects, for every two words without a zero
-- byte: if each of them comes in a `recv` of its own, `server_main` chooses what `client_main`
-- selects, none included. If both come in the first `recv`, the server chooses none.
pub choose-select :
    (first second : Text)
    → ZeroFree first
    → ZeroFree second
    → (choose (first ++ 0 ∷ []) (second ++ 0 ∷ []) ≡ select first second)
      × (choose ((first ++ second) ++ 0 ∷ []) (0 ∷ []) ≡ none)
unfolding choose select
choose-select first second first_free second_free = (
  rw
      (
        same first "ipv4" first_free,
        same first "ipv6" first_free,
        same first "mmap" first_free,
        same first "pipe" first_free,
        same first "uds" first_free,
        same second "tcp" second_free,
        same second "udp" second_free,
        same second "filename" second_free,
        same second "dgram" second_free,
        same second "stream" second_free,
      )
      refl,
  nothing ((first ++ second) ++ 0 ∷ []),
)
