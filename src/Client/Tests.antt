-- ===== src/Client/Tests.antt =====
-- The theorems on the clients at concrete arguments, and runs of the choices.
use making_chat_on_c.Base.{◌≡◌, ◌++◌, ◌∷◌, [], refl, none, some, codes, ZeroFree, arith}
use making_chat_on_c.Server.Dispatch.{ipv4_tcp, choose}
use making_chat_on_c.Client.Agreement.{choose-select}
use making_chat_on_c.Client.Dispatch.{select}
use making_chat_on_c.Client.Sends.{Sends}

words_meet : select (codes "ipv4") (codes "tcp") ≡ some ipv4_tcp
unfolding select
words_meet = refl

udp_free : ZeroFree (codes "udp")
udp_free = (omega arith, (omega arith, (omega arith, tt)))

ipv4_free : ZeroFree (codes "ipv4")
ipv4_free = (omega arith, (omega arith, (omega arith, (omega arith, tt))))

choose-select_example :
    (choose (codes "ipv4" ++ 0 ∷ []) (codes "udp" ++ 0 ∷ []) ≡ select (codes "ipv4") (codes "udp"))
    × (choose ((codes "ipv4" ++ codes "udp") ++ 0 ∷ []) (0 ∷ []) ≡ none)
choose-select_example = choose-select (codes "ipv4") (codes "udp") ipv4_free udp_free
