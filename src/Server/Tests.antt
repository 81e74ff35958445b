-- ===== src/Server/Tests.antt =====
-- The theorems on the servers at concrete arguments.
use making_chat_on_c.Base.{◌+◌, ◌≡◌, refl, [], ◌∷◌, ◌++◌, some, length, codes, arith}
use making_chat_on_c.Os.{elapsed, gettimeofday}
use making_chat_on_c.Os.Feed.{feed, all_succeed}
use making_chat_on_c.Client.Lines.{exit_line}
use making_chat_on_c.Server.Datagram.{dgram_loop, s_ipv4_udp}
use making_chat_on_c.Server.Delivery.{bytes_total, s_ipv4_udp_receives_all}
use making_chat_on_c.Os.Ledger.{ReleasesAll}
use making_chat_on_c.Server.Dispatch.{mmap, serve, server_main}
use making_chat_on_c.Server.Release.{serve-ReleasesAll, server_main-ReleasesAll}

serve-ReleasesAll_example : ReleasesAll 32768 (serve 32768 [] (codes "9000") mmap)
serve-ReleasesAll_example = serve-ReleasesAll 32768 [] (codes "9000") mmap (omega arith)

server_main-ReleasesAll_example :
    ReleasesAll 32768 (
      server_main 32768 []
        (codes "stnc" ∷ codes "-s" ∷ codes "9000" ∷ codes "-p" ∷ codes "-q" ∷ []))
server_main-ReleasesAll_example =
    server_main-ReleasesAll 32768 []
      (codes "stnc" ∷ codes "-s" ∷ codes "9000" ∷ codes "-p" ∷ codes "-q" ∷ []) (omega arith)

s_ipv4_udp_receives_all_example :
    (feed all_succeed
        (codes "one\n" ∷ (codes "two\n" ∷ []) ++ exit_line ∷ [])
        (dgram_loop 3 3 [] 0 0)
      ≡ some (length (codes "one\n") + bytes_total (codes "two\n" ∷ []), []))
    × (feed all_succeed
          (codes "one\n" ∷ (codes "two\n" ∷ []) ++ exit_line ∷ [])
          (s_ipv4_udp 3 [] (codes "9000"))
        ≡ some (elapsed (all_succeed gettimeofday) (all_succeed gettimeofday), []))
s_ipv4_udp_receives_all_example =
    s_ipv4_udp_receives_all all_succeed 3 3 [] (codes "one\n") (codes "two\n" ∷ []) (codes "9000")
      refl refl refl (omega arith) refl (omega arith, refl, tt) (omega arith) (omega arith)
