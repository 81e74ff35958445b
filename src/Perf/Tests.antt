-- ===== src/Perf/Tests.antt =====
-- Concrete inputs for the tests of task3_making-chat-on-c/prartb_2.c.
use making_chat_on_c.Base.{◌+◌, ◌≡◌, true, [], ◌∷◌, arith, codes}
use making_chat_on_c.Os.{fault, call, gettimeofday}
use making_chat_on_c.Os.Guarantee.{Ensures}
use making_chat_on_c.Os.Ledger.{Ledger, descriptor}
use making_chat_on_c.Perf.{write_all, send_all}
use making_chat_on_c.Perf.Inet.{transmit_ipv4_udp, transmit_ipv6_tcp, transmit_ipv6_udp}
use making_chat_on_c.Perf.Local.{
  transmit_uds_dgram, transmit_uds_stream, transmit_mmap, transmit_pipe,
}
use making_chat_on_c.Perf.Server.{transmit_server}
use making_chat_on_c.Perf.Transfer.{transmit_all, accept_step, Delivered, Never}
use making_chat_on_c.Perf.Overflow.{transmits_overflow}

abbrev no_handles : Ledger
no_handles = record { held = []; taken = []; handed = []; reads = 0 }

abbrev one_socket : Ledger
one_socket = record { held = descriptor 4 ∷ descriptor 3 ∷ []; taken = []; handed = []; reads = 0 }

transmit_all_example :
    Ensures accept_step (Delivered (1 ∷ 2 ∷ 3 ∷ [])) Never [] (write_all 4 5 (1 ∷ 2 ∷ 3 ∷ []))
    × Ensures accept_step (Delivered (1 ∷ 2 ∷ 3 ∷ [])) Never [] (send_all 4 5 (1 ∷ 2 ∷ 3 ∷ []))
transmit_all_example = transmit_all 5 (1 ∷ 2 ∷ 3 ∷ [])

-- The 104857600 bytes of the program.
transmits_overflow_example :
    (transmit_ipv4_udp (26214400 + 26214400) 4 (codes "::1") (codes "80") true ≡ fault)
    × (transmit_ipv6_tcp (26214400 + 26214400) 4 5 true ≡ call gettimeofday (λ t. fault))
    × (transmit_ipv6_udp (26214400 + 26214400) 4 5 (codes "::1") (codes "80") true ≡ fault)
    × (transmit_uds_dgram (26214400 + 26214400) 4 5 (codes "::1") true ≡ fault)
    × (transmit_uds_stream (26214400 + 26214400) 4 5 true ≡ fault)
    × (transmit_mmap (26214400 + 26214400) 3 4 true ≡ fault)
    × (transmit_pipe (26214400 + 26214400) 5 (codes "::1") true ≡ fault)
    × (transmit_server (26214400 + 26214400) 3 4 5 true ≡ fault)
transmits_overflow_example =
    transmits_overflow 26214400 (omega arith) 3 4 5 (codes "::1") (codes "80") true
