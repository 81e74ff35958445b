-- ===== src/Client/Dispatch.antt =====
-- `client_main` of task3_making-chat-on-c/client.c: it sends the two words of the command line over
-- the control connection and then runs the transport that they name.
use making_chat_on_c.Base.{
  ℕ, ◌&&◌, ◌∷◌, List, Option, none, some, length, ltb, bytes_eq, codes, if◌then◌else◌,
}
use making_chat_on_c.Os.{
  Text, Prog, ret, exit, fault, ◌>>=◌, ◌>>◌, sys, die, require, unwrap, Domain, Kind, host, literal,
  socket, connect, send, close, usleep,
}
use making_chat_on_c.Server.Dispatch.{
  Protocol, ipv4_tcp, ipv4_udp, ipv6_tcp, ipv6_udp, mmap, pipe, uds_dgram, uds_stream,
}
use making_chat_on_c.Client.Lines.{c_ipv4_tcp, c_uds_stream, c_ipv4_udp, c_ipv6_udp}
use making_chat_on_c.Client.Blocks.{c_ipv6_tcp, c_uds_dgram, c_mmap, c_pipe}

-- The ladder of `strcmp` on `argv[5]` and `argv[6]`.
unfoldable pub select : Text → Text → Option Protocol
select first second =
    if bytes_eq first (codes "ipv4") && bytes_eq second (codes "tcp")
    then some ipv4_tcp
    else if bytes_eq first (codes "ipv4") && bytes_eq second (codes "udp")
    then some ipv4_udp
    else if bytes_eq first (codes "ipv6") && bytes_eq second (codes "tcp")
    then some ipv6_tcp
    else if bytes_eq first (codes "ipv6") && bytes_eq second (codes "udp")
    then some ipv6_udp
    else if bytes_eq first (codes "mmap") && bytes_eq second (codes "filename")
    then some mmap
    else if bytes_eq first (codes "pipe") && bytes_eq second (codes "filename")
    then some pipe
    else if bytes_eq first (codes "uds") && bytes_eq second (codes "dgram")
    then some uds_dgram
    else if bytes_eq first (codes "uds") && bytes_eq second (codes "stream")
    then some uds_stream
    else none

-- The call in each branch; its result is dropped.
unfoldable pub transmit : ℕ → Text → Text → Protocol → Prog (Unit {0})
transmit fuel ip port ipv4_tcp = c_ipv4_tcp fuel ip port >> ret tt
transmit fuel ip port ipv4_udp = c_ipv4_udp fuel ip port >> ret tt
transmit fuel ip port ipv6_tcp = c_ipv6_tcp fuel ip port
transmit fuel ip port ipv6_udp = c_ipv6_udp fuel ip port >> ret tt
transmit fuel ip port mmap = c_mmap fuel ip port >> ret tt
transmit fuel ip port pipe = c_pipe fuel >> ret tt
transmit fuel ip port uds_dgram = c_uds_dgram >> ret tt
transmit fuel ip port uds_stream = c_uds_stream fuel >> ret tt

unfoldable pub transmit_selected : ℕ → Text → Text → Option Protocol → Prog ℕ
transmit_selected fuel ip port none = exit 1
transmit_selected fuel ip port (some protocol) = transmit fuel ip port protocol >> ret 0

-- The control connection: the two words go in two sends, a tenth of a second apart.
unfoldable pub send_words : Text → Text → Prog (Unit {0})
send_words first second = do
  fd ← unwrap (← sys (socket Domain.inet Kind.stream)) (die "socket")
  require (← sys (connect fd (host (codes "127.0.0.1") (literal 8000)))) (die "connect")
  unwrap (← sys (send fd first)) (die "send")
  sys (usleep 100000)
  unwrap (← sys (send fd second)) (die "send")
  sys (close fd)
  sys (usleep 100000)
  ret tt

-- `strcpy` of a word into its 1024 bytes.
unfoldable pub copy_word : Text → Prog Text
copy_word word = if ltb (length word) 1024 then ret word else fault

-- `argc` is at least 7, or the program exits.
unfoldable pub client_main : ℕ → List Text → Prog ℕ
unfolding copy_word send_words transmit_selected
client_main fuel (name ∷ mode ∷ ip ∷ port ∷ flag ∷ word₁ ∷ word₂ ∷ rest) = do
  first ← copy_word word₁
  second ← copy_word word₂
  send_words first second
  transmit_selected fuel ip port (select word₁ word₂)
client_main fuel argv = exit 1
