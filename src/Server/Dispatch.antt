-- ===== src/Server/Dispatch.antt =====
-- `server_main` of task3_making-chat-on-c/server.c: the two words that the client sends choose the
-- transport, which is run and timed.
use making_chat_on_c.Base.{
  ℕ, ◌++◌, ◌&&◌, String, List, [], ◌∷◌, Option, none, some, reads_as, if◌then◌else◌, ltb, length,
}
use making_chat_on_c.Base.Int.{ℤ}
use making_chat_on_c.Os.{
  Text, Prog, ret, exit, fault, ◌>>=◌, ◌>>◌, sys, die, require, unwrap, Domain, Kind, any_host,
  literal, socket, bind, listen, accept, recv, close, report,
}
use making_chat_on_c.Server.Stream.{s_ipv4_tcp, s_ipv6_tcp, s_uds_stream, s_pipe}
use making_chat_on_c.Server.Datagram.{s_ipv4_udp, s_ipv6_udp, s_uds_dgram, s_mmap}

pub data Protocol : Type 0 where
  ipv4_tcp ipv4_udp ipv6_tcp ipv6_udp mmap pipe uds_dgram uds_stream : Protocol

-- The ladder of `strcmp` on the two received buffers.
unfoldable pub choose : List ℕ → List ℕ → Option Protocol
choose first second =
    if reads_as first "ipv4" && reads_as second "tcp"
    then some ipv4_tcp
    else if reads_as first "ipv4" && reads_as second "udp"
    then some ipv4_udp
    else if reads_as first "ipv6" && reads_as second "tcp"
    then some ipv6_tcp
    else if reads_as first "ipv6" && reads_as second "udp"
    then some ipv6_udp
    else if reads_as first "mmap" && reads_as second "filename"
    then some mmap
    else if reads_as first "pipe" && reads_as second "filename"
    then some pipe
    else if reads_as first "uds" && reads_as second "dgram"
    then some uds_dgram
    else if reads_as first "uds" && reads_as second "stream"
    then some uds_stream
    else none

unfoldable pub protocol_name : Protocol → String
protocol_name ipv4_tcp = "ipv4_tcp"
protocol_name ipv4_udp = "ipv4_udp"
protocol_name ipv6_tcp = "ipv6_tcp"
protocol_name ipv6_udp = "ipv6_udp"
protocol_name mmap = "mmap"
protocol_name pipe = "pipe"
protocol_name uds_dgram = "uds_dgram"
protocol_name uds_stream = "uds_stream"

-- `garbage` is the stack memory under the buffers of the datagram servers.
unfoldable pub serve : ℕ → List ℕ → Text → Protocol → Prog ℤ
serve fuel garbage port ipv4_tcp = s_ipv4_tcp fuel port
serve fuel garbage port ipv4_udp = s_ipv4_udp fuel garbage port
serve fuel garbage port ipv6_tcp = s_ipv6_tcp fuel port
serve fuel garbage port ipv6_udp = s_ipv6_udp fuel port
serve fuel garbage port mmap = s_mmap fuel port
serve fuel garbage port pipe = s_pipe fuel
serve fuel garbage port uds_dgram = s_uds_dgram fuel garbage
serve fuel garbage port uds_stream = s_uds_stream fuel

-- From the choice on.
unfoldable pub serve_chosen : ℕ → List ℕ → Text → Option Protocol → Prog ℕ
serve_chosen fuel garbage port none = exit 1
serve_chosen fuel garbage port (some protocol) = do
  time ← serve fuel garbage port protocol
  sys (report (protocol_name protocol) time)
  ret 0

-- `buffer[i][num_bytes] = '\0'` in an array of 1024 bytes.
unfoldable pub word : {A : Type 0} → List ℕ → (List ℕ → Prog A) → Prog A
word bytes k = if ltb (length bytes) 1024 then k (bytes ++ 0 ∷ []) else fault

-- The control connection on port 8000: the two words, each ended by a zero.
unfoldable pub receive_words : Prog (List ℕ × List ℕ)
unfolding word
receive_words = do
  server ← unwrap (← sys (socket Domain.inet Kind.stream)) (die "socket")
  require (← sys (bind server (any_host (literal 8000)))) (die "bind")
  require (← sys (listen server 1)) (die "listen")
  client ← unwrap (← sys (accept server)) (die "accept")
  received ← unwrap (← sys (recv client 1023)) (die "recv")
  word received λ first. do
    received ← unwrap (← sys (recv client 1023)) (die "recv")
    word received λ second. do sys (close client); sys (close server); ret (first, second)

-- `argc` is at least 5, or the program exits.
unfoldable pub server_main : ℕ → List ℕ → List Text → Prog ℕ
unfolding receive_words serve_chosen
server_main fuel garbage (name ∷ mode ∷ port ∷ arg₃ ∷ arg₄ ∷ rest) = do
  (first, second) ← receive_words
  serve_chosen fuel garbage port (choose first second)
server_main fuel garbage argv = exit 1
