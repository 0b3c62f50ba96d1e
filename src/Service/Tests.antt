-- ===== src/Service/Tests.antt =====
-- The echo server takes a connection for the descriptor 8.
use mudo_reprint.Base.{
  ◌⊎◌, ℕ, List, ◌≡◌, ◌≢◌, refl, ◌∙◌, none, some, true, [], ◌∷◌, ok, err, assertion, arith, lookup,
  nat_eq, text_eq, text_beq_iff, here, next, false, fatal,
}
use mudo_reprint.Base.{inl, inr, dangling}
use mudo_reprint.Base.Int.{pos}
use mudo_reprint.Channel.{Channel, new_channel, has, is_writing}
use mudo_reprint.Buffer.{list_buffers}
use mudo_reprint.Epoller.{Reactor, k_added}
use mudo_reprint.Epoller.Kernel.{interest}
use mudo_reprint.TcpConnection.{Conn, wrote, write, received, handle_read}
use mudo_reprint.TcpConnection.Sending.{send, send_in_loop, finish_send, remaining}
use mudo_reprint.EchoServer.{test_message, test_connection}
use mudo_reprint.TcpServer.{Server, new_server, start_server}
use mudo_reprint.TcpServer.Connections.{next_name}
use mudo_reprint.Lifetime.{set_current, destroy_event_loop, Site, tcp_server, make_channel}
use mudo_reprint.Lifetime.Servers.{watches_three}
use mudo_reprint.Lifetime.Served.{alive, close_held, read_held, release}
use mudo_reprint.Service.{World, input, at_conn, put, take_connection, handle, new_connection}
use mudo_reprint.Service.Valid.{IsValid}
use mudo_reprint.Service.Accept.{
  take_connection-taken, take_connection-notified, taken-IsValid, established, notified,
}
use mudo_reprint.Service.Joined.{joined_world}
use mudo_reprint.Service.Reuse.{take_connection-reused_fd}
use mudo_reprint.Service.History.{takes, serves, Reach-IsValid}
use mudo_reprint.Service.Started.{IsOwnChannel, idle_world, tcp_server-IsValid}
use mudo_reprint.Service.Destroy.{destroy_server, destroy_server-fails}
use mudo_reprint.Service.Examples.{
  tid_of, no_loops, server, IsOwn, idle, idle-IsValid, echo, echo_gentle, room,
}

-- The server "s" for "1:2", at whose start the loop is at 1, the channels are at 2, 3 and 4, and the
-- descriptors 6, 7 and 8 are taken.
tcp_server-IsValid_example :
    ((true ≡ true)
      × ((site : Site) × (r : Reactor) × (s : Server) × (tcp_server 5 1 2 3 4 8
              (pos 6)
              (pos 7)
              true
              true
              no_loops
            ≡ ok site)
          × (site.loop ≡ some r)
          × (start_server 5 tid_of (new_server 1 5 (115 ∷ []) (49 ∷ 58 ∷ 50 ∷ [])) ≡ ok (true, s))
          × IsValid tid_of 5 (IsOwnChannel 2 3 4 6 7 8) (idle_world list_buffers 5 s r)
          × ((k : ℕ) → interest r.ctls k ≡ watches_three 2 3 4 6 7 8 k)))
    ⊎ ((true ≡ false) × (tcp_server 5 1 2 3 4 8 (pos 6) (pos 7) true true no_loops ≡ err fatal))
tcp_server-IsValid_example =
    tcp_server-IsValid list_buffers tid_of tid_of 5 1 2 3 4 6 7 8 (115 ∷ []) (49 ∷ 58 ∷ 50 ∷ [])
      no_loops refl (omega arith) (λ e. omega arith) (λ e. omega arith) (λ e. omega arith)
      (λ e. omega arith) (λ e. omega arith) (λ e. omega arith) refl true true

abbrev first : Conn list_buffers
first = established tid_of 5 IsOwn test_connection (some echo) idle idle-IsValid 100 4 8

abbrev busy : World list_buffers
busy = joined_world 100 idle.loop first idle

first-returns :
    notified tid_of 5 IsOwn test_connection (some echo) idle idle-IsValid 100 4 8 ≡ ok first
unfolding test_connection
first-returns = refl

take_connection-taken_example :
    (w' : World list_buffers) × (take_connection
        (some test_connection)
        (some echo)
        5
        tid_of
        100
        4
        8
        idle
      ≡ ok w')
    × IsValid tid_of 5 IsOwn w'
    × (w'.conns 100 ≡ some first)
    × ((mask : ℕ) × (interest w'.reactor.ctls 8 ≡ some (mask, 4)))
    × (lookup (next_name server) server.connections ≡ none)
    × (lookup (next_name server) w'.server.connections ≡ some 100)
    × ((m : ℕ) → m ≢ 100 → w'.conns m ≡ idle.conns m)
    × ((k : ℕ) → k ≢ 8 → interest w'.reactor.ctls k ≡ interest idle.reactor.ctls k)
take_connection-taken_example =
    take_connection-taken tid_of 5 IsOwn test_connection (some echo) idle idle-IsValid 100 4 8
      room.0 room.1 echo_gentle.notified_up first first-returns refl (omega arith)

busy-IsValid : IsValid tid_of 5 IsOwn busy
busy-IsValid =
    taken-IsValid tid_of 5 IsOwn test_connection (some echo) idle idle-IsValid 100 4 8 room.0 room.1
      echo_gentle.notified_up first first-returns refl (omega arith)

abbrev first_channel : Channel
first_channel = record (new_channel 0 8) { events = 1; index = k_added }

first_live : busy.reactor.channels first.channel ≡ some first_channel
unfolding new_connection new_channel
first_live = refl

take_connection-reused_fd_example :
    (w' : World list_buffers) × (at_conn (close_held (some test_connection) (some echo) 5) 100 busy
      ≡ ok w')
    × IsValid tid_of 5 IsOwn w'
    × (interest w'.reactor.ctls first_channel.fd ≡ none)
    × ((m p : ℕ)
        → w'.reactor.channels p ≡ none
        → take_connection (some test_connection) (some echo) 5 tid_of m p first_channel.fd w'
          ≡ err assertion)
take_connection-reused_fd_example =
    take_connection-reused_fd tid_of 5 IsOwn test_connection (some echo) busy busy-IsValid 100 first
      refl first_channel first_live echo_gentle.closed_quiet

busy_taken : take_connection (some test_connection) (some echo) 5 tid_of 100 4 8 idle ≡ ok busy
busy_taken =
    take_connection-notified tid_of 5 IsOwn test_connection (some echo) idle idle-IsValid 100 4 8
      room.0 room.1
    ∙ rw first-returns refl

abbrev echoed : Conn list_buffers
echoed = record first { calls = write (104 ∷ 105 ∷ []) (wrote 2) ∷ [] }

abbrev after_echo : World list_buffers
after_echo = put 100 (alive busy.server echoed) busy

echoes :
    at_conn
      (handle (some test_connection) (some echo) 5 (input (received 104 (105 ∷ [])) 0))
      100
      busy
    ≡ ok after_echo
unfolding handle read_held handle_read test_message send send_in_loop finish_send remaining
    is_writing release new_connection new_channel has make_channel
echoes = ground (arith, text_beq_iff (next_name server) (next_name server))

-- One connection is taken, and gives back two bytes.
Reach-IsValid_example :
    IsValid tid_of 5 IsOwn after_echo
    × ((n : ℕ) (c : Conn list_buffers)
        → after_echo.conns n ≡ some c
        → (fd : ℕ) × (mask : ℕ) × (interest after_echo.reactor.ctls fd ≡ some (mask, c.channel))
          × (lookup c.name after_echo.server.connections ≡ some n))
    × ((k : List ℕ) (n : ℕ)
        → lookup k after_echo.server.connections ≡ some n
        → (c : Conn list_buffers) × (after_echo.conns n ≡ some c) × (c.name ≡ k))
    × ((p fd : ℕ)
        → IsOwn p fd
        → (mask : ℕ) × (interest after_echo.reactor.ctls fd ≡ some (mask, p)))
Reach-IsValid_example =
    Reach-IsValid tid_of 5 test_connection (some echo) IsOwn idle after_echo echo_gentle
      idle-IsValid
      (next (next here (takes 100 4 8 refl room.0 (omega arith) busy_taken))
        (serves 100 (input (received 104 (105 ∷ [])) 0) echoes))

destroy_server-fails_example :
    ((r : Reactor) × (destroy_event_loop 5 3 6 (no_loops, busy.reactor)
        ≡ ok (set_current 5 none no_loops, r)))
    × (((busy.server.connections ≢ []) × (destroy_server 5 3 6 2 no_loops busy ≡ err assertion))
        ⊎ ((busy.server.connections ≡ []) × (destroy_server 5 3 6 2 no_loops busy ≡ err dangling)))
destroy_server-fails_example =
    destroy_server-fails tid_of 5 IsOwn busy busy-IsValid 3 6 2 7 9 no_loops (λ e. omega arith)
      (inl (refl, refl)) (inr (refl, refl))
