-- ===== src/EchoServer/Server.antt =====
-- main.cpp: the server of `testTcpServer`, up to the call of `loop()`.
use mudo_reprint.Base.{
  ℕ, ◌≡◌, refl, ◌≢◌, none, some, true, List, [], ◌∷◌, ◌++◌, Result, ok, ◌>>=◌, arith, show, Bool,
}
use mudo_reprint.Base.Int.{ℤ, pos}
use mudo_reprint.Epoller.{Reactor}
use mudo_reprint.Epoller.Kernel.{interest}
use mudo_reprint.Lifetime.{Current, Site, set_current, tcp_server}
use mudo_reprint.Lifetime.Servers.{tcp_server_lem, watches_three}
use mudo_reprint.ThreadPool.{new_pool, set_thread_num, start, start_threads}
use mudo_reprint.TcpServer.{Server, new_server, set_threads, start_server}

abbrev echoserver : List ℕ
echoserver = b'e' ∷ b'c' ∷ b'h' ∷ b'o' ∷ b's' ∷ b'e' ∷ b'r' ∷ b'v' ∷ b'e' ∷ b'r' ∷ []

-- `setConnectionCallback`; that of the messages is in the callbacks of a connection.
abbrev set_connection_callback : Server → Server
set_connection_callback s = record s { has_conn_cb = true }

-- `ip_port` is the text of the address, and `start_loop i` the loop of the thread `i`.
unfoldable test_tcp_server :
    (here self t w p fd : ℕ)
    → (timerfd eventfd : ℤ) → (bound heard : Bool) → Current
    → (start_loop : ℕ → ℕ) → (ip_port : List ℕ) → Result (Site × Server)
test_tcp_server here self t w p fd timerfd eventfd bound heard current start_loop ip_port = do
  site ← tcp_server here self t w p fd timerfd eventfd bound heard current
  let server = set_connection_callback (new_server self here echoserver ip_port)
  (_, started) ← start_server here start_loop (set_threads 3 server)
  ok (site, started)

module _ (here self t w p a b fd : ℕ) (current : Current) (start_loop : ℕ → ℕ)
    (ip_port : List ℕ) where
  -- With three addresses and three descriptors that differ, in a thread that has no loop, and where bind
  -- and listen succeed: the kernel
  -- watches the listening socket, the timer descriptor and the eventfd, and the pool has the loops of
  -- three threads, whose names follow that of the server.
  test_tcp_server_lem :
      t ≢ w
      → p ≢ t
      → p ≢ w
      → a ≢ b
      → fd ≢ a
      → fd ≢ b
      → current here ≡ none
      → (site : Site) × (r : Reactor) × (s : Server) × (test_tcp_server here self t w p fd
            (pos a)
            (pos b)
            true
            true
            current
            start_loop
            ip_port
          ≡ ok (site, s))
        × (site.loop ≡ some r)
        × ((k : ℕ) → interest r.ctls k ≡ watches_three t w p a b fd k)
        × (s.is_started ≡ true)
        × (s.has_conn_cb ≡ true)
        × (s.pool.loops ≡ start_loop 0 ∷ start_loop 1 ∷ start_loop 2 ∷ [])
        × (s.pool.threads
            ≡ (echoserver ++ show 0) ∷ (echoserver ++ show 1) ∷ (echoserver ++ show 2) ∷ [])
  unfolding test_tcp_server new_server start_server set_threads new_pool set_thread_num start
      start_threads
  test_tcp_server_lem d₁ d₂ d₃ d₄ d₅ d₆ e =
      let (r, made, _, i, _) = tcp_server_lem here self t w p a b fd current d₁ d₂ d₃ d₄ d₅ d₆ e in
      let pool = record (new_pool self here echoserver) {
        thread_num = 3;
        threads = (echoserver ++ show 0) ∷ (echoserver ++ show 1) ∷ (echoserver ++ show 2) ∷ [];
        loops = start_loop 0 ∷ start_loop 1 ∷ start_loop 2 ∷ [];
        started = true;
      } in
      (
        record { current = set_current here (some self) current; loop = some r },
        r,
        record (new_server self here echoserver ip_port) {
          is_started = true;
          has_conn_cb = true;
          pool = pool;
        },
        rw made (ground arith),
        refl,
        i,
        refl,
        refl,
        refl,
        refl,
      )
