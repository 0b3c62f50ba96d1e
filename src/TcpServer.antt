-- ===== src/TcpServer.antt =====
-- TcpServer.h and TcpServer.cpp. Connections and loops are known by numbers; `tid_of` gives the thread
-- of a loop.
pub mod Names
pub mod Connections
pub mod Handover
mod Tests
use mudo_reprint.Base.{
  ℕ, ◌+◌, Bool, true, false, not, List, [], ◌∷◌, ◌++◌, ◌==◌, if◌then◌else◌, Result, ok, err,
  assertion, fatal, ◌>>=◌, ◌>>◌, check, Dict, insert, erase, contains, text_eq, show, snprintf,
}
use mudo_reprint.ThreadPool.{Pool, new_pool, set_thread_num, start, get_next_loop}

-- What the server makes others do, in order: `connectEstablished` of a connection, either at once or
-- by the queue of its loop, and the user's connection callback.
pub data Act : Type 0 where
  establish_now : (loop conn : ℕ) → Act
  establish_queued : (loop conn : ℕ) → Act
  notify : (conn : ℕ) → Act

pub record Server : Type 0 where
  pub name : List ℕ
  pub ip_port : List ℕ
  pub is_started : Bool
  pub has_conn_cb : Bool
  pub connections : Dict (List ℕ) ℕ
  pub next_conn : ℕ
  pub pool : Pool
  pub acts : List Act

unfoldable pub new_server : (loop tid : ℕ) (name ip_port : List ℕ) → Server
new_server loop tid name ip_port = record {
  name = name;
  ip_port = ip_port;
  is_started = false;
  has_conn_cb = false;
  connections = [];
  next_conn = 1;
  pool = new_pool loop tid name;
  acts = [];
}

-- `setThreadNum`, whose assertion a natural number satisfies.
unfoldable pub set_threads : ℕ → Server → Server
set_threads n s = record s { pool = set_thread_num n s.pool }

-- `start`, up to the call of `loop()`; the flag is whether that follows.
unfoldable pub start_server : ℕ → (ℕ → ℕ) → Server → Result (Bool × Server)
start_server here start_loop s = if s.is_started then ok (false, s) else (do
  pool ← start here start_loop s.pool
  ok (true, record s { is_started = true; pool = pool }))

-- `m_name + buf`, with `buf` of 64 bytes filled by "-%s#%d".
abbrev pub conn_name : List ℕ → List ℕ → ℕ → List ℕ
conn_name name ip_port n = name ++ snprintf 64 (b'-' ∷ ip_port ++ b'#' ∷ show n)

module _ (tid_of : ℕ → ℕ) where
  -- `loop->runInLoop(std::bind(&TcpConnection::connectEstablished, tcpConnection))`
  abbrev pub establish : ℕ → ℕ → ℕ → Act
  establish here loop conn =
      if tid_of loop == here then establish_now loop conn else establish_queued loop conn

  -- `handleNewConn`, with the connection object `conn` that it creates.
  pub handle_new_conn : ℕ → ℕ → Server → Result Server
  handle_new_conn here conn s = do
    let name = conn_name s.name s.ip_port s.next_conn
    (loop, pool) ← get_next_loop here s.pool
    let acts = s.acts ++ establish here loop conn ∷ []
    ok (record s {
      next_conn = s.next_conn + 1;
      pool = pool;
      connections = insert name conn s.connections;
      acts = if s.has_conn_cb then acts ++ notify conn ∷ [] else acts;
    })

-- `removeConnection`, with the name of the connection.
unfoldable pub remove_connection : ℕ → List ℕ → Server → Result Server
remove_connection here name s = do
  check (here == s.pool.base_tid) fatal
  let s' = record s { connections = erase name s.connections }
  check (contains name s.connections) assertion
  ok s'
