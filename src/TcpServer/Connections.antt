-- ===== src/TcpServer/Connections.antt =====
-- The map of connections.
use mudo_reprint.Base.{
  ℕ, ◌+◌, ◌≤◌, ◌<◌, ◌^◌, ◌≡◌, ◌≢◌, refl, inl, inr, none, some, List, [], ◌∷◌, ◌++◌, length, arith,
  ok, err, fatal, lookup, insert, erase, IsMap, text_eq, lookup-insert, lookup-erase_ne,
  lookup-erase_self, insert-IsMap, erase-IsMap, text_beq_iff, Option-cases, if◌then◌else◌,
}
use mathlib.Core.List.{append_assoc}
use mudo_reprint.ThreadPool.{get_next_loop, Pool}
use mudo_reprint.ThreadPool.Rotation.{get_next_loop-base_tid}
use mudo_reprint.TcpServer.{
  Server, Act, establish_queued, notify, establish, conn_name, handle_new_conn, remove_connection,
}
use mudo_reprint.TcpServer.Names.{conn_name-injective}

-- Every connection in the map has the name of a number that was given out.
pub record Inv (s : Server) : Type 0 where
  pub is_map : IsMap s.connections
  pub numbered :
      (k : List ℕ) (conn : ℕ)
      → lookup k s.connections ≡ some conn
      → (n : ℕ) × (n < s.next_conn) × (k ≡ conn_name s.name s.ip_port n)
  pub short : length s.ip_port ≤ 51

abbrev pub next_name : Server → List ℕ
next_name s = conn_name s.name s.ip_port s.next_conn

-- The next name is not in the map.
pub fresh_name :
    (s : Server) → Inv s → s.next_conn < 2 ^ 31 → lookup (next_name s) s.connections ≡ none
fresh_name s v lt = elim (Option-cases (lookup (next_name s) s.connections)) [
  | inl e ↦ e
  | inr (conn, e) ↦
      let (n, below, same) = v.numbered (next_name s) conn e in
      let clash =
        conn_name-injective s.name s.ip_port s.next_conn n v.short lt (omega (arith, below, lt))
          same in
      absurd (omega (arith, clash, below))
]

-- The server with one connection more.
abbrev pub joined : ℕ → Server → Server
joined conn s = record s {
  next_conn = s.next_conn + 1;
  connections = insert (next_name s) conn s.connections;
  acts = [];
}

module _ (conn : ℕ) (s : Server) (v : Inv s) (lt : s.next_conn < 2 ^ 31) where
  inserted-numbered :
      (k : List ℕ) (c : ℕ)
      → lookup k (insert (next_name s) conn s.connections) ≡ some c
      → (n : ℕ) × (n < s.next_conn + 1) × (k ≡ conn_name s.name s.ip_port n)
  inserted-numbered k c e = elim (Option-cases (lookup k s.connections)) [
    | inl fresh ↦ (
      s.next_conn,
      omega arith,
      ground
          (arith, lookup-insert k (next_name s) conn s.connections, text_beq_iff k (next_name s)),
    )
    | inr (d, old) ↦ let (n, below, same) = v.numbered k d old in (n, omega (arith, below), same)
  ]

  pub joined-Inv : Inv (joined conn s)
  joined-Inv = record {
    is_map = insert-IsMap (next_name s) conn s.connections v.is_map;
    numbered = inserted-numbered;
    short = v.short;
  }

module _ (tid_of : ℕ → ℕ) where
  -- What `handleNewConn` leads to where the pool gives `loop`.
  abbrev pub accepted : ℕ → ℕ → ℕ → Pool → Server → Server
  accepted here conn loop pool s =
      let acts = s.acts ++ establish tid_of here loop conn ∷ [] in
      record s {
        next_conn = s.next_conn + 1;
        pool = pool;
        connections = insert (next_name s) conn s.connections;
        acts = if s.has_conn_cb then acts ++ notify conn ∷ [] else acts;
      }

  pub accepted_lem :
      (here conn loop : ℕ) (pool : Pool) (s : Server)
      → get_next_loop here s.pool ≡ ok (loop, pool)
      → handle_new_conn tid_of here conn s ≡ ok (accepted here conn loop pool s)
  unfolding handle_new_conn
  accepted_lem here conn loop pool s answer = rw answer refl

  -- A pool that has an answer.
  module _ (here conn loop : ℕ) (pool : Pool) (s : Server) (v : Inv s) (lt : s.next_conn < 2 ^ 31)
      (answer : get_next_loop here s.pool ≡ ok (loop, pool)) where
    -- Whenever the pool gives a loop, with the counter in the range of int and the invariant, by
    -- which the address has at most 51 bytes: a new connection is put into the map under a name that
    -- no other has, so none is overwritten; the rest of the map and the invariant are kept.
    pub handle_new_conn-Inv :
        (s' : Server) × (handle_new_conn tid_of here conn s ≡ ok s')
        × Inv s'
        × (lookup (next_name s) s.connections ≡ none)
        × (lookup (next_name s) s'.connections ≡ some conn)
        × ((k : List ℕ) → k ≢ next_name s → lookup k s'.connections ≡ lookup k s.connections)
    handle_new_conn-Inv = (
      accepted here conn loop pool s,
      accepted_lem here conn loop pool s answer,
      record {
        is_map = insert-IsMap (next_name s) conn s.connections v.is_map;
        numbered = inserted-numbered conn s v lt;
        short = v.short;
      },
      fresh_name s v lt,
      ground (
        arith,
        lookup-insert (next_name s) (next_name s) conn s.connections,
        text_beq_iff (next_name s) (next_name s),
      ),
      λ k ne.
          ground
            (arith, lookup-insert k (next_name s) conn s.connections, text_beq_iff k (next_name s)),
    )

  -- When the pool gives a loop that runs in another thread than the server's, that loop is handed the
  -- connection, and a call of `removeConnection` for it in that loop's thread fails the check there.
  pub handle_new_conn-unremovable :
      (here conn loop : ℕ) (pool : Pool) (s : Server)
      → get_next_loop here s.pool ≡ ok (loop, pool)
      → tid_of loop ≢ s.pool.base_tid
      → (s' : Server) × (rest : List Act) × (handle_new_conn tid_of here conn s ≡ ok s')
        × (s'.acts ≡ s.acts ++ establish_queued loop conn ∷ rest)
        × (lookup (next_name s) s'.connections ≡ some conn)
        × (remove_connection (tid_of loop) (next_name s) s' ≡ err fatal)
  unfolding remove_connection
  handle_new_conn-unremovable here conn loop pool s answer other =
      let (thread, base) = get_next_loop-base_tid here s.pool answer in
      (
        accepted here conn loop pool s,
        if s.has_conn_cb then notify conn ∷ [] else [],
        accepted_lem here conn loop pool s answer,
        ground
            (arith, append_assoc s.acts (establish tid_of here loop conn ∷ []) (notify conn ∷ [])),
        ground (
          arith,
          lookup-insert (next_name s) (next_name s) conn s.connections,
          text_beq_iff (next_name s) (next_name s),
        ),
        ground arith,
      )

-- The server without the connection of this name.
abbrev pub without_conn : List ℕ → Server → Server
without_conn name s = record s { connections = erase name s.connections }

pub without_conn-Inv : (name : List ℕ) (s : Server) → Inv s → Inv (without_conn name s)
without_conn-Inv name s v = record {
  is_map = erase-IsMap name s.connections v.is_map;
  numbered = λ k c e. v.numbered k c (ground (arith, erased-lookup k c e));
  short = v.short;
}
  where
    erased-lookup :
        (k : List ℕ) (c : ℕ)
        → lookup k (erase name s.connections) ≡ some c
        → lookup k s.connections ≡ some c
    erased-lookup k c e = ground (
      arith,
      text_beq_iff k name,
      lookup-erase_ne k name s.connections,
      lookup-erase_self name s.connections v.is_map,
    )

-- In the server's own thread and with the invariant, `removeConnection` takes a connection that is in
-- the map out of it, and no other, and keeps the invariant.
pub remove_connection-Inv :
    (here conn : ℕ) (name : List ℕ) (s : Server)
    → Inv s
    → here ≡ s.pool.base_tid
    → lookup name s.connections ≡ some conn
    → (s' : Server) × (remove_connection here name s ≡ ok s')
      × Inv s'
      × (lookup name s'.connections ≡ none)
      × ((k : List ℕ) → k ≢ name → lookup k s'.connections ≡ lookup k s.connections)
unfolding remove_connection
remove_connection-Inv here conn name s v thread there = (
  without_conn name s,
  ground arith,
  without_conn-Inv name s v,
  lookup-erase_self name s.connections v.is_map,
  λ k ne. lookup-erase_ne k name s.connections ne,
)
