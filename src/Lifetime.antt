-- ===== src/Lifetime.antt =====
-- The constructors and destructors that register channels and remove them: those of TimerQueue
-- (TimerQueue.cpp), EventLoop (EventLoop.cpp), Acceptor (Acceptor.h, with `listen`) and TcpServer
-- (TcpServer.cpp).
--
-- The addresses of new objects are arguments: the allocator picks them. What the system calls that
-- make descriptors return is an argument too.
pub mod Channels
pub mod Loops
pub mod Threads
pub mod Servers
pub mod Served
pub mod Acceptors
pub mod Listening
mod Tests
use mudo_reprint.Base.{
  ℕ, true, false, Bool, Option, none, some, ◌==◌, if◌then◌else◌, bit_or, Result, ok, err, fatal,
  ◌>>=◌, ◌>>◌, check, deref,
}
use mudo_reprint.Base.Int.{ℤ, pos, negsuc}
use mudo_reprint.Channel.{Channel, new_channel}
use mudo_reprint.Epoller.{
  Reactor, store, update, enable_reading, disable_all, channel_remove, new_epoller,
}

-- `new Channel(loop, fd)`, by the loop of the reactor.
unfoldable pub make_channel : ℕ → ℕ → Reactor → Reactor
make_channel p fd r = store p (new_channel r.self fd) r

-- The `unique_ptr` of a channel deletes it.
unfoldable pub delete_channel : ℕ → Reactor → Reactor
delete_channel p r = record r { channels = update r.channels p none }

-- `createTimerfd` and `createEventfd`, by what the system call returns.
unfoldable pub create_fd : ℤ → Result ℕ
create_fd (pos n) = ok n
create_fd (negsuc n) = err fatal

-- `disableAll` and `remove` of the channel at `p`, and its deletion.
unfoldable pub close_channel : (here p : ℕ) → Reactor → Result Reactor
unfolding delete_channel
close_channel here p r = do
  r₁ ← disable_all here p r
  r₂ ← channel_remove here p r₁
  ok (delete_channel p r₂)

-- `TimerQueue::TimerQueue`, with the channel at `p`.
unfoldable pub timer_queue : (here p : ℕ) → ℤ → Reactor → Result Reactor
unfolding create_fd make_channel
timer_queue here p answer r = do fd ← create_fd answer; enable_reading here p (make_channel p fd r)

-- `TimerQueue::~TimerQueue`, up to the loop that deletes the timers.
unfoldable pub destroy_timer_queue : (here p : ℕ) → Reactor → Result Reactor
unfolding close_channel
destroy_timer_queue here p r = close_channel here p r

-- `t_eventLoopTid`, the thread-local pointer to the loop of a thread.
abbrev pub Current : Type 0
Current = ℕ → Option ℕ

abbrev pub set_current : ℕ → Option ℕ → Current → Current
set_current tid l current t = if t == tid then l else current t

abbrev is_null : Option ℕ → Bool
is_null none = true
is_null (some _) = false

-- The loop as its members are initialised, in their order: the epoller, then `m_tid`.
abbrev pub bare_loop : (self here : ℕ) → Reactor
bare_loop self here = record {
  self = self;
  tid = here;
  channels = λ _. none;
  epoller = new_epoller;
}

-- `EventLoop::EventLoop` at the address `self`, with its timer channel at `t` and its wake-up channel
-- at `w`.
unfoldable pub event_loop :
    (here self t w : ℕ) → (timerfd eventfd : ℤ) → Current → Result (Current × Reactor)
unfolding timer_queue create_fd make_channel
event_loop here self t w timerfd eventfd current = do
  r₁ ← timer_queue here t timerfd (bare_loop self here)
  fd ← create_fd eventfd
  let r₂ = make_channel w fd r₁
  check (is_null (current here)) fatal
  r₃ ← enable_reading here w r₂
  ok (set_current here (some self) current, r₃)

-- `EventLoop::~EventLoop`, with the members' destructors, the last member first.
unfoldable pub destroy_event_loop : (here t w : ℕ) → Current × Reactor → Result (Current × Reactor)
unfolding destroy_timer_queue delete_channel
destroy_event_loop here t w (current, r) = do
  r₁ ← channel_remove here w r
  let current' = set_current here none current
  r₂ ← destroy_timer_queue here t (delete_channel w r₁)
  ok (current', r₂)

-- `Acceptor::Acceptor` with the listening socket `fd`; `bound` says whether `bind` succeeds, where the
-- program else ends. The answer to `setReuseAddr`, before that, is not read. (The calls on the socket
-- themselves are in Lifetime.Listening.)
unfoldable pub acceptor : (p fd : ℕ) → (bound : Bool) → Reactor → Result Reactor
unfolding make_channel
acceptor p fd bound r = do let r' = make_channel p fd r; check bound fatal; ok r'

-- `heard` says whether `listen` on the socket succeeds, where the program else ends.
unfoldable pub listen : (here p : ℕ) → (heard : Bool) → Reactor → Result Reactor
listen here p heard r = do check (here == r.tid) fatal; check heard fatal; enable_reading here p r

-- `Acceptor::~Acceptor`
unfoldable pub destroy_acceptor : (here p : ℕ) → Reactor → Result Reactor
unfolding close_channel
destroy_acceptor here p r = close_channel here p r

-- The object that `m_loop` of a server points at, if it is alive, beside the thread-local pointers.
pub record Site : Type 0 where
  pub current : Current
  pub loop : Option Reactor

-- A member of the loop, or of a channel of it, called by the pointer `m_loop`.
abbrev pub through : (Reactor → Result Reactor) → Site → Result Site
through f s = do r ← deref s.loop; r' ← f r; ok (record s { loop = some r' })

-- `new EventLoop()` and `delete`.
abbrev new_loop_at : (here self t w : ℕ) → (timerfd eventfd : ℤ) → Current → Result Site
new_loop_at here self t w timerfd eventfd current = do
  (current', r) ← event_loop here self t w timerfd eventfd current
  ok (record { current = current'; loop = some r })

abbrev delete_loop : (here t w : ℕ) → Site → Result Site
delete_loop here t w s = do
  r ← deref s.loop
  (current', _) ← destroy_event_loop here t w (s.current, r)
  ok (record { current = current'; loop = none })

-- `TcpServer::TcpServer`: a loop of its own, an acceptor of that loop, and `listen`.
unfoldable pub tcp_server :
    (here self t w p fd : ℕ) → (timerfd eventfd : ℤ) → (bound heard : Bool) → Current → Result Site
unfolding event_loop acceptor listen
tcp_server here self t w p fd timerfd eventfd bound heard current = do
  s ← new_loop_at here self t w timerfd eventfd current
  s' ← through (acceptor p fd bound) s
  through (listen here p heard) s'

-- `TcpServer::~TcpServer`: the body, and then the destructor of the member `m_acceptor`. (The pool and
-- the map of connections, whose destructors come between, are taken to be empty.)
unfoldable pub destroy_tcp_server : (here t w p : ℕ) → Site → Result Site
unfolding destroy_event_loop destroy_acceptor
destroy_tcp_server here t w p s = do
  s' ← delete_loop here t w s
  through (destroy_acceptor here p) s'
