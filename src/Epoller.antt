-- ===== src/Epoller.antt =====
-- Epoller.h and Epoller.cpp, with the members of Channel that go through the loop (`update`,
-- `remove`, `enableReading` and the like) and EventLoop's `updateChannel` and `removeChannel`.
--
-- A `Channel *` is an address in `channels`. A call of `epoll_ctl` is recorded, newest first; the
-- program reads its result only to write a log line. The thread that runs a member is its first
-- argument.
pub mod Kernel
pub mod Invariant
pub mod Update
pub mod Refinement
pub mod Remove
pub mod Poll
pub mod History
pub mod Effects
pub mod Print
pub mod Serving
pub mod Leaving
pub mod Examples
mod Tests
use mudo_reprint.Base.{
  ℕ, ◌*◌, ◌≤◌, bit_or, Bool, true, false, not, ◌&&◌, ◌||◌, Option, none, some, List, [], ◌∷◌, ◌++◌,
  ◌==◌, leb, if◌then◌else◌, length, Result, ok, err, assertion, fatal, ◌>>=◌, ◌>>◌, check, deref,
  Dict, lookup, insert, erase, contains, nat_eq,
}
use mudo_reprint.Base.Int.{ℤ, pos, negsuc, eqb_ℤ}
use mudo_reprint.Channel.{Channel, without, epollin, epollout, is_none_event, set_revent}

abbrev pub k_new : ℤ
k_new = negsuc 0

abbrev pub k_added : ℤ
k_added = pos 1

abbrev pub k_deleted : ℤ
k_deleted = pos 2

pub data Op : Type 0 where
  ctl_add ctl_mod ctl_del : Op

-- `epoll_ctl(m_epollfd, op, fd, &event)`, with `event.data.ptr` and `event.events`.
pub record Ctl : Type 0 where
  pub op : Op
  pub fd : ℕ
  pub ptr : ℕ
  pub events : ℕ

-- `slots` is `m_events.size()`.
pub record Epoller : Type 0 where
  pub channel_map : Dict ℕ ℕ
  pub slots : ℕ
  pub ctls : List Ctl

-- The epoller, the loop that owns it, and the channels that are alive.
pub record Reactor : Type 0 where
  pub self : ℕ
  pub tid : ℕ
  pub channels : ℕ → Option Channel
  pub epoller : Epoller
  pub open epoller use *

abbrev k_init_event_list_size : ℕ
k_init_event_list_size = 16

unfoldable pub new_epoller : Epoller
new_epoller = record { channel_map = []; slots = k_init_event_list_size; ctls = [] }

abbrev pub update : (ℕ → Option Channel) → ℕ → Option Channel → ℕ → Option Channel
update f p v q = if q == p then v else f q

abbrev pub store : ℕ → Channel → Reactor → Reactor
store p c r = record r { channels = update r.channels p (some c) }

abbrev pub ctl : Op → ℕ → Channel → Ctl
ctl op p c = record { op = op; fd = c.fd; ptr = p; events = c.events }

update_event : Op → ℕ → Channel → Reactor → Reactor
update_event op p c r = record r { epoller = record r.epoller { ctls = ctl op p c ∷ r.ctls } }

-- `m_channelMap[fd] == channel`, where `fd` is a key.
abbrev pub maps_to : ℕ → ℕ → Dict ℕ ℕ → Bool
maps_to fd p m = elim (lookup fd m) [ none ↦ false | some q ↦ q == p ]

-- The map in the branch for kNew and kDeleted.
register : ℕ → Channel → Dict ℕ ℕ → Result (Dict ℕ ℕ)
register p c m =
    if eqb_ℤ c.index k_new
    then (do check (not (contains c.fd m)) assertion; ok (insert c.fd p m))
    else (do check (contains c.fd m) assertion; check (maps_to c.fd p m) assertion; ok m)

-- The branch for kAdded.
modify : ℕ → Channel → Reactor → Result Reactor
unfolding update_event is_none_event
modify p c r = do
  check (contains c.fd r.channel_map) assertion
  check (maps_to c.fd p r.channel_map) assertion
  check (eqb_ℤ c.index k_added) assertion
  ok (
      if is_none_event c
      then store p (record c { index = k_deleted }) (update_event ctl_del p c r)
      else update_event ctl_mod p c r)

add : ℕ → Channel → Reactor → Result Reactor
unfolding register update_event
add p c r = do
  m ← register p c r.channel_map
  ok (
      update_event ctl_add p c (
        store p (record c { index = k_added })
          (record r { epoller = record r.epoller { channel_map = m } })))

-- `Epoller::updateChannel`
pub update_channel : ℕ → Reactor → Result Reactor
unfolding modify add
update_channel p r = do
  c ← deref (r.channels p)
  if eqb_ℤ c.index k_new || eqb_ℤ c.index k_deleted then add p c r else modify p c r

-- `Epoller::removeChannel`
pub remove_channel : ℕ → Reactor → Result Reactor
unfolding update_event
remove_channel p r = do
  c ← deref (r.channels p)
  check (contains c.fd r.channel_map) assertion
  check (maps_to c.fd p r.channel_map) assertion
  check (eqb_ℤ c.index k_added || eqb_ℤ c.index k_deleted) assertion
  let r₁ = record r { epoller = record r.epoller { channel_map = erase c.fd r.channel_map } }
  let r₂ = if eqb_ℤ c.index k_added then update_event ctl_del p c r₁ else r₁
  ok (store p (record c { index = k_new }) r₂)

-- `Channel::update`, through `EventLoop::updateChannel`.
pub channel_update : ℕ → ℕ → Reactor → Result Reactor
unfolding update_channel
channel_update here p r = do
  check (here == r.tid) fatal
  c ← deref (r.channels p)
  check (c.own_loop == r.self) assertion
  update_channel p r

-- `Channel::remove`, through `EventLoop::removeChannel`.
pub channel_remove : ℕ → ℕ → Reactor → Result Reactor
unfolding remove_channel
channel_remove here p r = do
  check (here == r.tid) fatal
  c ← deref (r.channels p)
  check (c.own_loop == r.self) assertion
  remove_channel p r

-- `m_events = f(m_events); update();`
abbrev pub update_with : (ℕ → ℕ) → ℕ → ℕ → Reactor → Result Reactor
update_with f here p r = do
  c ← deref (r.channels p)
  channel_update here p (store p (record c { events = f c.events }) r)

abbrev pub enable_reading : ℕ → ℕ → Reactor → Result Reactor
enable_reading = update_with (λ m. bit_or m epollin)

-- This one ends in `remove`, not in `update`.
pub disable_reading : ℕ → ℕ → Reactor → Result Reactor
unfolding channel_remove
disable_reading here p r = do
  c ← deref (r.channels p)
  channel_remove here p (store p (record c { events = without c.events epollin }) r)

abbrev pub enable_write : ℕ → ℕ → Reactor → Result Reactor
enable_write = update_with (λ m. bit_or m epollout)

abbrev pub disable_write : ℕ → ℕ → Reactor → Result Reactor
disable_write = update_with (λ m. without m epollout)

abbrev pub disable_all : ℕ → ℕ → Reactor → Result Reactor
disable_all = update_with (λ _. 0)

-- What `epoll_wait` reports: for each ready entry its pointer and its event word, or an error.
pub data Ready : Type 0 where
  events : List (ℕ × ℕ) → Ready
  failure : (errno : ℕ) → Ready

pub fill_active_channels : List (ℕ × ℕ) → List ℕ → Reactor → Result (List ℕ × Reactor)
unfolding set_revent
fill_active_channels [] active r = ok (active, r)
fill_active_channels ((p, event) ∷ es) active r = do
  c ← deref (r.channels p)
  fill_active_channels es (active ++ p ∷ []) (store p (set_revent event c) r)

-- `if (numEvents == m_events.size()) m_events.resize(m_events.size() * 2);`
abbrev grow : ℕ → Reactor → Reactor
grow n r =
    if n == r.slots then record r { epoller = record r.epoller { slots = r.slots * 2 } } else r

filled : List (ℕ × ℕ) → List ℕ → Reactor → Result (List ℕ × Reactor)
filled es active r = do
  check (leb (length es) r.slots) assertion
  (found, r') ← fill_active_channels es active r
  ok (found, grow (length es) r')

-- `Epoller::poll`: nothing changes when nothing is ready or when the wait fails.
pub poll : Ready → List ℕ → Reactor → Result (List ℕ × Reactor)
unfolding filled
poll (events []) active r = ok (active, r)
poll (events (e ∷ es)) active r = filled (e ∷ es) active r
poll (failure errno) active r = ok (active, r)
