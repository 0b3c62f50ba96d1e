-- ===== src/Channel.antt =====
-- Channel.h and Channel.cpp: the mask arithmetic and the dispatch of `handleEvent`. The members that
-- call the event loop (`update`, `remove` and what uses them) are in Epoller, over the loop's state.
pub mod Flags
pub mod Dispatch
pub mod Safety
mod Tests
use mudo_reprint.Base.{
  ℕ, ◌-◌, ◌^◌, bit_and, bit_or, Bool, not, ◌&&◌, Option, none, some, ◌==◌, if◌then◌else◌, Result,
  ok, err, bad_function_call, ◌>>=◌,
}
use mudo_reprint.Base.Int.{ℤ, negsuc}

-- The bits of <sys/epoll.h>.
abbrev pub epollin : ℕ
epollin = 0x001

abbrev pub epollpri : ℕ
epollpri = 0x002

abbrev pub epollout : ℕ
epollout = 0x004

abbrev pub epollerr : ℕ
epollerr = 0x008

abbrev pub epollhup : ℕ
epollhup = 0x010

abbrev pub epollrdhup : ℕ
epollrdhup = 0x2000

-- `m & bit` as a condition.
unfoldable pub has : ℕ → ℕ → Bool
has m bit = not (bit_and m bit == 0)

-- `m & ~bit` on 32-bit words.
abbrev pub without : ℕ → ℕ → ℕ
without m bit = bit_and m (2 ^ 32 - 1 - bit)

-- The object that the epoller points at. `fd` is a descriptor, which is never negative, and
-- `own_loop` names the event loop; the four callbacks are in `Handlers`.
pub record Channel : Type 0 where
  pub fd : ℕ
  pub index : ℤ
  pub own_loop : ℕ
  pub events : ℕ
  pub revent : ℕ

unfoldable pub new_channel : (loop fd : ℕ) → Channel
new_channel loop fd = record { fd = fd; index = negsuc 0; own_loop = loop; events = 0; revent = 0 }

unfoldable pub is_writing : Channel → Bool
is_writing c = has c.events epollout

unfoldable pub is_none_event : Channel → Bool
is_none_event c = c.events == 0

unfoldable pub set_revent : ℕ → Channel → Channel
set_revent event c = record c { revent = event }

-- The callbacks, as what each does to a state `S`; `none` is an empty `std::function`.
pub record Handlers (Time S : Type 0) : Type 0 where
  pub read : Option (Time → S → Result S)
  pub write : Option (S → Result S)
  pub close : Option (S → Result S)
  pub error : Option (S → Result S)

module _ {S : Type 0} where
  -- `if (cb) cb();`
  abbrev pub call_if_set : Option (S → Result S) → S → Result S
  call_if_set none s = ok s
  call_if_set (some f) s = f s

  -- `cb()`, which throws if `cb` is empty.
  abbrev pub call : Option (S → Result S) → S → Result S
  call none s = err bad_function_call
  call (some f) s = f s

  abbrev is_set : Option (S → Result S) → Bool
  is_set none = Bool.false
  is_set (some _) = Bool.true

module _ {Time S : Type 0} where
  abbrev pub call_read_if_set : Option (Time → S → Result S) → Time → S → Result S
  call_read_if_set none now s = ok s
  call_read_if_set (some f) now s = f now s

  on_hup : Handlers Time S → ℕ → S → Result S
  on_hup h revent s =
      if has revent epollhup && not (has revent epollin) then call_if_set h.close s else ok s

  -- The test is of the error callback, and the call is of the close callback.
  on_error : Handlers Time S → ℕ → S → Result S
  on_error h revent s =
      if has revent epollerr then (if is_set h.error then call h.close s else ok s) else ok s

  on_readable : Handlers Time S → ℕ → Time → S → Result S
  on_readable h revent now s =
      if has revent (bit_or epollin (bit_or epollpri epollrdhup))
      then call_read_if_set h.read now s
      else ok s

  on_writable : Handlers Time S → ℕ → S → Result S
  on_writable h revent s = if has revent epollout then call_if_set h.write s else ok s

  pub handle_event : Handlers Time S → ℕ → Time → S → Result S
  unfolding on_hup on_error on_readable on_writable
  handle_event h revent now s = do
    s₁ ← on_hup h revent s
    s₂ ← on_error h revent s₁
    s₃ ← on_readable h revent now s₂
    on_writable h revent s₃
