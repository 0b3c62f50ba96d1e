-- ===== src/Channel/Tests.antt =====
-- Runs of `handleEvent` with callbacks that write a log.
use mudo_reprint.Base.{ℕ, ◌≡◌, refl, true, false, none, some, List, [], ◌∷◌, ◌++◌, Result, ok}
use mudo_reprint.Channel.{Handlers, handle_event}
use mudo_reprint.Channel.Flags.{Flags, encode}
use mudo_reprint.Channel.Dispatch.{handle_event-wanted, handle_event-error}

abbrev log : ℕ → List ℕ → Result (List ℕ)
log n s = ok (s ++ n ∷ [])

-- The read callback logs the time of its call.
abbrev handlers : Handlers ℕ (List ℕ)
handlers = record { read = some log; write = some (log 2); close = some (log 3); error = none }

abbrev with_error : Handlers ℕ (List ℕ)
with_error = record handlers { error = some (log 4) }

abbrev all_but_input : Flags
all_but_input = record {
  readable = false;
  urgent = true;
  writable = true;
  failed = true;
  hung_up = true;
  peer_closed = false;
}

handle_event-wanted_example :
    handle_event handlers (encode all_but_input) 9 [] ≡ ok (3 ∷ 9 ∷ 2 ∷ [])
handle_event-wanted_example = handle_event-wanted handlers all_but_input 9 [] refl

handle_event-error_example :
    handle_event with_error (encode all_but_input) 9 [] ≡ ok (3 ∷ 3 ∷ 9 ∷ 2 ∷ [])
handle_event-error_example = handle_event-error with_error (log 4) all_but_input 9 [] refl refl
