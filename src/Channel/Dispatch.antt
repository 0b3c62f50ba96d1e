-- ===== src/Channel/Dispatch.antt =====
-- Which callbacks `handleEvent` calls, and in which order.
use mudo_reprint.Base.{
  ◌≡◌, Bool, true, false, not, ◌&&◌, ◌||◌, Option, none, some, List, [], ◌∷◌, Result, ok, ◌>>=◌,
  arith,
}
use mudo_reprint.Channel.{call, Handlers, handle_event}
use mudo_reprint.Channel.Flags.{Flags, encode, has-encode}

module _ {S : Type 0} where
  -- The calls of a list one after the other, up to the first that stops.
  abbrev pub run_all : List (S → Result S) → S → Result S
  run_all [] s = ok s
  run_all (f ∷ fs) s = do s' ← f s; run_all fs s'

  abbrev keep : Bool → Option (S → Result S) → List (S → Result S) → List (S → Result S)
  keep false o fs = fs
  keep true none fs = fs
  keep true (some f) fs = f ∷ fs

module _ {Time S : Type 0} where
  abbrev at_time : Time → Option (Time → S → Result S) → Option (S → Result S)
  at_time now none = none
  at_time now (some f) = some (f now)

  -- The calls that a set of readiness flags asks for: close for a hang-up with nothing to read,
  -- then read, then write.
  abbrev pub wanted : Handlers Time S → Flags → Time → List (S → Result S)
  wanted h f now = keep (f.hung_up && not f.readable) h.close (
      keep (f.readable || f.urgent || f.peer_closed) (at_time now h.read)
        (keep f.writable h.write []))

  -- With no error callback set, as on every channel of the program, `handleEvent` makes exactly the
  -- calls that the reported flags ask for, in the order close, read, write, and stops at the first
  -- that stops.
  pub handle_event-wanted :
      (h : Handlers Time S) (f : Flags) (now : Time) (s : S)
      → h.error ≡ none
      → handle_event h (encode f) now s ≡ run_all (wanted h f now) s
  unfolding handle_event
  handle_event-wanted h f now s e = ground (arith, has-encode f)

  -- With an error callback set, an error report never reaches it: `handleEvent` calls the close
  -- callback in its place (after the one for a hang-up, if that is due too), and where no close
  -- callback is set it throws.
  pub handle_event-error :
      (h : Handlers Time S) (e : S → Result S) (f : Flags) (now : Time) (s : S)
      → h.error ≡ some e
      → f.failed ≡ true
      → handle_event h (encode f) now s ≡ (do
        s₁ ← run_all (keep (f.hung_up && not f.readable) h.close []) s
        s₂ ← call h.close s₁
        run_all
            (keep
              (f.readable || f.urgent || f.peer_closed)
              (at_time now h.read)
              (keep f.writable h.write []))
            s₂)
  unfolding handle_event
  handle_event-error h e f now s eh ef = ground (arith, has-encode f)
