-- ===== src/Channel/Safety.antt =====
-- `handleEvent` with callbacks that keep a property of the state.
pub mod Alive
use mudo_reprint.Base.{
  ℕ, ◌≡◌, refl, Bool, true, false, Option, none, some, Result, ok, if◌then◌else◌,
}
use mudo_reprint.Channel.{
  Handlers, call_if_set, call_read_if_set, handle_event, on_hup, on_error, on_readable, on_writable,
}

module _ {S : Type 0} (P : S → Type 0) where
  -- The call returns, and the property holds after it.
  abbrev pub Keeps : Result S → Type 0
  Keeps m = (s : S) × (m ≡ ok s) × P s

  Keeps-if : (b : Bool) (m : Result S) (s : S) → Keeps m → P s → Keeps (if b then m else ok s)
  Keeps-if true m s k p = k
  Keeps-if false m s k p = (s, refl, p)

  -- The callbacks that are set keep the property, and there is none for errors.
  pub record AllKeep {Time : Type 0} (h : Handlers Time S) : Type 0 where
    pub read :
        (f : Time → S → Result S) → h.read ≡ some f → (now : Time) (s : S) → P s → Keeps (f now s)
    pub write : (f : S → Result S) → h.write ≡ some f → (s : S) → P s → Keeps (f s)
    pub close : (f : S → Result S) → h.close ≡ some f → (s : S) → P s → Keeps (f s)
    pub no_error : h.error ≡ none

  call_if_set-Keeps :
      (o : Option (S → Result S))
      → ((f : S → Result S) → o ≡ some f → (s : S) → P s → Keeps (f s))
      → (s : S) → P s
      → Keeps (call_if_set o s)
  call_if_set-Keeps none k s p = (s, refl, p)
  call_if_set-Keeps (some f) k s p = k f refl s p

  call_read-Keeps :
      {Time : Type 0} (o : Option (Time → S → Result S))
      → ((f : Time → S → Result S) → o ≡ some f → (now : Time) (s : S) → P s → Keeps (f now s))
      → (now : Time) (s : S) → P s
      → Keeps (call_read_if_set o now s)
  call_read-Keeps none k now s p = (s, refl, p)
  call_read-Keeps (some f) k now s p = k f refl now s p

  on_error-Keeps :
      {Time : Type 0} (h : Handlers Time S) (revent : ℕ) (s : S)
      → h.error ≡ none
      → P s
      → Keeps (on_error h revent s)
  unfolding on_error
  on_error-Keeps h revent s e p = rw e (Keeps-if _ _ s (s, refl, p) p)

  module _ {Time : Type 0} (h : Handlers Time S) (k : AllKeep h) (revent : ℕ) where
    on_hup-Keeps : (s : S) → P s → Keeps (on_hup h revent s)
    unfolding on_hup
    on_hup-Keeps s p = Keeps-if _ _ s (call_if_set-Keeps h.close k.close s p) p

    on_readable-Keeps : (now : Time) (s : S) → P s → Keeps (on_readable h revent now s)
    unfolding on_readable
    on_readable-Keeps now s p = Keeps-if _ _ s (call_read-Keeps h.read k.read now s p) p

    on_writable-Keeps : (s : S) → P s → Keeps (on_writable h revent s)
    unfolding on_writable
    on_writable-Keeps s p = Keeps-if _ _ s (call_if_set-Keeps h.write k.write s p) p

    -- Whatever events are reported.
    pub handle_event-Keeps : (now : Time) (s : S) → P s → Keeps (handle_event h revent now s)
    unfolding handle_event
    handle_event-Keeps now s p =
        let (s₁, e₁, p₁) = on_hup-Keeps s p in
        let (s₂, e₂, p₂) = on_error-Keeps h revent s₁ k.no_error p₁ in
        let (s₃, e₃, p₃) = on_readable-Keeps now s₂ p₂ in
        let (s₄, e₄, p₄) = on_writable-Keeps s₃ p₃ in (s₄, rw (e₁, e₂, e₃) e₄, p₄)
