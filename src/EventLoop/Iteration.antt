-- ===== src/EventLoop/Iteration.antt =====
-- One round of `EventLoop::loop`: poll, the events of the active channels, the pending functors.
--
-- The state is any `S` that has the loop's reactor in it; the callbacks of the channel at an address,
-- and `doPendingFunctor`, are functions on it.
use mudo_reprint.Base.{
  ℕ, ◌≤◌, ◌<◌, ◌≡◌, refl, some, List, [], ◌∷◌, map, All, length, Result, ok, ◌>>=◌, deref,
}
use mudo_reprint.Channel.{Channel, Handlers, handle_event}
use mudo_reprint.Channel.Safety.{Keeps, AllKeep, handle_event-Keeps}
use mudo_reprint.Epoller.{Reactor, Ready, events, poll}
use mudo_reprint.Epoller.Kernel.{interest}
use mudo_reprint.Epoller.Invariant.{Inv}
use mudo_reprint.Epoller.Poll.{IsReported, poll-Inv, reported_live}

-- The part of the state that is the reactor.
pub record HasReactor (S : Type 0) : Type 0 where
  pub get : S → Reactor
  pub set : Reactor → S → S
  pub get-set : (r : Reactor) (s : S) → get (set r s) ≡ r

module _ {S Time : Type 0} (part : HasReactor S) (handlers : ℕ → Handlers Time S)
    (drain : S → Result S) where
  open part use {get, set}

  pub dispatch : List ℕ → Time → S → Result S
  dispatch [] now s = ok s
  dispatch (p ∷ ps) now s = do
    c ← deref ((get s).channels p)
    s' ← handle_event (handlers p) c.revent now s
    dispatch ps now s'

  -- `m_activeChannels` is cleared first.
  pub iteration : Ready → Time → S → Result S
  unfolding dispatch
  iteration ready now s = do
    (active, r) ← poll ready [] (get s)
    s' ← dispatch active now (set r s)
    drain s'

  abbrev pub IsAlive : ℕ → S → Type 0
  IsAlive p s = (c : Channel) × ((get s).channels p ≡ some c)

  -- The reactor has its invariant, and the channels of a list are alive.
  abbrev pub IsReady : List ℕ → S → Type 0
  IsReady ps s = Inv (get s) × All (λ p. IsAlive p s) ps

  dispatch-Keeps :
      (all ps : List ℕ) (now : Time) (s : S)
      → ((t : S) → IsReady all t → All (λ p. IsAlive p t) ps)
      → ((p : ℕ) → AllKeep (IsReady all) (handlers p))
      → IsReady all s
      → Keeps (IsReady all) (dispatch ps now s)
  unfolding dispatch
  dispatch-Keeps all [] now s sub k v = (s, refl, v)
  dispatch-Keeps all (p ∷ ps) now s sub k v =
      let (c, live) = (sub s v).0 in
      let (s₁, e₁, v₁) = handle_event-Keeps (IsReady all) (handlers p) (k p) c.revent now s v in
      let (s₂, e₂, v₂) = dispatch-Keeps all ps now s₁ (λ t w. (sub t w).1) k v₁ in
      (s₂, rw (live, e₁) e₂, v₂)

  reported-alive :
      (es : List (ℕ × ℕ)) (r r' : Reactor)
      → Inv r'
      → r'.ctls ≡ r.ctls
      → All (IsReported r) es
      → All (λ p. (c : Channel) × (r'.channels p ≡ some c)) (map (λ w. w.0) es)
  reported-alive [] r r' v same h = tt
  reported-alive ((p, e) ∷ es) r r' v same h =
      let (fd, mask, entry) = h.0 in
      let entry' : interest r'.ctls fd ≡ some (mask, p) = rw same entry in
      let (c, live, _) = reported_live r' v (p, e) (fd, mask, entry') in
      ((c, live), reported-alive es r r' v same h.1)

  -- In a reactor with its invariant, when the kernel reports entries of its interest list, no more
  -- of them than there are slots, and the callbacks and the functors return, keep the invariant and
  -- destroy none of the reported channels: then one round of `loop` follows no dangling pointer,
  -- fails no assertion, and leaves the invariant and those channels.
  pub iteration-IsReady :
      (es : List (ℕ × ℕ)) (now : Time) (s : S)
      → Inv (get s)
      → All (IsReported (get s)) es
      → length es ≤ (get s).slots
      → 0 < (get s).slots
      → ((p : ℕ) → AllKeep (IsReady (map (λ w. w.0) es)) (handlers p))
      → ((t : S) → IsReady (map (λ w. w.0) es) t → Keeps (IsReady (map (λ w. w.0) es)) (drain t))
      → Keeps (IsReady (map (λ w. w.0) es)) (iteration (events es) now s)
  unfolding iteration
  iteration-IsReady es now s v reported fits some_slot k drains =
      let all = map (λ w. w.0) es in
      let (r, polled, v₁, _, same, _) = poll-Inv es [] (get s) v reported fits some_slot in
      let start : IsReady all (set r s) =
        rw (part.get-set r s) (v₁, reported-alive es (get s) r v₁ same reported) in
      let (s₂, e₂, v₂) = dispatch-Keeps all all now (set r s) (λ t w. w.1) k start in
      let (s₃, e₃, v₃) = drains s₂ v₂ in (s₃, rw (polled, e₂) e₃, v₃)
