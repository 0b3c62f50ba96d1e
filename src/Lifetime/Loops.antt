-- ===== src/Lifetime/Loops.antt =====
-- An event loop from its constructor to its destructor: what it registers, what it leaves, and that a
-- thread has one loop at a time.
use mudo_reprint.Base.{
  ℕ, ◌≡◌, refl, ◌≢◌, ◌∙◌, sym, inl, inr, Option, none, some, lookup, nat_eq, arith, ◌==◌, ok,
  Bool-cases, bit_or, if◌then◌else◌, ◌||◌,
}
use mudo_reprint.Base.Int.{pos}
use mudo_reprint.Channel.{Channel, new_channel, epollin}
use mudo_reprint.Epoller.{Reactor, k_new, enable_reading}
use mudo_reprint.Epoller.Kernel.{interest}
use mudo_reprint.Epoller.Invariant.{Inv, new_reactor-Inv, new_reactor_lem}
use mudo_reprint.Epoller.Remove.{IsRegistered}
use mudo_reprint.Epoller.Effects.{Touches, Touches-trans, channel_remove-Touches}
use mudo_reprint.Lifetime.{
  Current, set_current, destroy_event_loop, timer_queue, destroy_timer_queue, create_fd,
  make_channel, delete_channel, bare_loop,
}
use mudo_reprint.Lifetime.Channels.{
  make_and_update, close_channel-Touches, IsMasked-IsRegistered, IsRegistered-IsUsable,
  delete_channel-Inv, delete_channel-Touches,
}

-- The timer channel and the wake-up channel of a loop in the thread `here`, both alive and registered.
pub record HasBoth (r : Reactor) (here t w a b : ℕ) : Type 0 where
  pub valid : Inv r
  pub timer : Channel
  pub wakeup : Channel
  pub timer_registered : IsRegistered r here t timer
  pub wakeup_registered : IsRegistered r here w wakeup
  pub timer_fd : timer.fd ≡ a
  pub wakeup_fd : wakeup.fd ≡ b

IsRegistered-Touches :
    {p q fd here : ℕ} {r s : Reactor} {c : Channel}
    → Touches p fd r s
    → q ≢ p
    → IsRegistered r here q c
    → IsRegistered s here q c
IsRegistered-Touches x d g = record {
  in_thread = g.in_thread ∙ sym x.same_tid;
  live = x.channels_same _ d ∙ g.live;
  owned = g.owned ∙ sym x.same_self;
  used = g.used;
}

-- What touches another channel leaves these two registered.
pub HasBoth-Touches :
    {here t w a b p fd : ℕ} {r s : Reactor}
    → Touches p fd r s
    → t ≢ p
    → w ≢ p
    → Inv s
    → HasBoth r here t w a b
    → HasBoth s here t w a b
HasBoth-Touches x d e v h = record {
  valid = v;
  timer = h.timer;
  wakeup = h.wakeup;
  timer_registered = IsRegistered-Touches x d h.timer_registered;
  wakeup_registered = IsRegistered-Touches x e h.wakeup_registered;
  timer_fd = h.timer_fd;
  wakeup_fd = h.wakeup_fd;
}

deleted_none : (p : ℕ) (r : Reactor) → (delete_channel p r).channels p ≡ none
unfolding delete_channel
deleted_none p r = ground arith

deleted_ctls : (p : ℕ) (r : Reactor) → (delete_channel p r).ctls ≡ r.ctls
unfolding delete_channel
deleted_ctls p r = refl

module _ (here t w a b : ℕ) (t_ne_w : t ≢ w) where
  -- A loop that is destroyed in its own thread, with its two channels registered: no assertion fails,
  -- the thread has no loop, the two channels are deleted, and the kernel watches their descriptors no
  -- more and all others as before.
  pub destroy_event_loop_lem :
      (current : Current) (r : Reactor)
      → HasBoth r here t w a b
      → (r' : Reactor) × (destroy_event_loop here t w (current, r)
          ≡ ok (set_current here none current, r'))
        × Inv r'
        × (r'.channels t ≡ none)
        × (r'.channels w ≡ none)
        × ((k : ℕ) → interest r'.ctls k ≡ (if k == a || k == b then none else interest r.ctls k))
  unfolding destroy_event_loop destroy_timer_queue
  destroy_event_loop_lem current r h =
      let (r₁, e₁, v₁, s₁, n, m, i) =
        channel_remove-Touches here w r h.wakeup h.valid h.wakeup_registered in
      let s₂ = Touches-trans s₁ (delete_channel-Touches w h.wakeup.fd r₁) in
      let v₂ = delete_channel-Inv r₁ v₁ w (record h.wakeup { index = k_new }) n refl in
      let g = IsRegistered-IsUsable (IsRegistered-Touches s₂ t_ne_w h.timer_registered) in
      let (r₃, e₃, v₃, s₃, n₃, m₃, i₃) =
        close_channel-Touches here t (delete_channel w r₁) h.timer v₂ g in
      (
        r₃,
        rw (e₁, e₃) refl,
        v₃,
        n₃,
        s₃.channels_same w (λ e. t_ne_w (sym e)) ∙ deleted_none w r₁,
        λ k. elim (Bool-cases (k == a)) [
          | inl x ↦ ground (arith, i₃, h.timer_fd)
          | inr x ↦ elim (Bool-cases (k == b)) [
            | inl y ↦
                ground (arith, s₃.interest_same k, h.timer_fd, i, h.wakeup_fd, deleted_ctls w r₁)
            | inr y ↦
                ground (arith, s₃.interest_same k, s₂.interest_same k, h.timer_fd, h.wakeup_fd)
          ]
        ],
      )

-- The kernel watches the timer descriptor and the eventfd for EPOLLIN, and no other.
abbrev pub watches_both : (t w a b k : ℕ) → Option (ℕ × ℕ)
watches_both t w a b k =
    if k == b then some (epollin, w) else if k == a then some (epollin, t) else none

-- A loop just constructed: its two channels are the only ones alive, and what it watches.
pub record IsFresh (r : Reactor) (here t w a b : ℕ) : Type 0 where
  pub both : HasBoth r here t w a b
  pub watched : (k : ℕ) → interest r.ctls k ≡ watches_both t w a b k
  pub others_free : (q : ℕ) → q ≢ t → q ≢ w → r.channels q ≡ none
  pub others_unused : (k : ℕ) → k ≢ a → k ≢ b → lookup k r.channel_map ≡ none

module _ (here self t w a b : ℕ) (t_ne_w : t ≢ w) (a_ne_b : a ≢ b) where
  -- What the constructors of the members and the two last lines of the constructor's body do.
  pub loop_parts :
      (r₁ r₃ : Reactor) × (timer_queue here t (pos a) (bare_loop self here) ≡ ok r₁)
      × (enable_reading here w (make_channel w b r₁) ≡ ok r₃)
      × IsFresh r₃ here t w a b
  unfolding timer_queue create_fd new_channel
  loop_parts =
      let r₀ = bare_loop self here in
      let (r₁, e₁, v₁, s₁, k₁, i₁) =
        make_and_update here t a r₀ (new_reactor-Inv self here) refl refl
          ((new_reactor_lem self here a).0) (λ m. bit_or m epollin) in
      let (r₃, e₃, v₃, s₃, k₃, i₃) =
        make_and_update here w b r₁ v₁ (sym s₁.same_tid) (s₁.channels_same w (λ e. t_ne_w (sym e)))
          (s₁.map_same b (λ e. a_ne_b (sym e)) ∙ (new_reactor_lem self here b).0)
          (λ m. bit_or m epollin) in
      (
        r₁,
        r₃,
        e₁,
        e₃,
        record {
          both = record {
            valid = v₃;
            timer = k₁.channel;
            wakeup = k₃.channel;
            timer_registered =
                IsRegistered-Touches s₃ t_ne_w (
                  IsMasked-IsRegistered here t a epollin r₀ r₁ (new_channel self a) refl refl s₁
                    k₁);
            wakeup_registered =
                IsMasked-IsRegistered here w b epollin r₁ r₃ (new_channel r₁.self b)
                  (sym s₁.same_tid) refl s₃ k₃;
            timer_fd = k₁.same_fd;
            wakeup_fd = k₃.same_fd;
          };
          watched = λ k. elim (Bool-cases (k == b)) [
            | inl x ↦ ground (arith, i₃)
            | inr x ↦ elim (Bool-cases (k == a)) [
              | inl y ↦ ground (arith, s₃.interest_same k, i₁)
              | inr y ↦
                  ground
                    (arith, s₃.interest_same k, s₁.interest_same k, new_reactor_lem self here k)
            ]
          ];
          others_free = λ q d e. s₃.channels_same q e ∙ s₁.channels_same q d;
          others_unused =
              λ k d e. s₃.map_same k e ∙ s₁.map_same k d ∙ (new_reactor_lem self here k).0;
        },
      )
