-- ===== src/Epoller/Refinement.antt =====
-- The reactor seen from outside: which descriptors the kernel watches, and for what.
use mudo_reprint.Base.{
  ℕ, Bool, ◌≡◌, none, some, Option, arith, ◌==◌, ◌&&◌, if◌then◌else◌, ok, nat_eq,
}
use mudo_reprint.Base.Int.{eqb_ℤ}
use mudo_reprint.Channel.{Channel}
use mudo_reprint.Epoller.{Reactor, k_added, update_with}
use mudo_reprint.Epoller.Kernel.{Entry, interest}
use mudo_reprint.Epoller.Invariant.{Inv}
use mudo_reprint.Epoller.Update.{IsUsable, settled, update_with-Inv, index-cases}

-- The abstract state is the interest list alone. A channel that is watched and whose mask becomes
-- empty is watched no more; in every other case it is watched with its new mask.
abbrev pub watch : (watched : Bool) → ℕ → ℕ → ℕ → (ℕ → Option Entry) → ℕ → Option Entry
watch watched mask p fd list k =
    if k == fd then (if watched && mask == 0 then none else some (mask, p)) else list k

settled-watch :
    (f : ℕ → ℕ) (here p : ℕ) (r : Reactor) (c : Channel)
    → Inv r
    → IsUsable r here p c
    → (k : ℕ)
    → interest (settled f p c r).ctls k
      ≡ watch (eqb_ℤ c.index k_added) (f c.events) p c.fd (interest r.ctls) k
settled-watch f here p r c v u k =
    ground (arith, index-cases r p c v u.live, v.agrees c.fd, u.live, u.free_fd)

-- Whatever a member that ends in `update` does to the mask of a usable channel, the kernel's interest
-- list changes as the abstract operation does: at the channel's own descriptor only, to its new mask
-- and address, or to nothing if it was watched and the mask is empty.
pub update_with-watch :
    (f : ℕ → ℕ) (here p : ℕ) (r : Reactor) (c : Channel)
    → Inv r
    → IsUsable r here p c
    → (r' : Reactor) × (update_with f here p r ≡ ok r')
      × Inv r'
      × ((k : ℕ)
          → interest r'.ctls k
            ≡ watch (eqb_ℤ c.index k_added) (f c.events) p c.fd (interest r.ctls) k)
update_with-watch f here p r c v u =
    let (r', e, same, v') = update_with-Inv f here p r c v u in
    (r', e, v', λ k. rw same (settled-watch f here p r c v u k))
