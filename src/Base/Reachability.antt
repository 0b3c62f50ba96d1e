-- ===== src/Base/Reachability.antt =====
-- The states that a step relation reaches, and invariants of it.
pub data Reach {ℓ κ} {S : Type ℓ} (Step : S → S → Type κ) (s : S) : S → Type (ℓ ⊔ κ) where
  here : Reach Step s s
  next : {t u : S} → Reach Step s t → Step t u → Reach Step s u

-- What each step keeps holds of every state that is reached from one where it holds.
pub Reach-keeps {ℓ κ μ} :
    {S : Type ℓ} {Step : S → S → Type κ} (P : S → Type μ)
    → ((s t : S) → Step s t → P s → P t)
    → {s t : S} → Reach Step s t
    → P s
    → P t
Reach-keeps P keeps here p = p
Reach-keeps P keeps (next {t = t} {u = u} r st) p = keeps t u st (Reach-keeps P keeps r p)
