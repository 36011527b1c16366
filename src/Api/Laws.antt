-- ===== src/Api/Laws.antt =====
-- The loop over a waiter list notifies every task once, in the order of the list.
use asyncxx.Base.{◌≡◌, ◌∙◌, sym, ap, List, [], ◌∷◌, ◌++◌, append-nil, append_assoc}
use asyncxx.Api.{TaskId, Notifier, notify_each}

module _ {ℓ} {L : Type ℓ} (n : Notifier L) where
  pub woken-notify_each :
      (ts : List TaskId) (l : L) → n.woken (notify_each n ts l) ≡ n.woken l ++ ts
  unfolding notify_each
  woken-notify_each [] l = sym (append-nil (n.woken l))
  woken-notify_each (t ∷ ts) l =
      woken-notify_each ts (n.notify t l)
      ∙ ap (λ ws. ws ++ ts) (n.woken-notify t l)
      ∙ append_assoc (n.woken l) (t ∷ []) ts
