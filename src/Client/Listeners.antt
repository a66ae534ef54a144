-- ===== src/Client/Listeners.antt =====
-- web/src/api/client.ts: the listeners of a 401, and the function that `onUnauthorized` returns.
use backup_orchestration_pla.Common.{
  ℕ, ◌≡◌, refl, ◌==◌, ==_iff, true, false, not, List, [], ◌∷◌, ◌++◌, any, filter, arith,
}
use backup_orchestration_pla.Client.{Session, on_unauthorized, off_unauthorized}

filter_absent :
    (l : ℕ) (ls : List ℕ) → any (◌==◌ l) ls ≡ false → filter (λ k. not (l == k)) (ls ++ l ∷ []) ≡ ls
filter_absent l [] h = ground (arith, (==_iff l l).1 refl)
filter_absent l (k ∷ ls) h = ground (arith, filter_absent l ls)

-- A listener that was not there is added, and the function that `onUnauthorized` returned takes it away
-- again: the session is as before, with the other listeners in their order.
pub off-on :
    (l : ℕ) (s : Session)
    → any (◌==◌ l) s.listeners ≡ false
    → (any (◌==◌ l) (on_unauthorized l s).listeners ≡ true)
      × (off_unauthorized l (on_unauthorized l s) ≡ s)
unfolding on_unauthorized off_unauthorized
off-on l s h =
    (ground (arith, any-append s.listeners), ground (arith, filter_absent l s.listeners h))
  where
    any-append : (ls : List ℕ) → any (◌==◌ l) (ls ++ l ∷ []) ≡ true
    any-append [] = ground (arith, (==_iff l l).1 refl)
    any-append (k ∷ ls) = ground (arith, any-append ls)
