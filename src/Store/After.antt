-- ===== src/Store/After.antt =====
-- Reasoning about actions by what holds when they return.
use re_git.Base.{◌+◌, ◌≡◌, refl, subst}
use re_git.Store.Rows.{Database}
use re_git.Store.Monad.{Store, M, Result, ok, err, continue, close, tx, ◌>>=◌}
use re_git.Store.Reads.{IsRead}

-- What holds of the result and the state if the action returns.
abbrev pub After {ℓ κ} : {A : Type ℓ} → (A → Store → Type κ) → Result A × Store → Type κ
After Q (ok a, s) = Q a s
After Q (err e, s) = Unit

-- What holds after a transaction: an error leaves the database as it was.
abbrev pub Atomic {ℓ} : {A : Type ℓ} → (A → Store → Type 0) → Database → Result A × Store → Type 0
Atomic Q before (ok a, s) = Q a s
Atomic Q before (err e, s) = s.db ≡ before

module _ {A B : Type 0} (Q : B → Store → Type 0) where
  pub After-bind :
      (R : A → Store → Type 0) (m : M A) (f : A → M B) (s : Store)
      → After R (m s)
      → ((a : A) (t : Store) → R a t → After Q (f a t))
      → After Q ((m >>= f) s)
  unfolding ◌>>=◌
  After-bind R m f s h k = go (m s).0 (m s).1 h
    where
      go : (r : Result A) (t : Store) → After R (r, t) → After Q (continue r f t)
      go (ok a) t h = k a t h
      go (err e) t h = tt

  -- A read before an action: the action runs in the same state, if the read returns.
  pub After-read :
      (m : M A) (f : A → M B) (s : Store)
      → IsRead m
      → ((a : A) → (m s).0 ≡ ok a → After Q (f a s))
      → After Q ((m >>= f) s)
  unfolding ◌>>=◌
  After-read m f s p k = go (m s).0 (m s).1 refl (p.at s)
    where
      go : (r : Result A) (t : Store) → (m s).0 ≡ r → t ≡ s → After Q (continue r f t)
      go (ok a) t e at = rw at (k a e)
      go (err x) t e at = tt

module _ {A : Type 0} (Q : A → Store → Type 0) where
  pub tx-Atomic :
      (m : M A) (s : Store)
      → After Q (m (record s { savepoint = s.savepoint + 1 }))
      → Atomic Q s.db (tx m s)
  unfolding tx
  tx-Atomic m s h =
      go (m (record s { savepoint = s.savepoint + 1 })).0
        (m (record s { savepoint = s.savepoint + 1 })).1 h
    where
      go : (r : Result A) (t : Store) → After Q (r, t) → Atomic Q s.db (close s.db r t)
      go (ok a) t h = h
      go (err e) t h = refl

module _ {A : Type 0} (Q : A → Store → Type 0) where
  -- What holds of a result that is there.
  pub After-ok : (out : Result A × Store) (a : A) → After Q out → out.0 ≡ ok a → Q a out.1
  After-ok (ok b, s) a h e = let same : b ≡ a = cc in subst (λ x. Q x s) same h
  After-ok (err x, s) a h e = cc e

  -- What holds of the state however the action ends.
  pub After-state :
      (P : Store → Type 0) (out : Result A × Store)
      → P out.1
      → ((a : A) → P out.1 → Q a out.1)
      → After Q out
  After-state P (ok a, s) p h = h a p
  After-state P (err e, s) p h = tt

-- A read before a transaction.
module _ {A B : Type 0} (Q : B → Store → Type 0) where
  pub Atomic-read :
      (m : M A) (f : A → M B) (s : Store)
      → IsRead m
      → ((a : A) → (m s).0 ≡ ok a → Atomic Q s.db (f a s))
      → Atomic Q s.db ((m >>= f) s)
  unfolding ◌>>=◌
  Atomic-read m f s p k = go (m s).0 (m s).1 refl (p.at s)
    where
      go : (r : Result A) (t : Store) → (m s).0 ≡ r → t ≡ s → Atomic Q s.db (continue r f t)
      go (ok a) t e at = rw at (k a e)
      go (err x) t e at = rw at refl

module _ {A : Type 0} (P Q : A → Store → Type 0) where
  pub After-mono :
      (out : Result A × Store) → ((a : A) (t : Store) → P a t → Q a t) → After P out → After Q out
  After-mono (ok a, s) h p = h a s p
  After-mono (err e, s) h p = tt

module _ {A : Type 0} where
  pub After-any : (out : Result A × Store) → After (λ a t. Unit {0}) out
  After-any (ok a, s) = tt
  After-any (err e, s) = tt

  pub After-both :
      (P Q : A → Store → Type 0) (out : Result A × Store)
      → After P out
      → After Q out
      → After (λ a t. P a t × Q a t) out
  After-both P Q (ok a, s) p q = (p, q)
  After-both P Q (err e, s) p q = tt
