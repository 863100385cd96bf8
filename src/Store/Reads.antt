-- ===== src/Store/Reads.antt =====
-- Actions that read the store and do not change it.
use re_git.Base.{◌≡◌, refl, ◌∙◌, Bool, true, false, Text, if◌then◌else◌, arith}
use re_git.Store.Rows.{Database}
use re_git.Store.Monad.{
  Store, M, Result, ok, err, Error, pure, raise, query, require, continue, ◌>>=◌,
}
use re_git.Store.Host.{Host}
use re_git.Store.Blobs.{lift, read_file, get_blob}

-- The action leaves the whole state alone.
pub record IsRead {ℓ} {A : Type ℓ} (m : M A) : Type ℓ where
  pub at : (s : Store) → (m s).1 ≡ s

module _ {ℓ κ} {A : Type ℓ} {B : Type κ} where
  continue-read :
      (r : Result A) (f : A → M B) → ((a : A) → IsRead (f a)) → (s : Store) → (continue r f s).1 ≡ s
  continue-read (ok a) f h s = (h a).at s
  continue-read (err e) f h s = refl

  pub IsRead-bind : (m : M A) (f : A → M B) → IsRead m → ((a : A) → IsRead (f a)) → IsRead (m >>= f)
  unfolding ◌>>=◌
  IsRead-bind m f p h = record { at = λ s. continue-read (m s).0 f h (m s).1 ∙ p.at s }

module _ {ℓ} {A : Type ℓ} where
  pub IsRead-pure : (a : A) → IsRead (pure a)
  unfolding pure
  IsRead-pure a = record { at = λ s. refl }

  pub IsRead-raise : (e : Error) → IsRead (raise {A = A} e)
  unfolding raise
  IsRead-raise e = record { at = λ s. refl }

  pub IsRead-query : (f : Database → A) → IsRead (query f)
  unfolding query
  IsRead-query f = record { at = λ s. refl }

  pub IsRead-lift : (r : Result A) → IsRead (lift r)
  unfolding lift
  IsRead-lift r = record { at = λ s. refl }

pub IsRead-require : (b : Bool) (e : Error) → IsRead (require b e)
unfolding require
IsRead-require true e = record { at = λ s. refl }
IsRead-require false e = record { at = λ s. refl }

module _ {ℓ} {A : Type ℓ} where
  pub IsRead-if : (b : Bool) (m n : M A) → IsRead m → IsRead n → IsRead (if b then m else n)
  IsRead-if true m n p q = p
  IsRead-if false m n p q = q

module _ (host : Host) where
  pub IsRead-read_file : (p : Text × Text) → IsRead (read_file host p)
  unfolding read_file
  IsRead-read_file p = record { at = λ s. ground arith }

pub ruleset read_rules = (
  IsRead-bind, IsRead-pure, IsRead-raise, IsRead-query, IsRead-lift, IsRead-require, IsRead-if,
  IsRead-read_file,
)

module _ (host : Host) where
  pub IsRead-get_blob : (oid : Text) (verify : Bool) → IsRead (get_blob host oid verify)
  unfolding get_blob
  IsRead-get_blob oid verify = search read_rules
