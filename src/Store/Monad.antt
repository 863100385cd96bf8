-- ===== src/Store/Monad.antt =====
-- The object store's state, and its methods as actions that may raise.
use re_git.Base.{ℕ, ◌+◌, ◌≡◌, Bool, true, false, Text, List, arith}
use re_git.Store.Rows.{Database}

-- The exceptions; `integrity_error` is sqlite3's, `decode_error` stands for a corrupt file, and a
-- `RepositoryError` comes with its code.
pub data Error : Type 0 where
  value_error ref_conflict branch_exists key_error integrity_error decode_error assertion_error
        not_implemented type_error :
      Error
  repository_error : Text → Error

pub data Result {ℓ} (A : Type ℓ) : Type ℓ where
  ok : A → Result A
  err : Error → Result A

abbrev pub Bytes : Type 0
Bytes = List ℕ

-- A file under objects/: its two path parts and its bytes.
pub record File : Type 0 where
  pub path : Text × Text
  pub content : Bytes

-- `db` is what a transaction rolls back; `files` is not. `savepoint` is `_savepoint`. `ticks`
-- counts the readings of the clock and the draws of random bits.
pub record Store : Type 0 where
  pub db : Database
  pub files : List File
  pub savepoint : ℕ
  pub ticks : ℕ

abbrev pub M {ℓ} : Type ℓ → Type ℓ
M A = Store → Result A × Store

unfoldable pub pure {ℓ} : {A : Type ℓ} → A → M A
pure a s = (ok a, s)

unfoldable pub raise {ℓ} : {A : Type ℓ} → Error → M A
raise e s = (err e, s)

abbrev pub continue {ℓ κ} : {A : Type ℓ} {B : Type κ} → Result A → (A → M B) → M B
continue (ok a) f s = f a s
continue (err e) f s = (err e, s)

unfoldable pub query {ℓ} : {A : Type ℓ} → (Database → A) → M A
query f s = (ok (f s.db), s)

unfoldable pub modify : (Database → Database) → M (Unit {0})
modify f s = (ok tt, record s { db = f s.db })

-- `if not test: raise e`
unfoldable pub require : Bool → Error → M (Unit {0})
unfolding pure raise
require true e = pure tt
require false e = raise e

-- The number of the next reading of the clock or of random bits.
unfoldable pub tick : M ℕ
tick s = (ok s.ticks, record s { ticks = s.ticks + 1 })

infixl 5 ◌>>=◌ ◌>>◌
-- Opening this opens the actions above too.
unfoldable pub ◌>>=◌ {ℓ κ} : {A : Type ℓ} {B : Type κ} → M A → (A → M B) → M B
unfolding pure raise query modify require tick
◌>>=◌ m f s = continue (m s).0 f (m s).1

abbrev pub ◌>>◌ {ℓ} : {B : Type ℓ} → M (Unit {0}) → M B → M B
m >> k = m >>= λ _. k

abbrev pub close {ℓ} : {A : Type ℓ} → Database → Result A → M A
close before (ok a) s = (ok a, s)
close before (err e) s = (err e, record s { db = before })

-- `with self._tx()`: BEGIN or SAVEPOINT, and on an exception a rollback to it. The lock makes
-- actions of several threads follow one another.
unfoldable pub tx {ℓ} : {A : Type ℓ} → M A → M A
tx m s = let (r, s') = m (record s { savepoint = s.savepoint + 1 }) in close s.db r s'

-- A transaction that raises leaves the database as it was.
pub tx_rolls_back {ℓ} :
    {A : Type ℓ} (m : M A) (s : Store) {e : Error} → (tx m s).0 ≡ err e → (tx m s).1.db ≡ s.db
unfolding tx
tx_rolls_back m s h = ground arith
