-- ===== src/Diff/Ops.antt =====
-- `AlignOp` of backend/src/core/diff/align.py, and the indices that a list of ops carries.
use re_git.Base.{ℕ, suc, ◌≡◌, refl, ap, Text, List, [], ◌∷◌, ◌++◌, get_or}

-- A constructor for each `type`, with the indices that are not None there. A similarity is a float
-- between 0 and 1: the number of units of 2 ** -1074, of which every such float is a multiple. That
-- of an "equal" op is 1.0.
pub data AlignOp : Type 0 where
  equal : ℕ → ℕ → AlignOp
  edited : ℕ → ℕ → ℕ → AlignOp
  delete : ℕ → AlignOp
  insert : ℕ → AlignOp

-- The values of `old_i` that are not None, in order.
unfoldable pub olds : List AlignOp → List ℕ
olds [] = []
olds (equal i j ∷ ops) = i ∷ olds ops
olds (edited i j r ∷ ops) = i ∷ olds ops
olds (delete i ∷ ops) = i ∷ olds ops
olds (insert j ∷ ops) = olds ops

-- The values of `new_i` that are not None, in order.
unfoldable pub news : List AlignOp → List ℕ
news [] = []
news (equal i j ∷ ops) = j ∷ news ops
news (edited i j r ∷ ops) = j ∷ news ops
news (delete i ∷ ops) = news ops
news (insert j ∷ ops) = j ∷ news ops

-- How many ops are "equal".
unfoldable pub equals : List AlignOp → ℕ
equals [] = 0
equals (equal i j ∷ ops) = suc (equals ops)
equals (edited i j r ∷ ops) = equals ops
equals (delete i ∷ ops) = equals ops
equals (insert j ∷ ops) = equals ops

pub olds-append : (xs ys : List AlignOp) → olds (xs ++ ys) ≡ olds xs ++ olds ys
unfolding olds
olds-append [] ys = refl
olds-append (equal i j ∷ xs) ys = ap (λ r. i ∷ r) (olds-append xs ys)
olds-append (edited i j r ∷ xs) ys = ap (λ r. i ∷ r) (olds-append xs ys)
olds-append (delete i ∷ xs) ys = ap (λ r. i ∷ r) (olds-append xs ys)
olds-append (insert j ∷ xs) ys = olds-append xs ys

pub news-append : (xs ys : List AlignOp) → news (xs ++ ys) ≡ news xs ++ news ys
unfolding news
news-append [] ys = refl
news-append (equal i j ∷ xs) ys = ap (λ r. j ∷ r) (news-append xs ys)
news-append (edited i j r ∷ xs) ys = ap (λ r. j ∷ r) (news-append xs ys)
news-append (delete i ∷ xs) ys = news-append xs ys
news-append (insert j ∷ xs) ys = ap (λ r. j ∷ r) (news-append xs ys)

-- An "equal" op pairs sentences of one hash.
abbrev pub PairsEqualHashes : List Text → List Text → AlignOp → Type 0
PairsEqualHashes old_hashes new_hashes (equal i j) = get_or old_hashes i [] ≡ get_or new_hashes j []
PairsEqualHashes old_hashes new_hashes _ = Unit

-- The ops that the backtrack emits.
abbrev pub IsRaw : AlignOp → Type 0
IsRaw (edited i j r) = ⊥
IsRaw _ = Unit
