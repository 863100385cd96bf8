-- ===== src/Store/Hash/Members.antt =====
-- Sorting keeps the members of a list.
use re_git.Base.{◌≡◌, refl, ◌||◌, Text, text_eq, List, [], ◌∷◌, arith}
use re_git.Store.Hash.{sorted, insert_sorted}
use re_git.Store.Graph.{contains}

contains-insert_sorted :
    (x p : Text) (xs : List Text) → contains x (insert_sorted p xs) ≡ (text_eq p x || contains x xs)
unfolding contains insert_sorted
contains-insert_sorted x p [] = refl
contains-insert_sorted x p (q ∷ xs) = ground (arith, contains-insert_sorted x p xs)

pub contains-sorted : (x : Text) (xs : List Text) → contains x (sorted xs) ≡ contains x xs
unfolding contains sorted
contains-sorted x [] = refl
contains-sorted x (p ∷ xs) =
    ground (arith, contains-insert_sorted x p (sorted xs), contains-sorted x xs)
