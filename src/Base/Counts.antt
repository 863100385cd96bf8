-- ===== src/Base/Counts.antt =====
-- How often a number stands in a list: the order of a list forgotten.
use Prim.Native.Nat.{ℕ, zero, suc, ◌+◌, ◌≤◌, ◌<◌}
use mathlib.Core.Path.{◌≡◌, refl}
use mathlib.Core.Bool.{Bool, true, false, ◌||◌}
use mathlib.Core.List.{List, [], ◌∷◌, ◌++◌}
use native.Mathlib.Omega.{arith}
use re_git.Base.Tests.{◌==◌, if◌then◌else◌}
use re_git.Base.Lists.{span, All}

abbrev pub count : ℕ → List ℕ → ℕ
count a [] = 0
count a (x ∷ xs) = (if a == x then 1 else 0) + count a xs

-- `a in xs`
abbrev pub mem : ℕ → List ℕ → Bool
mem a [] = false
mem a (x ∷ xs) = a == x || mem a xs

pub count-append :
    (n : ℕ) (front back : List ℕ) → count n (front ++ back) ≡ count n front + count n back
count-append n [] back = omega arith
count-append n (k ∷ front) back = omega (arith, count-append n front back)

-- Each number stands in one list as often as in the other.
abbrev pub SameItems : List ℕ → List ℕ → Type 0
SameItems left right = (n : ℕ) → count n left ≡ count n right

pub count_pos_of_mem : (a : ℕ) (xs : List ℕ) → mem a xs ≡ true → 0 < count a xs
count_pos_of_mem a [] h = ground arith
count_pos_of_mem a (x ∷ xs) h = ground (arith, count_pos_of_mem a xs)

pub count-span_lt : (a start n : ℕ) → a < start → count a (span start n) ≡ 0
count-span_lt a start zero h = refl
count-span_lt a start (suc n) h = ground (arith, count-span_lt a (suc start) n)

pub count-span-le : (a start n : ℕ) → count a (span start n) ≤ 1
count-span-le a start zero = omega arith
count-span-le a start (suc n) =
    ground (arith, count-span_lt a (suc start) n, count-span-le a (suc start) n)

pub All-count_pos :
    (xs ys : List ℕ) → ((a : ℕ) → count a xs ≤ count a ys) → All (λ x. 0 < count x ys) xs
All-count_pos [] ys h = tt
All-count_pos (x ∷ xs) ys h = (ground (arith, h x), All-count_pos xs ys (λ a. omega (arith, h a)))
