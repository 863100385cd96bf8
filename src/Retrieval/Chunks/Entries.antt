-- ===== src/Retrieval/Chunks/Entries.antt =====
-- Predicates at the entries of a grid, and at those within a section.
use re_git.Base.{
  ℕ, suc, ◌<◌, ◌≡◌, refl, ap, Bool, true, false, ◌&&◌, List, [], ◌∷◌, map, length, get_or, ltb, leb,
  if◌then◌else◌, All, arith,
}
use re_git.Diff.Prose.{Located, nowhere}
use re_git.Retrieval.Chunks.{within}

pub length-map {ℓ κ} :
    {A : Type ℓ} {B : Type κ} (f : A → B) (xs : List A) → length (map f xs) ≡ length xs
length-map f [] = refl
length-map f (x ∷ xs) = ap suc (length-map f xs)

pub All-of :
    (P : Located → Type 0) (grid : List Located)
    → ((k : ℕ) → k < length grid → P (get_or grid k nowhere))
    → All P grid
All-of P [] h = tt
All-of P (l ∷ grid) h = (h 0 (omega arith), All-of P grid (λ k lt. h (suc k) (omega arith)))

pub All-everywhere :
    (P : Located → Type 0) (grid : List Located) → ((l : Located) → P l) → All P grid
All-everywhere P [] h = tt
All-everywhere P (l ∷ grid) h = (h l, All-everywhere P grid h)

pub All-both :
    (P Q R : Located → Type 0) (grid : List Located)
    → All P grid
    → All Q grid
    → ((l : Located) → P l → Q l → R l)
    → All R grid
All-both P Q R [] hp hq h = tt
All-both P Q R (l ∷ grid) hp hq h = (h l hp.0 hq.0, All-both P Q R grid hp.1 hq.1 h)

-- What holds of the part of the grid within a section.
if_parts :
    (P : Located → Type 0) (b : Bool) (l : Located) (rest : List Located)
    → All P (if b then l ∷ rest else rest)
    → (b ≡ true → P l) × All P rest
if_parts P true l rest h = (λ e. h.0, h.1)
if_parts P false l rest h = (λ e. cc e, h)

pub of_within :
    (P : Located → Type 0) (a b : ℕ) (grid : List Located)
    → All P (within a b grid)
    → All (λ l. (leb a l.para && ltb l.para b) ≡ true → P l) grid
unfolding within
of_within P a b [] h = tt
of_within P a b (l ∷ grid) h =
    let parts = if_parts P (leb a l.para && ltb l.para b) l (within a b grid) h in
    (parts.0, of_within P a b grid parts.1)

if_All :
    (P : Located → Type 0) (b : Bool) (l : Located) (rest : List Located)
    → P l
    → All P rest
    → All P (if b then l ∷ rest else rest)
if_All P true l rest p h = (p, h)
if_All P false l rest p h = h

pub All-within :
    (P : Located → Type 0) (a b : ℕ) (grid : List Located) → All P grid → All P (within a b grid)
unfolding within
All-within P a b [] h = tt
All-within P a b (l ∷ grid) h =
    if_All P (leb a l.para && ltb l.para b) l (within a b grid) h.0 (All-within P a b grid h.1)
