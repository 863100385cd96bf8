-- ===== src/Retrieval/Chunks/Indexed.antt =====
-- Which sids some chunk covers, and which indices some window.
use re_git.Base.{
  ℕ, zero, suc, ◌+◌, ◌≤◌, ◌<◌, ◌≡◌, refl, sym, ap, inl, inr, Bool, true, false, ◌||◌, Bool-cases,
  Text, text_eq, text_eq_iff, List, [], ◌∷◌, ◌++◌, map, mem, span, ltb, ◌==◌, arith,
}
use re_git.Store.Graph.{contains}
use re_git.Retrieval.Windows.Cover.{Covers}
use re_git.Retrieval.Chunks.{Chunk}

-- Some chunk covers the sid.
unfoldable pub is_indexed : Text → List Chunk → Bool
unfolding contains
is_indexed sid [] = false
is_indexed sid (c ∷ chunks) = contains sid c.sids || is_indexed sid chunks

pub is_indexed-append :
    (sid : Text) (cs ds : List Chunk)
    → is_indexed sid (cs ++ ds) ≡ (is_indexed sid cs || is_indexed sid ds)
unfolding is_indexed
is_indexed-append sid [] ds = refl
is_indexed-append sid (c ∷ cs) ds = ground (arith, is_indexed-append sid cs ds)

-- Some window has the index.
unfoldable pub in_some : ℕ → List (List ℕ) → Bool
in_some k [] = false
in_some k (w ∷ ws) = mem k w || in_some k ws

mem-span : (k a n : ℕ) → a ≤ k → k < a + n → mem k (span a n) ≡ true
mem-span k a zero h l = ground arith
mem-span k a (suc n) h l = ground (arith, mem-span k (suc a) n)

pub Covers-in_some :
    (n i k : ℕ) (ws : List (List ℕ)) → Covers n i ws → i ≤ k → k < n → in_some k ws ≡ true
unfolding in_some
Covers-in_some n i k ws (Covers.last _ step p e) h l = rw (mem-span k i step h (omega arith)) refl
Covers-in_some n i k ws (Covers.more _ step j rest p q r c) h l =
    elim (Bool-cases (ltb k (i + step))) [
      | inl here ↦ rw (mem-span k i step h (ground arith)) refl
      | inr later ↦ ground (arith, Covers-in_some n j k rest c (ground arith) l)
    ]

same_key : (f : ℕ → Text) (k i : ℕ) → (k == i) ≡ true → text_eq (f i) (f k) ≡ true
same_key f k i h = let e : k ≡ i = ground arith in (text_eq_iff (f i) (f k)).1 (ap f (sym e))

pub contains-map :
    (f : ℕ → Text) (k : ℕ) (idxs : List ℕ) → mem k idxs ≡ true → contains (f k) (map f idxs) ≡ true
unfolding contains
contains-map f k [] h = cc h
contains-map f k (i ∷ idxs) h =
    ground (arith, contains-map f k idxs, text_eq_iff (f i) (f k), same_key f k i)

pub either_one :
    (a b x y : Bool)
    → (a ≡ true → x ≡ true)
    → (b ≡ true → y ≡ true)
    → (a || b) ≡ true
    → (x || y) ≡ true
either_one a b x y f g h = ground (arith, f, g, h)
