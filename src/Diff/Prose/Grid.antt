-- ===== src/Diff/Prose/Grid.antt =====
-- The grid of sentences that `_flatten` makes: nonempty texts, and paragraphs in order.
use re_git.Base.{
  ℕ, suc, ◌+◌, ◌≤◌, ◌<◌, ◌≡◌, Text, List, [], ◌∷◌, ◌++◌, length, All, All-append, arith,
}
use re_git.Diff.Split.{split_sentences, split_sentences-nonempty}
use re_git.Diff.Prose.{Located, locate, flatten_from, flatten}

abbrev pub IsFull : Located → Type 0
IsFull l = 1 ≤ length l.text

locate-IsFull :
    (pi si : ℕ) (sents : List Text)
    → All (λ s. 1 ≤ length s) sents
    → All IsFull (locate pi si sents)
unfolding locate
locate-IsFull pi si [] h = tt
locate-IsFull pi si (s ∷ sents) h = (h.0, locate-IsFull pi (suc si) sents h.1)

flatten_from-IsFull : (pi : ℕ) (paras : List Text) → All IsFull (flatten_from pi paras)
unfolding flatten_from
flatten_from-IsFull pi [] = tt
flatten_from-IsFull pi (p ∷ paras) =
    All-append IsFull (locate pi 0 (split_sentences p)) (flatten_from (suc pi) paras)
      (locate-IsFull pi 0 (split_sentences p) (split_sentences-nonempty p))
      (flatten_from-IsFull (suc pi) paras)

pub flatten-IsFull : (paras : List Text) → All IsFull (flatten paras)
unfolding flatten
flatten-IsFull paras = flatten_from-IsFull 0 paras

-- Paragraph indices in order, from `lower` on and below `count`.
pub data IsGrid (count : ℕ) : ℕ → List Located → Type 0 where
  done : (lower : ℕ) → IsGrid count lower []
  next :
      (lower : ℕ) (l : Located) (grid : List Located)
      → lower ≤ l.para
      → l.para < count
      → IsGrid count l.para grid
      → IsGrid count lower (l ∷ grid)

weaken :
    {count : ℕ} (a b : ℕ) (grid : List Located) → a ≤ b → IsGrid count b grid → IsGrid count a grid
weaken a b [] h (done _) = done a
weaken a b (l ∷ grid) h (next _ _ _ p q r) = next a l grid (omega arith) q r

locate-IsGrid :
    (count pi si : ℕ) (sents : List Text) (rest : List Located)
    → pi < count
    → IsGrid count (suc pi) rest
    → IsGrid count pi (locate pi si sents ++ rest)
unfolding locate
locate-IsGrid count pi si [] rest h k = weaken pi (suc pi) rest (omega arith) k
locate-IsGrid count pi si (s ∷ sents) rest h k =
    next pi _ _ (omega arith) h (locate-IsGrid count pi (suc si) sents rest h k)

flatten_from-IsGrid :
    (count pi : ℕ) (paras : List Text)
    → pi + length paras ≡ count
    → IsGrid count pi (flatten_from pi paras)
unfolding flatten_from
flatten_from-IsGrid count pi [] h = done pi
flatten_from-IsGrid count pi (p ∷ paras) h =
    locate-IsGrid count pi 0 (split_sentences p) _ (omega arith)
      (flatten_from-IsGrid count (suc pi) paras (omega arith))

pub flatten-IsGrid : (paras : List Text) → IsGrid (length paras) 0 (flatten paras)
unfolding flatten
flatten-IsGrid paras = flatten_from-IsGrid (length paras) 0 paras (omega arith)
