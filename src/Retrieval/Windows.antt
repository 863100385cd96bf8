-- ===== src/Retrieval/Windows.antt =====
-- `_windows` of backend/src/retrieval/chunkers.py. `rounded step` stands for `round(overlap * step)`,
-- a float computation.
pub mod Cover
pub mod Limits
use re_git.Base.{
  ℕ, zero, suc, ◌+◌, ◌-◌, Bool, true, false, ◌&&◌, not, Text, List, [], ◌∷◌, length, drop, span,
  ltb, leb, ◌==◌, if◌then◌else◌, is_empty, max, map, get_or,
}

-- len(sents[end]) + (1 if length else 0)
unfoldable pub added : ℕ → Text → ℕ
added filled s = length s + (if filled == 0 then 0 else 1)

-- The loop that fills a window: how many of the sentences it takes when `filled` characters are
-- taken already.
unfoldable pub fill : ℕ → ℕ → List Text → ℕ
unfolding added
fill max_chars filled [] = 0
fill max_chars filled (s ∷ sents) =
    let more = fill max_chars (filled + added filled s) sents in
    if not (filled == 0) && ltb max_chars (filled + added filled s) then 0 else suc more

-- end - i
unfoldable pub step_of : ℕ → List Text → ℕ
unfolding fill
step_of max_chars sents = max 1 (fill max_chars 0 sents)

-- ov, for a window of `step` sentences
unfoldable pub overlap_of : (ℕ → ℕ) → ℕ → ℕ
overlap_of rounded step = let ov = max 1 (rounded step) in if leb step ov then step - 1 else ov

-- [sents[i] for i in idxs]; the indices are in range
unfoldable pub texts_at : List Text → List ℕ → List Text
texts_at sents idxs = map (λ i. get_or sents i []) idxs

module _ (sents : List Text) (max_chars : ℕ) (rounded : ℕ → ℕ) where
  -- The loop from the sentence `i` on. Each round starts further on, so that one round for each
  -- sentence is enough.
  unfoldable pub windows_from : ℕ → ℕ → List (List ℕ)
  unfolding step_of overlap_of
  windows_from zero i = []
  windows_from (suc rounds) i =
      let step = step_of max_chars (drop i sents) in
      let rest = windows_from rounds (i + step - overlap_of rounded step) in
      span i step ∷ (if leb (length sents) (i + step) then [] else rest)

  unfoldable pub windows : List (List ℕ)
  unfolding windows_from
  windows = if is_empty sents then [] else windows_from (length sents) 0
