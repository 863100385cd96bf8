-- ===== src/Diff/Classify.antt =====
-- `_classify` of backend/src/core/diff/align.py.
pub mod Olds
pub mod Pairs
pub mod News
pub mod Kinds
use re_git.Base.{
  ℕ, ◌^◌, ◌*◌, Bool, true, false, ◌&&◌, Text, text_eq, Option, none, some, List, [], ◌∷◌, ◌++◌, ltb,
  ◌==◌, mem, length, get_or, if◌then◌else◌,
}
use re_git.Diff.Ops.{AlignOp, equal, edited, delete, insert}

-- 0.7, in units of 2 ** -1074
abbrev pub edited_threshold : ℕ
edited_threshold = 6305039478318694 * 2 ^ 1021

-- An entry `pairs[new] = (old, similarity)`.
pub record Pair : Type 0 where
  pub new : ℕ
  pub old : ℕ
  pub similarity : ℕ

-- The entry for `best_oi`, `best_r`: a deleted index and its ratio, or None and the threshold.
pub record Best : Type 0 where
  pub index : Option ℕ
  pub ratio : ℕ

unfoldable pub no_best : Best
no_best = record { index = none; ratio = edited_threshold }

-- The first entry whose old index is `oi`.
unfoldable pub partner : ℕ → List Pair → Option Pair
partner oi [] = none
partner oi (p ∷ pairs) = if p.old == oi then some p else partner oi pairs

unfoldable pub is_matched : ℕ → List Pair → Bool
is_matched nj [] = false
is_matched nj (p ∷ pairs) = if p.new == nj then true else is_matched nj pairs

unfoldable pub emit_delete : ℕ → Option Pair → AlignOp
emit_delete oi none = delete oi
emit_delete oi (some p) = edited oi p.new p.similarity

unfoldable pub emit_deletes : List Pair → List ℕ → List AlignOp
emit_deletes pairs [] = []
emit_deletes pairs (oi ∷ deletes) = emit_delete oi (partner oi pairs) ∷ emit_deletes pairs deletes

unfoldable pub emit_inserts : List Pair → List ℕ → List AlignOp
emit_inserts pairs [] = []
emit_inserts pairs (nj ∷ inserts) =
    let rest = emit_inserts pairs inserts in if is_matched nj pairs then rest else insert nj ∷ rest

unfoldable pub emit_equals : List ℕ → List ℕ → List AlignOp
emit_equals (oi ∷ deletes) (nj ∷ inserts) = equal oi nj ∷ emit_equals deletes inserts
emit_equals _ _ = []

-- `SequenceMatcher(None, a, b, autojunk=False).ratio()` of difflib is a parameter.
module _ (ratio : Text → Text → ℕ) (old new old_hashes new_hashes : List Text) where
  unfoldable pub similarity_of : ℕ → ℕ → ℕ
  similarity_of oi nj = ratio (get_or old oi []) (get_or new nj [])

  unfoldable pub better : ℕ → List ℕ → ℕ → Best → Best
  better nj used oi best =
      if mem oi used
      then best
      else if ltb best.ratio (similarity_of oi nj)
      then record { index = some oi; ratio = similarity_of oi nj }
      else best

  -- The loop over `deletes`.
  unfoldable pub best_delete : ℕ → List ℕ → List ℕ → Best → Best
  best_delete nj used [] best = best
  best_delete nj used (oi ∷ deletes) best = best_delete nj used deletes (better nj used oi best)

  -- The loop over `inserts`: `pairs`, in the order of insertion.
  unfoldable pub pair_up : List ℕ → List ℕ → List ℕ → List Pair
  pair_up deletes [] used = []
  pair_up deletes (nj ∷ inserts) used =
      let best = best_delete nj used deletes no_best in
      elim best.index [
        | none ↦ pair_up deletes inserts used
        | some oi ↦
            record { new = nj; old = oi; similarity = best.ratio }
            ∷ pair_up deletes inserts (oi ∷ used)
      ]

  -- len(deletes) == len(inserts) and all(... for oi, nj in zip(deletes, inserts))
  unfoldable pub is_identical_run : List ℕ → List ℕ → Bool
  is_identical_run [] [] = true
  is_identical_run (oi ∷ deletes) (nj ∷ inserts) =
      text_eq (get_or old_hashes oi []) (get_or new_hashes nj [])
      && is_identical_run deletes inserts
  is_identical_run _ _ = false

  -- What `flush()` appends; with both runs empty that is nothing on either path.
  unfoldable pub flush : List ℕ → List ℕ → List AlignOp
  flush deletes inserts =
      if is_identical_run deletes inserts
      then emit_equals deletes inserts
      else let pairs = pair_up deletes inserts [] in
        emit_deletes pairs deletes ++ emit_inserts pairs inserts

  -- The loop over `ops`, with the two runs of the current gap.
  unfoldable pub classify_loop : List AlignOp → List ℕ → List ℕ → List AlignOp
  classify_loop [] deletes inserts = flush deletes inserts
  classify_loop (equal i j ∷ ops) deletes inserts =
      flush deletes inserts ++ equal i j ∷ classify_loop ops [] []
  classify_loop (delete i ∷ ops) deletes inserts = classify_loop ops (deletes ++ i ∷ []) inserts
  classify_loop (insert j ∷ ops) deletes inserts = classify_loop ops deletes (inserts ++ j ∷ [])
  classify_loop (edited i j r ∷ ops) deletes inserts = classify_loop ops deletes (inserts ++ j ∷ [])

  unfoldable pub classify : List AlignOp → List AlignOp
  classify ops = classify_loop ops [] []
