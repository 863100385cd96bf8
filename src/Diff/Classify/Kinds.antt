-- ===== src/Diff/Classify/Kinds.antt =====
-- What the classified ops say of the sentences: "equal" pairs one hash, "edited" is above the
-- threshold and carries the ratio.
use re_git.Base.{
  ℕ, ◌<◌, ◌≡◌, true, Bool-cases, inl, inr, Text, text_eq_iff, List, [], ◌∷◌, ◌++◌, arith, get_or,
  All, All-append,
}
use re_git.Diff.Ops.{AlignOp, equal, edited, delete, insert, PairsEqualHashes}
use re_git.Diff.Classify.{
  Pair, edited_threshold, emit_delete, emit_deletes, emit_inserts, emit_equals, is_identical_run,
  flush, classify_loop, classify, pair_up, similarity_of,
}
use re_git.Diff.Classify.Pairs.{partner-IsAbove}

module _ (ratio : Text → Text → ℕ) (old new old_hashes new_hashes : List Text) where
  -- "equal": the hashes are equal; "edited": the similarity is the sentences' ratio, above 0.7.
  abbrev pub IsJustified : AlignOp → Type 0
  IsJustified (equal i j) = get_or old_hashes i [] ≡ get_or new_hashes j []
  IsJustified (edited i j r) =
      (edited_threshold < r) × (r ≡ ratio (get_or old i []) (get_or new j []))
  IsJustified (delete i) = Unit
  IsJustified (insert j) = Unit

  IsJustified-emit_deletes :
      (deletes inserts rest used : List ℕ)
      → All IsJustified
          (emit_deletes (pair_up ratio old new old_hashes new_hashes deletes inserts used) rest)
  unfolding emit_deletes emit_delete similarity_of
  IsJustified-emit_deletes deletes inserts [] used = tt
  IsJustified-emit_deletes deletes inserts (oi ∷ rest) used = ground (
    arith,
    partner-IsAbove ratio old new old_hashes new_hashes oi deletes inserts used,
    IsJustified-emit_deletes deletes inserts rest used,
  )

  IsJustified-emit_inserts :
      (pairs : List Pair) (inserts : List ℕ) → All IsJustified (emit_inserts pairs inserts)
  unfolding emit_inserts
  IsJustified-emit_inserts pairs [] = tt
  IsJustified-emit_inserts pairs (nj ∷ inserts) =
      ground (arith, IsJustified-emit_inserts pairs inserts)

  IsJustified-emit_equals :
      (deletes inserts : List ℕ)
      → is_identical_run ratio old new old_hashes new_hashes deletes inserts ≡ true
      → All IsJustified (emit_equals deletes inserts)
  unfolding emit_equals is_identical_run
  IsJustified-emit_equals [] [] h = tt
  IsJustified-emit_equals [] (nj ∷ inserts) h = tt
  IsJustified-emit_equals (oi ∷ deletes) [] h = tt
  IsJustified-emit_equals (oi ∷ deletes) (nj ∷ inserts) h = ground (
    arith,
    text_eq_iff (get_or old_hashes oi []) (get_or new_hashes nj []),
    IsJustified-emit_equals deletes inserts,
  )

  IsJustified-flush :
      (deletes inserts : List ℕ)
      → All IsJustified (flush ratio old new old_hashes new_hashes deletes inserts)
  unfolding flush
  IsJustified-flush deletes inserts =
      elim (Bool-cases (is_identical_run ratio old new old_hashes new_hashes deletes inserts)) [
        | inl e ↦ rw e (IsJustified-emit_equals deletes inserts e)
        | inr n ↦
            let ps = pair_up ratio old new old_hashes new_hashes deletes inserts [] in
            rw n (
              All-append IsJustified (emit_deletes ps deletes) (emit_inserts ps inserts)
                (IsJustified-emit_deletes deletes inserts deletes [])
                (IsJustified-emit_inserts ps inserts))
      ]

  IsJustified-classify_loop :
      (ops : List AlignOp) (deletes inserts : List ℕ)
      → All (PairsEqualHashes old_hashes new_hashes) ops
      → All IsJustified (classify_loop ratio old new old_hashes new_hashes ops deletes inserts)
  unfolding classify_loop
  IsJustified-classify_loop [] deletes inserts h = IsJustified-flush deletes inserts
  IsJustified-classify_loop (equal i j ∷ ops) deletes inserts h =
      All-append IsJustified (flush ratio old new old_hashes new_hashes deletes inserts)
        (equal i j ∷ classify_loop ratio old new old_hashes new_hashes ops [] [])
        (IsJustified-flush deletes inserts) (h.0, IsJustified-classify_loop ops [] [] h.1)
  IsJustified-classify_loop (delete i ∷ ops) deletes inserts h =
      IsJustified-classify_loop ops (deletes ++ i ∷ []) inserts h.1
  IsJustified-classify_loop (insert j ∷ ops) deletes inserts h =
      IsJustified-classify_loop ops deletes (inserts ++ j ∷ []) h.1
  IsJustified-classify_loop (edited i j r ∷ ops) deletes inserts h =
      IsJustified-classify_loop ops deletes (inserts ++ j ∷ []) h.1

  pub IsJustified-classify :
      (ops : List AlignOp)
      → All (PairsEqualHashes old_hashes new_hashes) ops
      → All IsJustified (classify ratio old new old_hashes new_hashes ops)
  unfolding classify
  IsJustified-classify ops h = IsJustified-classify_loop ops [] [] h
