-- ===== src/Diff/Classify/Olds.antt =====
-- Classifying keeps the old indices, in their order.
use re_git.Base.{
  ℕ, ◌≡◌, refl, ◌∙◌, sym, true, Bool-cases, inl, inr, Text, List, [], ◌∷◌, ◌++◌, append_assoc,
  append-nil, arith, All,
}
use re_git.Diff.Ops.{AlignOp, equal, edited, delete, insert, olds, olds-append, IsRaw}
use re_git.Diff.Classify.{
  Pair, emit_delete, emit_deletes, emit_inserts, emit_equals, is_identical_run, flush,
  classify_loop, classify, pair_up,
}

olds-emit_deletes :
    (pairs : List Pair) (deletes : List ℕ) → olds (emit_deletes pairs deletes) ≡ deletes
unfolding emit_deletes emit_delete olds
olds-emit_deletes pairs [] = refl
olds-emit_deletes pairs (oi ∷ deletes) = ground (arith, olds-emit_deletes pairs deletes)

olds-emit_inserts : (pairs : List Pair) (inserts : List ℕ) → olds (emit_inserts pairs inserts) ≡ []
unfolding emit_inserts olds
olds-emit_inserts pairs [] = refl
olds-emit_inserts pairs (nj ∷ inserts) = ground (arith, olds-emit_inserts pairs inserts)

module _ (ratio : Text → Text → ℕ) (old new old_hashes new_hashes : List Text) where
  olds-emit_equals :
      (deletes inserts : List ℕ)
      → is_identical_run ratio old new old_hashes new_hashes deletes inserts ≡ true
      → olds (emit_equals deletes inserts) ≡ deletes
  unfolding emit_equals is_identical_run olds
  olds-emit_equals [] [] h = refl
  olds-emit_equals [] (nj ∷ inserts) h = cc
  olds-emit_equals (oi ∷ deletes) [] h = cc
  olds-emit_equals (oi ∷ deletes) (nj ∷ inserts) h =
      ground (arith, olds-emit_equals deletes inserts)

  olds-flush :
      (deletes inserts : List ℕ)
      → olds (flush ratio old new old_hashes new_hashes deletes inserts) ≡ deletes
  unfolding flush
  olds-flush deletes inserts =
      let pairs = pair_up ratio old new old_hashes new_hashes deletes inserts [] in
      elim (Bool-cases (is_identical_run ratio old new old_hashes new_hashes deletes inserts)) [
        | inl e ↦ rw e (olds-emit_equals deletes inserts e)
        | inr n ↦ rw n (
            olds-append (emit_deletes pairs deletes) (emit_inserts pairs inserts)
            ∙ ground (
              arith,
              olds-emit_deletes pairs deletes,
              olds-emit_inserts pairs inserts,
              append-nil deletes,
            ))
      ]

  olds-classify_loop :
      (ops : List AlignOp) (deletes inserts : List ℕ)
      → All IsRaw ops
      → olds (classify_loop ratio old new old_hashes new_hashes ops deletes inserts)
        ≡ deletes ++ olds ops
  unfolding classify_loop olds
  olds-classify_loop [] deletes inserts raw = olds-flush deletes inserts ∙ sym (append-nil deletes)
  olds-classify_loop (equal i j ∷ ops) deletes inserts raw =
      olds-append (flush ratio old new old_hashes new_hashes deletes inserts)
        (equal i j ∷ classify_loop ratio old new old_hashes new_hashes ops [] [])
      ∙ ground (arith, olds-flush deletes inserts, olds-classify_loop ops [] [] raw.1)
  olds-classify_loop (delete i ∷ ops) deletes inserts raw =
      olds-classify_loop ops (deletes ++ i ∷ []) inserts raw.1
      ∙ append_assoc deletes (i ∷ []) (olds ops)
  olds-classify_loop (insert j ∷ ops) deletes inserts raw =
      olds-classify_loop ops deletes (inserts ++ j ∷ []) raw.1
  olds-classify_loop (edited i j r ∷ ops) deletes inserts raw = absurd raw.0

  pub olds-classify :
      (ops : List AlignOp)
      → All IsRaw ops
      → olds (classify ratio old new old_hashes new_hashes ops) ≡ olds ops
  unfolding classify
  olds-classify ops raw = olds-classify_loop ops [] [] raw
