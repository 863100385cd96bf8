-- ===== src/Merge/Prose/OneSide.antt =====
-- A merge in which one side changes nothing takes the other side.
use re_git.Base.{
  ℕ, zero, suc, ◌≡◌, refl, ap, ◌∙◌, sym, false, none, some, Text, List, [], ◌∷◌, ◌++◌, append-nil,
  arith, length, get_or,
}
use re_git.Diff.Align.{TextLib, hashes}
use re_git.Diff.Prose.{Located, nowhere, texts}
use re_git.Merge.Sides.{
  SideChange, equal, edit, delete, Side, side_ops, change_at, inserts_at, changed,
}
use re_git.Merge.Sides.Quiet.{IsQuiet, side_ops-IsQuiet}
use re_git.Merge.Prose.{
  Slot, insert_slots, at_indices, insert_step, sentence_step, merge_loop, merge_output, located,
  merge_prose,
}

-- What a side alone makes of the base: before base sentence `a` its inserts, then the base
-- sentence, its replacement, or nothing.
module _ (base_flat : List Located) (sents : List Text) where
  abbrev pub apply_change : ℕ → SideChange → Slot
  apply_change a (equal _) = record { anchor = a; text = some (get_or base_flat a nowhere).text }
  apply_change a (edit i) = record { anchor = a; text = some (get_or sents i []) }
  apply_change a delete = record { anchor = a; text = none }

  unfoldable pub apply_side : Side → ℕ → ℕ → List Slot
  apply_side side a zero = insert_slots a (at_indices sents (inserts_at side a))
  apply_side side a (suc left) =
      insert_slots a (at_indices sents (inserts_at side a))
      ++ apply_change a (change_at side a) ∷ apply_side side (suc a) left

module _ (base_flat : List Located) (ours_sents theirs_sents : List Text) where
  insert_step-ours :
      (a : ℕ) (o t : List ℕ)
      → t ≡ []
      → insert_step base_flat ours_sents theirs_sents a o t
        ≡ record { conflicts = []; slots = insert_slots a (at_indices ours_sents o) }
  unfolding insert_step
  insert_step-ours a [] t e = rw e
  insert_step-ours a (i ∷ o) t e =
      rw e (ground (arith, append-nil (insert_slots a (at_indices ours_sents (i ∷ o)))))

  insert_step-theirs :
      (a : ℕ) (o t : List ℕ)
      → o ≡ []
      → insert_step base_flat ours_sents theirs_sents a o t
        ≡ record { conflicts = []; slots = insert_slots a (at_indices theirs_sents t) }
  unfolding insert_step
  insert_step-theirs a o t e = rw e

  sentence_step-ours :
      (a : ℕ) (c d : SideChange)
      → changed d ≡ false
      → sentence_step base_flat ours_sents theirs_sents a c d
        ≡ record { conflicts = []; slots = apply_change base_flat ours_sents a c ∷ [] }
  unfolding sentence_step
  sentence_step-ours a (equal i) (equal j) e = refl
  sentence_step-ours a (edit i) (equal j) e = refl
  sentence_step-ours a delete (equal j) e = refl
  sentence_step-ours a c (edit j) e = cc
  sentence_step-ours a c delete e = cc

  sentence_step-theirs :
      (a : ℕ) (c d : SideChange)
      → changed c ≡ false
      → sentence_step base_flat ours_sents theirs_sents a c d
        ≡ record { conflicts = []; slots = apply_change base_flat theirs_sents a d ∷ [] }
  unfolding sentence_step
  sentence_step-theirs a (equal i) (equal j) e = refl
  sentence_step-theirs a (equal i) (edit j) e = refl
  sentence_step-theirs a (equal i) delete e = refl
  sentence_step-theirs a (edit i) d e = cc
  sentence_step-theirs a delete d e = cc

  merge_loop-ours :
      (ours theirs : Side)
      → IsQuiet theirs
      → (a left : ℕ)
      → merge_loop base_flat ours_sents theirs_sents ours theirs a left
        ≡ record { conflicts = []; slots = apply_side base_flat ours_sents ours a left }
  unfolding merge_loop apply_side
  merge_loop-ours ours theirs q a zero =
      insert_step-ours a (inserts_at ours a) (inserts_at theirs a) (q.no_inserts a)
  merge_loop-ours ours theirs q a (suc left) = rw (
    insert_step-ours a (inserts_at ours a) (inserts_at theirs a) (q.no_inserts a),
    sentence_step-ours a (change_at ours a) (change_at theirs a) (q.unchanged a),
    merge_loop-ours ours theirs q (suc a) left,
  )

  merge_loop-theirs :
      (ours theirs : Side)
      → IsQuiet ours
      → (a left : ℕ)
      → merge_loop base_flat ours_sents theirs_sents ours theirs a left
        ≡ record { conflicts = []; slots = apply_side base_flat theirs_sents theirs a left }
  unfolding merge_loop apply_side
  merge_loop-theirs ours theirs q a zero =
      insert_step-theirs a (inserts_at ours a) (inserts_at theirs a) (q.no_inserts a)
  merge_loop-theirs ours theirs q a (suc left) = rw (
    insert_step-theirs a (inserts_at ours a) (inserts_at theirs a) (q.no_inserts a),
    sentence_step-theirs a (change_at ours a) (change_at theirs a) (q.unchanged a),
    merge_loop-theirs ours theirs q (suc a) left,
  )

-- The sentences of the text hash as those of the base do, one by one.
abbrev pub SameHashes : TextLib → Text → Text → Type 0
SameHashes lib base text = hashes lib (texts (located text)) ≡ hashes lib (texts (located base))

-- Where the sentences of theirs hash as those of the base, the merge has no conflict and its slots
-- are what ours alone makes of the base: its inserts, edits and deletes.
pub merge_output-ours :
    (lib : TextLib) (base ours theirs : Text)
    → SameHashes lib base theirs
    → merge_output lib base ours theirs ≡ record {
      conflicts = [];
      slots =
          apply_side
            (located base)
            (texts (located ours))
            (side_ops lib (texts (located base)) (texts (located ours)))
            0
            (length (located base));
    }
unfolding merge_output
merge_output-ours lib base ours theirs e =
    merge_loop-ours (located base) (texts (located ours)) (texts (located theirs))
      (side_ops lib (texts (located base)) (texts (located ours)))
      (side_ops lib (texts (located base)) (texts (located theirs)))
      (side_ops-IsQuiet lib (texts (located base)) (texts (located theirs)) e) 0
      (length (located base))

-- Where the sentences of ours hash as those of the base, the merge has no conflict and its slots
-- are what theirs alone makes of the base.
pub merge_output-theirs :
    (lib : TextLib) (base ours theirs : Text)
    → SameHashes lib base ours
    → merge_output lib base ours theirs ≡ record {
      conflicts = [];
      slots =
          apply_side
            (located base)
            (texts (located theirs))
            (side_ops lib (texts (located base)) (texts (located theirs)))
            0
            (length (located base));
    }
unfolding merge_output
merge_output-theirs lib base ours theirs e =
    merge_loop-theirs (located base) (texts (located ours)) (texts (located theirs))
      (side_ops lib (texts (located base)) (texts (located ours)))
      (side_ops lib (texts (located base)) (texts (located theirs)))
      (side_ops-IsQuiet lib (texts (located base)) (texts (located ours)) e) 0
      (length (located base))

apply_side-quiet :
    (base_flat : List Located) (sents sents' : List Text) (side side' : Side)
    → IsQuiet side
    → IsQuiet side'
    → (a left : ℕ)
    → apply_side base_flat sents side a left ≡ apply_side base_flat sents' side' a left
unfolding apply_side
apply_side-quiet base_flat sents sents' side side' q q' a zero =
    rw (q.no_inserts a, q'.no_inserts a)
apply_side-quiet base_flat sents sents' side side' q q' a (suc left) = ground (
  arith,
  q.no_inserts a,
  q'.no_inserts a,
  q.unchanged a,
  q'.unchanged a,
  apply_side-quiet base_flat sents sents' side side' q q' (suc a) left,
)

-- Where both sides differ from the base only in what the sentence hash forgets (case, punctuation,
-- spacing), the merge returns what it makes of the base alone: the new wording is dropped.
pub merge_prose_drops_respelling :
    (lib : TextLib) (base ours theirs : Text)
    → SameHashes lib base ours
    → SameHashes lib base theirs
    → merge_prose lib base ours theirs ≡ merge_prose lib base base base
unfolding merge_prose
merge_prose_drops_respelling lib base ours theirs eo et =
    let b = texts (located base) in
    let o = texts (located ours) in
    let e : merge_output lib base ours theirs ≡ merge_output lib base base base =
      merge_output-ours lib base ours theirs et
      ∙ ap (λ s. record { conflicts = []; slots = s })
          (apply_side-quiet (located base) o b (side_ops lib b o) (side_ops lib b b)
            (side_ops-IsQuiet lib b o eo) (side_ops-IsQuiet lib b b refl) 0 (length (located base)))
      ∙ sym (merge_output-ours lib base base base refl) in
    rw e
