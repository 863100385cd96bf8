-- ===== src/Merge/Prose/Swap.antt =====
-- The two sides of a merge play the same part.
use re_git.Base.{
  ℕ, zero, suc, ◌≡◌, refl, ap, ◌∙◌, Text, text_eq, text_eq_iff, List, [], ◌∷◌, map, arith, length,
  get_or,
}
use mathlib.Core.List.{map-append}
use re_git.Diff.Align.{TextLib}
use re_git.Diff.Prose.{Located, texts}
use re_git.Merge.Sides.{SideChange, equal, edit, delete, Side, side_ops, change_at, inserts_at}
use re_git.Merge.Prose.{
  Conflict, anchor_sid, insert_step, sentence_step, merge_loop, merge_output, located, state_of,
  merge_prose,
}

abbrev pub swap : Conflict → Conflict
swap c = record c { ours_text = c.theirs_text; theirs_text = c.ours_text }

text_eq_comm : (s t : Text) → text_eq s t ≡ text_eq t s
text_eq_comm s t = ground (arith, text_eq_iff s t, text_eq_iff t s)

module _ (base_flat : List Located) (ours_sents theirs_sents : List Text) where
  insert_step-swap :
      (a : ℕ) (o t : List ℕ)
      → (insert_step base_flat theirs_sents ours_sents a t o).conflicts
        ≡ map swap (insert_step base_flat ours_sents theirs_sents a o t).conflicts
  unfolding insert_step anchor_sid
  insert_step-swap a [] [] = refl
  insert_step-swap a [] (j ∷ t) = refl
  insert_step-swap a (i ∷ o) [] = refl
  insert_step-swap a (i ∷ o) (j ∷ t) = refl

  sentence_step-swap :
      (a : ℕ) (c d : SideChange)
      → (sentence_step base_flat theirs_sents ours_sents a d c).conflicts
        ≡ map swap (sentence_step base_flat ours_sents theirs_sents a c d).conflicts
  unfolding sentence_step
  sentence_step-swap a (equal i) (equal j) = refl
  sentence_step-swap a (equal i) (edit j) = refl
  sentence_step-swap a (equal i) delete = refl
  sentence_step-swap a (edit i) (equal j) = refl
  sentence_step-swap a (edit i) (edit j) =
      ground (arith, text_eq_comm (get_or ours_sents i []) (get_or theirs_sents j []))
  sentence_step-swap a (edit i) delete = refl
  sentence_step-swap a delete (equal j) = refl
  sentence_step-swap a delete (edit j) = refl
  sentence_step-swap a delete delete = refl

  merge_loop-swap :
      (ours theirs : Side) (a left : ℕ)
      → (merge_loop base_flat theirs_sents ours_sents theirs ours a left).conflicts
        ≡ map swap (merge_loop base_flat ours_sents theirs_sents ours theirs a left).conflicts
  unfolding merge_loop
  merge_loop-swap ours theirs a zero = insert_step-swap a (inserts_at ours a) (inserts_at theirs a)
  merge_loop-swap ours theirs a (suc left) = rw (
    insert_step-swap a (inserts_at ours a) (inserts_at theirs a),
    sentence_step-swap a (change_at ours a) (change_at theirs a),
    merge_loop-swap ours theirs (suc a) left,
    map-append,
    map-append,
  )

-- Merging with the sides exchanged finds the same conflicts, in the same order and under the same
-- sids, with the texts of the two sides exchanged, and the same state.
pub merge_prose-swap :
    (lib : TextLib) (base ours theirs : Text)
    → ((merge_prose lib base theirs ours).conflicts
        ≡ map swap (merge_prose lib base ours theirs).conflicts)
      × ((merge_prose lib base theirs ours).state ≡ (merge_prose lib base ours theirs).state)
unfolding merge_prose merge_output
merge_prose-swap lib base ours theirs =
    let b = located base in
    let o = texts (located ours) in
    let t = texts (located theirs) in
    let so = side_ops lib (texts b) o in
    let st = side_ops lib (texts b) t in
    let e = merge_loop-swap b o t so st 0 (length b) in
    (e, ap state_of e ∙ state_of-map (merge_loop b o t so st 0 (length b)).conflicts)
  where
    state_of-map : (conflicts : List Conflict) → state_of (map swap conflicts) ≡ state_of conflicts
    state_of-map [] = refl
    state_of-map (c ∷ conflicts) = refl
