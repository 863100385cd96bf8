-- ===== src/Diff/Prose/Same.antt =====
-- A document compared with itself has not changed.
use re_git.Base.{
  ℕ, zero, suc, ◌+◌, ◌≡◌, refl, ap, ◌∙◌, some, Text, List, [], ◌∷◌, ◌++◌, map, arith, length,
  get_or, span, replicate,
}
use re_git.Base.Int.{pos}
use re_git.Diff.Split.{split_paragraphs}
use re_git.Diff.Align.{TextLib, align}
use re_git.Diff.Align.Coverage.{length-hashes}
use re_git.Diff.Align.Same.{diagonal, align-diagonal}
use re_git.Diff.Changes.{Change, unchanged}
use re_git.Diff.Prose.{
  Located, nowhere, flatten, sid_of, sid_prefix, texts, change_of, offset_of, offsets, bump, tally,
  modal_offset, diff_prose, one,
}
use re_git.Diff.Prose.Coverage.{length-texts, map-span}

abbrev pub unchanged_entry : Text → Located → Change
unchanged_entry prefix l = record {
  sid = prefix ++ sid_of l;
  status = unchanged;
  old_text = some l.text;
  new_text = some l.text;
  similarity = some one;
}

offset-zero : (flat : List Located) (i : ℕ) → offset_of flat flat i i ≡ pos 0
unfolding offset_of
offset-zero flat i = ground arith

offsets-diagonal :
    (flat : List Located) (start n : ℕ) → offsets flat flat (diagonal start n) ≡ replicate n (pos 0)
unfolding offsets
offsets-diagonal flat start zero = refl
offsets-diagonal flat start (suc n) =
    ground (arith, offset-zero flat start, offsets-diagonal flat (suc start) n)

tally-zeros : (n c : ℕ) → tally (replicate n (pos 0)) ((pos 0, c) ∷ []) ≡ (pos 0, c + n) ∷ []
unfolding tally bump
tally-zeros zero c = ap (λ k. (pos 0, k) ∷ []) (omega arith)
tally-zeros (suc n) c = tally-zeros n (c + 1) ∙ ap (λ k. (pos 0, k) ∷ []) (omega arith)

modal_offset-zeros : (n : ℕ) → modal_offset (replicate n (pos 0)) ≡ pos 0
unfolding modal_offset
modal_offset-zeros zero = refl
modal_offset-zeros (suc n) = rw (tally-zeros n 1) (ground arith)

changes-diagonal :
    (flat : List Located) (prefix : Text) (start n : ℕ)
    → map (change_of flat flat prefix (pos 0)) (diagonal start n)
      ≡ map (λ i. unchanged_entry prefix (get_or flat i nowhere)) (span start n)
unfolding change_of
changes-diagonal flat prefix start zero = refl
changes-diagonal flat prefix start (suc n) =
    ground (arith, offset-zero flat start, changes-diagonal flat prefix (suc start) n)

-- A document compared with itself is reported sentence by sentence, in order, each "unchanged"
-- with similarity 1.0: nothing is added, deleted, edited or moved.
pub diff_prose-same :
    (lib : TextLib) (text artifact_id : Text)
    → diff_prose lib text text artifact_id
      ≡ map (unchanged_entry (sid_prefix artifact_id)) (flatten (split_paragraphs text))
unfolding diff_prose
diff_prose-same lib text artifact_id =
    let flat = flatten (split_paragraphs text) in
    let prefix = sid_prefix artifact_id in
    let n = length flat in
    let ops : align lib (texts flat) (texts flat) ≡ diagonal 0 n =
      align-diagonal lib (texts flat) (texts flat) refl
      ∙ ap (diagonal 0) (length-hashes lib (texts flat) [] (texts flat) ∙ length-texts flat) in
    let modal : modal_offset (offsets flat flat (diagonal 0 n)) ≡ pos 0 =
      ap modal_offset (offsets-diagonal flat 0 n) ∙ modal_offset-zeros n in
    ap (λ r. map (change_of flat flat prefix (modal_offset (offsets flat flat r))) r) ops
    ∙ ap (λ m. map (change_of flat flat prefix m) (diagonal 0 n)) modal
    ∙ changes-diagonal flat prefix 0 n
    ∙ map-span (unchanged_entry prefix) 0 flat flat refl
