-- ===== src/Diff/Prose/Coverage.antt =====
-- What a prose diff reports of the two documents.
use re_git.Base.{
  ℕ, suc, ◌≡◌, refl, ap, ◌∙◌, none, some, Text, List, [], ◌∷◌, ◌++◌, map, length, get_or, range,
  span, drop, drop-eq-cons,
}
use re_git.Base.Int.{ℤ}
use re_git.Diff.Ops.{AlignOp, equal, edited, delete, insert, olds}
use re_git.Diff.Split.{split_paragraphs}
use re_git.Diff.Align.{TextLib, align}
use re_git.Diff.Align.Coverage.{olds-align}
use re_git.Diff.Changes.{Change}
use re_git.Diff.Prose.{
  Located, nowhere, flatten, sid_of, sid_prefix, texts, change_of, offsets, modal_offset,
  diff_prose,
}

-- The sid and the old text of each change that has one.
abbrev pub old_side : List Change → List (Text × Text)
old_side [] = []
old_side (c ∷ changes) = elim c.old_text [
  | none ↦ old_side changes
  | some t ↦ (c.sid, t) ∷ old_side changes
]

abbrev pub entry : Text → Located → Text × Text
entry prefix l = (prefix ++ sid_of l, l.text)

pub map-span {ℓ} :
    {B : Type ℓ} (f : Located → B) (start : ℕ) (xs ys : List Located)
    → drop start xs ≡ ys
    → map (λ i. f (get_or xs i nowhere)) (span start (length ys)) ≡ map f ys
map-span f start xs [] e = refl
map-span f start xs (y ∷ ys) e =
    let (ey, er) = drop-eq-cons start xs nowhere e in
    ap (λ h. f h ∷ map (λ i. f (get_or xs i nowhere)) (span (suc start) (length ys))) ey
    ∙ ap (λ r. f y ∷ r) (map-span f (suc start) xs ys er)

pub length-texts : (flat : List Located) → length (texts flat) ≡ length flat
length-texts [] = refl
length-texts (l ∷ flat) = ap suc (length-texts flat)

old_side-changes :
    (old_flat new_flat : List Located) (prefix : Text) (modal : ℤ) (ops : List AlignOp)
    → old_side (map (change_of old_flat new_flat prefix modal) ops)
      ≡ map (λ i. entry prefix (get_or old_flat i nowhere)) (olds ops)
unfolding change_of olds
old_side-changes old_flat new_flat prefix modal [] = refl
old_side-changes old_flat new_flat prefix modal (equal i j ∷ ops) =
    ap (λ r. entry prefix (get_or old_flat i nowhere) ∷ r)
      (old_side-changes old_flat new_flat prefix modal ops)
old_side-changes old_flat new_flat prefix modal (edited i j r ∷ ops) =
    ap (λ r. entry prefix (get_or old_flat i nowhere) ∷ r)
      (old_side-changes old_flat new_flat prefix modal ops)
old_side-changes old_flat new_flat prefix modal (delete i ∷ ops) =
    ap (λ r. entry prefix (get_or old_flat i nowhere) ∷ r)
      (old_side-changes old_flat new_flat prefix modal ops)
old_side-changes old_flat new_flat prefix modal (insert j ∷ ops) =
    old_side-changes old_flat new_flat prefix modal ops

-- The changes that carry an old text are the sentences of the old document: each once, in its
-- order, with its own text and under its own sid.
pub old_side-diff_prose :
    (lib : TextLib) (old_text new_text artifact_id : Text)
    → old_side (diff_prose lib old_text new_text artifact_id)
      ≡ map (entry (sid_prefix artifact_id)) (flatten (split_paragraphs old_text))
unfolding diff_prose
old_side-diff_prose lib old_text new_text artifact_id =
    let old_flat = flatten (split_paragraphs old_text) in
    let new_flat = flatten (split_paragraphs new_text) in
    let ops = align lib (texts old_flat) (texts new_flat) in
    let prefix = sid_prefix artifact_id in
    old_side-changes old_flat new_flat prefix (modal_offset (offsets old_flat new_flat ops)) ops
    ∙ ap (map (λ i. entry prefix (get_or old_flat i nowhere)))
        (olds-align lib (texts old_flat) (texts new_flat) ∙ ap range (length-texts old_flat))
    ∙ map-span (entry prefix) 0 old_flat old_flat refl
