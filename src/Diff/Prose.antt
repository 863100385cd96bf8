-- ===== src/Diff/Prose.antt =====
-- `_flatten`, `_modal_offset` and `diff_prose` of backend/src/core/diff/align.py.
pub mod Coverage
pub mod Same
pub mod Grid
use re_git.Base.{
  ℕ, suc, ◌+◌, ◌^◌, max, Bool, true, false, ◌&&◌, ◌||◌, not, Option, none, some, Text, codes, List,
  [], ◌∷◌, ◌++◌, map, ltb, ◌==◌, if◌then◌else◌, is_empty, decimal, get_or,
}
use re_git.Base.Int.{ℤ, pos, sub_ℕ, int_eq, int_ltb, abs}
use re_git.Diff.Changes.{Change, Status, unchanged, moved, deleted, added}
use re_git.Diff.Ops.{AlignOp, equal, edited, delete, insert}
use re_git.Diff.Split.{split_paragraphs, split_sentences}
use re_git.Diff.Align.{TextLib, align}

-- An entry (paragraph index, sentence index, sentence) of `_flatten`.
pub record Located : Type 0 where
  pub para : ℕ
  pub sent : ℕ
  pub text : Text

locate : ℕ → ℕ → List Text → List Located
locate pi si [] = []
locate pi si (s ∷ sentences) =
    record { para = pi; sent = si; text = s } ∷ locate pi (suc si) sentences

flatten_from : ℕ → List Text → List Located
flatten_from pi [] = []
flatten_from pi (p ∷ paras) = locate pi 0 (split_sentences p) ++ flatten_from (suc pi) paras

unfoldable pub flatten : List Text → List Located
unfolding locate flatten_from
flatten paras = flatten_from 0 paras

-- Never read: every index that the code reads is in range.
abbrev pub nowhere : Located
nowhere = record { para = 0; sent = 0; text = [] }

-- f"{pi}:{si}"
unfoldable pub sid_of : Located → Text
sid_of l = decimal l.para ++ (b':' ∷ decimal l.sent)

-- counts[o] = counts.get(o, 0) + 1
bump : ℤ → List (ℤ × ℕ) → List (ℤ × ℕ)
bump o [] = (o, 1) ∷ []
bump o ((p, c) ∷ counts) = if int_eq p o then (p, c + 1) ∷ counts else (p, c) ∷ bump o counts

tally : List ℤ → List (ℤ × ℕ) → List (ℤ × ℕ)
tally [] counts = counts
tally (o ∷ offsets) counts = tally offsets (bump o counts)

best_count : List (ℤ × ℕ) → ℕ
best_count [] = 0
best_count ((o, c) ∷ counts) = max c (best_count counts)

-- (abs(a), a) < (abs(b), b)
nearer : ℤ → ℤ → Bool
nearer a b = ltb (abs a) (abs b) || abs a == abs b && int_ltb a b

-- min over the offsets of count `best`; the first of the least ones
nearest : ℕ → List (ℤ × ℕ) → Option ℤ → Option ℤ
nearest best [] found = found
nearest best ((o, c) ∷ counts) found = nearest best counts (
    if c == best
    then elim found [ none ↦ some o | some f ↦ if nearer o f then some o else some f ]
    else found)

or_zero : Option ℤ → ℤ
or_zero none = pos 0
or_zero (some o) = o

unfoldable pub modal_offset : List ℤ → ℤ
unfolding bump tally best_count nearer nearest or_zero
modal_offset offsets =
    let counts = tally offsets [] in
    let best = best_count counts in if ltb 1 best then or_zero (nearest best counts none) else pos 0

-- 1.0, in units of 2 ** -1074
abbrev pub one : ℕ
one = 2 ^ 1074

module _ (old_flat new_flat : List Located) where
  unfoldable pub offset_of : ℕ → ℕ → ℤ
  offset_of i j = sub_ℕ (get_or new_flat j nowhere).para (get_or old_flat i nowhere).para

  unfoldable pub offsets : List AlignOp → List ℤ
  offsets [] = []
  offsets (equal i j ∷ ops) = offset_of i j ∷ offsets ops
  offsets (edited i j r ∷ ops) = offsets ops
  offsets (delete i ∷ ops) = offsets ops
  offsets (insert j ∷ ops) = offsets ops

  unfoldable pub change_of : Text → ℤ → AlignOp → Change
  change_of prefix modal (equal i j) = record {
    sid = prefix ++ sid_of (get_or old_flat i nowhere);
    status = if int_eq (offset_of i j) modal then unchanged else moved;
    old_text = some (get_or old_flat i nowhere).text;
    new_text = some (get_or new_flat j nowhere).text;
    similarity = some one;
  }
  change_of prefix modal (edited i j r) = record {
    sid = prefix ++ sid_of (get_or old_flat i nowhere);
    status = Status.edited;
    old_text = some (get_or old_flat i nowhere).text;
    new_text = some (get_or new_flat j nowhere).text;
    similarity = some r;
  }
  change_of prefix modal (delete i) = record {
    sid = prefix ++ sid_of (get_or old_flat i nowhere);
    status = deleted;
    old_text = some (get_or old_flat i nowhere).text;
    new_text = none;
    similarity = none;
  }
  change_of prefix modal (insert j) = record {
    sid = prefix ++ sid_of (get_or new_flat j nowhere);
    status = added;
    old_text = none;
    new_text = some (get_or new_flat j nowhere).text;
    similarity = none;
  }

abbrev pub texts : List Located → List Text
texts flat = map (λ l. l.text) flat

-- f"{artifact_id}:" if artifact_id else ""
unfoldable pub sid_prefix : Text → Text
sid_prefix artifact_id = if is_empty artifact_id then [] else artifact_id ++ b':' ∷ []

unfoldable pub diff_prose : TextLib → Text → Text → Text → List Change
diff_prose lib old_text new_text artifact_id =
    let old_flat = flatten (split_paragraphs old_text) in
    let new_flat = flatten (split_paragraphs new_text) in
    let ops = align lib (texts old_flat) (texts new_flat) in
    let modal = modal_offset (offsets old_flat new_flat ops) in
    map (change_of old_flat new_flat (sid_prefix artifact_id) modal) ops
