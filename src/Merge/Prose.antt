-- ===== src/Merge/Prose.antt =====
-- `merge_prose` of backend/src/core/merge/three_way.py: the pure engine.
pub mod OneSide
pub mod Exact
pub mod Swap
use re_git.Base.{
  ℕ, zero, suc, ◌-◌, Bool, true, false, Option, none, some, Text, codes, text_eq, List, [], ◌∷◌,
  ◌++◌, map, ltb, ◌==◌, leb, if◌then◌else◌, is_empty, join, length, get_or,
}
use re_git.Base.Dicts.{Dict, put, get_default}
use re_git.Diff.Split.{split_paragraphs}
use re_git.Diff.Align.{TextLib}
use re_git.Diff.Prose.{Located, nowhere, flatten, texts, sid_of}
use re_git.Merge.Sides.{SideChange, equal, edit, delete, Side, side_ops, change_at, inserts_at}

-- `MergeConflictRec`
pub record Conflict : Type 0 where
  pub sid : Text
  pub base_text : Text
  pub ours_text : Text
  pub theirs_text : Text

-- `InsertOverlapRec`
pub record InsertOverlap : Type 0 where
  pub sid : Text
  pub ours_text : Text
  pub theirs_text : Text

pub data State : Type 0 where
  clean conflicted : State

-- `MergeResult`; `conflicted` is the state "conflicts".
pub record MergeResult : Type 0 where
  pub merged_text : Text
  pub conflicts : List Conflict
  pub state : State
  pub insert_overlaps : List InsertOverlap

-- `_conflict_marker`
unfoldable pub conflict_marker : Text → Text → Text → Text
conflict_marker sid ours_text theirs_text =
    codes "<<<<<<< ours "
    ++ (sid
        ++ (10 ∷ ours_text ++ (codes "\n=======\n" ++ (theirs_text ++ codes "\n>>>>>>> theirs"))))

-- A pair (anchor, text or None) of `slots`.
pub record Slot : Type 0 where
  pub anchor : ℕ
  pub text : Option Text

-- What a part of the loop appends to `conflicts` and to `slots`.
pub record Output : Type 0 where
  pub conflicts : List Conflict
  pub slots : List Slot

abbrev pub both_outputs : Output → Output → Output
both_outputs o p = record { conflicts = o.conflicts ++ p.conflicts; slots = o.slots ++ p.slots }

abbrev pub plain : ℕ → Option Text → Output
plain a text = record { conflicts = []; slots = record { anchor = a; text = text } ∷ [] }

abbrev pub conflict : ℕ → Text → Text → Text → Text → Output
conflict a sid base_text ours_text theirs_text = record {
  conflicts =
      record { sid = sid; base_text = base_text; ours_text = ours_text; theirs_text = theirs_text }
      ∷ [];
  slots = record { anchor = a; text = some (conflict_marker sid ours_text theirs_text) } ∷ [];
}

-- [sents[i] for i in indices]
abbrev pub at_indices : List Text → List ℕ → List Text
at_indices sents indices = map (λ i. get_or sents i []) indices

abbrev pub insert_slots : ℕ → List Text → List Slot
insert_slots a inserted = map (λ t. record { anchor = a; text = some t }) inserted

module _ (base_flat : List Located) (ours_sents theirs_sents : List Text) where
  -- `_anchor_sid`
  unfoldable pub anchor_sid : ℕ → Text
  anchor_sid a =
      if ltb a (length base_flat) then sid_of (get_or base_flat a nowhere) else codes "end"

  -- The inserts before base sentence `a`.
  unfoldable pub insert_step : ℕ → List ℕ → List ℕ → Output
  unfolding anchor_sid
  insert_step a (i ∷ o_ins) (j ∷ t_ins) =
      conflict a (anchor_sid a) [] (join (32 ∷ []) (at_indices ours_sents (i ∷ o_ins)))
        (join (32 ∷ []) (at_indices theirs_sents (j ∷ t_ins)))
  insert_step a o_ins t_ins = record {
    conflicts = [];
    slots =
        insert_slots a (at_indices ours_sents o_ins)
        ++ insert_slots a (at_indices theirs_sents t_ins);
  }

  -- The decision table for base sentence `a`.
  unfoldable pub sentence_step : ℕ → SideChange → SideChange → Output
  sentence_step a (equal _) (equal _) = plain a (some (get_or base_flat a nowhere).text)
  sentence_step a (edit i) (equal _) = plain a (some (get_or ours_sents i []))
  sentence_step a delete (equal _) = plain a none
  sentence_step a (equal _) (edit j) = plain a (some (get_or theirs_sents j []))
  sentence_step a (equal _) delete = plain a none
  sentence_step a (edit i) (edit j) =
      let l = get_or base_flat a nowhere in
      if text_eq (get_or ours_sents i []) (get_or theirs_sents j [])
      then plain a (some (get_or ours_sents i []))
      else conflict a (sid_of l) l.text (get_or ours_sents i []) (get_or theirs_sents j [])
  sentence_step a delete delete = record { conflicts = []; slots = [] }
  sentence_step a (edit i) delete =
      let l = get_or base_flat a nowhere in conflict a (sid_of l) l.text (get_or ours_sents i []) []
  sentence_step a delete (edit j) =
      let l = get_or base_flat a nowhere in
      conflict a (sid_of l) l.text [] (get_or theirs_sents j [])

  module _ (ours theirs : Side) where
    -- The rounds of the loop from `a` on, of which `left` have a base sentence.
    unfoldable pub merge_loop : ℕ → ℕ → Output
    merge_loop a zero = insert_step a (inserts_at ours a) (inserts_at theirs a)
    merge_loop a (suc left) =
        both_outputs (insert_step a (inserts_at ours a) (inserts_at theirs a)) (
          both_outputs (sentence_step a (change_at ours a) (change_at theirs a))
            (merge_loop (suc a) left))

-- base_flat[anchor][0] if anchor < n else (base_flat[n - 1][0] if n else 0)
unfoldable pub slot_para : List Located → ℕ → ℕ
slot_para base_flat anchor =
    let n = length base_flat in
    if ltb anchor n
    then (get_or base_flat anchor nowhere).para
    else if ltb 0 n
    then (get_or base_flat (n - 1) nowhere).para
    else 0

-- paras.setdefault(para, []).append(text), for the slots that hold a text
unfoldable pub gather : List Located → List Slot → Dict (List Text) → Dict (List Text)
unfolding slot_para
gather base_flat [] paras = paras
gather base_flat (s ∷ slots) paras = gather base_flat slots (elim s.text [
  | none ↦ paras
  | some t ↦
      let para = slot_para base_flat s.anchor in
      put para (get_default [] para paras ++ t ∷ []) paras
])

insert_key : ℕ × List Text → Dict (List Text) → Dict (List Text)
insert_key (k, v) [] = (k, v) ∷ []
insert_key (k, v) ((j, w) ∷ paras) =
    if leb k j then (k, v) ∷ (j, w) ∷ paras else (j, w) ∷ insert_key (k, v) paras

-- The entries in the order of `sorted(paras)`.
sort_keys : Dict (List Text) → Dict (List Text)
unfolding insert_key
sort_keys [] = []
sort_keys (p ∷ paras) = insert_key p (sort_keys paras)

unfoldable pub slots_text : List Located → List Slot → Text
unfolding sort_keys
slots_text base_flat slots =
    join (10 ∷ 10 ∷ []) (map (λ p. join (32 ∷ []) p.1) (sort_keys (gather base_flat slots [])))

unfoldable pub state_of : List Conflict → State
state_of conflicts = if is_empty conflicts then clean else conflicted

unfoldable pub located : Text → List Located
located text = flatten (split_paragraphs text)

-- The loop over the three documents.
unfoldable pub merge_output : TextLib → Text → Text → Text → Output
merge_output lib base ours theirs =
    let base_flat = located base in
    let ours_sents = texts (located ours) in
    let theirs_sents = texts (located theirs) in
    merge_loop base_flat ours_sents theirs_sents (side_ops lib (texts base_flat) ours_sents)
      (side_ops lib (texts base_flat) theirs_sents) 0 (length base_flat)

-- The code declares `overlaps` and appends nothing to it.
unfoldable pub merge_prose : TextLib → Text → Text → Text → MergeResult
unfolding state_of
merge_prose lib base ours theirs =
    let out = merge_output lib base ours theirs in
    record {
      merged_text = slots_text (located base) out.slots;
      conflicts = out.conflicts;
      state = state_of out.conflicts;
      insert_overlaps = [];
    }
