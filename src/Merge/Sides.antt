-- ===== src/Merge/Sides.antt =====
-- `_side_ops` of backend/src/core/merge/three_way.py.
pub mod Quiet
use re_git.Base.{ℕ, suc, ◌+◌, Bool, true, false, Option, none, some, Text, List, [], ◌∷◌, ◌++◌}
use re_git.Base.Dicts.{Dict, put, get_default}
use re_git.Diff.Ops.{AlignOp}
use re_git.Diff.Align.{TextLib, align}

-- The pairs ("equal", new_idx or None), ("edit", new_idx) and ("delete", None).
pub data SideChange : Type 0 where
  equal : Option ℕ → SideChange
  edit : ℕ → SideChange
  delete : SideChange

-- The two dicts: the change of each base sentence, and the inserts before each.
pub record Side : Type 0 where
  pub change : Dict SideChange
  pub inserts : Dict (List ℕ)

record_change : ℕ → SideChange → Side → Side
record_change i c side = record side { change = put i c side.change }

-- inserts.setdefault(seen, []).append(new_i)
record_insert : ℕ → ℕ → Side → Side
record_insert seen j side = record side {
  inserts = put seen (get_default [] seen side.inserts ++ j ∷ []) side.inserts;
}

unfoldable pub side_loop : List AlignOp → ℕ → Side → Side
unfolding record_change record_insert
side_loop [] seen side = side
side_loop (AlignOp.equal i j ∷ ops) seen side =
    side_loop ops (seen + 1) (record_change i (equal (some j)) side)
side_loop (AlignOp.edited i j r ∷ ops) seen side =
    side_loop ops (seen + 1) (record_change i (edit j) side)
side_loop (AlignOp.delete i ∷ ops) seen side =
    side_loop ops (seen + 1) (record_change i delete side)
side_loop (AlignOp.insert j ∷ ops) seen side = side_loop ops seen (record_insert seen j side)

abbrev pub no_side : Side
no_side = record { change = []; inserts = [] }

unfoldable pub side_ops : TextLib → List Text → List Text → Side
side_ops lib old new = side_loop (align lib old new) 0 no_side

-- change.get(a, ("equal", None))
unfoldable pub change_at : Side → ℕ → SideChange
change_at side a = get_default (equal none) a side.change

-- inserts.get(a, [])
unfoldable pub inserts_at : Side → ℕ → List ℕ
inserts_at side a = get_default [] a side.inserts

-- _changed(kind)
abbrev pub changed : SideChange → Bool
changed (equal j) = false
changed (edit j) = true
changed delete = true
