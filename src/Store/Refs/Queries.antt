-- ===== src/Store/Refs/Queries.antt =====
-- What the writes of the tables do to the queries over them.
use re_git.Base.{
  ◌≡◌, refl, Bool, false, Option, none, some, Text, text_eq, text_eq_iff, List, [], ◌∷◌, ◌++◌,
  arith, if◌then◌else◌,
}
use re_git.Store.Rows.{
  RefRow, BranchRow, ref_key, branch_key, find_row, update_refs, update_branches, meets_ref,
}
use re_git.Store.Refs.{head_of, branch_head_of}

pub find_row-append {ℓ} :
    {A : Type ℓ} (test : A → Bool) (rows : List A) (r : A)
    → find_row test (rows ++ r ∷ [])
      ≡ elim (find_row test rows) [ some x ↦ some x | none ↦ if test r then some r else none ]
unfolding find_row
find_row-append test [] r = refl
find_row-append test (x ∷ rows) r = ground (arith, find_row-append test rows r)

-- What a guarded UPDATE leaves as the head of its own ref.
abbrev pub moved_head : Text → Text → Option Text → Option Text
moved_head expected new_head none = none
moved_head expected new_head (some h) = if text_eq h expected then some new_head else some h

-- A guarded UPDATE moves the head of its own ref, if that is the expected one …
pub head-update_refs :
    (name aid expected new_head : Text) (rows : List RefRow)
    → head_of (find_row (ref_key name aid) (update_refs name aid expected new_head rows))
      ≡ moved_head expected new_head (head_of (find_row (ref_key name aid) rows))
unfolding find_row update_refs ref_key
head-update_refs name aid expected new_head [] = refl
head-update_refs name aid expected new_head (r ∷ rows) =
    ground (arith, head-update_refs name aid expected new_head rows)

abbrev pub KeyDiffers : Text → Text → Text → Text → Type 0
KeyDiffers name aid name' aid' = name' ≡ name → aid' ≡ aid → ⊥

-- … and of no other.
pub head-update_refs_ne :
    (name aid expected new_head name' aid' : Text) (rows : List RefRow)
    → KeyDiffers name aid name' aid'
    → head_of (find_row (ref_key name' aid') (update_refs name aid expected new_head rows))
      ≡ head_of (find_row (ref_key name' aid') rows)
unfolding find_row update_refs ref_key
head-update_refs_ne name aid expected new_head name' aid' [] ne = refl
head-update_refs_ne name aid expected new_head name' aid' (r ∷ rows) ne = ground (
  arith,
  head-update_refs_ne name aid expected new_head name' aid' rows ne,
  text_eq_iff r.name name,
  text_eq_iff r.name name',
  text_eq_iff r.artifact_id aid,
  text_eq_iff r.artifact_id aid',
)

pub head-update_branches :
    (name aid new_head : Text) (rows : List BranchRow)
    → branch_head_of (find_row (branch_key name aid) (update_branches name aid new_head rows))
      ≡ elim (find_row (branch_key name aid) rows) [ none ↦ none | some r ↦ some new_head ]
unfolding find_row update_branches branch_key
head-update_branches name aid new_head [] = refl
head-update_branches name aid new_head (r ∷ rows) =
    ground (arith, head-update_branches name aid new_head rows)

pub head-update_branches_ne :
    (name aid new_head name' aid' : Text) (rows : List BranchRow)
    → KeyDiffers name aid name' aid'
    → branch_head_of (find_row (branch_key name' aid') (update_branches name aid new_head rows))
      ≡ branch_head_of (find_row (branch_key name' aid') rows)
unfolding find_row update_branches branch_key
head-update_branches_ne name aid new_head name' aid' [] ne = refl
head-update_branches_ne name aid new_head name' aid' (r ∷ rows) ne = ground (
  arith,
  head-update_branches_ne name aid new_head name' aid' rows ne,
  text_eq_iff r.name name,
  text_eq_iff r.name name',
  text_eq_iff r.artifact_id aid,
  text_eq_iff r.artifact_id aid',
)

-- The primary key of refs.
abbrev pub UniqueRefs : List RefRow → Type 0
UniqueRefs [] = Unit
UniqueRefs (r ∷ rows) = (find_row (ref_key r.name r.artifact_id) rows ≡ none) × UniqueRefs rows

abbrev pub is_at : Text → Option Text → Bool
is_at expected none = false
is_at expected (some h) = text_eq h expected

meets_ref-none :
    (name aid expected : Text) (rows : List RefRow)
    → find_row (ref_key name aid) rows ≡ none
    → meets_ref name aid expected rows ≡ false
unfolding find_row meets_ref ref_key
meets_ref-none name aid expected [] e = refl
meets_ref-none name aid expected (r ∷ rows) e =
    ground (arith, meets_ref-none name aid expected rows)

-- Under the primary key, the guarded UPDATE meets a row exactly when the ref is at `expected`.
pub meets_ref-is_at :
    (name aid expected : Text) (rows : List RefRow)
    → UniqueRefs rows
    → meets_ref name aid expected rows ≡ is_at expected (head_of (find_row (ref_key name aid) rows))
unfolding find_row meets_ref ref_key
meets_ref-is_at name aid expected [] u = refl
meets_ref-is_at name aid expected (r ∷ rows) u = ground (
  arith,
  u.0,
  meets_ref-is_at name aid expected rows u.1,
  meets_ref-none name aid expected rows,
  text_eq_iff r.name name,
  text_eq_iff r.artifact_id aid,
)

find-update_refs-none :
    (name aid expected new_head name' aid' : Text) (rows : List RefRow)
    → find_row (ref_key name' aid') rows ≡ none
    → find_row (ref_key name' aid') (update_refs name aid expected new_head rows) ≡ none
unfolding find_row update_refs ref_key
find-update_refs-none name aid expected new_head name' aid' [] e = refl
find-update_refs-none name aid expected new_head name' aid' (r ∷ rows) e =
    ground (arith, find-update_refs-none name aid expected new_head name' aid' rows)

pub update_refs-UniqueRefs :
    (name aid expected new_head : Text) (rows : List RefRow)
    → UniqueRefs rows
    → UniqueRefs (update_refs name aid expected new_head rows)
unfolding update_refs
update_refs-UniqueRefs name aid expected new_head [] u = tt
update_refs-UniqueRefs name aid expected new_head (r ∷ rows) u = ground (
  arith,
  find-update_refs-none name aid expected new_head r.name r.artifact_id rows u.0,
  update_refs-UniqueRefs name aid expected new_head rows u.1,
)

pub append-UniqueRefs :
    (rows : List RefRow) (r : RefRow)
    → find_row (ref_key r.name r.artifact_id) rows ≡ none
    → UniqueRefs rows
    → UniqueRefs (rows ++ r ∷ [])
unfolding find_row ref_key
append-UniqueRefs [] r e u = (refl, tt)
append-UniqueRefs (x ∷ rows) r e u = ground (
  arith,
  u.0,
  find_row-append (ref_key x.name x.artifact_id) rows r,
  append-UniqueRefs rows r,
  text_eq_iff x.name r.name,
  text_eq_iff r.name x.name,
  text_eq_iff x.artifact_id r.artifact_id,
  text_eq_iff r.artifact_id x.artifact_id,
)
