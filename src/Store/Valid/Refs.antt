-- ===== src/Store/Valid/Refs.antt =====
-- The ref moves keep the invariant.
use re_git.Base.{
  ◌⊎◌, ◌≡◌, refl, ◌∙◌, sym, Option, none, some, Bool-cases, inl, inr, Text, text_eq, text_eq_iff,
  arith, if◌then◌else◌,
}
use re_git.Store.Rows.{Database}
use re_git.Store.Monad.{Store, Result, ok, err, ref_conflict, ◌>>=◌}
use re_git.Store.Refs.{ref_head, move_ref, swap_head, expected_or}
use re_git.Store.Refs.Queries.{
  KeyDiffers, head-update_refs, head-update_refs_ne, head-update_branches, head-update_branches_ne,
  UniqueRefs, meets_ref-is_at, update_refs-UniqueRefs,
}
use re_git.Store.Valid.{branch_head, HasCommit, HeadKnown, IsValid}

-- Whether two pairs of texts are one key.
pub key-cases :
    (name aid name' aid' : Text) → ((name' ≡ name) × (aid' ≡ aid)) ⊎ KeyDiffers name aid name' aid'
key-cases name aid name' aid' = elim (Bool-cases (text_eq name' name)) [
  | inl e ↦ elim (Bool-cases (text_eq aid' aid)) [
    | inl f ↦ inl ((text_eq_iff name' name).0 e, (text_eq_iff aid' aid).0 f)
    | inr f ↦ inr (λ p q. ground (arith, text_eq_iff aid' aid))
  ]
  | inr e ↦ inr (λ p q. ground (arith, text_eq_iff name' name))
]

module _ (name aid current new_head : Text) (db : Database)
    (at : ref_head name aid db ≡ some current) where
  pub ref_head-move_ref : ref_head name aid (move_ref name aid current new_head db) ≡ some new_head
  unfolding ref_head move_ref
  ref_head-move_ref =
      head-update_refs name aid current new_head db.refs
      ∙ ground (arith, at, (text_eq_iff current current).1 refl)

  pub ref_head-move_ref_ne :
      (name' aid' : Text)
      → KeyDiffers name aid name' aid'
      → ref_head name' aid' (move_ref name aid current new_head db) ≡ ref_head name' aid' db
  unfolding ref_head move_ref
  ref_head-move_ref_ne name' aid' ne =
      head-update_refs_ne name aid current new_head name' aid' db.refs ne

  branch_head-move_ref :
      branch_head name aid db ≡ some current
      → branch_head name aid (move_ref name aid current new_head db) ≡ some new_head
  unfolding move_ref
  branch_head-move_ref e = ground (arith, e, head-update_branches name aid new_head db.branches)

  branch_head-move_ref_ne :
      (name' aid' : Text)
      → KeyDiffers name aid name' aid'
      → branch_head name' aid' (move_ref name aid current new_head db) ≡ branch_head name' aid' db
  unfolding move_ref
  branch_head-move_ref_ne name' aid' ne =
      head-update_branches_ne name aid new_head name' aid' db.branches ne

  HeadKnown-move_ref :
      (h : Option Text) → HeadKnown db h → HeadKnown (move_ref name aid current new_head db) h
  unfolding move_ref
  HeadKnown-move_ref none k = tt
  HeadKnown-move_ref (some h) k = k

  pub move_ref-IsValid :
      IsValid db → HasCommit db new_head → IsValid (move_ref name aid current new_head db)
  move_ref-IsValid v known = record {
    refs_unique =
        unfold move_ref in update_refs-UniqueRefs name aid current new_head db.refs v.refs_unique;
    refs_known = λ n a. elim (key-cases name aid n a) [
      | inl (p, q) ↦ rw (p, q, ref_head-move_ref) (HeadKnown-move_ref (some new_head) known)
      | inr ne ↦
          rw (ref_head-move_ref_ne n a ne) (HeadKnown-move_ref (ref_head n a db) (v.refs_known n a))
    ];
    mirrored = λ n a. elim (key-cases name aid n a) [
      | inl (p, q) ↦
          rw (p, q) (branch_head-move_ref (v.mirrored name aid ∙ at) ∙ sym ref_head-move_ref)
      | inr ne ↦ branch_head-move_ref_ne n a ne ∙ v.mirrored n a ∙ sym (ref_head-move_ref_ne n a ne)
    ];
    parents_known = unfold move_ref in v.parents_known;
    roots_known = unfold move_ref in v.roots_known;
  }

-- What `swap_head` does on each branch: the guard decides, and a success moves the ref.
abbrev pub SwapOutcome :
    Text → Text → Text → Option Text → Text → Store → Result (Unit {0}) × Store → Type 0
SwapOutcome name aid new_head expected_head current s r =
    if text_eq current (expected_or expected_head current)
    then r ≡ (ok tt, record s { db = move_ref name aid current new_head s.db })
    else r ≡ (err ref_conflict, s)

module _ (name aid new_head : Text) (expected_head : Option Text) (current : Text) (s : Store)
    (at : ref_head name aid s.db ≡ some current) (unique : UniqueRefs s.db.refs) where
  pub swap_head-outcome :
      SwapOutcome name aid new_head expected_head current s
        (swap_head name aid new_head expected_head current s)
  unfolding swap_head ref_head ◌>>=◌
  swap_head-outcome = ground (
    arith,
    at,
    meets_ref-is_at name aid (expected_or expected_head current) s.db.refs unique,
    text_eq_iff current (expected_or expected_head current),
  )
