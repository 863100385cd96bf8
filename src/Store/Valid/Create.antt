-- ===== src/Store/Valid/Create.antt =====
-- A new ref, with its mirror row, keeps the invariant.
use re_git.Base.{◌≡◌, refl, ◌∙◌, sym, Option, none, some, inl, inr, Text, text_eq_iff, arith}
use re_git.Store.Rows.{Database, ref_key, branch_key, find_row}
use re_git.Store.Refs.{ref_head, insert_ref, insert_branch}
use re_git.Store.Refs.Queries.{KeyDiffers, append-UniqueRefs, find_row-append}
use re_git.Store.Valid.{branch_head, HasCommit, HeadKnown, IsValid}
use re_git.Store.Valid.Refs.{key-cases}

module _ (name aid cid created : Text) (db : Database) where
  unfoldable pub with_ref : Database
  with_ref =
      insert_branch
        (record { name = name; artifact_id = aid; head_commit_id = cid; created_at = created })
        (insert_ref (record { name = name; artifact_id = aid; head = cid }) db)

  module _ (free : ref_head name aid db ≡ none) (v : IsValid db) where
    no_ref : find_row (ref_key name aid) db.refs ≡ none
    unfolding ref_head
    no_ref = ground (arith, free)

    no_branch : find_row (branch_key name aid) db.branches ≡ none
    no_branch = ground (arith, free, v.mirrored name aid)

    pub ref_head-with_ref : ref_head name aid with_ref ≡ some cid
    unfolding ref_head with_ref ref_key
    ref_head-with_ref = ground (
      arith,
      no_ref,
      find_row-append (ref_key name aid) db.refs
          (record { name = name; artifact_id = aid; head = cid }),
      (text_eq_iff name name).1 refl,
      (text_eq_iff aid aid).1 refl,
    )

    branch_head-with_ref : branch_head name aid with_ref ≡ some cid
    unfolding with_ref branch_key
    branch_head-with_ref = ground (
      arith,
      no_branch,
      find_row-append (branch_key name aid) db.branches
          (record { name = name; artifact_id = aid; head_commit_id = cid; created_at = created }),
      (text_eq_iff name name).1 refl,
      (text_eq_iff aid aid).1 refl,
    )

    pub ref_head-with_ref_ne :
        (n a : Text) → KeyDiffers name aid n a → ref_head n a with_ref ≡ ref_head n a db
    unfolding ref_head with_ref ref_key
    ref_head-with_ref_ne n a ne = ground (
      arith,
      find_row-append (ref_key n a) db.refs (record { name = name; artifact_id = aid; head = cid }),
      text_eq_iff name n,
      text_eq_iff aid a,
    )

    branch_head-with_ref_ne :
        (n a : Text) → KeyDiffers name aid n a → branch_head n a with_ref ≡ branch_head n a db
    unfolding with_ref branch_key
    branch_head-with_ref_ne n a ne = ground (
      arith,
      no_branch,
      find_row-append (branch_key n a) db.branches
          (record { name = name; artifact_id = aid; head_commit_id = cid; created_at = created }),
      text_eq_iff name n,
      text_eq_iff aid a,
    )

    HeadKnown-with_ref : (h : Option Text) → HeadKnown db h → HeadKnown with_ref h
    unfolding with_ref
    HeadKnown-with_ref none k = tt
    HeadKnown-with_ref (some h) k = k

    pub with_ref-IsValid : HasCommit db cid → IsValid with_ref
    with_ref-IsValid known = record {
      refs_unique =
          unfold with_ref in
          append-UniqueRefs db.refs (record { name = name; artifact_id = aid; head = cid }) no_ref
            v.refs_unique;
      refs_known = λ n a. elim (key-cases name aid n a) [
        | inl (p, q) ↦ rw (p, q, ref_head-with_ref) (HeadKnown-with_ref (some cid) known)
        | inr ne ↦
            rw (ref_head-with_ref_ne n a ne)
              (HeadKnown-with_ref (ref_head n a db) (v.refs_known n a))
      ];
      mirrored = λ n a. elim (key-cases name aid n a) [
        | inl (p, q) ↦ rw (p, q) (branch_head-with_ref ∙ sym ref_head-with_ref)
        | inr ne ↦
            branch_head-with_ref_ne n a ne ∙ v.mirrored n a ∙ sym (ref_head-with_ref_ne n a ne)
      ];
      parents_known = unfold with_ref in v.parents_known;
      roots_known = unfold with_ref in v.roots_known;
    }
