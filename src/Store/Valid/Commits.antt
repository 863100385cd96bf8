-- ===== src/Store/Valid/Commits.antt =====
-- The rows that `commit` writes keep the invariant.
use re_git.Base.{
  ◌≡◌, refl, Bool, true, ◌&&◌, Option, none, some, Bool-cases, inl, inr, Text, text_eq, text_eq_iff,
  List, [], ◌∷◌, arith, All, All-append,
}
use re_git.Store.Rows.{
  CommitRow, ParentRow, Database, found, find_row, find_object, insert_or_ignore,
}
use re_git.Store.Monad.{Store, ok, ◌>>=◌}
use re_git.Store.Refs.{ref_head}
use re_git.Store.Refs.Queries.{find_row-append}
use re_git.Store.Commit.{insert_commit, same_parent, insert_parent, check_parents, add_parents}
use re_git.Store.Valid.{HasCommit, HeadKnown, IsValid}

pub found-insert {ℓ} :
    {A : Type ℓ} (test same : A → Bool) (row : A) (rows : List A)
    → found (find_row test rows) ≡ true
    → found (find_row test (insert_or_ignore same row rows)) ≡ true
found-insert test same row rows h = ground (arith, find_row-append test rows row)

found-insert_self {ℓ} :
    {A : Type ℓ} (same : A → Bool) (row : A) (rows : List A)
    → same row ≡ true
    → found (find_row same (insert_or_ignore same row rows)) ≡ true
found-insert_self same row rows h = ground (arith, find_row-append same rows row)

All-insert {ℓ κ} :
    {A : Type ℓ} (P : A → Type κ) (same : A → Bool) (row : A) (rows : List A)
    → P row
    → All P rows
    → All P (insert_or_ignore same row rows)
All-insert P same row rows here h = elim (Bool-cases (found (find_row same rows))) [
  | inl e ↦ rw e h
  | inr e ↦ rw e (All-append P rows (row ∷ []) h (here, tt))
]

pub All-mono {ℓ κ} :
    {A : Type ℓ} (P Q : A → Type κ) (rows : List A)
    → ((a : A) → P a → Q a)
    → All P rows
    → All Q rows
All-mono P Q [] f h = tt
All-mono P Q (a ∷ rows) f h = (f a h.0, All-mono P Q rows f h.1)

pub HasCommit-insert :
    (row : CommitRow) (db : Database) (cid : Text)
    → HasCommit db cid
    → HasCommit (insert_commit row db) cid
HasCommit-insert row db cid h =
    found-insert (λ r. text_eq r.id cid) (λ r. text_eq r.id row.id) row db.commits h

pub HasCommit-insert_self :
    (row : CommitRow) (db : Database) → HasCommit (insert_commit row db) row.id
HasCommit-insert_self row db =
    found-insert_self (λ r. text_eq r.id row.id) row db.commits ((text_eq_iff row.id row.id).1 refl)

pub insert_commit-IsValid :
    (row : CommitRow) (db : Database)
    → found (find_object row.root_hash db) ≡ true
    → IsValid db
    → IsValid (insert_commit row db)
unfolding ref_head
insert_commit-IsValid row db root v = record {
  refs_unique = v.refs_unique;
  refs_known = λ n a. keep (ref_head n a db) (v.refs_known n a);
  mirrored = v.mirrored;
  parents_known =
      All-mono (λ (r : ParentRow). HasCommit db r.commit_id × HasCommit db r.parent_id) _
        db.commit_parents
        (λ r h. (HasCommit-insert row db r.commit_id h.0, HasCommit-insert row db r.parent_id h.1))
        v.parents_known;
  roots_known =
      All-insert (λ (c : CommitRow). found (find_object c.root_hash db) ≡ true)
        (λ r. text_eq r.id row.id) row db.commits root v.roots_known;
}
  where
    keep : (h : Option Text) → HeadKnown db h → HeadKnown (insert_commit row db) h
    keep none k = tt
    keep (some h) k = HasCommit-insert row db h k

pub add_parents-IsValid :
    (cid : Text) (parents : List Text) (db : Database)
    → HasCommit db cid
    → All (HasCommit db) parents
    → IsValid db
    → IsValid (add_parents cid parents db)
unfolding add_parents ref_head
add_parents-IsValid cid [] db here known v = v
add_parents-IsValid cid (p ∷ parents) db here known v =
    add_parents-IsValid cid parents (insert_parent (record { commit_id = cid; parent_id = p }) db)
      here known.1
      (record {
        refs_unique = v.refs_unique;
        refs_known = v.refs_known;
        mirrored = v.mirrored;
        parents_known =
            All-insert (λ (r : ParentRow). HasCommit db r.commit_id × HasCommit db r.parent_id)
              (same_parent (record { commit_id = cid; parent_id = p }))
              (record { commit_id = cid; parent_id = p }) db.commit_parents (here, known.0)
              v.parents_known;
        roots_known = v.roots_known;
      })

-- Adding parent edges changes no other table.
pub record SameBut (before after : Database) : Type 0 where
  pub commits : after.commits ≡ before.commits
  pub refs : after.refs ≡ before.refs

pub add_parents-SameBut :
    (cid : Text) (parents : List Text) (db : Database) → SameBut db (add_parents cid parents db)
unfolding add_parents
add_parents-SameBut cid [] db = record { commits = refl; refs = refl }
add_parents-SameBut cid (p ∷ parents) db =
    let rest =
      add_parents-SameBut cid parents
        (insert_parent (record { commit_id = cid; parent_id = p }) db) in
    record { commits = rest.commits; refs = rest.refs }

pub find_commit_of-found :
    (cid aid : Text) (rows : List CommitRow)
    → found (find_row (λ r. text_eq r.id cid && text_eq r.artifact_id aid) rows) ≡ true
    → found (find_row (λ r. text_eq r.id cid) rows) ≡ true
unfolding find_row
find_commit_of-found cid aid [] h = h
find_commit_of-found cid aid (r ∷ rows) h = ground (arith, find_commit_of-found cid aid rows)

-- The check of the parents reads only; it passes if every parent is a commit of the artifact.
pub check_parents-state :
    (aid : Text) (parents : List Text) (s : Store) → (check_parents aid parents s).1 ≡ s
unfolding check_parents ◌>>=◌
check_parents-state aid [] s = refl
check_parents-state aid (p ∷ parents) s = ground (arith, check_parents-state aid parents s)

pub check_parents-known :
    (aid : Text) (parents : List Text) (s : Store)
    → (check_parents aid parents s).0 ≡ ok tt
    → All (HasCommit s.db) parents
unfolding check_parents ◌>>=◌
check_parents-known aid [] s h = tt
check_parents-known aid (p ∷ parents) s h =
    ground (arith, find_commit_of-found p aid s.db.commits, check_parents-known aid parents s)
