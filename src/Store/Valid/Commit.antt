-- ===== src/Store/Valid/Commit.antt =====
-- `commit` is atomic, moves its own ref only, and keeps the invariant.
use re_git.Base.{
  ◌⊎◌, ◌+◌, ◌≡◌, refl, ap, ◌∙◌, sym, subst, Bool, true, false, Bool-cases, inl, inr, Text, [],
  arith, leb, length, is_empty, if◌then◌else◌,
}
use re_git.Store.Rows.{CommitRow, Database, found, find_object}
use re_git.Store.Monad.{
  Store, Result, ok, err, Error, value_error, tx, close, continue, pure, tick, require, M, ◌>>=◌,
  ◌>>◌,
}
use re_git.Store.Host.{Host}
use re_git.Store.Hash.{or_else}
use re_git.Store.Refs.{ref_head, cas_advance}
use re_git.Store.Capture.{capture_commit}
use re_git.Store.Commit.{
  Request, insert_commit, check_parents, add_parents, write_commit, commit_row, resolve_date,
  commit_dated, commit,
}
use re_git.Store.Valid.{HasCommit, IsValid}
use re_git.Store.Valid.Cas.{HeadAfter, cas_advance-outcome}
use re_git.Store.Valid.Frame.{Frames-capture_commit}
use re_git.Store.Valid.Committed.{Recorded, CoreSame-Recorded}
use re_git.Store.Valid.Linked.{add_parents-Linked}
use re_git.Store.Valid.Commits.{
  All-mono, HasCommit-insert, HasCommit-insert_self, insert_commit-IsValid, add_parents-IsValid,
  add_parents-SameBut, check_parents-state, check_parents-known,
}

module _ (host : Host) (q : Request) (row : CommitRow) (root : row.root_hash ≡ q.root_hash)
    (s : Store) (v : IsValid s.db) where
  abbrev prepared : Database
  prepared = add_parents row.id q.parents (insert_commit row s.db)

  abbrev swapped : Result (Unit {0}) × Store
  swapped =
      cas_advance host q.branch q.artifact_id row.id q.expected_head (record s { db = prepared })

  -- Either a check fails, or the rows are written and the ref is compared and swapped.
  write_commit-cases :
      ((e : Error) × (write_commit host q row s ≡ (err e, s)))
      ⊎ ((found (find_object q.root_hash s.db) ≡ true)
          × ((check_parents q.artifact_id q.parents s).0 ≡ ok tt)
          × (write_commit host q row s ≡ swapped))
  unfolding write_commit ◌>>=◌
  write_commit-cases = elim (Bool-cases (found (find_object q.root_hash s.db))) [
    | inr no_root ↦ inl (value_error, rw no_root)
    | inl stored ↦ go (check_parents q.artifact_id q.parents s).0 refl stored
  ]
    where
      go :
          (r : Result (Unit {0}))
          → (check_parents q.artifact_id q.parents s).0 ≡ r
          → found (find_object q.root_hash s.db) ≡ true
          → ((e : Error) × (write_commit host q row s ≡ (err e, s)))
            ⊎ ((found (find_object q.root_hash s.db) ≡ true)
                × ((check_parents q.artifact_id q.parents s).0 ≡ ok tt)
                × (write_commit host q row s ≡ swapped))
      go (ok tt) e stored =
          inr (stored, e, ground (arith, stored, e, check_parents-state q.artifact_id q.parents s))
      go (err x) e stored =
          inl (x, ground (arith, stored, e, check_parents-state q.artifact_id q.parents s))

  module _ (stored : found (find_object q.root_hash s.db) ≡ true)
      (known : (check_parents q.artifact_id q.parents s).0 ≡ ok tt) where
    abbrev inserted : Database
    inserted = insert_commit row s.db

    prepared_commits : prepared.commits ≡ inserted.commits
    prepared_commits = (add_parents-SameBut row.id q.parents inserted).commits

    prepared_row : HasCommit prepared row.id
    prepared_row = rw prepared_commits (HasCommit-insert_self row s.db)

    prepared-IsValid : IsValid prepared
    prepared-IsValid =
        add_parents-IsValid row.id q.parents inserted (HasCommit-insert_self row s.db)
          (All-mono (HasCommit s.db) (HasCommit inserted) q.parents (HasCommit-insert row s.db)
            (check_parents-known q.artifact_id q.parents s known))
          (insert_commit-IsValid row s.db (rw root stored) v)

    ref_head-prepared : (n a : Text) → ref_head n a prepared ≡ ref_head n a s.db
    unfolding ref_head
    ref_head-prepared n a = rw (add_parents-SameBut row.id q.parents inserted).refs

    swapped-Recorded : swapped.0 ≡ ok tt → Recorded q row.id s.db swapped.1.db
    swapped-Recorded done =
        let t = record s { db = prepared } in
        let out =
          cas_advance-outcome host q.branch q.artifact_id row.id t prepared-IsValid
            q.expected_head in
        (
          record {
            head =
                subst (λ r. HeadAfter q.branch q.artifact_id row.id t r swapped.1.db) done out.head;
            recorded = rw out.commits prepared_row;
            others = λ n a ne. out.others n a ne ∙ ref_head-prepared n a;
            valid = out.valid prepared_row;
          },
          rw out.commit_parents (add_parents-Linked row.id q.parents inserted),
        )

  write_commit-Recorded :
      (write_commit host q row s).0 ≡ ok tt
      → Recorded q row.id s.db (write_commit host q row s).1.db
  write_commit-Recorded done = elim write_commit-cases [
    | inl (e, failed) ↦ cc (ap (λ (r : Result (Unit {0}) × Store). r.0) failed)
    | inr (stored, known, e) ↦
        subst (λ r. Recorded q row.id s.db r.1.db) (sym e)
          (swapped-Recorded stored known (sym (ap (λ r. r.0) e) ∙ done))
  ]

  abbrev body : M (Unit {0})
  body = write_commit host q row >> capture_commit host row.id

  body-Recorded : (body s).0 ≡ ok tt → Recorded q row.id s.db (body s).1.db
  unfolding ◌>>=◌
  body-Recorded done = go (write_commit host q row s).0 refl
    where
      go :
          (r : Result (Unit {0}))
          → (write_commit host q row s).0 ≡ r
          → Recorded q row.id s.db (body s).1.db
      go (ok tt) e =
          let s' = (write_commit host q row s).1 in
          rw e (
            CoreSame-Recorded q row.id ((Frames-capture_commit host row.id).at s')
              (write_commit-Recorded e))
      go (err x) e = cc (rw e at done)

-- What a commit request does: on success the commit is made, on an error the database is as before.
abbrev pub CommitOutcome : Request → Database → Result Text × Store → Type 0
CommitOutcome q before (ok cid, s) = Recorded q cid before s.db
CommitOutcome q before (err e, s) = s.db ≡ before

tx-outcome :
    (q : Request) (m : M (Unit {0})) (cid : Text) (s : Store)
    → ((m (record s { savepoint = s.savepoint + 1 })).0 ≡ ok tt
        → Recorded q cid s.db (m (record s { savepoint = s.savepoint + 1 })).1.db)
    → CommitOutcome q s.db ((tx m >> pure cid) s)
unfolding tx ◌>>=◌
tx-outcome q m cid s h =
    go (m (record s { savepoint = s.savepoint + 1 })).0
      (m (record s { savepoint = s.savepoint + 1 })).1 h
  where
    go :
        (r : Result (Unit {0})) (s' : Store)
        → (r ≡ ok tt → Recorded q cid s.db s'.db)
        → CommitOutcome q s.db (continue (close s.db r s').0 (λ _. pure cid) (close s.db r s').1)
    go (ok tt) s' k = k refl
    go (err e) s' k = refl

module _ (host : Host) (q : Request) where
  commit_dated-outcome :
      (date : Text) (s : Store) → IsValid s.db → CommitOutcome q s.db (commit_dated host q date s)
  unfolding commit_dated commit_row
  commit_dated-outcome date s v =
      let row = commit_row host q date in
      tx-outcome q (body host q row refl (record s { savepoint = s.savepoint + 1 }) v) row.id s
        (body-Recorded host q row refl (record s { savepoint = s.savepoint + 1 }) v)

  dated :
      (b : Bool) (pinned : Text) (s : Store)
      → IsValid s.db
      → CommitOutcome q s.db (
          ((if b then (do n ← tick; pure (host.now_iso n)) else pure pinned)
              >>= commit_dated host q)
            s)
  unfolding ◌>>=◌
  dated true pinned s v =
      commit_dated-outcome (host.now_iso s.ticks) (record s { ticks = s.ticks + 1 }) v
  dated false pinned s v = commit_dated-outcome pinned s v

  required :
      (b : Bool) (s : Store)
      → IsValid s.db
      → CommitOutcome q s.db
          ((require b value_error >> (resolve_date host q.author_date >>= commit_dated host q)) s)
  unfolding ◌>>=◌ resolve_date
  required true s v =
      let pinned = or_else q.author_date (or_else host.author_date_env []) in
      dated (is_empty pinned) pinned s v
  required false s v = refl

  -- On valid tables a commit either raises and leaves the database as it was, or it returns the id
  -- of a commit that has a row and to which the branch points, and rows make it a child of each of the
  -- parents of the request; then no other ref has moved, and the tables are valid.
  pub commit-outcome : (s : Store) → IsValid s.db → CommitOutcome q s.db (commit host q s)
  unfolding commit
  commit-outcome s v = required (leb (length q.parents) 2) s v
