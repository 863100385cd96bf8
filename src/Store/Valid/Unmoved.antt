-- ===== src/Store/Valid/Unmoved.antt =====
-- Writing an object moves no ref.
use re_git.Base.{
  ℕ, ◌≡◌, refl, ◌∙◌, Bool, true, false, Text, List, [], ◌∷◌, ◌++◌, ◌+◌, text_eq, length,
  if◌then◌else◌,
}
use re_git.Store.Rows.{ObjectRow, CommitRow, Database, found, find_object}
use re_git.Store.Monad.{File, Store, Result, ok, err, continue, pure, modify, tx, ◌>>=◌, ◌>>◌}
use re_git.Store.Host.{Host}
use re_git.Store.Blobs.{insert_object, find_file, put_blob, path_for, lift, write_file}
use re_git.Store.Hash.{blob_id}
use re_git.Store.Refs.{ref_head}
use re_git.Store.Valid.{IsValid}
use re_git.Store.Valid.Commits.{All-mono, found-insert}
use re_git.Store.Valid.Committed.{Committed, Recorded}
use re_git.Store.Valid.Commit.{CommitOutcome, commit-outcome}
use re_git.Store.Commit.{Request, commit}
use re_git.Store.After.{After, After-state}

-- Objects may have been added; the graph and the refs are as before.
pub record Unmoved (before after : Database) : Type 0 where
  pub commits : after.commits ≡ before.commits
  pub commit_parents : after.commit_parents ≡ before.commit_parents
  pub refs : after.refs ≡ before.refs
  pub branches : after.branches ≡ before.branches
  pub valid : IsValid after

pub Unmoved-refl : (db : Database) → IsValid db → Unmoved db db
Unmoved-refl db v = record {
  commits = refl;
  commit_parents = refl;
  refs = refl;
  branches = refl;
  valid = v;
}

pub insert_object-Unmoved :
    (row : ObjectRow) (db : Database) → IsValid db → Unmoved db (insert_object row db)
unfolding ref_head
insert_object-Unmoved row db v = record {
  commits = refl;
  commit_parents = refl;
  refs = refl;
  branches = refl;
  valid = record {
    refs_unique = v.refs_unique;
    refs_known = v.refs_known;
    mirrored = v.mirrored;
    parents_known = v.parents_known;
    roots_known =
        All-mono (λ (c : CommitRow). found (find_object c.root_hash db) ≡ true) _ db.commits
          (λ c.
            found-insert (λ r. text_eq r.hash c.root_hash) (λ r. text_eq r.hash row.hash) row
              db.objects)
          v.roots_known;
  };
}

with_file : (b : Bool) (s t : Store) → t.db ≡ s.db → (if b then s else t).db ≡ s.db
with_file true s t e = refl
with_file false s t e = e

module _ (host : Host) where
  pub put_blob-Unmoved :
      (kind : Text) (bytes : List ℕ) (s : Store)
      → IsValid s.db
      → Unmoved s.db (put_blob host kind bytes s).1.db
  unfolding put_blob tx ◌>>=◌ write_file lift
  put_blob-Unmoved kind bytes s v = go (path_for (blob_id host kind bytes))
    where
      row : Text × Text → ObjectRow
      row p = record { hash = blob_id host kind bytes; kind = kind; size = length bytes; path = p }

      go :
          (r : Result (Text × Text))
          → Unmoved s.db
              (continue r
                (λ p.
                  tx (write_file p (host.compress bytes) >> modify (insert_object (row p)))
                  >> pure (blob_id host kind bytes))
                s).1.db
      go (err e) = Unmoved-refl s.db v
      go (ok p) =
          let file : File = record { path = p; content = host.compress bytes } in
          rw
            (with_file (found (find_file p s.files)) (record s { savepoint = s.savepoint + 1 })
              (record s { savepoint = s.savepoint + 1; files = s.files ++ file ∷ [] }) refl)
            (insert_object-Unmoved (row p) s.db v)

pub Committed-from :
    {name aid cid : Text} {before mid after : Database}
    → Unmoved before mid
    → Committed name aid cid mid after
    → Committed name aid cid before after
unfolding ref_head
Committed-from u c = record {
  head = c.head;
  recorded = c.recorded;
  others = λ n a k. c.others n a k ∙ rw u.refs refl;
  valid = c.valid;
}

pub Unmoved-trans : {a b c : Database} → Unmoved a b → Unmoved b c → Unmoved a c
Unmoved-trans u v = record {
  commits = v.commits ∙ u.commits;
  commit_parents = v.commit_parents ∙ u.commit_parents;
  refs = v.refs ∙ u.refs;
  branches = v.branches ∙ u.branches;
  valid = v.valid;
}

module _ (host : Host) where
  pub put_blob-After :
      (kind : Text) (bytes : List ℕ) (before : Database) (s : Store)
      → Unmoved before s.db
      → After (λ (root : Text) t. Unmoved before t.db) (put_blob host kind bytes s)
  put_blob-After kind bytes before s u =
      After-state (λ (root : Text) t. Unmoved before t.db) (λ t. Unmoved s.db t.db) _
        (put_blob-Unmoved host kind bytes s u.valid) (λ root v. Unmoved-trans u v)

  pub commit-After :
      (q : Request) (before : Database) (s : Store)
      → Unmoved before s.db
      → After (λ cid t. Recorded q cid before t.db) (commit host q s)
  commit-After q before s u =
      go (commit host q s).0 (commit host q s).1 (commit-outcome host q s u.valid)
    where
      go :
          (r : Result Text) (t : Store)
          → CommitOutcome q s.db (r, t)
          → After (λ cid t. Recorded q cid before t.db) (r, t)
      go (ok cid) t c = (Committed-from u c.0, c.1)
      go (err e) t c = tt
