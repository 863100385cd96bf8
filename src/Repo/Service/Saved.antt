-- ===== src/Repo/Service/Saved.antt =====
-- What `_save` commits: the id of the commit is the digest of the tree, its parent, the message and
-- the author.
use re_git.Base.{◌≡◌, refl, ap, ◌∙◌, Option, none, some, Text, List, [], ℕ, codes, strip}
use re_git.Store.Rows.{Database}
use re_git.Store.Monad.{Store, pure, require, tx}
use re_git.Store.Host.{Host}
use re_git.Store.Hash.{blob_id, commit_id, sorted}
use re_git.Store.Reads.{IsRead-require, IsRead-lift}
use re_git.Store.After.{After, After-bind, After-read, After-any, After-both, After-mono}
use re_git.Store.Blobs.{lift, put_blob}
use re_git.Store.Capture.{dedup}
use re_git.Store.Commit.{Request, commit, commit_dated, commit_row, resolve_date}
use re_git.Store.Valid.Committed.{Committed, Recorded}
use re_git.Store.Valid.Linked.{Linked}
use re_git.Store.Valid.Unmoved.{Unmoved, put_blob-After, commit-After}
use re_git.Repo.Tree.{Tree}
use re_git.Repo.Service.{TreeJson, parents_of_head, save}

module _ (host : Host) where
  abbrev IsIdOf : Request → Text → Type 0
  IsIdOf q cid =
      (date : Text) × (cid
        ≡ commit_id host q.parents q.root_hash q.artifact_id q.message q.author date)

  commit_dated-id :
      (q : Request) (date : Text) (s : Store)
      → After (λ cid t. IsIdOf q cid) (commit_dated host q date s)
  unfolding commit_dated commit_row pure
  commit_dated-id q date s =
      After-bind (λ cid t. IsIdOf q cid) (λ z t. Unit {0}) (tx _) _ s (After-any _)
        (λ z t u. (date, refl))

  commit-id : (q : Request) (s : Store) → After (λ cid t. IsIdOf q cid) (commit host q s)
  unfolding commit
  commit-id q s =
      let Q = λ (cid : Text) (t : Store). IsIdOf q cid in
      After-read Q (require _ _) _ s (IsRead-require _ _) (λ z e.
        After-bind Q (λ date t. Unit {0}) (resolve_date host q.author_date) _ s (After-any _)
          (λ date t u. commit_dated-id q date t))

  put_blob-id :
      (kind : Text) (bytes : List ℕ) (s : Store)
      → After (λ root t. root ≡ blob_id host kind bytes) (put_blob host kind bytes s)
  unfolding put_blob pure
  put_blob-id kind bytes s =
      let Q = λ (root : Text) (t : Store). root ≡ blob_id host kind bytes in
      After-read Q (lift _) _ s (IsRead-lift _)
        (λ p e. After-bind Q (λ z t. Unit {0}) (tx _) _ s (After-any _) (λ z t u. refl))

module _ (host : Host) (json : TreeJson) (rid : Text) where
  -- The id of the commit of a tree on a head: its folders are sorted and without repetition, and the
  -- blob is of the kind "repository".
  unfoldable pub save_id : Tree → Option Text → Text → Text → Text → Text
  save_id tree parent message user date =
      commit_id host (parents_of_head parent)
        (blob_id host (codes "repository")
          (json.dump (record tree { folders = sorted (dedup [] tree.folders) })))
        rid (strip message) user date

  -- The commit of a tree is on the branch.
  abbrev pub Saved : Text → Tree → Option Text → Text → Text → Database → Text → Store → Type 0
  Saved branch tree parent message user before cid t =
      (date : Text) × (cid ≡ save_id tree parent message user date)
      × Committed branch rid cid before t.db
      × Linked cid (parents_of_head parent) t.db.commit_parents

  abbrev blob_of : Tree → Text
  blob_of tree =
      blob_id host (codes "repository")
        (json.dump (record tree { folders = sorted (dedup [] tree.folders) }))

  -- The request of `_save`.
  abbrev request : Text → Text → Option Text → Text → Text → Request
  request root branch parent message user = record {
    parents = parents_of_head parent;
    root_hash = root;
    artifact_id = rid;
    message = strip message;
    author = user;
    author_date = none;
    branch = branch;
    expected_head = parent;
    kind = some (codes "repository");
  }

  request-Saved :
      (branch : Text) (tree : Tree) (parent : Option Text) (message user root : Text)
      (before : Database) (s : Store)
      → Unmoved before s.db
      → root ≡ blob_of tree
      → After
          (Saved branch tree parent message user before)
          (commit host (request root branch parent message user) s)
  unfolding save_id
  request-Saved branch tree parent message user root before s u e =
      let q = request root branch parent message user in
      let P = λ (cid : Text) (t : Store). Recorded q cid before t.db × IsIdOf host q cid in
      After-mono P (Saved branch tree parent message user before) (commit host q s)
        (λ cid t c. (
          c.1.0,
          c.1.1
              ∙ ap (λ r. commit_id host (parents_of_head parent) r rid (strip message) user c.1.0)
                  e,
          c.0.0,
          c.0.1,
        ))
        (After-both (λ cid t. Recorded q cid before t.db) (λ cid t. IsIdOf host q cid)
          (commit host q s) (commit-After host q before s u) (commit-id host q s))

  pub save-After :
      (branch : Text) (tree : Tree) (parent : Option Text) (message user : Text) (before : Database)
      (s : Store)
      → Unmoved before s.db
      → After
          (Saved branch tree parent message user before)
          (save host json rid branch tree parent message user s)
  unfolding save
  save-After branch tree parent message user before s u =
      let Q = Saved branch tree parent message user before in
      let P = λ (root : Text) (t : Store). Unmoved before t.db × (root ≡ blob_of tree) in
      After-read Q (require _ _) _ s (IsRead-require _ _) (λ z e.
        After-bind Q P (put_blob host _ _) _ s
          (After-both (λ root t. Unmoved before t.db) (λ root t. root ≡ blob_of tree)
            (put_blob host _ _ s) (put_blob-After host _ _ before s u) (put_blob-id host _ _ s))
          (λ root t v. request-Saved branch tree parent message user root before t v.0 v.1))
