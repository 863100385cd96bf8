-- ===== src/Repo/Service/Guarded.antt =====
-- What every guarded change shares: `_current` checks the head that the caller has seen, and
-- `_save` commits on it.
use re_git.Base.{
  ℕ, ◌≡◌, refl, sym, ap, ◌∙◌, Bool, true, false, ◌&&◌, Option, none, some, Text, codes, text_eq,
  text_eq_iff, List, [], ◌∷◌, arith,
}
use re_git.Store.Rows.{CommitRow, Database, find_row}
use re_git.Store.Monad.{Store, ok, Error, ref_conflict, pure, raise, query, require}
use re_git.Store.Host.{Host}
use re_git.Store.Reads.{
  IsRead, read_rules, IsRead-get_blob, IsRead-bind, IsRead-pure, IsRead-raise, IsRead-query,
  IsRead-require,
}
use re_git.Store.After.{After, After-read, After-ok}
use re_git.Store.Blobs.{get_blob}
use re_git.Store.Refs.{ref_head}
use re_git.Repo.Tree.{Tree}
use re_git.Repo.Service.{
  TreeJson, or_raise, repository, revision, commit_at, loaded, tree_at, current, bad, same_head,
}

pub IsRead-or_raise {ℓ} : {A : Type ℓ} (o : Option A) (e : Error) → IsRead (or_raise o e)
unfolding or_raise
IsRead-or_raise none e = IsRead-raise e
IsRead-or_raise (some a) e = IsRead-pure a

pub ruleset repo_reads = (read_rules, IsRead-or_raise, IsRead-get_blob)

IsRead-repository : (rid : Text) → IsRead (repository rid)
unfolding repository
IsRead-repository rid = search repo_reads

module _ (host : Host) (json : TreeJson) where
  IsRead-loaded : (bytes : List ℕ) → IsRead (loaded host json bytes)
  unfolding loaded
  IsRead-loaded bytes = search repo_reads

  pub IsRead-tree_at :
      (rid branch : Text) (rev : Option Text) → IsRead (tree_at host json rid branch rev)
  unfolding tree_at
  IsRead-tree_at rid branch rev = search (repo_reads, IsRead-repository, IsRead-loaded) depth 12

  pub IsRead-current :
      (rid branch : Text) (expected : Option Text) → IsRead (current host json rid branch expected)
  unfolding current
  IsRead-current rid branch expected = search (repo_reads, IsRead-tree_at)

  -- The commit is the one that the revision names.
  abbrev Names : Text → Text → Option Text → Database → Text × Tree → Store → Type 0
  Names rid branch rev db seen t = revision rid branch rev db ≡ some seen.0

commit_at-id :
    (rid : Text) (cid : Option Text) (db : Database) (row : CommitRow)
    → commit_at rid cid db ≡ some row
    → cid ≡ some row.id
unfolding commit_at find_row
commit_at-id rid none db row e = cc e
commit_at-id rid (some cid) db row e = ap some (sym (found_id db.commits e))
  where
    found_id :
        (rows : List CommitRow)
        → find_row (λ c. text_eq c.id cid && text_eq c.artifact_id rid) rows ≡ some row
        → row.id ≡ cid
    found_id [] e = cc e
    found_id (r ∷ rows) e = ground (arith, found_id rows, text_eq_iff r.id cid)

pub or_raise-ok {ℓ} :
    {A : Type ℓ} (o : Option A) (x : Error) (s : Store) (a : A)
    → (or_raise o x s).0 ≡ ok a
    → o ≡ some a
unfolding or_raise pure raise
or_raise-ok none x s a e = cc e
or_raise-ok (some b) x s a e = cc e

pub require-true : (b : Bool) (x : Error) (s : Store) → (require b x s).0 ≡ ok tt → b ≡ true
unfolding require pure raise
require-true true x s e = refl
require-true false x s e = cc e

same_head-eq :
    (expected : Option Text) (cid : Text) → same_head expected cid ≡ true → expected ≡ some cid
unfolding same_head
same_head-eq none cid e = cc e
same_head-eq (some x) cid e = ap some (sym ((text_eq_iff cid x).0 e))

revision-head :
    (rid branch : Text) (db : Database) → ref_head branch rid db ≡ revision rid branch none db
unfolding revision
revision-head rid branch db = refl

module _ (host : Host) (json : TreeJson) where
  tree_at-After :
      (rid branch : Text) (rev : Option Text) (s : Store)
      → After (Names host json rid branch rev s.db) (tree_at host json rid branch rev s)
  unfolding tree_at query pure
  tree_at-After rid branch rev s =
      let Q = Names host json rid branch rev s.db in
      After-read Q (repository rid) _ s (IsRead-repository rid) (λ repo e0.
        After-read Q (query (revision rid branch rev)) _ s (IsRead-query (revision rid branch rev))
          (λ cid e1.
            After-read Q (query (commit_at rid cid)) _ s (IsRead-query (commit_at rid cid)) (λ o e2.
              After-read Q (or_raise o (bad (codes "COMMIT_NOT_FOUND"))) _ s (IsRead-or_raise _ _)
                (λ row e.
                  After-read Q (get_blob host row.root_hash false) _ s
                    (IsRead-get_blob host _ false)
                    (λ bytes e3.
                      After-read Q (loaded host json bytes) _ s (IsRead-loaded host json bytes)
                        (λ tree e4. named rid cid s row e1 e2 (or_raise-ok o _ s row e)))))))
    where
      named :
          (rid : Text) (cid : Option Text) {o : Option CommitRow} (s : Store) (row : CommitRow)
          → ok (revision rid branch rev s.db) ≡ ok cid
          → ok (commit_at rid cid s.db) ≡ ok o
          → o ≡ some row
          → revision rid branch rev s.db ≡ some row.id
      named rid cid s row e1 e2 e =
          let same : revision rid branch rev s.db ≡ cid = cc in
          let row_found : commit_at rid cid s.db ≡ some row = cc in
          same ∙ commit_at-id rid cid s.db row row_found

  -- What a checked read of the head gives.
  pub record Current (rid branch : Text) (expected : Option Text) (start : Store)
      (seen : Text × Tree) (s : Store) : Type 0 where
    pub head : ref_head branch rid start.db ≡ some seen.0
    pub seen_head : expected ≡ some seen.0
    pub read : (tree_at host json rid branch none start).0 ≡ ok seen

  pub current-After :
      (rid branch : Text) (expected : Option Text) (s : Store)
      → After (Current rid branch expected s) (current host json rid branch expected s)
  unfolding current pure
  current-After rid branch expected s =
      let Q = Current rid branch expected s in
      After-read Q (tree_at host json rid branch none) _ s
        (IsRead-tree_at host json rid branch none)
        (λ seen e.
          After-read Q (require (same_head expected seen.0) ref_conflict) _ s (IsRead-require _ _)
            (λ u c. record {
              head =
                  revision-head rid branch s.db
                  ∙ After-ok (Names host json rid branch none s.db) _ seen
                      (tree_at-After rid branch none s) e;
              seen_head = same_head-eq expected seen.0 (require-true _ _ s c);
              read = e;
            }))
