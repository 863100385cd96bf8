-- ===== src/Repo/Service/Advanced.antt =====
-- What a guarded change of a tree comes to.
use re_git.Base.{◌+◌, ◌≡◌, List, [], ◌∷◌, is_empty, false, true, Option, none, some, Text}
use re_git.Store.Rows.{ParentRow, Database}
use re_git.Store.Graph.Edges.{is_parent}
use re_git.Store.Valid.Linked.{Linked}
use re_git.Store.Monad.{Store, M, ok, tx, ◌>>=◌}
use re_git.Store.Host.{Host}
use re_git.Store.After.{After, Atomic, After-read, tx-Atomic, After-mono, After-ok}
use re_git.Store.Refs.{ref_head}
use re_git.Store.Valid.Committed.{Committed}
use re_git.Repo.Tree.{Tree}
use re_git.Repo.Service.{TreeJson, parents_of_head, tree_at, current}
use re_git.Repo.Service.Guarded.{IsRead-current, Current, current-After}
use re_git.Repo.Service.Saved.{save_id, Saved}

-- Within a transaction.
abbrev pub opened : Store → Store
opened s = record s { savepoint = s.savepoint + 1 }

-- The branch stood at the head that the caller expected, the change was made to the tree of that head,
-- and the branch now stands at the commit of the new tree on that head.
pub record Advanced (host : Host) (json : TreeJson) (rid branch : Text) (expected : Option Text)
    (message user : Text) (Changes : Tree → Tree → Type 0) (s : Store) (cid : Text)
    (after : Database) : Type 0 where
  pub head : Text
  pub tree : Tree
  pub new_tree : Tree
  pub date : Text
  pub seen : expected ≡ some head
  pub at_head : ref_head branch rid s.db ≡ some head
  pub read : (tree_at host json rid branch none (opened s)).0 ≡ ok (head, tree)
  pub changed : Changes tree new_tree
  pub id : cid ≡ save_id host json rid new_tree (some head) message user date
  pub committed : Committed branch rid cid s.db after
  -- an empty id is no head
  pub child : is_empty head ≡ false → is_parent cid head after.commit_parents ≡ true

only_parent :
    (cid head : Text) (rows : List ParentRow)
    → Linked cid (parents_of_head (some head)) rows
    → is_empty head ≡ false
    → is_parent cid head rows ≡ true
unfolding parents_of_head
only_parent cid head rows h e = let here : Linked cid (head ∷ []) rows = rw e at h in here.0

module _ (host : Host) (json : TreeJson) (rid branch : Text) (expected : Option Text)
    (message user : Text) (Changes : Tree → Tree → Type 0) (s : Store) where
  abbrev pub Moves : Text → Store → Type 0
  Moves cid t = Advanced host json rid branch expected message user Changes s cid t.db

  -- The commit of a tree that the change makes of the tree of a head.
  abbrev pub Made : Text × Tree → Text → Store → Type 0
  Made seen cid t =
      (now : Tree) × Changes seen.1 now
      × Saved host json rid branch now (some seen.0) message user s.db cid t

  -- A change of the tree that the caller has seen, in a transaction.
  pub guarded-Atomic :
      (change : Text × Tree → M Text)
      → ((seen : Text × Tree) → After (Made seen) (change seen (opened s)))
      → Atomic Moves s.db (tx (current host json rid branch expected >>= change) s)
  guarded-Atomic change h = tx-Atomic Moves _ s (
      After-read Moves (current host json rid branch expected) change (opened s)
        (IsRead-current host json rid branch expected)
        (λ seen e.
          let now =
            After-ok (Current host json rid branch expected (opened s)) _ seen
              (current-After host json rid branch expected (opened s)) e in
          After-mono (Made seen) Moves _
            (λ cid u c. record {
              head = seen.0;
              tree = seen.1;
              new_tree = c.0;
              date = c.2.0;
              seen = now.seen_head;
              at_head = now.head;
              read = now.read;
              changed = c.1;
              id = c.2.1;
              committed = c.2.2;
              child = only_parent cid seen.0 u.db.commit_parents c.2.3;
            })
            (h seen)))
