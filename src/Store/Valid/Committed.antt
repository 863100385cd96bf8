-- ===== src/Store/Valid/Committed.antt =====
-- What a commit leaves behind, and that what the capture of its claims writes does not touch it.
use re_git.Base.{◌≡◌, ◌∙◌, sym, subst, Option, none, some, Text}
use re_git.Store.Rows.{Database}
use re_git.Store.Refs.{ref_head}
use re_git.Store.Refs.Queries.{KeyDiffers}
use re_git.Store.Commit.{Request}
use re_git.Store.Valid.{HasCommit, HeadKnown, IsValid}
use re_git.Store.Valid.Frame.{CoreSame}
use re_git.Store.Valid.Linked.{Linked}

-- What a commit `cid` to a branch leaves behind.
pub record Committed (name aid cid : Text) (before after : Database) : Type 0 where
  -- the branch is at the commit
  pub head : ref_head name aid after ≡ some cid
  -- the commit has a row
  pub recorded : HasCommit after cid
  -- no other ref has moved
  pub others : (n a : Text) → KeyDiffers name aid n a → ref_head n a after ≡ ref_head n a before
  pub valid : IsValid after

HeadKnown-same : {a b : Database} (h : Option Text) → CoreSame a b → HeadKnown a h → HeadKnown b h
HeadKnown-same none same k = tt
HeadKnown-same (some h) same k = rw same.commits k

ref_head-same : {a b : Database} (n x : Text) → CoreSame a b → ref_head n x b ≡ ref_head n x a
unfolding ref_head
ref_head-same n x same = rw same.refs

CoreSame-IsValid : {a b : Database} → CoreSame a b → IsValid a → IsValid b
unfolding ref_head
CoreSame-IsValid {a} {b} same v = record {
  refs_unique = rw same.refs v.refs_unique;
  refs_known = λ n x.
      subst (λ h. HeadKnown b h) (sym (ref_head-same n x same))
        (HeadKnown-same (ref_head n x a) same (v.refs_known n x));
  mirrored = λ n x. rw same.branches (v.mirrored n x ∙ sym (ref_head-same n x same));
  parents_known = rw (same.commit_parents, same.commits) v.parents_known;
  roots_known = rw (same.commits, same.objects) v.roots_known;
}

CoreSame-Committed :
    {name aid cid : Text} {before a b : Database}
    → CoreSame a b
    → Committed name aid cid before a
    → Committed name aid cid before b
CoreSame-Committed {name} {aid} {cid} {before} {a} {b} same c = record {
  head = ref_head-same name aid same ∙ c.head;
  recorded = HeadKnown-same (some cid) same c.recorded;
  others = λ n x ne. ref_head-same n x same ∙ c.others n x ne;
  valid = CoreSame-IsValid same c.valid;
}

-- A commit is on its branch, and a row says of each of its parents that it is one.
abbrev pub Recorded : Request → Text → Database → Database → Type 0
Recorded q cid before after =
    Committed q.branch q.artifact_id cid before after × Linked cid q.parents after.commit_parents

pub CoreSame-Recorded :
    (q : Request) (cid : Text) {before a b : Database}
    → CoreSame a b
    → Recorded q cid before a
    → Recorded q cid before b
CoreSame-Recorded q cid same c = (CoreSame-Committed same c.0, rw same.commit_parents c.1)
