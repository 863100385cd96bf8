-- ===== src/Merge/Commits/Outcome.antt =====
-- What `merge_commits` leaves behind on each of its ends.
use re_git.Base.{◌≡◌, refl, Option, none, some, Text}
use re_git.Base.Utf8.{encode}
use re_git.Diff.Align.{TextLib}
use re_git.Merge.Prose.{MergeResult, State, clean, conflicted, merge_prose}
use re_git.Merge.Commits.{
  MergeOutcome, MergeRequest, base_of, base_text, commit_text, merge_request, outcome, finish,
  merge_commits,
}
use re_git.Merge.Commits.Reads.{IsRead-commit_text, IsRead-base_text}
use re_git.Store.Reads.{IsRead, IsRead-query}
use re_git.Store.Valid.Unmoved.{Unmoved, Unmoved-refl, put_blob-Unmoved, Committed-from}
use re_git.Store.Rows.{Database}
use re_git.Store.Monad.{Store, M, Result, ok, err, continue, pure, query, ◌>>=◌}
use re_git.Store.Host.{Host}
use re_git.Store.Blobs.{put_blob}
use re_git.Store.Commit.{commit}
use re_git.Store.Ancestry.{merge_base}
use re_git.Store.Valid.{IsValid}
use re_git.Store.Valid.Committed.{Committed}
use re_git.Store.Valid.Commit.{CommitOutcome, commit-outcome}

-- What a success leaves: a commit for a clean merge, and nothing for a merge with conflicts.
abbrev pub EndsOk : MergeRequest → Database → State → Option Text → Database → Type 0
EndsOk q before clean (some cid) after = Committed q.branch q.artifact_id cid before after
EndsOk q before conflicted none after = after ≡ before
EndsOk q before _ _ after = ⊥

abbrev pub MergeEnds : MergeRequest → Database → Result MergeOutcome × Store → Type 0
MergeEnds q before (ok o, s) = EndsOk q before o.result.state o.result_commit s.db
MergeEnds q before (err e, s) = Unmoved before s.db

module _ (host : Host) (q : MergeRequest) (ours_head theirs_head : Text) where
  committed-ends :
      (result : MergeResult) (base : Option Text) (root : Text) (before mid : Database)
      → result.state ≡ clean
      → Unmoved before mid
      → (r : Result Text) (s : Store)
      → CommitOutcome (merge_request q ours_head theirs_head root) mid (r, s)
      → MergeEnds q before
          (continue r (λ cid. pure (outcome q ours_head theirs_head result base (some cid))) s)
  unfolding merge_request outcome pure
  committed-ends result base root before mid e u (ok cid) s c = rw e (Committed-from u c.0)
  committed-ends result base root before mid e u (err x) s c = rw c u

  stored-ends :
      (result : MergeResult) (base : Option Text) (before : Database)
      → result.state ≡ clean
      → (r : Result Text) (s : Store) → Unmoved before s.db
      → MergeEnds q before (
          continue r
            (λ root. commit host (merge_request q ours_head theirs_head root) >>= λ cid.
              pure (outcome q ours_head theirs_head result base (some cid)))
            s)
  unfolding ◌>>=◌
  stored-ends result base before e (ok root) s u =
      let r = commit host (merge_request q ours_head theirs_head root) s in
      committed-ends result base root before s.db e u r.0 r.1
        (commit-outcome host (merge_request q ours_head theirs_head root) s u.valid)
  stored-ends result base before e (err x) s u = u

  finish-ends :
      (result : MergeResult) (base : Option Text) (state : State) (s : Store)
      → result.state ≡ state
      → IsValid s.db
      → MergeEnds q s.db (finish host q ours_head theirs_head result base state s)
  unfolding finish outcome pure ◌>>=◌
  finish-ends result base clean s e v =
      let bytes = encode result.merged_text in
      stored-ends result base s.db e (put_blob host q.kind bytes s).0
        (put_blob host q.kind bytes s).1 (put_blob-Unmoved host q.kind bytes s v)
  finish-ends result base conflicted s e v = rw e refl

  -- A read before an action: the action runs in the same state, or the read raises.
  read_then-ends :
      {A : Type 0} (m : M A) (f : A → M MergeOutcome) (s : Store)
      → IsRead m
      → IsValid s.db
      → ((a : A) → MergeEnds q s.db (f a s))
      → MergeEnds q s.db ((m >>= f) s)
  unfolding ◌>>=◌
  read_then-ends {A} m f s p v h = go (m s).0 (m s).1 (p.at s)
    where
      go : (r : Result A) (t : Store) → t ≡ s → MergeEnds q s.db (continue r f t)
      go (ok a) t e = rw e (h a)
      go (err x) t e = rw e (Unmoved-refl s.db v)

  -- On valid tables a merge ends in one of three ways. Without conflicts it returns a commit that has
  -- a row and to which the branch points, and no other ref has moved. With conflicts it returns no
  -- commit and the database is as before. Or it raises, and the commits, their parents, the refs and
  -- the branches are as before. The tables are valid at the end.
  pub merge_commits-outcome :
      (lib : TextLib) (s : Store)
      → IsValid s.db
      → MergeEnds q s.db (merge_commits host q ours_head theirs_head lib s)
  unfolding merge_commits
  merge_commits-outcome lib s v =
      read_then-ends (query (λ db. base_of (merge_base db ours_head theirs_head))) _ s
        (IsRead-query (λ db. base_of (merge_base db ours_head theirs_head))) v
        (λ base. read_then-ends (base_text host base) _ s (IsRead-base_text host base) v (λ text.
          read_then-ends (commit_text host ours_head) _ s (IsRead-commit_text host ours_head) v
            (λ ours.
              read_then-ends (commit_text host theirs_head) _ s
                (IsRead-commit_text host theirs_head) v
                (λ theirs.
                  let result = merge_prose lib text ours theirs in
                  finish-ends result base result.state s refl v))))
