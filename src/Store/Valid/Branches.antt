-- ===== src/Store/Valid/Branches.antt =====
-- `create_branch` and `advance_branch`: their results and effects.
use re_git.Base.{
  ◌+◌, ◌≡◌, refl, ap, ◌∙◌, Bool, true, false, Option, none, some, Option-cases, Bool-cases, inl,
  inr, Text, text_eq, text_eq_iff, arith, if◌then◌else◌,
}
use re_git.Store.Rows.{Database, found, find_commit_of, find_branch, find_ref}
use re_git.Store.Monad.{Store, Result, ok, err, value_error, ref_conflict, branch_exists, tx, ◌>>=◌}
use re_git.Store.Host.{Host}
use re_git.Store.Refs.{
  ref_head, move_ref, swap_head, create_branch, advance_from, advance_branch, expected_or,
}
use re_git.Store.Valid.{HasCommit, IsValid}
use re_git.Store.Valid.Refs.{
  swap_head-outcome, ref_head-move_ref, ref_head-move_ref_ne, move_ref-IsValid,
}
use re_git.Store.Valid.Create.{with_ref, ref_head-with_ref, ref_head-with_ref_ne, with_ref-IsValid}
use re_git.Store.Valid.Commits.{find_commit_of-found}
use re_git.Store.Valid.Committed.{Committed}

-- What a branch operation on `name` does: on success the branch points at the commit, on an error
-- the database is as before.
abbrev pub RefOutcome : Text → Text → Text → Database → Result (Unit {0}) → Database → Type 0
RefOutcome name aid cid before (ok u) after = Committed name aid cid before after
RefOutcome name aid cid before (err e) after = after ≡ before

-- The contract of `create_branch`: the commit has to be one of the artifact, the name has to be
-- free.
abbrev pub create_result : Bool → Bool → Result (Unit {0})
create_result known taken =
    if known then (if taken then err branch_exists else ok tt) else err value_error

-- The contract of `advance_branch`.
abbrev pub advance_result : Option Text → Bool → Text → Option Text → Result (Unit {0})
advance_result none known new_head expected = err value_error
advance_result (some h) known new_head expected =
    if known
    then (if text_eq h new_head
        then ok tt
        else if text_eq h (expected_or expected h)
        then ok tt
        else err ref_conflict)
    else err value_error

module _ (host : Host) (name aid cid : Text) (s : Store) (v : IsValid s.db) where
  known_commit : found (find_commit_of cid aid s.db) ≡ true → HasCommit s.db cid
  known_commit h = find_commit_of-found cid aid s.db.commits h

  abbrev created : Result (Unit {0}) × Store
  created = create_branch host name aid cid s

  -- On valid tables `create_branch` meets its contract: an unknown commit and a taken name are
  -- refused, with the database as it was; else the new branch points at the commit, no other ref has
  -- moved and the tables are valid. That the mirror row is taken already does not happen.
  pub create_branch-outcome :
      (created.0
        ≡ create_result (found (find_commit_of cid aid s.db)) (found (find_ref name aid s.db)))
      × RefOutcome name aid cid s.db created.0 created.1.db
  unfolding create_branch tx ◌>>=◌
  create_branch-outcome = elim (Bool-cases (found (find_commit_of cid aid s.db))) [
    | inr unknown ↦ rw unknown (refl, refl)
    | inl known ↦ elim (Option-cases (ref_head name aid s.db)) [
      | inr (h, at) ↦
          let taken : found (find_ref name aid s.db) ≡ true =
            unfold ref_head in ground (arith, at) in
          rw (known, taken) (refl, refl)
      | inl free ↦
          let vacant : found (find_ref name aid s.db) ≡ false =
            unfold ref_head in ground (arith, free) in
          let unmirrored : found (find_branch name aid s.db) ≡ false =
            ground (arith, free, v.mirrored name aid) in
          let db' = with_ref name aid cid (host.now_iso s.ticks) s.db in
          let made : Committed name aid cid s.db db' = record {
            head = ref_head-with_ref name aid cid (host.now_iso s.ticks) s.db free v;
            recorded = unfold with_ref in known_commit known;
            others = ref_head-with_ref_ne name aid cid (host.now_iso s.ticks) s.db free v;
            valid =
                with_ref-IsValid name aid cid (host.now_iso s.ticks) s.db free v
                  (known_commit known);
          } in
          rw (known, vacant, unmirrored) (refl, unfold with_ref in made)
    ]
  ]

  module _ (expected : Option Text) where
    abbrev advanced : Result (Unit {0}) × Store
    advanced = advance_branch host name aid cid expected s

    abbrev inside : Store
    inside = record s { savepoint = s.savepoint + 1 }

    moved :
        (h : Text)
        → ref_head name aid s.db ≡ some h
        → found (find_commit_of cid aid s.db) ≡ true
        → Committed name aid cid s.db (move_ref name aid h cid s.db)
    moved h at known = record {
      head = ref_head-move_ref name aid h cid s.db at;
      recorded = unfold move_ref in known_commit known;
      others = ref_head-move_ref_ne name aid h cid s.db at;
      valid = move_ref-IsValid name aid h cid s.db at v (known_commit known);
    }

    advance_some :
        (h : Text)
        → ref_head name aid s.db ≡ some h
        → found (find_commit_of cid aid s.db) ≡ true
        → (advanced.0 ≡ advance_result (some h) true cid expected)
          × RefOutcome name aid cid s.db advanced.0 advanced.1.db
    unfolding advance_branch advance_from tx ◌>>=◌
    advance_some h at known = elim (Bool-cases (text_eq h cid)) [
      | inl here ↦
          rw (at, known, here)
            (
              refl,
              record {
                head = at ∙ ap some ((text_eq_iff h cid).0 here);
                recorded = known_commit known;
                others = λ n a ne. refl;
                valid = v;
              },
            )
      | inr away ↦
          let out = swap_head-outcome name aid cid expected h inside at v.refs_unique in
          elim (Bool-cases (text_eq h (expected_or expected h))) [
            | inl fits ↦
                let e : swap_head name aid cid expected h inside
                    ≡ (ok tt, record inside { db = move_ref name aid h cid s.db }) =
                  rw fits at out in
                rw (at, known, away, fits, e) (refl, moved h at known)
            | inr stale ↦
                let e : swap_head name aid cid expected h inside ≡ (err ref_conflict, inside) =
                  rw stale at out in
                rw (at, known, away, stale, e) (refl, refl)
          ]
    ]

    -- On valid tables `advance_branch` meets its contract: a missing branch and an unknown commit are
    -- refused, a branch that is at the commit stays, any other moves exactly if it is at the expected
    -- head; an error leaves the database as it was, and a success moves this ref only and keeps the
    -- tables valid.
    pub advance_branch-outcome :
        (advanced.0
          ≡ advance_result
              (ref_head name aid s.db)
              (found (find_commit_of cid aid s.db))
              cid
              expected)
        × RefOutcome name aid cid s.db advanced.0 advanced.1.db
    advance_branch-outcome = elim (Option-cases (ref_head name aid s.db)) [
      | inl missing ↦ unfold advance_branch advance_from tx ◌>>=◌ in rw missing (refl, refl)
      | inr (h, at) ↦ elim (Bool-cases (found (find_commit_of cid aid s.db))) [
        | inr unknown ↦ unfold advance_branch advance_from tx ◌>>=◌ in rw (at, unknown) (refl, refl)
        | inl known ↦ rw (at, known) (advance_some h at known)
      ]
    ]
