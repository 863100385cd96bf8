-- ===== src/Store/Valid/Cas.antt =====
-- The compare-and-swap of a branch ref: its result, its effect and what it leaves alone.
use re_git.Base.{
  ◌+◌, ◌≡◌, refl, Option, none, some, Option-cases, Bool-cases, inl, inr, Text, text_eq,
  text_eq_iff, arith, if◌then◌else◌,
}
use re_git.Store.Rows.{Database}
use re_git.Store.Monad.{Store, Result, ok, err, ref_conflict, ◌>>=◌}
use re_git.Store.Host.{Host}
use re_git.Store.Refs.{
  ref_head, move_ref, swap_head, create_ref, cas_advance_from, cas_advance, expected_or,
}
use re_git.Store.Refs.Queries.{KeyDiffers}
use re_git.Store.Valid.{HasCommit, IsValid}
use re_git.Store.Valid.Refs.{
  swap_head-outcome, ref_head-move_ref, ref_head-move_ref_ne, move_ref-IsValid,
}
use re_git.Store.Valid.Create.{with_ref, ref_head-with_ref, ref_head-with_ref_ne, with_ref-IsValid}

-- The contract: a missing ref is created unless a head was expected; a ref that is at the commit
-- already is left; any other moves exactly if it is at the expected head.
abbrev pub cas_result : Option Text → Text → Option Text → Result (Unit {0})
cas_result none cid none = ok tt
cas_result none cid (some e) = err ref_conflict
cas_result (some h) cid expected =
    if text_eq h cid
    then ok tt
    else if text_eq h (expected_or expected h)
    then ok tt
    else err ref_conflict

abbrev pub HeadAfter : Text → Text → Text → Store → Result (Unit {0}) → Database → Type 0
HeadAfter name aid cid s (ok u) after = ref_head name aid after ≡ some cid
HeadAfter name aid cid s (err e) after = after ≡ s.db

pub record CasOutcome (name aid cid : Text) (expected : Option Text) (s : Store)
    (r : Result (Unit {0}) × Store) : Type 0 where
  pub result : r.0 ≡ cas_result (ref_head name aid s.db) cid expected
  -- on success the ref is at the commit, on an error the database is as it was
  pub head : HeadAfter name aid cid s r.0 r.1.db
  -- no other ref moves
  pub others : (n a : Text) → KeyDiffers name aid n a → ref_head n a r.1.db ≡ ref_head n a s.db
  pub commits : r.1.db.commits ≡ s.db.commits
  pub commit_parents : r.1.db.commit_parents ≡ s.db.commit_parents
  pub valid : HasCommit s.db cid → IsValid r.1.db

module _ (host : Host) (name aid cid : Text) (s : Store) (v : IsValid s.db) where
  cas_create :
      ref_head name aid s.db ≡ none
      → cas_advance host name aid cid none s ≡ (
        ok tt,
        record s { db = with_ref name aid cid (host.now_iso s.ticks) s.db; ticks = s.ticks + 1 },
      )
  unfolding cas_advance cas_advance_from create_ref with_ref ◌>>=◌
  cas_create free = rw free

  CasOutcome-none :
      (expected : Option Text)
      → ref_head name aid s.db ≡ none
      → CasOutcome name aid cid expected s (cas_advance host name aid cid expected s)
  CasOutcome-none none free = rw (cas_create free) (record {
    result = rw free;
    head = ref_head-with_ref name aid cid (host.now_iso s.ticks) s.db free v;
    others = ref_head-with_ref_ne name aid cid (host.now_iso s.ticks) s.db free v;
    commits = unfold with_ref in refl;
    commit_parents = unfold with_ref in refl;
    valid = with_ref-IsValid name aid cid (host.now_iso s.ticks) s.db free v;
  })
  CasOutcome-none (some e) free =
      let stuck : cas_advance host name aid cid (some e) s ≡ (err ref_conflict, s) =
        unfold cas_advance cas_advance_from ◌>>=◌ in rw free in
      rw stuck (record {
        result = rw free;
        head = refl;
        others = λ n a ne. refl;
        commits = refl;
        commit_parents = refl;
        valid = λ known. v;
      })

  CasOutcome-some :
      (expected : Option Text) (h : Text)
      → ref_head name aid s.db ≡ some h
      → CasOutcome name aid cid expected s (cas_advance host name aid cid expected s)
  CasOutcome-some expected h at = elim (Bool-cases (text_eq h cid)) [
    | inl here ↦
        let done : cas_advance host name aid cid expected s ≡ (ok tt, s) =
          unfold cas_advance cas_advance_from ◌>>=◌ in ground (arith, at, here) in
        rw done (record {
          result = ground (arith, at, here);
          head = ground (arith, at, (text_eq_iff h cid).0 here);
          others = λ n a ne. refl;
          commits = refl;
          commit_parents = refl;
          valid = λ known. v;
        })
    | inr away ↦
        let swap : cas_advance host name aid cid expected s ≡ swap_head name aid cid expected h s =
          unfold cas_advance cas_advance_from ◌>>=◌ in ground (arith, at, away) in
        let out = swap_head-outcome name aid cid expected h s at v.refs_unique in
        elim (Bool-cases (text_eq h (expected_or expected h))) [
          | inl fits ↦
              let e : swap_head name aid cid expected h s
                  ≡ (ok tt, record s { db = move_ref name aid h cid s.db }) =
                rw fits at out in
              rw (swap, e)
                (record {
                  result = ground (arith, at, away, fits);
                  head = ref_head-move_ref name aid h cid s.db at;
                  others = ref_head-move_ref_ne name aid h cid s.db at;
                  commits = unfold move_ref in refl;
                  commit_parents = unfold move_ref in refl;
                  valid = move_ref-IsValid name aid h cid s.db at v;
                })
          | inr stale ↦
              let e : swap_head name aid cid expected h s ≡ (err ref_conflict, s) =
                rw stale at out in
              rw (swap, e)
                (record {
                  result = ground (arith, at, away, stale);
                  head = refl;
                  others = λ n a ne. refl;
                  commits = refl;
                  commit_parents = refl;
                  valid = λ known. v;
                })
        ]
  ]

  -- On valid tables `_cas_advance` meets its contract: the result is that of the compare-and-swap;
  -- a success leaves the ref at the commit and an error the database as it was; no other ref, no
  -- commit and no parent edge changes; and the tables stay valid if the commit is there.
  pub cas_advance-outcome :
      (expected : Option Text)
      → CasOutcome name aid cid expected s (cas_advance host name aid cid expected s)
  cas_advance-outcome expected = elim (Option-cases (ref_head name aid s.db)) [
    | inl free ↦ CasOutcome-none expected free
    | inr (h, at) ↦ CasOutcome-some expected h at
  ]
