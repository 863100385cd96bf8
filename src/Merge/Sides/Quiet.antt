-- ===== src/Merge/Sides/Quiet.antt =====
-- A side whose sentences hash as those of the base changes and inserts nothing.
use re_git.Base.{ℕ, zero, suc, ◌+◌, ◌≡◌, refl, false, none, some, Text, List, [], arith, length}
use re_git.Base.Dicts.{get_default, get_default-put}
use re_git.Diff.Align.{TextLib, hashes}
use re_git.Diff.Align.Same.{diagonal, align-diagonal}
use re_git.Merge.Sides.{equal, Side, side_loop, no_side, side_ops, change_at, inserts_at, changed}

-- No base sentence is changed and nothing is inserted.
pub record IsQuiet (side : Side) : Type 0 where
  pub unchanged : (a : ℕ) → changed (change_at side a) ≡ false
  pub no_inserts : (a : ℕ) → inserts_at side a ≡ []

side_loop-IsQuiet :
    (start n seen : ℕ) (side : Side)
    → IsQuiet side
    → IsQuiet (side_loop (diagonal start n) seen side)
unfolding side_loop change_at inserts_at
side_loop-IsQuiet start zero seen side q = q
side_loop-IsQuiet start (suc n) seen side q = side_loop-IsQuiet (suc start) n (seen + 1) _ (record {
  unchanged = λ a.
      ground (
        arith,
        q.unchanged a,
        get_default-put (equal none) start a (equal (some start)) side.change,
      );
  no_inserts = q.no_inserts;
})

pub side_ops-IsQuiet :
    (lib : TextLib) (old new : List Text)
    → hashes lib new ≡ hashes lib old
    → IsQuiet (side_ops lib old new)
unfolding side_ops change_at inserts_at get_default
side_ops-IsQuiet lib old new e = rw (align-diagonal lib old new e) (
    side_loop-IsQuiet 0 (length (hashes lib old)) 0 no_side
      (record { unchanged = λ a. refl; no_inserts = λ a. refl }))
