-- ===== src/Store/Tests.antt =====
-- Runs of the object store, and its theorems at a small store.
use re_git.Base.{
  true, List, Option, Text, ◌≡◌, ◌↔◌, refl, false, none, some, codes, text_eq, [], ◌∷◌, ◌++◌, arith,
}
use re_git.Store.Rows.{Database, ref_key, branch_key, find_row, find_commit_of, find_ref, found}
use re_git.Store.Monad.{Store}
use re_git.Store.Host.{Host}
use re_git.Store.Ids.{new_id}
use re_git.Store.Hash.{commit_id, commit_id-message_author}
use re_git.Store.Refs.{ref_head, cas_advance, create_branch, advance_branch}
use re_git.Store.Commit.{Request, commit}
use re_git.Store.Valid.{IsValid}
use re_git.Store.Valid.Cas.{CasOutcome, cas_advance-outcome}
use re_git.Store.Graph.{contains, walk, parents_of, parents_map, add_rows, append_parent, ancestors}
use re_git.Store.Graph.Reach.{Reaches, ancestors-Reaches}
use re_git.Store.Ancestry.Newest.{history-newest}
use re_git.Store.Ancestry.{
  Entry, history, merge_base, merge_base_from, distances, search_from, touch_all, touch, known,
  least, common_keys, closest,
}
use re_git.Store.Ancestry.Lca.{IsBase, merge_base-IsBase}
use re_git.Store.Valid.Commit.{CommitOutcome, commit-outcome}
use re_git.Store.Valid.Branches.{
  RefOutcome, create_result, advance_result, create_branch-outcome, advance_branch-outcome,
}

new_id_example : new_id (codes "art_") 33 0 ≡ codes "art_00000000110000000000000000"
unfolding new_id
new_id_example = refl

-- Bytes as their own digests, no compression.
abbrev pub plain_host : Host
plain_host = record {
  sha256 = λ b. b;
  compress = λ b. b;
  decompress = λ b. some b;
  decode = λ b. some b;
  decode_replace = λ b. b;
  now_iso = λ n. n ∷ [];
  draw = λ n. (n, n);
  author_date_env = none;
  verify_on_read = false;
}

-- One commit `c0` of the object `r`, at the head of main.
abbrev pub one_commit : Database
one_commit = record {
  objects = record { hash = codes "r"; kind = codes "md"; size = 1; path = (codes "r", []) } ∷ [];
  commits =
      record {
        id = codes "c0";
        artifact_id = codes "art";
        root_hash = codes "r";
        message = codes "m";
        author = codes "u";
        author_date = codes "d";
        kind = none;
      }
      ∷ [];
  commit_parents = [];
  refs = record { name = codes "main"; artifact_id = codes "art"; head = codes "c0" } ∷ [];
  branches =
      record {
        name = codes "main";
        artifact_id = codes "art";
        head_commit_id = codes "c0";
        created_at = codes "d";
      }
      ∷ [];
  artifacts = [];
  claims = [];
  provenance_edges = [];
  sources = [];
  tombstones = [];
}

abbrev pub small_store : Store
small_store = record { db = one_commit; files = []; savepoint = 0; ticks = 0 }

one_commit-IsValid : IsValid one_commit
unfolding ref_head find_row ref_key branch_key text_eq
one_commit-IsValid = record {
  refs_unique = (refl, tt);
  refs_known = λ n a. ground arith;
  mirrored = λ n a. ground arith;
  parents_known = tt;
  roots_known = (refl, tt);
}

main_head : ref_head (codes "main") (codes "art") one_commit ≡ some (codes "c0")
unfolding ref_head find_row ref_key text_eq
main_head = refl

-- A child of `c0` on main.
abbrev request : Request
request = record {
  parents = codes "c0" ∷ [];
  root_hash = codes "r";
  artifact_id = codes "art";
  message = codes "next";
  author = codes "u";
  author_date = some (codes "e");
  branch = codes "main";
  expected_head = some (codes "c0");
  kind = none;
}

commit-outcome_example : CommitOutcome request one_commit (commit plain_host request small_store)
commit-outcome_example = commit-outcome plain_host request small_store one_commit-IsValid

cas_advance-outcome_example :
    CasOutcome
      (codes "main")
      (codes "art")
      (codes "c0")
      none
      small_store
      (cas_advance plain_host (codes "main") (codes "art") (codes "c0") none small_store)
cas_advance-outcome_example =
    cas_advance-outcome plain_host (codes "main") (codes "art") (codes "c0") small_store
      one_commit-IsValid none

create_branch-outcome_example :
    ((create_branch plain_host (codes "draft") (codes "art") (codes "c0") small_store).0
      ≡ create_result
          (found (find_commit_of (codes "c0") (codes "art") one_commit))
          (found (find_ref (codes "draft") (codes "art") one_commit)))
    × RefOutcome
        (codes "draft")
        (codes "art")
        (codes "c0")
        one_commit
        (create_branch plain_host (codes "draft") (codes "art") (codes "c0") small_store).0
        (create_branch plain_host (codes "draft") (codes "art") (codes "c0") small_store).1.db
create_branch-outcome_example =
    create_branch-outcome plain_host (codes "draft") (codes "art") (codes "c0") small_store
      one_commit-IsValid

advance_branch-outcome_example :
    ((advance_branch plain_host (codes "main") (codes "art") (codes "c0") none small_store).0
      ≡ advance_result
          (ref_head (codes "main") (codes "art") one_commit)
          (found (find_commit_of (codes "c0") (codes "art") one_commit))
          (codes "c0")
          none)
    × RefOutcome
        (codes "main")
        (codes "art")
        (codes "c0")
        one_commit
        (advance_branch plain_host (codes "main") (codes "art") (codes "c0") none small_store).0
        (advance_branch plain_host (codes "main") (codes "art") (codes "c0") none small_store).1.db
advance_branch-outcome_example =
    advance_branch-outcome plain_host (codes "main") (codes "art") (codes "c0") small_store
      one_commit-IsValid none

commit_id-message_author_example :
    commit_id plain_host []
      (codes "r")
      (codes "art")
      (codes "fix " ++ codes "by ")
      (codes "ann")
      (codes "d")
    ≡ commit_id plain_host []
        (codes "r")
        (codes "art")
        (codes "fix ")
        (codes "by " ++ codes "ann")
        (codes "d")
commit_id-message_author_example =
    commit_id-message_author plain_host [] (codes "r") (codes "art") (codes "fix ") (codes "by ")
      (codes "ann") (codes "d")

-- `c1` and `c2` fork from `c0`, and `m` merges them.
abbrev forked : Database
forked = record one_commit {
  commit_parents =
      record { commit_id = codes "c1"; parent_id = codes "c0" }
      ∷ record { commit_id = codes "c2"; parent_id = codes "c0" }
      ∷ record { commit_id = codes "m"; parent_id = codes "c1" }
      ∷ record { commit_id = codes "m"; parent_id = codes "c2" }
      ∷ [];
}

merge_base_run : merge_base forked (codes "c1") (codes "c2") ≡ some (some (codes "c0"))
unfolding merge_base text_eq merge_base_from distances search_from touch_all parents_of parents_map
    add_rows append_parent touch known least common_keys closest
merge_base_run = refl

ancestors_run :
    ancestors forked (codes "m") ≡ some (codes "c0" ∷ codes "c2" ∷ codes "c1" ∷ codes "m" ∷ [])
unfolding ancestors walk parents_of parents_map add_rows append_parent contains text_eq
ancestors_run = refl

ancestors-Reaches_example :
    (seen : List Text) × (ancestors forked (codes "m") ≡ some seen)
    × ((x : Text) → (contains x seen ≡ true) ↔ Reaches forked.commit_parents (codes "m") x)
ancestors-Reaches_example = ancestors-Reaches forked (codes "m")

merge_base-IsBase_example :
    (base : Option Text) × (merge_base forked (codes "c1") (codes "c2") ≡ some base)
    × IsBase forked.commit_parents (codes "c1") (codes "c2") base
merge_base-IsBase_example = merge_base-IsBase forked (codes "c1") (codes "c2")

history-newest_example :
    (first : Entry) × (rest : List Entry) × (history one_commit (codes "art") (codes "main")
      ≡ some (first ∷ rest))
    × (first.commit_id ≡ codes "c0")
history-newest_example =
    history-newest one_commit (codes "art") (codes "main") (codes "c0") one_commit-IsValid main_head
