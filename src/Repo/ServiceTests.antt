-- ===== src/Repo/ServiceTests.antt =====
-- A small repository, and the outcome of the changes to it.
use re_git.Base.{ℕ, false, none, some, Text, codes, [], ◌∷◌, ◌++◌, take, drop, replicate}
use re_git.Store.Rows.{ObjectRow, CommitRow, RefRow, BranchRow, Database}
use re_git.Store.Monad.{Store}
use re_git.Store.Host.{Host}
use re_git.Repo.Tree.{Tree}
use re_git.Repo.Service.{TreeJson}
use re_git.Repo.Service.Changes.{MovesBy}
use re_git.Repo.TreeTests.{entry}

-- A digest that ends in the given digit.
abbrev digest : ℕ → Text
digest c = replicate 63 b'0' ++ c ∷ []

abbrev fixed_host : Host
fixed_host = record {
  sha256 = λ b. digest b'f';
  compress = λ b. b;
  decompress = λ b. some b;
  decode = λ b. some b;
  decode_replace = λ b. b;
  now_iso = λ n. n ∷ [];
  draw = λ n. (n, n);
  author_date_env = none;
  verify_on_read = false;
}

-- Every tree is read as the folder "a" with a live file in it.
abbrev live_tree : Tree
live_tree = record { folders = codes "a" ∷ []; files = (codes "a/f.md", entry) ∷ [] }

abbrev one_tree : TreeJson
one_tree = record { dump = λ t. b'j' ∷ []; load = λ b. some live_tree }

abbrev object : ℕ → ObjectRow
object c = record {
  hash = digest c;
  kind = codes "md";
  size = 1;
  path = (take 2 (digest c), drop 2 (digest c));
}

abbrev commit_of : Text → ℕ → CommitRow
commit_of aid c = record {
  id = c ∷ [];
  artifact_id = aid;
  root_hash = digest c;
  message = codes "m";
  author = codes "u";
  author_date = codes "d";
  kind = some (codes "md");
}

abbrev main_ref : RefRow
main_ref = record { name = codes "main"; artifact_id = codes "repo"; head = codes "1" }

abbrev live_ref : RefRow
live_ref = record {
  name = codes "repository/repo/main";
  artifact_id = codes "kid";
  head = codes "3";
}

abbrev main_branch : BranchRow
main_branch = record {
  name = codes "main";
  artifact_id = codes "repo";
  head_commit_id = codes "1";
  created_at = codes "d";
}

abbrev live_branch : BranchRow
live_branch = record {
  name = codes "repository/repo/main";
  artifact_id = codes "kid";
  head_commit_id = codes "3";
  created_at = codes "d";
}

-- The repository is at the commit 1, and its live file at the commit 3, a child of 2.
abbrev repo_database : Database
repo_database = record {
  objects = object b'1' ∷ object b'2' ∷ object b'3' ∷ [];
  commits =
      commit_of (codes "repo") b'1'
      ∷ commit_of (codes "kid") b'2'
      ∷ commit_of (codes "kid") b'3'
      ∷ [];
  commit_parents = record { commit_id = codes "3"; parent_id = codes "2" } ∷ [];
  refs = main_ref ∷ live_ref ∷ [];
  branches = main_branch ∷ live_branch ∷ [];
  artifacts =
      record {
        id = codes "repo";
        kind = codes "repository";
        title = codes "r";
        source_id = none;
        created_at = codes "d";
      }
      ∷ [];
  claims = [];
  provenance_edges = [];
  sources = [];
  tombstones = [];
}

abbrev repo_store : Store
repo_store = record {
  db = repo_database;
  files =
      record { path = (take 2 (digest b'1'), drop 2 (digest b'1')); content = codes "j" }
      ∷ record { path = (take 2 (digest b'3'), drop 2 (digest b'3')); content = codes "new" }
      ∷ [];
  savepoint = 0;
  ticks = 0;
}

abbrev MovesHere : (Tree → Tree → Type 0) → Text → Store → Type 0
MovesHere =
    MovesBy fixed_host one_tree (codes "repo") (codes "main") (some (codes "1")) (codes "a/f.md")
      (codes "m") (codes "u") repo_store
