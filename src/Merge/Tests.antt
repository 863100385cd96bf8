-- ===== src/Merge/Tests.antt =====
-- Runs of the merge engine, and its theorems at concrete documents.
use re_git.Base.{◌≡◌, ◌↔◌, refl, Text, codes, [], ◌∷◌, map, length}
use re_git.Diff.Tests.{plain_lib}
use re_git.Diff.Align.{hashes}
use re_git.Diff.Split.{split_paragraphs, split_sentences, normalize}
use re_git.Diff.Prose.{flatten, texts}
use re_git.Merge.Sides.{side_ops}
use re_git.Base.{strip, lstrip, rstrip, is_space, join}
use re_git.Base.TextDicts.{get_at}
use re_git.Merge.Compose.{
  past_prefix, replace_once, resolve_one, resolve_all, split_blank, collapse_blanks,
  keep_paragraphs, compose_final_text,
}
use re_git.Merge.Prose.{
  MergeResult, conflicted, conflict_marker, clean, located, merge_output, merge_prose,
}
use re_git.Merge.Prose.OneSide.{
  SameHashes, apply_side, merge_output-ours, merge_output-theirs, merge_prose_drops_respelling,
}
use re_git.Merge.Prose.Exact.{MergesCleanly, merge_prose-clean_iff}
use re_git.Merge.Prose.Swap.{swap, merge_prose-swap}
use re_git.Store.Rows.{ObjectRow, CommitRow, ParentRow, Database, find_row, ref_key, branch_key}
use re_git.Store.Monad.{File, Store}
use re_git.Store.Host.{Host}
use re_git.Store.Refs.{ref_head}
use re_git.Store.Valid.{IsValid}
use re_git.Merge.Commits.{MergeRequest, merge_commits}
use re_git.Merge.Commits.Outcome.{MergeEnds, merge_commits-outcome}
use re_git.Base.{some, none, false, replicate, take, drop, ◌++◌, text_eq, arith, ℕ}

abbrev base_document : Text
base_document = codes "We won. They lost."

abbrev ours_document : Text
ours_document = codes "We won. Nobody cared."

-- The base in other punctuation.
abbrev louder_document : Text
louder_document = codes "We won! They lost!"

louder-SameHashes : SameHashes plain_lib base_document louder_document
unfolding hashes located flatten split_paragraphs split_sentences normalize
louder-SameHashes = refl

merge_prose-clean_iff_example :
    ((merge_prose plain_lib base_document ours_document louder_document).state ≡ clean)
    ↔ MergesCleanly plain_lib base_document ours_document louder_document
merge_prose-clean_iff_example =
    merge_prose-clean_iff plain_lib base_document ours_document louder_document

merge_output-ours_example :
    merge_output plain_lib base_document ours_document louder_document ≡ record {
      conflicts = [];
      slots =
          apply_side
            (located base_document)
            (texts (located ours_document))
            (side_ops plain_lib (texts (located base_document)) (texts (located ours_document)))
            0
            (length (located base_document));
    }
merge_output-ours_example =
    merge_output-ours plain_lib base_document ours_document louder_document louder-SameHashes

merge_output-theirs_example :
    merge_output plain_lib base_document louder_document ours_document ≡ record {
      conflicts = [];
      slots =
          apply_side
            (located base_document)
            (texts (located ours_document))
            (side_ops plain_lib (texts (located base_document)) (texts (located ours_document)))
            0
            (length (located base_document));
    }
merge_output-theirs_example =
    merge_output-theirs plain_lib base_document louder_document ours_document louder-SameHashes

merge_prose_drops_respelling_example :
    merge_prose plain_lib base_document louder_document louder_document
    ≡ merge_prose plain_lib base_document base_document base_document
merge_prose_drops_respelling_example =
    merge_prose_drops_respelling plain_lib base_document louder_document louder_document
      louder-SameHashes louder-SameHashes

merge_prose-swap_example :
    ((merge_prose plain_lib base_document louder_document ours_document).conflicts
      ≡ map swap (merge_prose plain_lib base_document ours_document louder_document).conflicts)
    × ((merge_prose plain_lib base_document louder_document ours_document).state
        ≡ (merge_prose plain_lib base_document ours_document louder_document).state)
merge_prose-swap_example = merge_prose-swap plain_lib base_document ours_document louder_document

-- A digest that is one text of 64 digits, the last of them `c`.
abbrev digest : ℕ → Text
digest c = replicate 63 b'0' ++ c ∷ []

-- Every new text has the digest that ends in f.
abbrev fixed_host : Host
fixed_host = record {
  sha256 = λ b. digest b'f';
  compress = λ b. b;
  decompress = λ b. some b;
  decode = λ b. some b;
  decode_replace = λ b. b;
  now_iso = λ n. n ∷ [];
  draw = λ n. (n, n);
  author_date_env = none;
  verify_on_read = false;
}

abbrev object : ℕ → ObjectRow
object c = record {
  hash = digest c;
  kind = codes "md";
  size = 1;
  path = (take 2 (digest c), drop 2 (digest c));
}

abbrev commit_at : ℕ → CommitRow
commit_at c = record {
  id = c ∷ [];
  artifact_id = codes "art";
  root_hash = digest c;
  message = codes "m";
  author = codes "u";
  author_date = codes "d";
  kind = some (codes "md");
}

abbrev parent : ℕ → ℕ → ParentRow
parent c p = record { commit_id = c ∷ []; parent_id = p ∷ [] }

-- The commits 1, and 2 and 3 on it; main is at 2.
abbrev fork : Database
fork = record {
  objects = object b'1' ∷ object b'2' ∷ object b'3' ∷ [];
  commits = commit_at b'1' ∷ commit_at b'2' ∷ commit_at b'3' ∷ [];
  commit_parents = parent b'2' b'1' ∷ parent b'3' b'1' ∷ [];
  refs = record { name = codes "main"; artifact_id = codes "art"; head = codes "2" } ∷ [];
  branches =
      record {
        name = codes "main";
        artifact_id = codes "art";
        head_commit_id = codes "2";
        created_at = codes "d";
      }
      ∷ [];
  artifacts = [];
  claims = [];
  provenance_edges = [];
  sources = [];
  tombstones = [];
}

abbrev file : ℕ → Text → File
file c text = record { path = (take 2 (digest c), drop 2 (digest c)); content = text }

abbrev fork_store : Store
fork_store = record {
  db = fork;
  files = file b'1' base_document ∷ file b'2' ours_document ∷ file b'3' base_document ∷ [];
  savepoint = 0;
  ticks = 0;
}

fork-IsValid : IsValid fork
unfolding ref_head find_row ref_key branch_key text_eq
fork-IsValid = record {
  refs_unique = (refl, tt);
  refs_known = λ n a. ground arith;
  mirrored = λ n a. ground arith;
  parents_known = ((refl, refl), ((refl, refl), tt));
  roots_known = (refl, (refl, (refl, tt)));
}

abbrev fork_request : MergeRequest
fork_request = record {
  artifact_id = codes "art";
  branch = codes "main";
  message = codes "merge";
  author = codes "u";
  author_date = some (codes "e");
  kind = codes "md";
}

merge_commits-outcome_example :
    MergeEnds fork_request fork
      (merge_commits fixed_host fork_request (codes "2") (codes "3") plain_lib fork_store)
merge_commits-outcome_example =
    merge_commits-outcome fixed_host fork_request (codes "2") (codes "3") plain_lib fork_store
      fork-IsValid

-- Two conflicts with one sid, as an insert before a sentence and an edit of the sentence have it.
abbrev two_conflicts : MergeResult
two_conflicts = record {
  merged_text =
      conflict_marker (codes "0:0") (codes "I") (codes "J")
      ++ (32 ∷ conflict_marker (codes "0:0") (codes "E") (codes "F"));
  conflicts =
      record { sid = codes "0:0"; base_text = []; ours_text = codes "I"; theirs_text = codes "J" }
      ∷ record {
        sid = codes "0:0";
        base_text = codes "B";
        ours_text = codes "E";
        theirs_text = codes "F";
      }
      ∷ [];
  insert_overlaps = [];
  state = conflicted;
}

-- The one resolution that the sid has takes both places.
one_resolution_twice :
    compose_final_text two_conflicts ((codes "0:0", codes "E") ∷ []) ≡ codes "E E"
unfolding compose_final_text resolve_all resolve_one replace_once past_prefix get_at text_eq
    conflict_marker split_blank keep_paragraphs collapse_blanks strip lstrip rstrip is_space join
one_resolution_twice = refl
