-- ===== src/Store/BlobTests.antt =====
-- The blobs of a small store, and `verify` at it.
use re_git.Base.{true, Text, ◌≡◌, refl, none, codes, text_eq, [], ◌∷◌}
use re_git.Store.Rows.{find_row}
use re_git.Store.Monad.{ok}
use re_git.Store.Blobs.{path_for, is_hex, find_file, put_blob, get_blob}
use re_git.Store.Blobs.RoundTrip.{put_blob-get_blob}
use re_git.Store.Verify.{commit_failure, parents_in, recomputed, commit_failures}
use re_git.Base.{replicate, join, text_ltb}
use re_git.Base.Utf8.{encode}
use re_git.Store.Hash.{blob_id, sorted}
use re_git.Store.Rows.{find_object}
use re_git.Store.Host.{Host}
use re_git.Store.Hash.{commit_id}
use re_git.Store.Tests.{plain_host, one_commit, small_store}

-- Every digest is the same 64 hexadecimal digits.
abbrev hex_host : Host
hex_host = record plain_host { sha256 = λ b. replicate 64 b'a' }

abbrev hex_path : Text × Text
hex_path = (replicate 2 b'a', replicate 62 b'a')

hex_path_for : path_for (blob_id hex_host (codes "md") (1 ∷ [])) ≡ ok hex_path
unfolding path_for is_hex blob_id
hex_path_for = refl

no_object : find_object (blob_id hex_host (codes "md") (1 ∷ [])) small_store.db ≡ none
unfolding find_row text_eq blob_id
no_object = refl

no_file : find_file hex_path small_store.files ≡ none
unfolding find_row
no_file = refl

put_blob-get_blob_example :
    ((put_blob hex_host (codes "md") (1 ∷ []) small_store).0
      ≡ ok (blob_id hex_host (codes "md") (1 ∷ [])))
    × ((get_blob hex_host
          (blob_id hex_host (codes "md") (1 ∷ []))
          true
          (put_blob hex_host (codes "md") (1 ∷ []) small_store).1).0
        ≡ ok (1 ∷ []))
put_blob-get_blob_example =
    put_blob-get_blob hex_host (codes "md") (1 ∷ []) small_store hex_path hex_path_for no_file
      no_object refl true

-- A commit with twice the same parent, as a merge of a head with itself makes it: the id is made of two
-- parents, the table keeps one, and `verify` recomputes another id.
abbrev twice_parent : Text
twice_parent =
    commit_id plain_host (codes "c0" ∷ codes "c0" ∷ []) (codes "r") (codes "art") (codes "m")
      (codes "u") (codes "d")

twice_parent_refused :
    commit_failures plain_host
      (record one_commit {
        commit_parents = record { commit_id = twice_parent; parent_id = codes "c0" } ∷ [];
      })
      (record {
        id = twice_parent;
        artifact_id = codes "art";
        root_hash = codes "r";
        message = codes "m";
        author = codes "u";
        author_date = codes "d";
        kind = none;
      }
        ∷ [])
    ≡ commit_failure twice_parent ∷ []
unfolding commit_failures recomputed parents_in commit_id sorted text_eq join encode text_ltb
twice_parent_refused = refl
