-- ===== src/Retrieval/Tests.antt =====
-- Runs of the chunkers, and their theorems at small documents.
use re_git.Base.{
  ◌≡◌, refl, ◌++◌, some, true, Text, codes, List, [], ◌∷◌, take, All, arith, join, is_space, map,
}
use re_git.Diff.Tests.{plain_lib}
use re_git.Diff.Split.{split_paragraphs}
use re_git.Diff.Prose.{flatten}
use re_git.Retrieval.Windows.{added, fill, step_of, overlap_of, windows_from, windows}
use re_git.Retrieval.Windows.Cover.{Covers, windows-Covers}
use re_git.Retrieval.Chunks.{Chunk, ChunkLib, prose_sid, chunk_markdown}
use re_git.Retrieval.Chunks.Prose.{IsSmall, chunk_markdown-IsSmall}
use re_git.Retrieval.Chunks.Indexed.{is_indexed}
use re_git.Retrieval.Chunks.Complete.{chunk_markdown-indexed}
use re_git.Retrieval.Code.{
  splitlines, concat, line_scan, def_name, defined, after_prefix, after_spaces, drop_spaces,
  name_at, name_part, is_name_part, is_name_start,
}
use re_git.Retrieval.Grammar.{slice, pieces}
use re_git.Retrieval.Grammar.Pieces.{texts_of, pieces-texts_of}
use re_git.Base.{none, text_eq}
use re_git.Base.TextDicts.{get_at}
use re_git.Retrieval.Delta.{
  ChunkRow, Origin, Positions, chunk_row, own_rows, rows_by_id, chunks_by_id, reindexed,
}
use re_git.Retrieval.Delta.Rows.{row_at}
use re_git.Retrieval.Delta.Upserts.{UniqueIds}
use re_git.Retrieval.Delta.Known.{own_at, last_at}
use re_git.Retrieval.Delta.Result.{Expected, reindexed-expected}
use re_git.Retrieval.Code.Marks.{first_mark, line_scan-text}

abbrev three : List Text
three = codes "ab" ∷ codes "cd" ∷ codes "ef" ∷ []

-- With an overlap of 0 a window still starts at the last sentence of the one before.
no_overlap_overlaps : windows three 5 (λ step. 0) ≡ (0 ∷ 1 ∷ []) ∷ (1 ∷ 2 ∷ []) ∷ []
unfolding windows windows_from step_of overlap_of fill added
no_overlap_overlaps = refl

windows-Covers_example : Covers 3 0 (windows three 5 (λ step. 0))
windows-Covers_example = windows-Covers three 5 (λ step. 0) (omega arith)

abbrev chunk_lib : ChunkLib
chunk_lib = record {
  text_lib = plain_lib;
  rounded_tenth = λ step. 1;
  json_list = λ items. join (44 ∷ []) items;
}

abbrev paper : Text
paper = codes "Intro text.\n\n# Results\n\nWe won. They lost."

chunk_markdown-IsSmall_example :
    All (IsSmall 600) (chunk_markdown chunk_lib paper (codes "art") (codes "main"))
chunk_markdown-IsSmall_example = chunk_markdown-IsSmall chunk_lib (codes "art") (codes "main") paper

chunk_markdown-indexed_example :
    All
      (λ l.
        is_indexed
          (prose_sid chunk_lib (codes "art") l)
          (chunk_markdown chunk_lib paper (codes "art") (codes "main"))
        ≡ true)
      (flatten (split_paragraphs paper))
chunk_markdown-indexed_example = chunk_markdown-indexed chunk_lib (codes "art") (codes "main") paper

abbrev program : Text
program = codes "import os\n\ndef f():\n  pass\nclass C: pass"

line_scan-text_example :
    concat (take (first_mark chunk_lib program) (splitlines program))
      ++ concat (
          map
            (λ (c : Chunk). c.text)
            (line_scan chunk_lib 120 program (codes "a.py") (codes "art") (codes "main")))
    ≡ program
line_scan-text_example =
    line_scan-text chunk_lib 120 program (codes "a.py") (codes "art") (codes "main") (omega arith)

async_name : def_name plain_lib.is_word (codes "async  def go_1(x):") ≡ some (codes "go_1")
unfolding def_name defined after_prefix after_spaces drop_spaces name_at name_part is_name_part
    is_name_start is_space
async_name = refl

abbrev long_function : Text
long_function = codes "def f():\n  a\n  b\n"

pieces-texts_of_example :
    texts_of long_function (pieces long_function (codes "f") 16 2 16 0) ≡ slice long_function 0 16
pieces-texts_of_example = pieces-texts_of long_function (codes "f") 16 2 16 0 (omega arith)

abbrev chunk_of : Text → Text → Chunk
chunk_of cid text = record {
  chunk_id = cid;
  artifact_id = codes "art";
  branch = codes "main";
  kind = codes "md";
  text = text;
  sids = cid ∷ [];
  sid_range = cid;
}

abbrev origin : Origin
origin = record {
  artifact_id = codes "art";
  branch = codes "main";
  commit_id = codes "c2";
  source_id = none;
}

-- A table with the chunks a and b.
abbrev table : List ChunkRow
table =
    chunk_row (record origin { commit_id = codes "c1" }) (chunk_of (codes "a") (codes "old a"), [])
    ∷ chunk_row (record origin { commit_id = codes "c1" })
        (chunk_of (codes "b") (codes "old b"), [])
    ∷ []

abbrev positions : Positions
positions = record { new_to_old = none; new_sid_to_flat = []; old_flat_to_sid = [] }

table-UniqueIds : UniqueIds table
unfolding UniqueIds row_at chunk_row text_eq
table-UniqueIds = (refl, (refl, tt))

abbrev new_chunks : List Chunk
new_chunks = chunk_of (codes "b") (codes "new b") ∷ []

abbrev reader : Text → List Text
reader t = t ∷ []

reindexed-expected_example :
    ((y : Text) → get_at y (rows_by_id (own_rows origin table) []) ≡ own_at origin (row_at y table))
    × ((y : Text) → get_at y (chunks_by_id new_chunks []) ≡ last_at y new_chunks)
    × Expected reader origin
        (rows_by_id (own_rows origin table) [])
        (chunks_by_id new_chunks [])
        positions
        (codes "b")
        (row_at (codes "b") table)
        (row_at (codes "b") (reindexed reader origin positions new_chunks table))
        (own_at origin (row_at (codes "b") table))
        (last_at (codes "b") new_chunks)
reindexed-expected_example =
    reindexed-expected reader origin positions new_chunks table (codes "b") table-UniqueIds
