-- ===== src/Retrieval/SearchTests.antt =====
-- Runs of the search's query and filter.
use re_git.Base.{◌≡◌, refl, true, none, some, is_space, Text, codes, List, [], ◌∷◌, join}
use re_git.Store.Rows.{Database}
use re_git.Store.Graph.{contains}
use re_git.Retrieval.Delta.{ChunkRow}
use re_git.Retrieval.Search.{
  is_special, split_from, without_specials, doubled, quoted, terms_of, fts_query, visible_chunk_ids,
}
use re_git.Retrieval.Search.Query.{Splits, Terms, fts_query-Terms}
use re_git.Retrieval.Search.Filter.{HasRow, Passes, visible_chunk_ids-Passes}

-- An operator and a quotation mark of the user are gone.
query_run : fts_query (codes " a\" OR b* ") ≡ codes "\"a\" \"OR\" \"b\""
unfolding fts_query split_from terms_of without_specials quoted doubled is_special is_space join
query_run = refl

fts_query-Terms_example :
    (words : List Text) × (terms : List Text) × Splits (codes " a\" OR b* ") words
    × Terms words terms
    × (fts_query (codes " a\" OR b* ") ≡ join (32 ∷ []) terms)
fts_query-Terms_example = fts_query-Terms (codes " a\" OR b* ")

abbrev row : Text → Text → ChunkRow
row cid commit = record {
  chunk_id = cid;
  artifact_id = codes "art";
  branch = codes "main";
  introduced_in_commit = commit;
  replaces = [];
  sid_range = [];
  kind = codes "md";
  source_id = none;
  text = codes "t";
}

abbrev database : Database
database = record {
  objects = [];
  commits = [];
  commit_parents = record { commit_id = codes "c2"; parent_id = codes "c1" } ∷ [];
  refs = [];
  branches = [];
  artifacts = [];
  claims = [];
  provenance_edges = [];
  sources = [];
  tombstones = [];
}

abbrev chunks : List ChunkRow
chunks = row (codes "a") (codes "c1") ∷ row (codes "b") (codes "c3") ∷ []

visible_chunk_ids-Passes_example :
    (visible : List Text) × (visible_chunk_ids database chunks
        (codes "a" ∷ codes "b" ∷ [])
        (some (codes "main"))
        (codes "c2")
        none
      ≡ some visible)
    × ((x : Text)
        → contains x visible ≡ true
        → HasRow
            (Passes database (codes "a" ∷ codes "b" ∷ []) (some (codes "main")) none (codes "c2") x)
            chunks)
visible_chunk_ids-Passes_example =
    visible_chunk_ids-Passes database chunks (codes "a" ∷ codes "b" ∷ []) (some (codes "main")) none
      (codes "c2")
