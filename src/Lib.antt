-- ===== src/Lib.antt =====
-- ReGit keeps research artifacts (prose, chats, code) under version control. This library models
-- the core of its backend, paths below being relative to the repository's root:
--
-- * backend/src/core/diff/align.py, the alignment engine that diff and merge share, is Diff:
--   Diff.Split splits and normalizes, Diff.Lcs fills the table and walks it back, Diff.Classify
--   pairs the edits of a gap, Diff.Align is `align`, and Diff.Prose is `diff_prose`.
-- * backend/src/core/merge/three_way.py, the three-way merge of prose, is Merge: Merge.Sides is
--   `_side_ops`, Merge.Prose the decision table and the text of `merge_prose`, Merge.Commits is
--   `merge_commits`, which merges two commits of the store, and Merge.Compose `compose_final_text`.
-- * backend/src/core/objects/store.py, the content-addressed store with its commits and refs, is
--   Store: Store.Rows has the tables of backend/src/db/schema.sql, Store.Monad the state, the
--   exceptions and the transaction `_tx`, Store.Blobs the files, Store.Refs the branch refs,
--   Store.Commit the commit, Store.Graph the parent edges, Store.Ancestry `merge_base` and
--   `history`, and Store.Verify `verify`. Store.Ids and Store.Hash are backend/src/core/ids.py and
--   backend/src/core/objects/hashutil.py, and Store.Capture is `capture_commit` of
--   backend/src/provenance/service.py, which every commit calls in its transaction; `ancestors` of
--   that file is in Store.Graph.
-- * The queries of backend/src/provenance/service.py, for a claim's chain, an artifact's sources and
--   the claims of a history, are Provenance.
-- * Ingest.Claims is `extract_claims` of backend/src/ingestion/parsers/base.py.
-- * backend/src/core/collaboration/ops.py, the log of a live document's updates, is Collab.
-- * backend/src/repositories/service.py, the trees of folders and files that are kept in commits, is
--   Repo: Repo.Paths is `normalize_path`, Repo.Tree the changes of a tree, Repo.Service the
--   methods of `Repositories`, which save a changed tree as a commit of the store, and Repo.Live
--   those about live edits.
-- * backend/src/retrieval/chunkers.py, which cuts documents into the chunks that the search indexes,
--   is Retrieval: Retrieval.Windows is `_windows`, Retrieval.Chunks has prose and chats,
--   Retrieval.Code the line scan, Retrieval.Grammar the pieces of the nodes of tree-sitter, and
--   Retrieval.Documents PDFs and `chunk_document`. Retrieval.Compare compares chats and codebases,
--   and Retrieval.Delta is the plan and the writes of a reindex, in
--   backend/src/retrieval/indexer.py; Retrieval.Search is the query and the filter of
--   backend/src/retrieval/service.py.
-- * Base has what the parts share: lists, counts, dicts, integers, text as lists of code points
--   with the str methods that the code calls, and UTF-8.
--
-- State. A method of the store is an action from a state to a result and a state. The state holds
-- the tables as lists of rows, the files under objects/, the savepoint counter and a counter of the
-- readings of the clock and of random bits. An exception is a result; a transaction that meets one
-- puts the tables back and leaves the files and counters. `Store.Valid.IsValid` is the invariant
-- of the tables.
--
-- What lies outside the repository is a parameter: `TextLib` has Python's `str.lower`, its word
-- characters, the SHA-1 digest and difflib's ratio; `Host` has SHA-256, zlib, the decoding of UTF-8,
-- the clock, the random bits and the environment; `CrdtLib` has what the log takes from pycrdt;
-- `TreeJson` reads and writes a tree as JSON; `ChunkLib` has the rounding of the overlap and lists as
-- JSON. That the compression can be undone is a hypothesis of the round trip of the blobs; no other
-- law of these is assumed.
--
-- Numbers. Indices and counts are natural numbers, offsets between paragraphs are integers. A
-- ratio is a float between 0 and 1, and so is a natural number in units of 2 ** -1074. White space
-- is that of Python's `\s` and `str.strip`.
--
-- A loop of the model is a structural recursion, on the two indices of the table or on a list, but
-- for the searches of the commit graph. These recurse on fuel, one more than the number of parent
-- rows: a commit is queued for the start or for a row, and a row is followed once; the search for a
-- claim's chain has two rounds for each edge, which is followed from either end. The searches return
-- an option, which is empty only for want of fuel. The window loop has a round for each sentence, and
-- the loops over lines and bytes have one for each line or byte: they always advance.
--
-- Not modelled: SQLite beyond the statements that the store runs (locking, durability), threads (the
-- lock makes transactions follow one another), the texts of error messages, HTTP and WebSocket
-- handlers, the command line, the full-text index, the vectors and the ranking of the search, the
-- parsers, the rooms of the live collaboration, uploads and edits of a repository's files, and the
-- frontend.
pub mod Base
pub mod Diff
pub mod Merge
pub mod Ingest
pub mod Store
pub mod Collab
pub mod Repo
pub mod Retrieval
pub mod Provenance
