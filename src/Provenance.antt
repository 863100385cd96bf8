-- ===== src/Provenance.antt =====
-- The queries of backend/src/provenance/service.py: `get_claim`, `artifact_sources` and `claims_at`.
pub mod Ends
pub mod Chain
pub mod Claims
mod Tests
use re_git.Base.{
  ℕ, zero, suc, ◌+◌, Bool, true, false, ◌&&◌, ◌||◌, Option, none, some, Text, text_eq, codes, List,
  [], ◌∷◌, ◌++◌, map, length, take, if◌then◌else◌,
}
use re_git.Store.Rows.{
  CommitRow, ArtifactRow, ClaimRow, EdgeRow, SourceRow, Database, find_row, find_commit,
  find_artifact,
}
use re_git.Store.Graph.{contains, ancestors}

-- A node of the graph of provenance: its kind and its id.
abbrev pub Key : Type 0
Key = Text × Text

unfoldable pub key_eq : Key → Key → Bool
key_eq a b = text_eq a.0 b.0 && text_eq a.1 b.1

-- key in seen
unfoldable pub has_key : Key → List Key → Bool
has_key k [] = false
has_key k (x ∷ seen) = key_eq x k || has_key k seen

-- SELECT from_kind, from_id ... WHERE to_kind=? AND to_id=?
unfoldable pub origins : Key → List EdgeRow → List Key
origins k [] = []
origins k (e ∷ edges) =
    let rest = origins k edges in
    if key_eq (e.to_kind, e.to_id) k then (e.from_kind, e.from_id) ∷ rest else rest

-- SELECT to_kind, to_id ... WHERE from_kind=? AND from_id=?
unfoldable pub targets : Key → List EdgeRow → List Key
targets k [] = []
targets k (e ∷ edges) =
    let rest = targets k edges in
    if key_eq (e.from_kind, e.from_id) k then (e.to_kind, e.to_id) ∷ rest else rest

abbrev pub onto : Key → Option (List Key) → Option (List Key)
onto k none = none
onto k (some keys) = some (k ∷ keys)

-- The loop of `get_claim`, on fuel: the keys of the chain, from the queue on.
unfoldable pub chain_from : List EdgeRow → ℕ → List Key → List Key → Option (List Key)
unfolding has_key
chain_from edges fuel seen [] = some []
chain_from edges zero seen (k ∷ q) = none
chain_from edges (suc fuel) seen (k ∷ q) = elim (has_key k seen) [
  | true ↦ chain_from edges fuel seen q
  | false ↦ onto k (chain_from edges fuel (k ∷ seen) (q ++ (origins k edges ++ targets k edges)))
]

-- Every edge is followed once from each of its ends, so that twice as many rounds as edges, and one
-- for the start, are enough.
unfoldable pub chain_of : List EdgeRow → Key → Option (List Key)
unfolding chain_from
chain_of edges start = chain_from edges (suc (length edges + length edges)) [] (start ∷ [])

abbrev pub find_claim_row : Text → Database → Option ClaimRow
find_claim_row cid db = find_row (λ r. text_eq r.id cid) db.claims

abbrev pub find_source : Text → Database → Option SourceRow
find_source sid db = find_row (λ r. text_eq r.id sid) db.sources

-- `_snippet`; a title or message that is NULL is empty.
unfoldable pub snippet : Database → Key → Text
snippet db (kind, oid) =
    let claim = elim (find_claim_row oid db) as (λ o. Text) [
      | none ↦ []
      | some r ↦ take 200 r.text
    ] in
    let commit = elim (find_commit oid db) as (λ o. Text) [
      | none ↦ []
      | some r ↦ take 200 r.message
    ] in
    let artifact = elim (find_artifact oid db) as (λ o. Text) [
      | none ↦ []
      | some r ↦ take 200 r.title
    ] in
    let source = elim (find_source oid db) as (λ o. Text) [
      | none ↦ []
      | some r ↦ take 200 (r.type ++ b':' ∷ r.original_filename)
    ] in
    if text_eq kind (codes "claim")
    then claim
    else (if text_eq kind (codes "commit")
        then commit
        else (if text_eq kind (codes "artifact")
            then artifact
            else (if text_eq kind (codes "source") then source else [])))

-- A link of the chain.
pub record Link : Type 0 where
  pub key : Key
  pub snippet : Text

unfoldable pub link : Database → Key → Link
link db k = record { key = k; snippet = snippet db k }

abbrev pub with_chain :
    Database → ClaimRow → Option (List Key) → Option (Option (ClaimRow × List Link))
with_chain db row none = none
with_chain db row (some keys) = some (some (row, map (link db) keys))

abbrev pub claim_answer : Database → Text → Option ClaimRow → Option (Option (ClaimRow × List Link))
claim_answer db claim_id none = some none
claim_answer db claim_id (some row) =
    with_chain db row (chain_of db.provenance_edges (codes "claim", claim_id))

-- `get_claim`: the outer option is empty only for want of fuel, the inner one for an unknown claim.
unfoldable pub get_claim : Database → Text → Option (Option (ClaimRow × List Link))
unfolding chain_of link
get_claim db claim_id = claim_answer db claim_id (find_claim_row claim_id db)

-- The edge that says that the artifact was imported from the source.
unfoldable pub is_import : Text → Text → EdgeRow → Bool
is_import source_id artifact_id e =
    text_eq e.from_kind (codes "source")
    && text_eq e.from_id source_id
    && text_eq e.to_kind (codes "artifact")
    && text_eq e.to_id artifact_id

unfoldable pub any_edge : (EdgeRow → Bool) → List EdgeRow → Bool
any_edge test [] = false
any_edge test (e ∷ edges) = test e || any_edge test edges

-- The sources that an edge joins to the artifact; the id of a source is its key, so DISTINCT drops
-- the repetitions of the join only. The order is not fixed by the query: here it is the table's.
unfoldable pub joined : Text → List EdgeRow → List SourceRow → List SourceRow
unfolding is_import any_edge
joined artifact_id edges [] = []
joined artifact_id edges (s ∷ sources) =
    let rest = joined artifact_id edges sources in
    if any_edge (is_import s.id artifact_id) edges then s ∷ rest else rest

-- SELECT id FROM commits WHERE artifact_id=?
unfoldable pub commits_of : Text → List CommitRow → List Text
commits_of artifact_id [] = []
commits_of artifact_id (c ∷ commits) =
    let rest = commits_of artifact_id commits in
    if text_eq c.artifact_id artifact_id then c.id ∷ rest else rest

unfoldable pub artifact_sources : Database → Text → List (SourceRow × List Text)
unfolding joined commits_of
artifact_sources db artifact_id =
    map (λ s. (s, commits_of artifact_id db.commits))
      (joined artifact_id db.provenance_edges db.sources)

-- SELECT ... FROM claims WHERE commit_id IN (...)
unfoldable pub claims_in : List Text → List ClaimRow → List ClaimRow
claims_in commits [] = []
claims_in commits (r ∷ claims) =
    let rest = claims_in commits claims in if contains r.commit_id commits then r ∷ rest else rest

unfoldable pub claims_at : Database → Text → Option (List ClaimRow)
unfolding claims_in
claims_at db commit_id = elim (ancestors db commit_id) [
  | none ↦ none
  | some anc ↦ some (claims_in anc db.claims)
]
