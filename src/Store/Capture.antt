-- ===== src/Store/Capture.antt =====
-- `capture_commit` of backend/src/provenance/service.py: the claims that a new commit states, in
-- the commit's own transaction.
use re_git.Base.{
  Bool, false, ◌&&◌, ◌||◌, not, Option, none, some, Text, text_eq, codes, List, [], ◌∷◌, ◌++◌,
  is_empty, if◌then◌else◌,
}
use re_git.Ingest.Claims.{extract_claims}
use re_git.Store.Rows.{
  ArtifactRow, ClaimRow, CommitRow, EdgeRow, Database, found, find_row, find_commit, find_artifact,
  insert_or_ignore,
}
use re_git.Store.Monad.{M, integrity_error, pure, query, modify, require, tick, tx, ◌>>=◌, ◌>>◌}
use re_git.Store.Host.{Host}
use re_git.Store.Ids.{new_id}
use re_git.Store.Blobs.{get_blob}

-- The unique keys of provenance_edges: the id, and the ends with the relation.
abbrev pub same_edge : EdgeRow → EdgeRow → Bool
same_edge e r =
    text_eq r.id e.id
    || text_eq r.from_kind e.from_kind
      && text_eq r.from_id e.from_id
      && text_eq r.to_kind e.to_kind
      && text_eq r.to_id e.to_id
      && text_eq r.relation e.relation

abbrev pub insert_edge : EdgeRow → Database → Database
insert_edge e db = record db {
  provenance_edges = insert_or_ignore (same_edge e) e db.provenance_edges;
}

-- INSERT INTO claims; its key is the id
abbrev pub insert_claim : ClaimRow → M (Unit {0})
insert_claim row = do
  taken ← query (λ db. found (find_row (λ r. text_eq r.id row.id) db.claims))
  require (not taken) integrity_error
  modify (λ db. record db { claims = db.claims ++ row ∷ [] })

-- SELECT id FROM claims WHERE commit_id=? AND text=?
abbrev pub find_claim : Text → Text → Database → Option ClaimRow
find_claim cid text db = find_row (λ r. text_eq r.commit_id cid && text_eq r.text text) db.claims

unfoldable pub contains_text : Text → List Text → Bool
contains_text t [] = false
contains_text t (u ∷ texts) = text_eq u t || contains_text t texts

-- dict.fromkeys(texts), for the texts that are not among those seen
unfoldable pub dedup : List Text → List Text → List Text
unfolding contains_text
dedup seen [] = []
dedup seen (t ∷ texts) =
    let rest = dedup (t ∷ seen) texts in
    let shorter = dedup seen texts in if contains_text t seen then shorter else t ∷ rest

module _ (host : Host) where
  unfoldable pub fresh_id : Text → M Text
  fresh_id prefix = do n ← tick; let (ts, rand) = host.draw n; pure (new_id prefix ts rand)

  unfoldable pub add_edge : Text → Text → Text → Text → Text → Text → M (Unit {0})
  add_edge from_kind from_id to_kind to_id relation created = do
    eid ← fresh_id (codes "pe_")
    modify (
        insert_edge (record {
          id = eid;
          from_kind = from_kind;
          from_id = from_id;
          to_kind = to_kind;
          to_id = to_id;
          relation = relation;
          created_at = created;
        }))

  -- The id of the claim that is there, or of a new row.
  unfoldable pub claim_row : Text → Text → Text → Text → Option ClaimRow → M Text
  claim_row cid aid created text (some row) = pure row.id
  claim_row cid aid created text none = do
    new ← fresh_id (codes "clm_")
    insert_claim (record {
      id = new;
      text = text;
      artifact_id = aid;
      commit_id = cid;
      sid = none;
      created_at = created;
    })
    pure new

  -- `if source_id:`
  unfoldable pub source_edge : Text → Text → Option Text → M (Unit {0})
  source_edge claim created none = pure tt
  source_edge claim created (some source) =
      if is_empty source
      then pure tt
      else add_edge (codes "claim") claim (codes "source") source (codes "derived_from") created

  unfoldable pub capture_claims : Text → Text → Text → Option Text → List Text → M (Unit {0})
  capture_claims cid aid created source [] = pure tt
  capture_claims cid aid created source (text ∷ texts) =
      let others = capture_claims cid aid created source texts in
      do
        existing ← query (find_claim cid text)
        claim ← claim_row cid aid created text existing
        add_edge (codes "commit") cid (codes "claim") claim (codes "states") created
        source_edge claim created source
        others

  -- Only Markdown and plain text are searched for claims.
  unfoldable pub capture_text : CommitRow → ArtifactRow → M (Unit {0})
  capture_text c a =
      if text_eq a.kind (codes "md") || text_eq a.kind (codes "txt")
      then (do
        bytes ← get_blob host c.root_hash false
        let texts = dedup [] (extract_claims (host.decode_replace bytes))
        capture_claims c.id c.artifact_id c.author_date a.source_id texts)
      else pure tt

  -- The join of the commit with its artifact.
  unfoldable pub commit_and_artifact : Text → Database → Option (CommitRow × ArtifactRow)
  commit_and_artifact cid db = elim (find_commit cid db) [
    | none ↦ none
    | some c ↦ elim (find_artifact c.artifact_id db) [ none ↦ none | some a ↦ some (c, a) ]
  ]

  unfoldable pub capture_row : Option (CommitRow × ArtifactRow) → M (Unit {0})
  capture_row none = pure tt
  capture_row (some (c, a)) = tx (do
    add_edge (codes "artifact") c.artifact_id (codes "version") c.id (codes "has_version")
        c.author_date
    capture_text c a)

  unfoldable pub capture_commit : Text → M (Unit {0})
  capture_commit cid = do row ← query (commit_and_artifact cid); capture_row row
