-- ===== src/Provenance/Tests.antt =====
-- Runs of the provenance queries.
use re_git.Base.{◌≡◌, ◌↔◌, refl, true, none, some, Text, text_eq, codes, List, [], ◌∷◌, map}
use re_git.Store.Rows.{ClaimRow, EdgeRow, Database, find_row}
use re_git.Provenance.{Key, has_key, find_claim_row, link, get_claim, claims_at}
use re_git.Provenance.Chain.{Joins, get_claim-Joins}
use re_git.Provenance.Claims.{Keeps, MadeAt, claims_at-Keeps}

abbrev a_claim : ClaimRow
a_claim = record {
  id = codes "clm_1";
  text = codes "We won.";
  artifact_id = codes "art";
  commit_id = codes "c1";
  sid = none;
  created_at = codes "d";
}

abbrev edge : Text → Text → Text → Text → EdgeRow
edge from_kind from_id to_kind to_id = record {
  id = from_id;
  from_kind = from_kind;
  from_id = from_id;
  to_kind = to_kind;
  to_id = to_id;
  relation = codes "states";
  created_at = codes "d";
}

abbrev database : Database
database = record {
  objects = [];
  commits = [];
  commit_parents = record { commit_id = codes "c2"; parent_id = codes "c1" } ∷ [];
  refs = [];
  branches = [];
  artifacts = [];
  claims = a_claim ∷ [];
  provenance_edges =
      edge (codes "commit") (codes "c1") (codes "claim") (codes "clm_1")
      ∷ edge (codes "claim") (codes "clm_1") (codes "source") (codes "src_1")
      ∷ [];
  sources = [];
  tombstones = [];
}

claim_found : find_claim_row (codes "clm_1") database ≡ some a_claim
unfolding find_row text_eq
claim_found = refl

get_claim-Joins_example :
    (keys : List Key) × (get_claim database (codes "clm_1")
      ≡ some (some (a_claim, map (link database) keys)))
    × ((x : Key)
        → (has_key x keys ≡ true)
          ↔ Joins database.provenance_edges (codes "claim", codes "clm_1") x)
get_claim-Joins_example = get_claim-Joins database (codes "clm_1") a_claim claim_found

claims_at-Keeps_example :
    (out : List ClaimRow) × (claims_at database (codes "c2") ≡ some out)
    × Keeps (MadeAt database (codes "c2")) database.claims out
claims_at-Keeps_example = claims_at-Keeps database (codes "c2")
