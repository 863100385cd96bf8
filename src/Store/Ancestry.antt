-- ===== src/Store/Ancestry.antt =====
-- `merge_base` and `history` of backend/src/core/objects/store.py.
pub mod Visits
pub mod Lca
pub mod Newest
use re_git.Base.{
  ℕ, zero, suc, ◌+◌, Bool, true, false, ◌&&◌, ◌||◌, Option, none, some, Text, text_eq, text_ltb,
  List, [], ◌∷◌, ◌++◌, ltb, ◌==◌, length, if◌then◌else◌,
}
use re_git.Store.Rows.{CommitRow, Database, find_commit}
use re_git.Store.Refs.{ref_head}
use re_git.Store.Graph.{Edges, parents_map, parents_of, contains}

-- The dict from a commit to its distance, in the order of insertion.
abbrev pub Dist : Type 0
Dist = List (Text × ℕ)

-- `node in dist`
unfoldable pub known : Text → Dist → Bool
known node [] = false
known node ((k, d) ∷ dist) = text_eq k node || known node dist

-- `dist[node]`; the code reads no key that is missing
unfoldable pub dist_of : Dist → Text → ℕ
dist_of [] node = 0
dist_of ((k, d) ∷ dist) node = if text_eq k node then d else dist_of dist node

-- `dist` and `q`
pub record Search : Type 0 where
  pub dist : Dist
  pub queue : List Text

-- The body of the loop over the parents, which come at distance `d`.
unfoldable pub touch : ℕ → Text → Search → Search
touch d p s =
    if known p s.dist then s else record { dist = s.dist ++ (p, d) ∷ []; queue = s.queue ++ p ∷ [] }

unfoldable pub touch_all : ℕ → List Text → Search → Search
touch_all d [] s = s
touch_all d (p ∷ parents) s = touch_all d parents (touch d p s)

-- The loop of `distances`, on fuel.
unfoldable pub search_from : Edges → ℕ → Dist → List Text → Option Dist
search_from edges fuel dist [] = some dist
search_from edges zero dist (node ∷ q) = none
search_from edges (suc fuel) dist (node ∷ q) =
    let s =
      touch_all (dist_of dist node + 1) (parents_of edges node)
        (record { dist = dist; queue = q }) in
    search_from edges fuel s.dist s.queue

-- Each commit is queued once, so the fuel is one more than the number of rows.
unfoldable pub distances : Database → Text → Option Dist
distances db start =
    search_from (parents_map db) (suc (length db.commit_parents)) ((start, 0) ∷ []) (start ∷ [])

-- d1.keys() & d2.keys()
unfoldable pub common_keys : Dist → Dist → List Text
common_keys [] d2 = []
common_keys ((k, d) ∷ d1) d2 = let rest = common_keys d1 d2 in if known k d2 then k ∷ rest else rest

-- (d1[a] + d2[a], a) < (d1[b] + d2[b], b)
unfoldable pub closer : Dist → Dist → Text → Text → Bool
closer d1 d2 a b =
    let da = dist_of d1 a + dist_of d2 a in
    let db = dist_of d1 b + dist_of d2 b in ltb da db || da == db && text_ltb a b

-- min(common, key=...), the least of `best` and the nodes
unfoldable pub closest : Dist → Dist → Text → List Text → Text
closest d1 d2 best [] = best
closest d1 d2 best (n ∷ nodes) = closest d1 d2 (if closer d1 d2 n best then n else best) nodes

unfoldable pub least : Dist → Dist → List Text → Option Text
least d1 d2 [] = none
least d1 d2 (n ∷ nodes) = some (closest d1 d2 n nodes)

-- Without a common ancestor the result is `none`; the outer `none` would be want of fuel.
unfoldable pub merge_base_from : Option Dist → Option Dist → Option (Option Text)
merge_base_from (some d1) (some d2) = some (least d1 d2 (common_keys d1 d2))
merge_base_from _ _ = none

unfoldable pub merge_base : Database → Text → Text → Option (Option Text)
merge_base db c1 c2 =
    if text_eq c1 c2 then some (some c1) else merge_base_from (distances db c1) (distances db c2)

-- A dict of the list that `history` returns.
pub record Entry : Type 0 where
  pub commit_id : Text
  pub parents : List Text
  pub message : Text
  pub author : Text
  pub author_date : Text

unfoldable pub entry_of : Edges → Text → CommitRow → Entry
entry_of edges node row = record {
  commit_id = row.id;
  parents = parents_of edges node;
  message = row.message;
  author = row.author;
  author_date = row.author_date;
}

-- The loop of `history`, on fuel; a node without a row is passed over.
unfoldable pub history_from :
    Database → Edges → ℕ → List Text → List Entry → List Text → Option (List Entry)
history_from db edges fuel seen order [] = some order
history_from db edges zero seen order (node ∷ q) = none
history_from db edges (suc fuel) seen order (node ∷ q) = elim (contains node seen) [
  | true ↦ history_from db edges fuel seen order q
  | false ↦ elim (find_commit node db) [
    | none ↦ history_from db edges fuel (node ∷ seen) order q
    | some row ↦
        history_from db edges fuel (node ∷ seen) (order ++ entry_of edges node row ∷ [])
          (q ++ parents_of edges node)
  ]
]

unfoldable pub history_of : Database → Option Text → Option (List Entry)
history_of db none = some []
history_of db (some start) =
    history_from db (parents_map db) (suc (length db.commit_parents)) [] [] (start ∷ [])

unfoldable pub history : Database → Text → Text → Option (List Entry)
history db artifact_id branch = history_of db (ref_head branch artifact_id db)
