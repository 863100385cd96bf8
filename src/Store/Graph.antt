-- ===== src/Store/Graph.antt =====
-- The commit graph: `_parents_map` of backend/src/core/objects/store.py and `ancestors` of
-- backend/src/provenance/service.py. SQLite promises no order of the rows; here they come in the
-- order of the table's list.
pub mod Edges
pub mod Reach
use re_git.Base.{
  ℕ, zero, suc, Bool, true, false, ◌||◌, Option, none, some, Text, text_eq, List, [], ◌∷◌, ◌++◌,
  length, if◌then◌else◌,
}
use re_git.Store.Rows.{ParentRow, Database}

-- The dict from a commit to its parents.
abbrev pub Edges : Type 0
Edges = List (Text × List Text)

-- edges.setdefault(cid, []).append(pid)
unfoldable pub append_parent : Text → Text → Edges → Edges
append_parent cid pid [] = (cid, pid ∷ []) ∷ []
append_parent cid pid ((k, parents) ∷ edges) =
    if text_eq k cid
    then (k, parents ++ pid ∷ []) ∷ edges
    else (k, parents) ∷ append_parent cid pid edges

-- The loop over the rows.
unfoldable pub add_rows : List ParentRow → Edges → Edges
add_rows [] edges = edges
add_rows (r ∷ rows) edges = add_rows rows (append_parent r.commit_id r.parent_id edges)

unfoldable pub parents_map : Database → Edges
parents_map db = add_rows db.commit_parents []

-- edges.get(node, ())
unfoldable pub parents_of : Edges → Text → List Text
parents_of [] node = []
parents_of ((k, parents) ∷ edges) node = if text_eq k node then parents else parents_of edges node

-- `node in seen`
unfoldable pub contains : Text → List Text → Bool
contains node [] = false
contains node (x ∷ seen) = text_eq x node || contains node seen

-- The loop of `ancestors`, on fuel: the set `seen` and the queue `q`.
unfoldable pub walk : Edges → ℕ → List Text → List Text → Option (List Text)
walk edges fuel seen [] = some seen
walk edges zero seen (node ∷ q) = none
walk edges (suc fuel) seen (node ∷ q) = elim (contains node seen) [
  | true ↦ walk edges fuel seen q
  | false ↦ walk edges fuel (node ∷ seen) (q ++ parents_of edges node)
]

-- Each row is followed once, so its fuel is one more than the number of rows.
unfoldable pub ancestors : Database → Text → Option (List Text)
ancestors db commit_id = walk (parents_map db) (suc (length db.commit_parents)) [] (commit_id ∷ [])
