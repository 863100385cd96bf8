-- ===== src/Store/Graph/Edges.antt =====
-- The dict of parents holds the rows of the table.
use re_git.Base.{
  ℕ, ◌+◌, ◌≤◌, ◌≡◌, refl, Bool, false, ◌||◌, ◌&&◌, Text, text_eq, text_eq_iff, List, [], ◌∷◌, ◌++◌,
  append_assoc, append-nil, arith, length, if◌then◌else◌,
}
use re_git.Store.Rows.{ParentRow, Database}
use re_git.Store.Graph.{Edges, append_parent, add_rows, parents_of, parents_map, contains}

-- The parents of a commit, by the rows.
unfoldable pub row_parents : Text → List ParentRow → List Text
row_parents node [] = []
row_parents node (r ∷ rows) =
    let rest = row_parents node rows in
    if text_eq r.commit_id node then r.parent_id ∷ rest else rest

-- A row says that `parent` is a parent of `child`.
unfoldable pub is_parent : Text → Text → List ParentRow → Bool
is_parent child parent [] = false
is_parent child parent (r ∷ rows) =
    text_eq r.commit_id child && text_eq r.parent_id parent || is_parent child parent rows

pub contains-row_parents :
    (node p : Text) (rows : List ParentRow)
    → contains p (row_parents node rows) ≡ is_parent node p rows
unfolding contains row_parents is_parent
contains-row_parents node p [] = refl
contains-row_parents node p (r ∷ rows) = ground (arith, contains-row_parents node p rows)

pub contains-append :
    (x : Text) (xs ys : List Text) → contains x (xs ++ ys) ≡ (contains x xs || contains x ys)
unfolding contains
contains-append x [] ys = refl
contains-append x (y ∷ xs) ys = ground (arith, contains-append x xs ys)

parents_of-append_parent :
    (node cid pid : Text) (edges : Edges)
    → parents_of (append_parent cid pid edges) node
      ≡ (if text_eq cid node then parents_of edges node ++ pid ∷ [] else parents_of edges node)
unfolding parents_of append_parent
parents_of-append_parent node cid pid [] = ground arith
parents_of-append_parent node cid pid ((k, parents) ∷ edges) = ground (
  arith,
  parents_of-append_parent node cid pid edges,
  text_eq_iff k cid,
  text_eq_iff k node,
  text_eq_iff cid node,
)

parents_of-add_rows :
    (node : Text) (rows : List ParentRow) (edges : Edges)
    → parents_of (add_rows rows edges) node ≡ parents_of edges node ++ row_parents node rows
unfolding add_rows row_parents
parents_of-add_rows node [] edges = ground (arith, append-nil (parents_of edges node))
parents_of-add_rows node (r ∷ rows) edges = ground (
  arith,
  parents_of-add_rows node rows (append_parent r.commit_id r.parent_id edges),
  parents_of-append_parent node r.commit_id r.parent_id edges,
  append_assoc (parents_of edges node) (r.parent_id ∷ []) (row_parents node rows),
)

pub parents_of-parents_map :
    (node : Text) (db : Database)
    → parents_of (parents_map db) node ≡ row_parents node db.commit_parents
unfolding parents_map parents_of
parents_of-parents_map node db = parents_of-add_rows node db.commit_parents []

-- The rows whose child is not seen.
unfoldable pub open_rows : List Text → List ParentRow → ℕ
open_rows seen [] = 0
open_rows seen (r ∷ rows) = (if contains r.commit_id seen then 0 else 1) + open_rows seen rows

pub open_rows-le : (rows : List ParentRow) → open_rows [] rows ≤ length rows
unfolding open_rows contains
open_rows-le [] = omega arith
open_rows-le (r ∷ rows) = omega (arith, open_rows-le rows)

pub open_rows-cons :
    (node : Text) (seen : List Text) (rows : List ParentRow)
    → contains node seen ≡ false
    → open_rows seen rows ≡ length (row_parents node rows) + open_rows (node ∷ seen) rows
unfolding open_rows row_parents contains
open_rows-cons node seen [] h = refl
open_rows-cons node seen (r ∷ rows) h = ground (
  arith,
  open_rows-cons node seen rows h,
  text_eq_iff r.commit_id node,
  text_eq_iff node r.commit_id,
)
