-- ===== src/Store/Valid/Linked.antt =====
-- The parent edges that a commit writes.
use re_git.Base.{◌≡◌, refl, true, ◌||◌, Text, text_eq_iff, List, [], ◌∷◌, ◌++◌, All, arith}
use re_git.Store.Rows.{ParentRow, Database, found, find_row}
use re_git.Store.Commit.{same_parent, insert_parent, add_parents}
use re_git.Store.Graph.Edges.{is_parent}

-- A row says of each of the parents that it is a parent of the commit.
abbrev pub Linked : Text → List Text → List ParentRow → Type 0
Linked cid parents rows = All (λ p. is_parent cid p rows ≡ true) parents

is_parent-append :
    (c p : Text) (xs ys : List ParentRow)
    → is_parent c p (xs ++ ys) ≡ (is_parent c p xs || is_parent c p ys)
unfolding is_parent
is_parent-append c p [] ys = refl
is_parent-append c p (r ∷ xs) ys = ground (arith, is_parent-append c p xs ys)

found-is_parent :
    (row : ParentRow) (rows : List ParentRow)
    → found (find_row (same_parent row) rows) ≡ is_parent row.commit_id row.parent_id rows
unfolding is_parent find_row
found-is_parent row [] = refl
found-is_parent row (r ∷ rows) = ground (arith, found-is_parent row rows)

module _ (row : ParentRow) (db : Database) where
  insert_parent-is_parent :
      is_parent row.commit_id row.parent_id (insert_parent row db).commit_parents ≡ true
  unfolding is_parent
  insert_parent-is_parent = ground (
    arith,
    found-is_parent row db.commit_parents,
    is_parent-append row.commit_id row.parent_id db.commit_parents (row ∷ []),
    text_eq_iff row.commit_id row.commit_id,
    text_eq_iff row.parent_id row.parent_id,
  )

  insert_parent_keeps :
      (c p : Text)
      → is_parent c p db.commit_parents ≡ true
      → is_parent c p (insert_parent row db).commit_parents ≡ true
  insert_parent_keeps c p h = ground (arith, h, is_parent-append c p db.commit_parents (row ∷ []))

add_parents_keeps :
    (cid : Text) (parents : List Text) (db : Database) (c p : Text)
    → is_parent c p db.commit_parents ≡ true
    → is_parent c p (add_parents cid parents db).commit_parents ≡ true
unfolding add_parents
add_parents_keeps cid [] db c p h = h
add_parents_keeps cid (q ∷ parents) db c p h =
    let row : ParentRow = record { commit_id = cid; parent_id = q } in
    add_parents_keeps cid parents (insert_parent row db) c p (insert_parent_keeps row db c p h)

pub add_parents-Linked :
    (cid : Text) (parents : List Text) (db : Database)
    → Linked cid parents (add_parents cid parents db).commit_parents
unfolding add_parents
add_parents-Linked cid [] db = tt
add_parents-Linked cid (q ∷ parents) db =
    let row : ParentRow = record { commit_id = cid; parent_id = q } in
    (
      add_parents_keeps cid parents (insert_parent row db) cid q (insert_parent-is_parent row db),
      add_parents-Linked cid parents (insert_parent row db),
    )
