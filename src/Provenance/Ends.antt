-- ===== src/Provenance/Ends.antt =====
-- The nodes and edges of the graph of provenance, and the ends of edges that a search has yet to reach.
use re_git.Base.{
  ℕ, ◌+◌, ◌≤◌, ◌≡◌, ◌↔◌, refl, ap, ◌∙◌, inl, inr, Bool-cases, true, false, ◌||◌, text_eq_iff, List,
  [], ◌∷◌, ◌++◌, length, if◌then◌else◌, arith,
}
use re_git.Store.Rows.{EdgeRow}
use re_git.Provenance.{Key, key_eq, has_key, origins, targets}

pub key_eq_iff : (a b : Key) → (key_eq a b ≡ true) ↔ (a ≡ b)
unfolding key_eq
key_eq_iff (a, x) (b, y) = ground (arith, text_eq_iff a b, text_eq_iff x y)

pub has_key-append :
    (k : Key) (xs ys : List Key) → has_key k (xs ++ ys) ≡ (has_key k xs || has_key k ys)
unfolding has_key
has_key-append k [] ys = refl
has_key-append k (x ∷ xs) ys = ground (arith, has_key-append k xs ys)

-- The ends of edges that are not in `seen`.
unfoldable pub open_ends : List Key → List EdgeRow → ℕ
open_ends seen [] = 0
open_ends seen (e ∷ edges) =
    (if has_key (e.to_kind, e.to_id) seen then 0 else 1)
    + (if has_key (e.from_kind, e.from_id) seen then 0 else 1)
    + open_ends seen edges

pub open_ends-le : (edges : List EdgeRow) → open_ends [] edges ≤ length edges + length edges
unfolding open_ends has_key
open_ends-le [] = omega arith
open_ends-le (e ∷ edges) = omega (arith, open_ends-le edges)

at_key :
    (k x : Key) (seen : List Key)
    → has_key k seen ≡ false
    → key_eq x k ≡ true
    → has_key x seen ≡ false
at_key k x seen new same = ap (λ y. has_key y seen) ((key_eq_iff x k).0 same) ∙ new

key_eq-sym : (a b : Key) → key_eq a b ≡ key_eq b a
key_eq-sym a b = ground (arith, key_eq_iff a b, key_eq_iff b a)

pub open_ends-cons :
    (k : Key) (seen : List Key) (edges : List EdgeRow)
    → has_key k seen ≡ false
    → length (origins k edges) + length (targets k edges) + open_ends (k ∷ seen) edges
      ≡ open_ends seen edges
unfolding open_ends has_key origins targets
open_ends-cons k seen [] new = omega arith
open_ends-cons k seen (e ∷ edges) new = ground (
  arith,
  open_ends-cons k seen edges new,
  at_key k (e.to_kind, e.to_id) seen new,
  at_key k (e.from_kind, e.from_id) seen new,
  key_eq-sym k (e.to_kind, e.to_id),
  key_eq-sym k (e.from_kind, e.from_id),
)

-- A row of the table leads from `a` to `b`.
pub data HasEdge (a b : Key) : List EdgeRow → Type 0 where
  first :
      {e : EdgeRow} {edges : List EdgeRow}
      → (e.from_kind, e.from_id) ≡ a
      → (e.to_kind, e.to_id) ≡ b
      → HasEdge a b (e ∷ edges)
  later : {e : EdgeRow} {edges : List EdgeRow} → HasEdge a b edges → HasEdge a b (e ∷ edges)

pub of_origins :
    (a b : Key) (edges : List EdgeRow) → has_key a (origins b edges) ≡ true → HasEdge a b edges
unfolding has_key origins
of_origins a b [] h = cc h
of_origins a b (e ∷ edges) h = elim (Bool-cases (key_eq (e.to_kind, e.to_id) b)) [
  | inr other ↦ later (of_origins a b edges (rw other at h))
  | inl to ↦ elim (Bool-cases (key_eq (e.from_kind, e.from_id) a)) [
    | inl from ↦
        first ((key_eq_iff (e.from_kind, e.from_id) a).0 from)
          ((key_eq_iff (e.to_kind, e.to_id) b).0 to)
    | inr other ↦ later (of_origins a b edges (rw (to, other) at h))
  ]
]

pub of_targets :
    (a b : Key) (edges : List EdgeRow) → has_key b (targets a edges) ≡ true → HasEdge a b edges
unfolding has_key targets
of_targets a b [] h = cc h
of_targets a b (e ∷ edges) h = elim (Bool-cases (key_eq (e.from_kind, e.from_id) a)) [
  | inr other ↦ later (of_targets a b edges (rw other at h))
  | inl from ↦ elim (Bool-cases (key_eq (e.to_kind, e.to_id) b)) [
    | inl to ↦
        first ((key_eq_iff (e.from_kind, e.from_id) a).0 from)
          ((key_eq_iff (e.to_kind, e.to_id) b).0 to)
    | inr other ↦ later (of_targets a b edges (rw (from, other) at h))
  ]
]

pub to_origins :
    (a b : Key) (edges : List EdgeRow) → HasEdge a b edges → has_key a (origins b edges) ≡ true
unfolding has_key origins
to_origins a b [] h = elim h [ ]
to_origins a b (e ∷ edges) (first from to) = ground (
  arith,
  (key_eq_iff (e.from_kind, e.from_id) a).1 from,
  (key_eq_iff (e.to_kind, e.to_id) b).1 to,
)
to_origins a b (e ∷ edges) (later h) = ground (arith, to_origins a b edges h)

pub to_targets :
    (a b : Key) (edges : List EdgeRow) → HasEdge a b edges → has_key b (targets a edges) ≡ true
unfolding has_key targets
to_targets a b [] h = elim h [ ]
to_targets a b (e ∷ edges) (first from to) = ground (
  arith,
  (key_eq_iff (e.from_kind, e.from_id) a).1 from,
  (key_eq_iff (e.to_kind, e.to_id) b).1 to,
)
to_targets a b (e ∷ edges) (later h) = ground (arith, to_targets a b edges h)
