-- ===== src/Provenance/Claims.antt =====
-- The claims of a commit's history.
use re_git.Base.{
  ◌≡◌, ◌↔◌, refl, sym, ap, ◌∙◌, inl, inr, Bool-cases, true, Option, none, some, Text, List, [], ◌∷◌,
}
use re_git.Store.Rows.{ClaimRow, Database}
use re_git.Store.Graph.{contains, ancestors}
use re_git.Store.Graph.Reach.{Reaches, ancestors-Reaches}
use re_git.Provenance.{claims_in, claims_at}

abbrev answer : Database → Option (List Text) → Option (List ClaimRow)
answer db none = none
answer db (some anc) = some (claims_in anc db.claims)

claims_at-answer : (db : Database) (cid : Text) → claims_at db cid ≡ answer db (ancestors db cid)
unfolding claims_at
claims_at-answer db cid = go (ancestors db cid)
  where
    go :
        (o : Option (List Text))
        → elim o as (λ x. Option (List ClaimRow)) [
          | none ↦ none
          | some anc ↦ some (claims_in anc db.claims)
        ]
          ≡ answer db o
    go none = refl
    go (some anc) = refl

-- `out` are the rows with the property, in their order.
pub data Keeps {A : Type 0} (P : A → Type 0) : List A → List A → Type 0 where
  nil : Keeps P [] []
  keep : {r : A} {rows out : List A} → P r → Keeps P rows out → Keeps P (r ∷ rows) (r ∷ out)
  drop : {r : A} {rows out : List A} → ¬ P r → Keeps P rows out → Keeps P (r ∷ rows) out

claims_in-Keeps :
    (P : ClaimRow → Type 0) (anc : List Text) (rows : List ClaimRow)
    → ((r : ClaimRow) → (contains r.commit_id anc ≡ true) ↔ P r)
    → Keeps P rows (claims_in anc rows)
unfolding claims_in
claims_in-Keeps P anc [] h = nil
claims_in-Keeps P anc (r ∷ rows) h = elim (Bool-cases (contains r.commit_id anc)) [
  | inl found ↦ rw found (keep ((h r).0 found) (claims_in-Keeps P anc rows h))
  | inr lost ↦ rw lost (drop (λ p. cc (sym lost ∙ (h r).1 p)) (claims_in-Keeps P anc rows h))
]

-- The claim was made at a commit that a chain of parent edges from the given one reaches.
abbrev pub MadeAt : Database → Text → ClaimRow → Type 0
MadeAt db commit_id r = Reaches db.commit_parents commit_id r.commit_id

-- `claims_at` ends, and it returns the claims of the table, in order, that were made at a commit which
-- a chain of parent edges from the given commit reaches, and no others.
pub claims_at-Keeps :
    (db : Database) (commit_id : Text)
    → (out : List ClaimRow) × (claims_at db commit_id ≡ some out)
      × Keeps (MadeAt db commit_id) db.claims out
claims_at-Keeps db commit_id =
    let found = ancestors-Reaches db commit_id in
    (
      claims_in found.0 db.claims,
      claims_at-answer db commit_id ∙ ap (answer db) found.1,
      claims_in-Keeps (MadeAt db commit_id) found.0 db.claims (λ r. found.2 r.commit_id),
    )
