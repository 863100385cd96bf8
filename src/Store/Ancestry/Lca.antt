-- ===== src/Store/Ancestry/Lca.antt =====
-- `merge_base` returns a common ancestor, if there is one.
use re_git.Base.{
  ◌≡◌, ◌↔◌, refl, sym, ◌∙◌, true, ◌&&◌, Option, some, none, Bool-cases, inl, inr, Text, text_eq,
  text_eq_iff, List, [], ◌∷◌, arith, if◌then◌else◌,
}
use re_git.Store.Rows.{ParentRow, Database}
use re_git.Store.Graph.{contains}
use re_git.Store.Graph.Reach.{Reaches, here}
use re_git.Store.Ancestry.{
  Dist, known, common_keys, closer, closest, least, merge_base_from, merge_base,
}
use re_git.Store.Ancestry.Visits.{distances-Reaches}

contains-common_keys :
    (x : Text) (d1 d2 : Dist) → contains x (common_keys d1 d2) ≡ (known x d1 && known x d2)
unfolding contains common_keys known
contains-common_keys x [] d2 = refl
contains-common_keys x ((k, d) ∷ d1) d2 =
    ground (arith, contains-common_keys x d1 d2, text_eq_iff k x)

contains-closest :
    (d1 d2 : Dist) (best : Text) (nodes : List Text)
    → contains (closest d1 d2 best nodes) (best ∷ nodes) ≡ true
unfolding contains closest
contains-closest d1 d2 best [] = ground (arith, text_eq_iff best best)
contains-closest d1 d2 best (n ∷ nodes) =
    ground (arith, contains-closest d1 d2 (if closer d1 d2 n best then n else best) nodes)

-- The contract of `merge_base`: a commit that both reach, or `none` where they reach none in
-- common.
abbrev pub IsBase : List ParentRow → Text → Text → Option Text → Type 0
IsBase rows c1 c2 none = (x : Text) → Reaches rows c1 x → Reaches rows c2 x → ⊥
IsBase rows c1 c2 (some b) = Reaches rows c1 b × Reaches rows c2 b

least-IsBase :
    (rows : List ParentRow) (c1 c2 : Text) (d1 d2 : Dist)
    → ((x : Text) → (known x d1 ≡ true) ↔ Reaches rows c1 x)
    → ((x : Text) → (known x d2 ≡ true) ↔ Reaches rows c2 x)
    → (nodes : List Text) → ((x : Text) → contains x nodes ≡ (known x d1 && known x d2))
    → IsBase rows c1 c2 (least d1 d2 nodes)
unfolding contains least
least-IsBase rows c1 c2 d1 d2 k1 k2 [] all =
    λ x r1 r2. ground (arith, all x, (k1 x).1 r1, (k2 x).1 r2)
least-IsBase rows c1 c2 d1 d2 k1 k2 (n ∷ nodes) all =
    let b = closest d1 d2 n nodes in
    let both : (known b d1 && known b d2) ≡ true = sym (all b) ∙ contains-closest d1 d2 n nodes in
    ((k1 b).0 (ground (arith, both)), (k2 b).0 (ground (arith, both)))

-- `merge_base` ends. The commit that it returns is one that chains of parent edges lead to from
-- both commits; and it returns none only where there is no such commit.
pub merge_base-IsBase :
    (db : Database) (c1 c2 : Text)
    → (base : Option Text) × (merge_base db c1 c2 ≡ some base) × IsBase db.commit_parents c1 c2 base
unfolding merge_base merge_base_from
merge_base-IsBase db c1 c2 = elim (Bool-cases (text_eq c1 c2)) [
  | inl same ↦
      rw ((text_eq_iff c1 c2).0 same, (text_eq_iff c2 c2).1 refl) (some c2, refl, (here, here))
  | inr differ ↦
      let (d1, e1, k1) = distances-Reaches db c1 in
      let (d2, e2, k2) = distances-Reaches db c2 in
      rw (differ, e1, e2)
        (
          least d1 d2 (common_keys d1 d2),
          refl,
          least-IsBase db.commit_parents c1 c2 d1 d2 k1 k2 (common_keys d1 d2)
              (λ x. contains-common_keys x d1 d2),
        )
]
