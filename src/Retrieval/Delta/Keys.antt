-- ===== src/Retrieval/Delta/Keys.antt =====
-- The ids that a plan names.
use re_git.Base.{
  ◌≡◌, refl, ap, ◌∙◌, Bool, ◌&&◌, not, Bool-cases, inl, inr, Text, text_eq, text_eq_iff, List, [],
  ◌∷◌, arith,
}
use re_git.Base.TextDicts.{TextDict, get_at, keys}
use re_git.Store.Rows.{found}
use re_git.Store.Hash.{sorted}
use re_git.Store.Hash.Members.{contains-sorted}
use re_git.Store.Graph.{contains}
use re_git.Retrieval.Chunks.{Chunk}
use re_git.Retrieval.Delta.{ChunkRow, same_text, keep, gone, changed_ids}

pub contains-keep :
    (test : Text → Bool) (x : Text) (ks : List Text)
    → contains x (keep test ks) ≡ (contains x ks && test x)
unfolding contains keep
contains-keep test x [] = refl
contains-keep test x (k ∷ ks) = elim (Bool-cases (text_eq k x)) [
  | inl same ↦
      let e : k ≡ x = (text_eq_iff k x).0 same in
      ground (arith, contains-keep test x ks, ap test e, same)
  | inr other ↦ ground (arith, contains-keep test x ks, other)
]

contains-keys {ℓ} :
    {V : Type ℓ} (x : Text) (d : TextDict V) → contains x (keys d) ≡ found (get_at x d)
unfolding contains keys get_at
contains-keys x [] = refl
contains-keys x ((k, v) ∷ d) = ground (arith, contains-keys x d)

module _ (old : TextDict ChunkRow) (new : TextDict Chunk) (x : Text) where
  pub contains-gone :
      contains x (gone old new)
      ≡ (found (get_at x old) && not (same_text (get_at x old) (get_at x new)))
  unfolding gone
  contains-gone =
      contains-keep _ x (sorted (keys old))
      ∙ ap (λ b. b && not (same_text (get_at x old) (get_at x new)))
          (contains-sorted x (keys old) ∙ contains-keys x old)

  pub contains-changed_ids :
      contains x (changed_ids old new)
      ≡ (found (get_at x new) && not (same_text (get_at x old) (get_at x new)))
  unfolding changed_ids
  contains-changed_ids =
      contains-keep _ x (sorted (keys new))
      ∙ ap (λ b. b && not (same_text (get_at x old) (get_at x new)))
          (contains-sorted x (keys new) ∙ contains-keys x new)
