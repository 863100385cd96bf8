-- ===== src/Merge/Prose/Exact.antt =====
-- When a merge reports a conflict, and where.
use native.Mathlib.Decide.{ℕ_discrete}
use mathlib.Core.Path.{subst}
use re_git.Base.{
  ℕ, zero, suc, ◌+◌, ◌<◌, ◌≤◌, ◌≡◌, ◌≢◌, ◌↔◌, refl, Text, text_eq_iff, List, [], ◌∷◌, ◌++◌, arith,
  length, get_or,
}
use re_git.Diff.Align.{TextLib}
use re_git.Diff.Prose.{Located, texts}
use re_git.Merge.Sides.{SideChange, equal, edit, delete, Side, side_ops, change_at, inserts_at}
use re_git.Merge.Prose.{
  Conflict, insert_step, sentence_step, merge_loop, merge_output, located, clean, state_of,
  merge_prose,
}

-- Both sides insert before one base sentence.
abbrev pub BothInsert : List ℕ → List ℕ → Type 0
BothInsert o t = (o ≢ []) × (t ≢ [])

module _ (ours_sents theirs_sents : List Text) where
  -- The two sides change one base sentence and do not agree: two different texts, or a text
  -- against a deletion.
  abbrev pub Diverges : SideChange → SideChange → Type 0
  Diverges (edit i) (edit j) = get_or ours_sents i [] ≢ get_or theirs_sents j []
  Diverges (edit i) delete = Unit
  Diverges delete (edit j) = Unit
  Diverges _ _ = ⊥

module _ (ours_sents theirs_sents : List Text) (ours theirs : Side) where
  -- From base sentence `a` on, over `left` sentences: nowhere do both sides insert, and on no
  -- sentence do they diverge.
  pub record IsSettled (a left : ℕ) : Type 0 where
    pub inserts :
        (k : ℕ) → a ≤ k → k ≤ a + left → ¬ BothInsert (inserts_at ours k) (inserts_at theirs k)
    pub changes :
        (k : ℕ)
        → a ≤ k
        → k < a + left
        → ¬ Diverges ours_sents theirs_sents (change_at ours k) (change_at theirs k)

append-eq-nil {ℓ} : {A : Type ℓ} (xs ys : List A) → xs ++ ys ≡ [] → (xs ≡ []) × (ys ≡ [])
append-eq-nil [] ys e = (refl, e)
append-eq-nil (x ∷ xs) ys e = cc

module _ (base_flat : List Located) (ours_sents theirs_sents : List Text) where
  quiet_of_insert_step :
      (a : ℕ) (o t : List ℕ)
      → (insert_step base_flat ours_sents theirs_sents a o t).conflicts ≡ []
      → ¬ BothInsert o t
  unfolding insert_step
  quiet_of_insert_step a [] t e b = b.0 refl
  quiet_of_insert_step a (i ∷ o) [] e b = b.1 refl
  quiet_of_insert_step a (i ∷ o) (j ∷ t) e b = cc

  insert_step_of_quiet :
      (a : ℕ) (o t : List ℕ)
      → ¬ BothInsert o t
      → (insert_step base_flat ours_sents theirs_sents a o t).conflicts ≡ []
  unfolding insert_step
  insert_step_of_quiet a [] t n = refl
  insert_step_of_quiet a (i ∷ o) [] n = refl
  insert_step_of_quiet a (i ∷ o) (j ∷ t) n = absurd (n ((λ e. cc), (λ e. cc)))

  agree_of_sentence_step :
      (a : ℕ) (c d : SideChange)
      → (sentence_step base_flat ours_sents theirs_sents a c d).conflicts ≡ []
      → ¬ Diverges ours_sents theirs_sents c d
  unfolding sentence_step
  agree_of_sentence_step a (edit i) (edit j) e n =
      ground (arith, (text_eq_iff (get_or ours_sents i []) (get_or theirs_sents j [])).0)
  agree_of_sentence_step a (edit i) delete e n = cc
  agree_of_sentence_step a delete (edit j) e n = cc
  agree_of_sentence_step a (equal i) (equal j) e n = n
  agree_of_sentence_step a (equal i) (edit j) e n = n
  agree_of_sentence_step a (equal i) delete e n = n
  agree_of_sentence_step a (edit i) (equal j) e n = n
  agree_of_sentence_step a delete (equal j) e n = n
  agree_of_sentence_step a delete delete e n = n

  sentence_step_of_agree :
      (a : ℕ) (c d : SideChange)
      → ¬ Diverges ours_sents theirs_sents c d
      → (sentence_step base_flat ours_sents theirs_sents a c d).conflicts ≡ []
  unfolding sentence_step
  sentence_step_of_agree a (edit i) (edit j) n =
      ground (arith, (text_eq_iff (get_or ours_sents i []) (get_or theirs_sents j [])).1)
  sentence_step_of_agree a (edit i) delete n = absurd (n tt)
  sentence_step_of_agree a delete (edit j) n = absurd (n tt)
  sentence_step_of_agree a (equal i) (equal j) n = refl
  sentence_step_of_agree a (equal i) (edit j) n = refl
  sentence_step_of_agree a (equal i) delete n = refl
  sentence_step_of_agree a (edit i) (equal j) n = refl
  sentence_step_of_agree a delete (equal j) n = refl
  sentence_step_of_agree a delete delete n = refl

  module _ (ours theirs : Side) where
    IsSettled-of_loop :
        (a left : ℕ)
        → (merge_loop base_flat ours_sents theirs_sents ours theirs a left).conflicts ≡ []
        → IsSettled ours_sents theirs_sents ours theirs a left
    unfolding merge_loop
    IsSettled-of_loop a zero e = record {
      inserts = λ k lo hi.
          let here : a ≡ k = omega arith in
          subst (λ m. ¬ BothInsert (inserts_at ours m) (inserts_at theirs m)) here
            (quiet_of_insert_step a (inserts_at ours a) (inserts_at theirs a) e);
      changes = λ k lo hi. absurd (omega arith);
    }
    IsSettled-of_loop a (suc left) e =
        let first =
          (insert_step base_flat ours_sents theirs_sents a (inserts_at ours a)
            (inserts_at theirs a)).conflicts in
        let second =
          (sentence_step base_flat ours_sents theirs_sents a (change_at ours a)
            (change_at theirs a)).conflicts in
        let others =
          (merge_loop base_flat ours_sents theirs_sents ours theirs (suc a) left).conflicts in
        let (e₁, e₂) = append-eq-nil first (second ++ others) e in
        let (e₃, e₄) = append-eq-nil second others e₂ in
        let rest = IsSettled-of_loop (suc a) left e₄ in
        record {
          inserts = λ k lo hi. elim (ℕ_discrete a k) [
            | yes here ↦
                subst (λ m. ¬ BothInsert (inserts_at ours m) (inserts_at theirs m)) here
                  (quiet_of_insert_step a (inserts_at ours a) (inserts_at theirs a) e₁)
            | no there ↦ rest.inserts k (omega arith) (omega arith)
          ];
          changes = λ k lo hi. elim (ℕ_discrete a k) [
            | yes here ↦
                subst
                  (λ m. ¬ Diverges ours_sents theirs_sents (change_at ours m) (change_at theirs m))
                  here (agree_of_sentence_step a (change_at ours a) (change_at theirs a) e₃)
            | no there ↦ rest.changes k (omega arith) (omega arith)
          ];
        }

    loop_of_settled :
        (a left : ℕ)
        → IsSettled ours_sents theirs_sents ours theirs a left
        → (merge_loop base_flat ours_sents theirs_sents ours theirs a left).conflicts ≡ []
    unfolding merge_loop
    loop_of_settled a zero s =
        insert_step_of_quiet a (inserts_at ours a) (inserts_at theirs a)
          (s.inserts a (omega arith) (omega arith))
    loop_of_settled a (suc left) s = rw (
      insert_step_of_quiet a (inserts_at ours a) (inserts_at theirs a)
          (s.inserts a (omega arith) (omega arith)),
      sentence_step_of_agree a (change_at ours a) (change_at theirs a)
          (s.changes a (omega arith) (omega arith)),
      loop_of_settled (suc a) left (record {
        inserts = λ k lo hi. s.inserts k (omega arith) (omega arith);
        changes = λ k lo hi. s.changes k (omega arith) (omega arith);
      }),
    )

-- The condition for the merge of three documents.
abbrev pub MergesCleanly : TextLib → Text → Text → Text → Type 0
MergesCleanly lib base ours theirs =
    IsSettled (texts (located ours)) (texts (located theirs))
      (side_ops lib (texts (located base)) (texts (located ours)))
      (side_ops lib (texts (located base)) (texts (located theirs))) 0 (length (located base))

state-clean : (conflicts : List Conflict) → (state_of conflicts ≡ clean) ↔ (conflicts ≡ [])
unfolding state_of
state-clean [] = (λ e. refl, λ e. refl)
state-clean (c ∷ conflicts) = (λ e. cc, λ e. cc)

-- The state of a merge is "clean" exactly when nowhere do both sides insert before one base
-- sentence (or at the end), and on no base sentence do they diverge: edit it to two different texts,
-- or one edits what the other deletes.
pub merge_prose-clean_iff :
    (lib : TextLib) (base ours theirs : Text)
    → ((merge_prose lib base ours theirs).state ≡ clean) ↔ MergesCleanly lib base ours theirs
unfolding merge_prose merge_output
merge_prose-clean_iff lib base ours theirs =
    let b = located base in
    let o = texts (located ours) in
    let t = texts (located theirs) in
    let so = side_ops lib (texts b) o in
    let st = side_ops lib (texts b) t in
    let found = (merge_loop b o t so st 0 (length b)).conflicts in
    (
      λ e. IsSettled-of_loop b o t so st 0 (length b) ((state-clean found).0 e),
      λ s. (state-clean found).1 (loop_of_settled b o t so st 0 (length b) s),
    )
