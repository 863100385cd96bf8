-- ===== src/Repo/Tree/Without.antt =====
-- What `delete_entry` removes from a tree, and that a tree is left.
use re_git.Base.{
  ◌≡◌, ◌↔◌, ◌⊎◌, ◌==◌, refl, sym, ap, ◌∙◌, Bool, true, false, ◌&&◌, not, Bool-cases, inl, inr, none,
  Text, text_eq, text_eq_iff, List, [], ◌∷◌, ◌++◌, append_assoc, ==_iff, arith, if◌then◌else◌,
}
use re_git.Store.Graph.{contains}
use re_git.Repo.Tree.{
  Tree, FileEntry, file_at, has_file, starts_with, is_at_or_under, drop_folders, drop_files,
  without,
}
use re_git.Repo.Tree.Prefix.{IsAbove}
use re_git.Repo.Tree.Closed.{IsTree}

starts_with-append : (p r : Text) → starts_with (p ++ r) p ≡ true
unfolding starts_with
starts_with-append [] r = refl
starts_with-append (c ∷ p) r = ground (arith, starts_with-append p r, ==_iff c c)

starts_with_further : (s pre r : Text) → starts_with s pre ≡ true → starts_with (s ++ r) pre ≡ true
unfolding starts_with
starts_with_further s [] r h = refl
starts_with_further [] (c ∷ pre) r h = cc
starts_with_further (d ∷ s) (c ∷ pre) r h = ground (arith, h, starts_with_further s pre r)

-- What stands under an entry that goes, goes.
at_or_under-IsAbove :
    (d q p : Text) → is_at_or_under d q ≡ true → IsAbove q p → is_at_or_under d p ≡ true
unfolding is_at_or_under
at_or_under-IsAbove d q p h (r, e) = elim (Bool-cases (text_eq q d)) [
  | inl same ↦
      let here : p ≡ (d ++ 47 ∷ []) ++ r =
        e ∙ ap (λ y. y ++ 47 ∷ r) ((text_eq_iff q d).0 same) ∙ sym (append_assoc d (47 ∷ []) r) in
      rw here (ground (arith, starts_with-append (d ++ 47 ∷ []) r))
  | inr differ ↦
      let below : starts_with q (d ++ 47 ∷ []) ≡ true = ground (arith, h, differ) in
      rw e (ground (arith, starts_with_further q (d ++ 47 ∷ []) (47 ∷ r) below))
]

contains-drop_folders :
    (d x : Text) (folders : List Text)
    → contains x (drop_folders d folders) ≡ (contains x folders && not (is_at_or_under d x))
unfolding drop_folders contains
contains-drop_folders d x [] = refl
contains-drop_folders d x (key ∷ folders) =
    ground (arith, contains-drop_folders d x folders, text_eq_iff key x)

has_file-drop_files :
    (d x : Text) (files : List (Text × FileEntry))
    → has_file x (drop_files d files) ≡ (has_file x files && not (is_at_or_under d x))
unfolding drop_files has_file
has_file-drop_files d x [] = refl
has_file-drop_files d x ((key, f) ∷ files) =
    ground (arith, has_file-drop_files d x files, text_eq_iff key x)

file_at-drop_files :
    (d x : Text) (files : List (Text × FileEntry))
    → file_at x (drop_files d files) ≡ (if is_at_or_under d x then none else file_at x files)
unfolding drop_files file_at
file_at-drop_files d x [] = ground arith
file_at-drop_files d x ((key, f) ∷ files) =
    ground (arith, file_at-drop_files d x files, text_eq_iff key x)

kept :
    (d p q : Text) (folders : List Text)
    → contains q folders ≡ true
    → is_at_or_under d p ≡ false
    → IsAbove q p
    → contains q (drop_folders d folders) ≡ true
kept d p q folders old stays above = elim (Bool-cases (is_at_or_under d q)) [
  | inl goes ↦ cc (at_or_under-IsAbove d q p goes above)
  | inr q_stays ↦ ground (arith, contains-drop_folders d q folders)
]

-- The path itself or a path under it.
abbrev pub IsWithin : Text → Text → Type 0
IsWithin path x = (x ≡ path) ⊎ IsAbove path x

starts_with-rest : (s p : Text) → starts_with s p ≡ true → (r : Text) × (s ≡ p ++ r)
unfolding starts_with
starts_with-rest s [] h = (s, refl)
starts_with-rest [] (c ∷ p) h = cc h
starts_with-rest (d ∷ s) (c ∷ p) h = elim (Bool-cases (d == c)) [
  | inr differ ↦ cc (rw differ at h)
  | inl same ↦
      let (r, e) = starts_with-rest s p (rw same at h) in
      (r, ap (λ y. d ∷ y) e ∙ ap (λ k. k ∷ p ++ r) ((==_iff d c).0 same))
]

at_or_under-IsWithin : (path x : Text) → is_at_or_under path x ≡ true → IsWithin path x
unfolding is_at_or_under
at_or_under-IsWithin path x h = elim (Bool-cases (text_eq x path)) [
  | inl same ↦ inl ((text_eq_iff x path).0 same)
  | inr differ ↦
      let (r, e) = starts_with-rest x (path ++ 47 ∷ []) (rw differ at h) in
      inr (r, e ∙ append_assoc path (47 ∷ []) r)
]

IsWithin-at_or_under : (path x : Text) → IsWithin path x → is_at_or_under path x ≡ true
unfolding is_at_or_under
IsWithin-at_or_under path x (inl e) = ground (arith, (text_eq_iff x path).1 e)
IsWithin-at_or_under path x (inr (r, e)) =
    let under : starts_with x (path ++ 47 ∷ []) ≡ true =
      ap (λ y. starts_with y (path ++ 47 ∷ [])) (e ∙ sym (append_assoc path (47 ∷ []) r))
      ∙ starts_with-append (path ++ 47 ∷ []) r in
    ground (arith, under)

outside : (path x : Text) → ¬ IsWithin path x → is_at_or_under path x ≡ false
outside path x h = elim (Bool-cases (is_at_or_under path x)) [
  | inl within ↦ absurd (h (at_or_under-IsWithin path x within))
  | inr e ↦ e
]

outside_only : (a b : Bool) → (a && not b) ≡ true → b ≡ true → ⊥
outside_only a b h e = ground (arith, h, e)

-- Deleting a path leaves a tree. A folder is in it exactly if it was before and is neither the path
-- nor under it (its text does not go on with a slash after the path), there is no file at the path or
-- under it, and the file at any other path is the one before.
pub without-IsTree :
    (t : Tree) (path : Text)
    → IsTree t
    → IsTree (without t path)
      × ((x : Text)
          → (contains x (without t path).folders ≡ true)
            ↔ ((contains x t.folders ≡ true) × ¬ IsWithin path x))
      × ((x : Text) → IsWithin path x → file_at x (without t path).files ≡ none)
      × ((x : Text) → ¬ IsWithin path x → file_at x (without t path).files ≡ file_at x t.files)
unfolding without
without-IsTree t d v = (
  record {
    folders_closed = λ p q n above.
        let was = sym (contains-drop_folders d p t.folders) ∙ n in
        kept d p q t.folders (v.folders_closed p q (ground (arith, was)) above)
          (ground (arith, was)) above;
    files_closed = λ p q n above.
        let was = sym (has_file-drop_files d p t.files) ∙ n in
        kept d p q t.folders (v.files_closed p q (ground (arith, was)) above) (ground (arith, was))
          above;
    apart = λ p n.
        ground (
          arith,
          n,
          contains-drop_folders d p t.folders,
          has_file-drop_files d p t.files,
          v.apart p,
        );
  },
  λ x. (
    λ n.
        let was = sym (contains-drop_folders d x t.folders) ∙ n in
        (
          ground (arith, was),
          λ within.
              outside_only (contains x t.folders) (is_at_or_under d x) was
                (IsWithin-at_or_under d x within),
        ),
    λ h. ground (arith, contains-drop_folders d x t.folders, h.0, outside d x h.1),
  ),
  λ x within.
      file_at-drop_files d x t.files
      ∙ ap (λ b. if b then none else file_at x t.files) (IsWithin-at_or_under d x within),
  λ x free.
      file_at-drop_files d x t.files
      ∙ ap (λ b. if b then none else file_at x t.files) (outside d x free),
)
