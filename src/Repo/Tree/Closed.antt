-- ===== src/Repo/Tree/Closed.antt =====
-- The invariant of a tree: what stands above an entry is a folder, and no path is a folder and a
-- file.
use re_git.Base.{
  ◌≡◌, ◌↔◌, refl, sym, ap, ◌∙◌, ◌⊎◌, inl, inr, Bool, true, false, ◌||◌, Bool-cases, Text, text_eq,
  text_eq_iff, List, [], ◌∷◌, arith,
}
use re_git.Store.Monad.{ok}
use re_git.Store.Graph.{contains}
use re_git.Store.Graph.Edges.{contains-append}
use re_git.Repo.Tree.{Tree, has_file, prefixes, add_folder, add_folders, with_folders}
use re_git.Repo.Tree.Prefix.{
  IsAbove, IsAbove-trans, contains-prefixes_above, contains-prefixes_self, of_prefixes,
}

pub record IsTree (tree : Tree) : Type 0 where
  pub folders_closed :
      (p q : Text) → contains p tree.folders ≡ true → IsAbove q p → contains q tree.folders ≡ true
  pub files_closed :
      (p q : Text) → has_file p tree.files ≡ true → IsAbove q p → contains q tree.folders ≡ true
  pub apart : (p : Text) → contains p tree.folders ≡ true → has_file p tree.files ≡ false

contains-add_folder :
    (x folder : Text) (tree : Tree)
    → contains x (add_folder folder tree).folders ≡ (contains x tree.folders || text_eq folder x)
unfolding add_folder contains
contains-add_folder x folder tree =
    ground (arith, contains-append x tree.folders (folder ∷ []), text_eq_iff folder x)

files-add_folder : (folder : Text) (tree : Tree) → (add_folder folder tree).files ≡ tree.files
unfolding add_folder
files-add_folder folder tree = ground arith

-- What a success of the loop of `_folders` makes.
record Adds (added : List Text) (t u : Tree) : Type 0 where
  files : u.files ≡ t.files
  folders : (x : Text) → contains x u.folders ≡ (contains x t.folders || contains x added)
  free : (x : Text) → contains x added ≡ true → has_file x t.files ≡ false

either : (a b : Bool) → (a || b) ≡ true → (a ≡ true) ⊎ (b ≡ true)
either true b h = inl refl
either false b h = inr h

Adds-add_folders : (added : List Text) (t u : Tree) → add_folders added t ≡ ok u → Adds added t u
unfolding add_folders contains
Adds-add_folders [] t u h =
    let e : t ≡ u = cc in
    rw (sym e) (record { files = refl; folders = λ x. ground arith; free = λ x n. cc })
Adds-add_folders (f ∷ added) t u h = elim (Bool-cases (has_file f t.files)) [
  | inl taken ↦ cc (rw taken at h)
  | inr free ↦
      let a = Adds-add_folders added (add_folder f t) u (rw free at h) in
      record {
        files = a.files ∙ files-add_folder f t;
        folders = λ x. ground (arith, a.folders x, contains-add_folder x f t);
        free = λ x n. elim (either (text_eq f x) (contains x added) n) [
          | inl same ↦ rw (sym ((text_eq_iff f x).0 same)) free
          | inr later ↦ ap (has_file x) (sym (files-add_folder f t)) ∙ a.free x later
        ];
      }
]

-- What `_folders` adds to the folders of a tree.
of_added :
    (t u : Tree) (path x : Text)
    → contains x u.folders ≡ (contains x t.folders || contains x (prefixes path))
    → (contains x u.folders ≡ true)
      ↔ ((contains x t.folders ≡ true) ⊎ ((path ≡ x) ⊎ IsAbove x path))
of_added t u path x e = (
  λ h. elim (either (contains x t.folders) (contains x (prefixes path)) (sym e ∙ h)) [
    | inl old ↦ inl old
    | inr new ↦ inr (of_prefixes x path new)
  ],
  λ h. elim h [
    | inl old ↦ ground (arith, e, old)
    | inr (inl same) ↦
        let here : contains x (prefixes path) ≡ true =
          ap (λ y. contains y (prefixes path)) (sym same) ∙ contains-prefixes_self path in
        ground (arith, e, here)
    | inr (inr above) ↦ ground (arith, e, contains-prefixes_above x path above)
  ],
)

-- Where `_folders` succeeds on a tree, it leaves a tree, and the files stay as they are. A path is a
-- folder of it exactly if it was one before, is the path itself, or stands before a slash of the path.
pub with_folders-IsTree :
    (t u : Tree) (path : Text)
    → IsTree t
    → with_folders t path ≡ ok u
    → IsTree u
      × (u.files ≡ t.files)
      × ((x : Text)
          → (contains x u.folders ≡ true)
            ↔ ((contains x t.folders ≡ true) ⊎ ((path ≡ x) ⊎ IsAbove x path)))
unfolding with_folders
with_folders-IsTree t u path v h =
    let a = Adds-add_folders (prefixes path) t u h in
    (
      record {
        folders_closed = λ p q n above.
            elim (either (contains p t.folders) (contains p (prefixes path))
              (sym (a.folders p) ∙ n)) [
                | inl old ↦ ground (arith, a.folders q, v.folders_closed p q old above)
                | inr new ↦
                    let up : IsAbove q path = elim (of_prefixes p path new) [
                      | inl e ↦ rw e above
                      | inr more ↦ IsAbove-trans q p path above more
                    ] in
                    ground (arith, a.folders q, contains-prefixes_above q path up)
              ];
        files_closed = λ p q n above.
            ground
              (arith, a.folders q, v.files_closed p q (ap (has_file p) (sym a.files) ∙ n) above);
        apart = λ p n.
            elim (either (contains p t.folders) (contains p (prefixes path))
              (sym (a.folders p) ∙ n)) [
                | inl old ↦ ap (has_file p) a.files ∙ v.apart p old
                | inr new ↦ ap (has_file p) a.files ∙ a.free p new
              ];
      },
      a.files,
      λ x. of_added t u path x (a.folders x),
    )
