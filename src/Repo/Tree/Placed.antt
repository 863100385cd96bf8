-- ===== src/Repo/Tree/Placed.antt =====
-- `upload` puts a file under folders that it makes.
use re_git.Base.{
  ℕ, ◌≡◌, refl, sym, ap, ◌⊎◌, inl, inr, true, false, ◌||◌, Bool-cases, none, some, Option-cases,
  Text, text_eq, text_eq_iff, List, [], ◌∷◌, length, length-append, ◌==◌, ==_iff, arith,
  if◌then◌else◌,
}
use re_git.Store.Monad.{ok}
use re_git.Store.Graph.{contains}
use re_git.Repo.Tree.{
  Tree, FileEntry, has_file, put_file, before_last_slash, with_folders, with_parents, make_room,
  place,
}
use re_git.Repo.Tree.Prefix.{IsAbove}
use re_git.Repo.Tree.Closed.{IsTree, with_folders-IsTree}

has_file-put_file :
    (p x : Text) (f : FileEntry) (files : List (Text × FileEntry))
    → has_file x (put_file p f files) ≡ (text_eq p x || has_file x files)
unfolding put_file has_file
has_file-put_file p x f [] = refl
has_file-put_file p x f ((k, g) ∷ files) =
    ground (arith, has_file-put_file p x f files, text_eq_iff k p, text_eq_iff k x, text_eq_iff p x)

-- A folder that stands above a path stands above its last slash, or is what that slash follows.
above-none : (p q : Text) → before_last_slash p ≡ none → IsAbove q p → ⊥
unfolding before_last_slash
above-none [] [] h (r, e) = cc
above-none [] (d ∷ q) h (r, e) = cc
above-none (c ∷ p) [] h (r, e) = ground (arith, h, Option-cases (before_last_slash p), ==_iff c 47)
above-none (c ∷ p) (d ∷ q) h (r, e) = above-none p q (ground (arith, h)) (r, cc)

slash_of : (c : ℕ) {d : Text} → (if c == 47 then some [] else none) ≡ some d → (c ≡ 47) × (d ≡ [])
slash_of c h = ground (arith, ==_iff c 47)

IsAbove-some : (p d q : Text) → before_last_slash p ≡ some d → IsAbove q p → (q ≡ d) ⊎ IsAbove q d
unfolding before_last_slash
IsAbove-some [] d q h (r, e) = cc
IsAbove-some (c ∷ p) d [] h (r, e) = elim (Option-cases (before_last_slash p)) [
  | inl last ↦ let (slash, empty) = slash_of c (rw last at h) in inl (sym empty)
  | inr (d', at) ↦ let same : some (c ∷ d') ≡ some d = rw at at h in inr (d', cc)
]
IsAbove-some (c ∷ p) d (x ∷ q) h (r, e) = elim (Option-cases (before_last_slash p)) [
  | inl last ↦ absurd (above-none p q last (r, cc))
  | inr (d', at) ↦
      let same : some (c ∷ d') ≡ some d = rw at at h in
      elim (IsAbove-some p d' q at (r, cc)) [ inl eq ↦ inl (cc) | inr (r', eq) ↦ inr (r', cc) ]
]

before_last_slash-IsAbove : (p d : Text) → before_last_slash p ≡ some d → IsAbove d p
unfolding before_last_slash
before_last_slash-IsAbove [] d h = cc
before_last_slash-IsAbove (c ∷ p) d h = elim (Option-cases (before_last_slash p)) [
  | inl last ↦ let (slash, empty) = slash_of c (rw last at h) in rw (slash, empty) (p, refl)
  | inr (d', at) ↦
      let same : some (c ∷ d') ≡ some d = rw at at h in
      let (r, eq) = before_last_slash-IsAbove p d' at in
      let e : d ≡ c ∷ d' = cc in rw e (r, ap (λ y. c ∷ y) eq)
]

not_above_self : (p d : Text) → IsAbove d p → (d ≡ p) ⊎ IsAbove p d → ⊥
not_above_self p d (r, e) (inl same) =
    omega (arith, ap length e, ap length same, length-append d (47 ∷ r))
not_above_self p d (r, e) (inr (s, f)) =
    omega (arith, ap length e, ap length f, length-append d (47 ∷ r), length-append p (47 ∷ s))

-- The folders above a path are there, and the path is none of them.
record HasRoom (t u : Tree) (path : Text) : Type 0 where
  tree : IsTree u
  above : (q : Text) → IsAbove q path → contains q u.folders ≡ true
  free : contains path u.folders ≡ false
  files : u.files ≡ t.files

with_parents-HasRoom :
    (t u : Tree) (path : Text)
    → IsTree t
    → contains path t.folders ≡ false
    → with_parents t path ≡ ok u
    → HasRoom t u path
unfolding with_parents
with_parents-HasRoom t u path v free h = elim (Option-cases (before_last_slash path)) [
  | inl top ↦
      let same : ok t ≡ ok u = rw (with_parents, top) at h in
      let e : t ≡ u = cc in
      rw (sym e) (record {
        tree = v;
        above = λ q a. absurd (above-none path q top a);
        free = free;
        files = refl;
      })
  | inr (d, at) ↦
      let made : with_folders t d ≡ ok u = rw (with_parents, at) at h in
      let (w, files, folders) = with_folders-IsTree t u d v made in
      let is_folder = (folders d).1 (inr (inl refl)) in
      record {
        tree = w;
        above = λ q a. elim (IsAbove-some path d q at a) [
          | inl e ↦ rw e is_folder
          | inr higher ↦ w.folders_closed d q is_folder higher
        ];
        free = elim (Bool-cases (contains path u.folders)) [
          | inr good ↦ good
          | inl bad ↦ elim ((folders path).0 bad) [
            | inl old ↦ cc
            | inr new ↦ absurd (not_above_self path d (before_last_slash-IsAbove path d at) new)
          ]
        ];
        files = files;
      }
]

-- Where `upload` finds room for a file, a tree with the file is a tree: its folders are there, none
-- of them is a file, and the path is no folder.
pub place-IsTree :
    (t u : Tree) (path : Text) (entry : FileEntry)
    → IsTree t
    → make_room t path ≡ ok u
    → IsTree (place u path entry)
unfolding make_room place
place-IsTree t u path entry v h = elim (Bool-cases (contains path t.folders)) [
  | inl taken ↦ cc (rw taken at h)
  | inr free ↦
      let room = with_parents-HasRoom t u path v free (rw free at h) in
      record {
        folders_closed = room.tree.folders_closed;
        files_closed = λ p q n above. elim (Bool-cases (text_eq path p)) [
          | inl same ↦
              let e = (text_eq_iff path p).0 same in
              let here : IsAbove q path = rw e above in room.above q here
          | inr other ↦
              room.tree.files_closed p q
                (ground (arith, n, other, has_file-put_file path p entry u.files)) above
        ];
        apart = λ p n. elim (Bool-cases (text_eq path p)) [
          | inl same ↦ cc (room.free, n, (text_eq_iff path p).0 same)
          | inr other ↦
              ground (arith, other, has_file-put_file path p entry u.files, room.tree.apart p n)
        ];
      }
]
