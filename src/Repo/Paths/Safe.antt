-- ===== src/Repo/Paths/Safe.antt =====
-- The paths that `normalize_path` returns cannot leave the tree.
use re_git.Base.{
  ℕ, ◌≤◌, ◌≡◌, ◌≢◌, refl, Bool, true, false, ◌&&◌, ◌||◌, some, Bool-cases, inl, inr, Text,
  text_eq_iff, codes, List, [], ◌∷◌, ltb, ◌==◌, mem, length, is_empty, strip, join, arith, All,
}
use re_git.Repo.Paths.{
  any, with_slashes, onto_first, split_slash, is_blank_part, keep_parts, starts_with_slash,
  has_drive, is_bad_part, is_long_part, checked, normalize_path,
}

-- A part names one entry of a folder: it is not empty, it is neither "." nor "..", and it has no
-- slash, no control character, and at most 255 characters.
pub record IsSafe (part : Text) : Type 0 where
  pub nonempty : part ≢ []
  pub not_here : part ≢ codes "."
  pub not_up : part ≢ codes ".."
  pub no_slash : mem 47 part ≡ false
  pub no_control : any (λ c. ltb c 32) part ≡ false
  pub short : length part ≤ 255

NoSlash-onto_first :
    (c : ℕ) (pieces : List Text)
    → (47 == c) ≡ false
    → All (λ p. mem 47 p ≡ false) pieces
    → All (λ p. mem 47 p ≡ false) (onto_first c pieces)
unfolding onto_first
NoSlash-onto_first c [] h a = (ground (arith, h), tt)
NoSlash-onto_first c (p ∷ pieces) h a = (ground (arith, h, a.0), a.1)

NoSlash-split_slash : (s : Text) → All (λ p. mem 47 p ≡ false) (split_slash s)
unfolding split_slash
NoSlash-split_slash [] = (refl, tt)
NoSlash-split_slash (c ∷ s) = elim (Bool-cases (c == 47)) [
  | inl e ↦ rw e (refl, NoSlash-split_slash s)
  | inr e ↦ rw e (NoSlash-onto_first c (split_slash s) (ground (arith, e)) (NoSlash-split_slash s))
]

nonempty_of : (p : Text) → is_blank_part p ≡ false → p ≢ []
unfolding is_blank_part
nonempty_of [] b e = cc
nonempty_of (c ∷ p) b e = cc

neither : (a b : Bool) → (a || b) ≡ false → (a ≡ false) × (b ≡ false)
neither false b h = (refl, h)
neither true b h = cc

IsSafe-part :
    (p : Text)
    → mem 47 p ≡ false
    → is_blank_part p ≡ false
    → is_bad_part p ≡ false
    → is_long_part p ≡ false
    → IsSafe p
unfolding is_blank_part is_bad_part is_long_part
IsSafe-part p s b d l = record {
  nonempty = nonempty_of p b;
  not_here = λ e. ground (arith, b, (text_eq_iff p (codes ".")).1 e);
  not_up = λ e. ground (arith, d, (text_eq_iff p (codes "..")).1 e);
  no_slash = s;
  no_control = ground (arith, d);
  short = ground (arith, l);
}

IsSafe-parts :
    (pieces : List Text)
    → All (λ p. mem 47 p ≡ false) pieces
    → any is_bad_part (keep_parts pieces) ≡ false
    → any is_long_part (keep_parts pieces) ≡ false
    → All IsSafe (keep_parts pieces)
unfolding keep_parts any
IsSafe-parts [] s d l = tt
IsSafe-parts (p ∷ pieces) s d l = elim (Bool-cases (is_blank_part p)) [
  | inl e ↦ rw e (IsSafe-parts pieces s.1 (rw e at d) (rw e at l))
  | inr e ↦
      let bad = neither (is_bad_part p) (any is_bad_part (keep_parts pieces)) (rw e at d) in
      let long = neither (is_long_part p) (any is_long_part (keep_parts pieces)) (rw e at l) in
      rw e (IsSafe-part p s.0 e bad.0 long.0, IsSafe-parts pieces s.1 bad.1 long.1)
]

abbrev Parts : Text → Type 0
Parts p = (parts : List Text) × (parts ≢ []) × (p ≡ join (47 ∷ []) parts) × All IsSafe parts

nonempty_parts : (parts : List Text) → is_empty parts ≡ false → parts ≢ []
nonempty_parts [] h e = cc
nonempty_parts (q ∷ parts) h e = cc

checked-IsSafe :
    (value : Text) (pieces : List Text) (p : Text)
    → All (λ q. mem 47 q ≡ false) pieces
    → checked value (keep_parts pieces) ≡ some p
    → Parts p
unfolding checked
checked-IsSafe value pieces p s h =
    let parts = keep_parts pieces in
    let wrong =
      is_empty parts || (starts_with_slash value || (has_drive parts || any is_bad_part parts)) in
    let long = ltb 1024 (length value) || any is_long_part parts in
    elim (Bool-cases wrong) [
      | inl w ↦ cc (rw w at h)
      | inr w ↦ elim (Bool-cases long) [
        | inl l ↦ cc (rw (w, l) at h)
        | inr l ↦
            let e : some (join (47 ∷ []) parts) ≡ some p = rw (w, l) at h in
            let empty : is_empty parts ≡ false = ground (arith, w) in
            let bad : any is_bad_part parts ≡ false = ground (arith, w) in
            let long_part : any is_long_part parts ≡ false = ground (arith, l) in
            (parts, nonempty_parts parts empty, cc, IsSafe-parts pieces s bad long_part)
      ]
    ]

-- A path that `normalize_path` returns for a caller that does not allow the root is relative: one
-- or more parts joined by slashes, each of which names one entry of a folder.
pub normalize_path-IsSafe :
    (path p : Text)
    → normalize_path path false ≡ some p
    → (parts : List Text) × (parts ≢ []) × (p ≡ join (47 ∷ []) parts) × All IsSafe parts
unfolding normalize_path
normalize_path-IsSafe path p h =
    let value = strip (with_slashes path) in
    let no_root : (is_empty value && false) ≡ false = ground arith in
    checked-IsSafe value (split_slash value) p (NoSlash-split_slash value) (rw no_root at h)
