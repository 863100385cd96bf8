-- ===== src/Repo/Tree/Prefix.antt =====
-- The prefixes of a path that `_folders` makes are the path and what stands before a slash of it.
use re_git.Base.{
  ℕ, zero, suc, ◌+◌, ◌≤◌, ◌<◌, ◌≡◌, refl, sym, ap, ◌∙◌, ◌⊎◌, inl, inr, true, Bool-cases, Text,
  text_eq, text_eq_iff, List, [], ◌∷◌, ◌++◌, append_assoc, append-nil, length, length-append, take,
  join, ◌==◌, ==_iff, arith,
}
use re_git.Store.Graph.{contains}
use re_git.Repo.Paths.{onto_first, split_slash}
use re_git.Repo.Tree.{prefixes_from, prefixes}

-- A slash of `p` follows `q`.
abbrev pub IsAbove : Text → Text → Type 0
IsAbove q p = (rest : Text) × (p ≡ q ++ 47 ∷ rest)

pub IsAbove-trans : (q x p : Text) → IsAbove q x → IsAbove x p → IsAbove q p
IsAbove-trans q x p (r, e) (s, f) =
    (r ++ 47 ∷ s, f ∙ ap (λ y. y ++ 47 ∷ s) e ∙ append_assoc q (47 ∷ r) (47 ∷ s))

split_slash-nonempty : (s : Text) → (h : Text) × (t : List Text) × (split_slash s ≡ h ∷ t)
unfolding split_slash onto_first
split_slash-nonempty [] = ([], [], refl)
split_slash-nonempty (c ∷ s) = elim (Bool-cases (c == 47)) [
  | inl e ↦ ([], split_slash s, rw e refl)
  | inr e ↦ let (h, t, r) = split_slash-nonempty s in (c ∷ h, t, rw (e, r) refl)
]

onto_first-append :
    (c : ℕ) (s : Text) (more : List Text)
    → onto_first c (split_slash s ++ more) ≡ onto_first c (split_slash s) ++ more
unfolding onto_first
onto_first-append c s more = let (h, t, r) = split_slash-nonempty s in rw r refl

split_slash-append : (q r : Text) → split_slash (q ++ 47 ∷ r) ≡ split_slash q ++ split_slash r
unfolding split_slash
split_slash-append [] r = refl
split_slash-append (c ∷ q) r =
    ground (arith, split_slash-append q r, onto_first-append c q (split_slash r))

join-onto_first :
    (c : ℕ) (parts : List Text) → join (47 ∷ []) (onto_first c parts) ≡ c ∷ join (47 ∷ []) parts
unfolding join onto_first
join-onto_first c [] = refl
join-onto_first c (p ∷ []) = refl
join-onto_first c (p ∷ q ∷ parts) = refl

join-split_slash : (s : Text) → join (47 ∷ []) (split_slash s) ≡ s
unfolding split_slash join
join-split_slash [] = refl
join-split_slash (c ∷ s) = elim (Bool-cases (c == 47)) [
  | inl e ↦
      let (h, t, r) = split_slash-nonempty s in
      let slash : c ≡ 47 = (==_iff c 47).0 e in
      let ih : join (47 ∷ []) (h ∷ t) ≡ s = ap (join (47 ∷ [])) (sym r) ∙ join-split_slash s in
      rw (e, r) (ap (λ x. 47 ∷ x) ih ∙ ap (λ k. k ∷ s) (sym slash))
  | inr e ↦ rw e (join-onto_first c (split_slash s) ∙ ap (λ x. c ∷ x) (join-split_slash s))
]

take-append : (a b : List Text) → take (length a) (a ++ b) ≡ a
take-append [] [] = refl
take-append [] (x ∷ b) = refl
take-append (x ∷ a) b = ap (λ y. x ∷ y) (take-append a b)

contains-prefixes_from :
    (parts : List Text) (e depth left : ℕ)
    → depth ≤ e
    → e < depth + left
    → contains (join (47 ∷ []) (take e parts)) (prefixes_from parts depth left) ≡ true
unfolding prefixes_from contains
contains-prefixes_from parts e depth zero lo hi = ground arith
contains-prefixes_from parts e depth (suc left) lo hi = elim (Bool-cases (depth == e)) [
  | inl same ↦ ground (
    arith,
    (==_iff depth e).0 same,
    text_eq_iff (join (47 ∷ []) (take depth parts)) (join (47 ∷ []) (take e parts)),
  )
  | inr differ ↦ ground (arith, differ, contains-prefixes_from parts e (suc depth) left)
]

pub contains-prefixes_above : (q p : Text) → IsAbove q p → contains q (prefixes p) ≡ true
unfolding prefixes
contains-prefixes_above q p (r, e) =
    let (h, t, n) = split_slash-nonempty q in
    let qs = split_slash q in
    let whole : split_slash p ≡ qs ++ split_slash r = ap split_slash e ∙ split_slash-append q r in
    let size : length qs ≡ suc (length t) = ap length n in
    let found =
      contains-prefixes_from (qs ++ split_slash r) (length qs) 1 (length (qs ++ split_slash r))
        (omega arith) (omega (arith, length-append qs (split_slash r))) in
    let same : join (47 ∷ []) (take (length qs) (qs ++ split_slash r)) ≡ q =
      ap (join (47 ∷ [])) (take-append qs (split_slash r)) ∙ join-split_slash q in
    rw whole (rw same at found)

pub contains-prefixes_self : (p : Text) → contains p (prefixes p) ≡ true
unfolding prefixes
contains-prefixes_self p =
    let ps = split_slash p in
    let (h, t, n) = split_slash-nonempty p in
    let size : length ps ≡ suc (length t) = ap length n in
    let found = contains-prefixes_from ps (length ps) 1 (length ps) (omega arith) (omega arith) in
    let all : take (length ps) ps ≡ ps =
      ap (take (length ps)) (sym (append-nil ps)) ∙ take-append ps [] in
    let same : join (47 ∷ []) (take (length ps) ps) ≡ p =
      ap (join (47 ∷ [])) all ∙ join-split_slash p in
    rw same at found

of_prefixes_from :
    (x : Text) (parts : List Text) (depth left : ℕ)
    → contains x (prefixes_from parts depth left) ≡ true
    → (e : ℕ) × (depth ≤ e) × (e < depth + left) × (x ≡ join (47 ∷ []) (take e parts))
unfolding prefixes_from contains
of_prefixes_from x parts depth zero h = cc
of_prefixes_from x parts depth (suc left) h =
    elim (Bool-cases (text_eq (join (47 ∷ []) (take depth parts)) x)) [
      | inl same ↦ (
        depth,
        omega arith,
        omega arith,
        sym ((text_eq_iff (join (47 ∷ []) (take depth parts)) x).0 same),
      )
      | inr differ ↦
          let (e, lo, hi, eq) =
            of_prefixes_from x parts (suc depth) left (ground (arith, h, differ)) in
          (e, omega arith, omega arith, eq)
    ]

join-take :
    (parts : List Text) (e : ℕ)
    → 1 ≤ e
    → e ≤ length parts
    → (join (47 ∷ []) parts ≡ join (47 ∷ []) (take e parts))
      ⊎ IsAbove (join (47 ∷ []) (take e parts)) (join (47 ∷ []) parts)
unfolding join
join-take [] e lo hi = ground arith
join-take (p ∷ parts) zero lo hi = ground arith
join-take (p ∷ []) (suc zero) lo hi = inl refl
join-take (p ∷ []) (suc (suc e)) lo hi = ground arith
join-take (p ∷ q ∷ parts) (suc zero) lo hi = inr (join (47 ∷ []) (q ∷ parts), refl)
join-take (p ∷ q ∷ parts) (suc (suc e)) lo hi =
    elim (join-take (q ∷ parts) (suc e) (omega arith) (omega arith)) [
      | inl same ↦ inl (ap (λ y. p ++ 47 ∷ y) same)
      | inr (r, eq) ↦ inr (
        r,
        ap (λ y. p ++ 47 ∷ y) eq
            ∙ sym (append_assoc p (47 ∷ join (47 ∷ []) (q ∷ take e parts)) (47 ∷ r)),
      )
    ]

pub of_prefixes : (x p : Text) → contains x (prefixes p) ≡ true → (p ≡ x) ⊎ IsAbove x p
unfolding prefixes
of_prefixes x p h =
    let ps = split_slash p in
    let (e, lo, hi, eq) = of_prefixes_from x ps 1 (length ps) h in
    elim (join-take ps e lo (omega arith)) [
      | inl same ↦ inl (sym (join-split_slash p) ∙ same ∙ sym eq)
      | inr (r, a) ↦ inr (r, sym (join-split_slash p) ∙ a ∙ ap (λ y. y ++ 47 ∷ r) (sym eq))
    ]
