-- ===== src/Base/Lists.antt =====
-- Lists measured and indexed by native numbers, under the library's names.
use Prim.Native.Nat.{ℕ, zero, suc, ◌+◌, ◌-◌, ◌≤◌}
use mathlib.Core.Path.{◌≡◌, refl, ap, sym, ◌∙◌}
use mathlib.Core.List.{List, [], ◌∷◌, ◌++◌}
use mathlib.Core.Option.{Option, none, some}
use native.Mathlib.Omega.{arith}

module _ {ℓ} {A : Type ℓ} where
  abbrev pub length : List A → ℕ
  length [] = 0
  length (x ∷ xs) = suc (length xs)

  abbrev pub get_elem? : List A → ℕ → Option A
  get_elem? [] i = none
  get_elem? (x ∷ xs) zero = some x
  get_elem? (x ∷ xs) (suc i) = get_elem? xs i

  abbrev pub get_or : List A → ℕ → A → A
  get_or [] i d = d
  get_or (x ∷ xs) zero d = x
  get_or (x ∷ xs) (suc i) d = get_or xs i d

  abbrev pub replicate : ℕ → A → List A
  replicate zero a = []
  replicate (suc n) a = a ∷ replicate n a

  abbrev pub take : ℕ → List A → List A
  take zero xs = []
  take (suc n) [] = []
  take (suc n) (x ∷ xs) = x ∷ take n xs

  abbrev pub drop : ℕ → List A → List A
  drop zero xs = xs
  drop (suc n) [] = []
  drop (suc n) (x ∷ xs) = drop n xs

  pub length-append : (xs ys : List A) → length (xs ++ ys) ≡ length xs + length ys
  length-append [] ys = omega arith
  length-append (x ∷ xs) ys = omega (arith, length-append xs ys)

  pub take-append-drop : (n : ℕ) (xs : List A) → take n xs ++ drop n xs ≡ xs
  take-append-drop zero xs = refl
  take-append-drop (suc n) [] = refl
  take-append-drop (suc n) (x ∷ xs) = ap (λ r. x ∷ r) (take-append-drop n xs)

  pub get_or-replicate : (n i : ℕ) (x : A) → get_or (replicate n x) i x ≡ x
  get_or-replicate zero i x = refl
  get_or-replicate (suc n) zero x = refl
  get_or-replicate (suc n) (suc i) x = get_or-replicate n i x

-- A predicate at every entry of a list.
abbrev pub All {ℓ κ} : {A : Type ℓ} → (A → Type κ) → List A → Type κ
All P [] = Unit
All P (x ∷ xs) = P x × All P xs

pub All-append {ℓ κ} :
    {A : Type ℓ} (P : A → Type κ) (xs ys : List A) → All P xs → All P ys → All P (xs ++ ys)
All-append P [] ys hx hy = hy
All-append P (x ∷ xs) ys hx hy = (hx.0, All-append P xs ys hx.1 hy)

-- range(start, start + n)
abbrev pub span : ℕ → ℕ → List ℕ
span start zero = []
span start (suc n) = start ∷ span (suc start) n

-- span extended at its end
pub span-suc :
    (start n : ℕ) (xs : List ℕ) → span start (suc n) ++ xs ≡ span start n ++ (start + n) ∷ xs
span-suc start zero xs = ap (λ k. k ∷ xs) (omega arith)
span-suc start (suc n) xs =
    let e : suc start + n ≡ start + suc n = omega arith in
    ap (λ r. start ∷ r) (span-suc (suc start) n xs ∙ ap (λ k. span (suc start) n ++ k ∷ xs) e)

-- range(n)
abbrev pub range : ℕ → List ℕ
range n = span 0 n

pub range-suc : (n : ℕ) (xs : List ℕ) → range n ++ n ∷ xs ≡ range (suc n) ++ xs
range-suc n xs =
    let e : 0 + n ≡ n = omega arith in sym (span-suc 0 n xs ∙ ap (λ k. range n ++ k ∷ xs) e)

pub length-span : (start n : ℕ) → length (span start n) ≡ n
length-span start zero = refl
length-span start (suc n) = ap suc (length-span (suc start) n)

pub drop-eq-cons {ℓ} :
    {A : Type ℓ} (j : ℕ) (xs : List A) {h : A} {rest : List A} (d : A)
    → drop j xs ≡ h ∷ rest
    → (get_or xs j d ≡ h) × (drop (suc j) xs ≡ rest)
drop-eq-cons zero [] d e = cc
drop-eq-cons zero (x ∷ xs) d e = (cc, cc)
drop-eq-cons (suc j) [] d e = cc
drop-eq-cons (suc j) (x ∷ xs) d e = drop-eq-cons j xs d e

module _ {ℓ} {A : Type ℓ} where
  take-nil : (n : ℕ) → take {A = A} n [] ≡ []
  take-nil zero = refl
  take-nil (suc n) = refl

  drop-nil : (n : ℕ) → drop {A = A} n [] ≡ []
  drop-nil zero = refl
  drop-nil (suc n) = refl

  take-add : (a b : ℕ) (xs : List A) → take (a + b) xs ≡ take a xs ++ take b (drop a xs)
  take-add zero b xs = let e : 0 + b ≡ b = omega arith in ap (λ k. take k xs) e
  take-add (suc a) b [] = take-nil (suc a + b) ∙ sym (take-nil b)
  take-add (suc a) b (x ∷ xs) =
      let e : suc a + b ≡ suc (a + b) = omega arith in
      ap (λ k. take k (x ∷ xs)) e ∙ ap (λ r. x ∷ r) (take-add a b xs)

  drop-add : (a b : ℕ) (xs : List A) → drop b (drop a xs) ≡ drop (a + b) xs
  drop-add zero b xs = let e : b ≡ 0 + b = omega arith in ap (λ k. drop k xs) e
  drop-add (suc a) b [] = drop-nil b ∙ sym (drop-nil (suc a + b))
  drop-add (suc a) b (x ∷ xs) =
      let e : suc (a + b) ≡ suc a + b = omega arith in drop-add a b xs ∙ ap (λ k. drop k (x ∷ xs)) e

  -- xs[lo:mid] + xs[mid:hi]
  pub slice-append :
      (xs : List A) (lo mid hi : ℕ)
      → lo ≤ mid
      → mid ≤ hi
      → take (mid - lo) (drop lo xs) ++ take (hi - mid) (drop mid xs) ≡ take (hi - lo) (drop lo xs)
  slice-append xs lo mid hi h k =
      let e : lo + (mid - lo) ≡ mid = omega arith in
      let f : (mid - lo) + (hi - mid) ≡ hi - lo = omega arith in
      ap (λ r. take (mid - lo) (drop lo xs) ++ take (hi - mid) r)
        (ap (λ k. drop k xs) (sym e) ∙ sym (drop-add lo (mid - lo) xs))
      ∙ sym (take-add (mid - lo) (hi - mid) (drop lo xs))
      ∙ ap (λ k. take k (drop lo xs)) f
