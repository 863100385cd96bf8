-- ===== src/Base/Dicts.antt =====
-- Python's `dict` with `int` keys: its entries in the order of insertion.
use Prim.Native.Nat.{ℕ}
use mathlib.Core.Path.{◌≡◌, refl}
use mathlib.Core.Option.{Option, none, some}
use mathlib.Core.List.{List, [], ◌∷◌}
use native.Mathlib.Omega.{arith}
use re_git.Base.Tests.{◌==◌, if◌then◌else◌}

abbrev pub Dict {ℓ} : Type ℓ → Type ℓ
Dict V = List (ℕ × V)

module _ {ℓ} {V : Type ℓ} where
  -- d.get(k)
  unfoldable pub get : ℕ → Dict V → Option V
  get k [] = none
  get k ((j, v) ∷ d) = if j == k then some v else get k d

  -- d[k] = v
  unfoldable pub put : ℕ → V → Dict V → Dict V
  put k v [] = (k, v) ∷ []
  put k v ((j, w) ∷ d) = if j == k then (j, v) ∷ d else (j, w) ∷ put k v d

  pub get-put :
      (k j : ℕ) (v : V) (d : Dict V) → get j (put k v d) ≡ (if k == j then some v else get j d)
  unfolding get put
  get-put k j v [] = refl
  get-put k j v ((i, w) ∷ d) = ground (arith, get-put k j v d)

  -- d.get(k, default)
  unfoldable pub get_default : V → ℕ → Dict V → V
  unfolding get
  get_default default k d = elim (get k d) [ none ↦ default | some v ↦ v ]

  pub get_default-put :
      (default : V) (k j : ℕ) (v : V) (d : Dict V)
      → get_default default j (put k v d) ≡ (if k == j then v else get_default default j d)
  unfolding get_default
  get_default-put default k j v d = ground (arith, get-put k j v d)
