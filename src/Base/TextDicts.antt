-- ===== src/Base/TextDicts.antt =====
-- Python's `dict` with `str` keys: its entries in the order of insertion.
use mathlib.Core.Path.{◌≡◌, refl}
use mathlib.Core.Option.{Option, none, some}
use mathlib.Core.List.{List, [], ◌∷◌}
use native.Mathlib.Omega.{arith}
use re_git.Base.Tests.{if◌then◌else◌}
use re_git.Base.Strings.{Text, text_eq, text_eq_iff}

abbrev pub TextDict {ℓ} : Type ℓ → Type ℓ
TextDict V = List (Text × V)

module _ {ℓ} {V : Type ℓ} where
  -- d.get(k)
  unfoldable pub get_at : Text → TextDict V → Option V
  get_at k [] = none
  get_at k ((j, v) ∷ d) = if text_eq j k then some v else get_at k d

  -- d[k] = v
  unfoldable pub put_at : Text → V → TextDict V → TextDict V
  put_at k v [] = (k, v) ∷ []
  put_at k v ((j, w) ∷ d) = if text_eq j k then (j, v) ∷ d else (j, w) ∷ put_at k v d

  unfoldable pub keys : TextDict V → List Text
  keys [] = []
  keys ((k, v) ∷ d) = k ∷ keys d

  pub get_at-put_at :
      (k j : Text) (v : V) (d : TextDict V)
      → get_at j (put_at k v d) ≡ (if text_eq k j then some v else get_at j d)
  unfolding get_at put_at
  get_at-put_at k j v [] = refl
  get_at-put_at k j v ((i, w) ∷ d) =
      ground (arith, get_at-put_at k j v d, text_eq_iff i k, text_eq_iff i j, text_eq_iff k j)
