-- ===== src/Retrieval/Delta/Sentences.antt =====
-- When a new chunk and an old row share a sentence.
use re_git.Base.{
  ℕ, ◌≡◌, ◌↔◌, ◌⊎◌, refl, ap, ◌∙◌, true, Bool-cases, ◌||◌, inl, inr, Option-cases, none, some, Text,
  text_eq, text_eq_iff, List, [], ◌∷◌, arith,
}
use re_git.Base.Dicts.{Dict, get}
use re_git.Base.TextDicts.{get_at}
use re_git.Store.Graph.{contains}
use re_git.Store.Graph.Reach.{either}
use re_git.Retrieval.Delta.{Positions, old_sid, old_sids, meets}

-- The sentence of the sid `s` is paired with the old sentence of the sid `t`, which is empty where the
-- old sentence has none.
pub record ComesFrom (at : Positions) (s t : Text) : Type 0 where
  pub pairs : Dict ℕ
  pub index : ℕ
  pub old_index : ℕ
  pub aligned : at.new_to_old ≡ some pairs
  pub located : get_at s at.new_sid_to_flat ≡ some index
  pub paired : get index pairs ≡ some old_index
  pub named :
      (get old_index at.old_flat_to_sid ≡ some t)
      ⊎ ((get old_index at.old_flat_to_sid ≡ none) × (t ≡ []))

-- One of the sentences comes from one of the old ones.
abbrev pub Shares : Positions → List Text → List Text → Type 0
Shares at sids olds =
    (s : Text) × (t : Text) × (contains s sids ≡ true) × ComesFrom at s t × (contains t olds ≡ true)

module _ (at : Positions) where
  old_sid-ComesFrom : (s t : Text) → old_sid at s ≡ some t → ComesFrom at s t
  unfolding old_sid
  old_sid-ComesFrom s t h = elim (Option-cases at.new_to_old) [
    | inl e ↦ cc (rw (old_sid, e) at h)
    | inr (pairs, e) ↦ elim (Option-cases (get_at s at.new_sid_to_flat)) [
      | inl f ↦ cc (rw (old_sid, e, f) at h)
      | inr (index, f) ↦ elim (Option-cases (get index pairs)) [
        | inl g ↦ cc (rw (old_sid, e, f, g) at h)
        | inr (old_index, g) ↦ record {
          pairs = pairs;
          index = index;
          old_index = old_index;
          aligned = e;
          located = f;
          paired = g;
          named = elim (Option-cases (get old_index at.old_flat_to_sid)) [
            | inl k ↦ let same : some [] ≡ some t = rw (old_sid, e, f, g, k) at h in inr (k, cc)
            | inr (sid, k) ↦
                let same : some sid ≡ some t = rw (old_sid, e, f, g, k) at h in inl (k ∙ same)
          ];
        }
      ]
    ]
  ]

  ComesFrom-old_sid : (s t : Text) → ComesFrom at s t → old_sid at s ≡ some t
  unfolding old_sid
  ComesFrom-old_sid s t c = elim c.named [
    | inl k ↦ rw (old_sid, c.aligned, c.located, c.paired, k) refl
    | inr (k, e) ↦ rw (old_sid, c.aligned, c.located, c.paired, k, e) refl
  ]

  meets-Shares :
      (sids olds : List Text) → meets (old_sids at sids) olds ≡ true → Shares at sids olds
  unfolding old_sids meets contains
  meets-Shares [] olds h = cc h
  meets-Shares (s ∷ sids) olds h = elim (Option-cases (old_sid at s)) [
    | inl e ↦
        let (u, t, i, c, m) = meets-Shares sids olds (rw (old_sids, e) at h) in
        (u, t, ground (arith, i), c, m)
    | inr (t, e) ↦
        let both : (contains t olds || meets (old_sids at sids) olds) ≡ true =
          rw (old_sids, e) at h in
        elim (either (contains t olds) (meets (old_sids at sids) olds) both) [
          | inl m ↦ (s, t, ground (arith, text_eq_iff s s), old_sid-ComesFrom s t e, m)
          | inr more ↦
              let (u, v, i, c, m) = meets-Shares sids olds more in (u, v, ground (arith, i), c, m)
        ]
  ]

  Shares-meets :
      (sids olds : List Text) → Shares at sids olds → meets (old_sids at sids) olds ≡ true
  unfolding old_sids meets contains
  Shares-meets [] olds (s, t, i, c, m) = cc i
  Shares-meets (u ∷ sids) olds (s, t, i, c, m) = elim (Bool-cases (text_eq u s)) [
    | inl same ↦
        let e : old_sid at u ≡ some t =
          ap (old_sid at) ((text_eq_iff u s).0 same) ∙ ComesFrom-old_sid s t c in
        rw (old_sids, e) (ground (arith, m))
    | inr other ↦
        let more = Shares-meets sids olds (s, t, ground (arith, i, other), c, m) in
        elim (Option-cases (old_sid at u)) [
          | inl e ↦ rw (old_sids, e) more
          | inr (v, e) ↦ rw (old_sids, e) (ground (arith, more))
        ]
  ]

  pub meets_iff :
      (sids olds : List Text) → (meets (old_sids at sids) olds ≡ true) ↔ Shares at sids olds
  meets_iff sids olds = (meets-Shares sids olds, Shares-meets sids olds)
