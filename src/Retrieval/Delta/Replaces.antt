-- ===== src/Retrieval/Delta/Replaces.antt =====
-- The ids that a new chunk replaces.
use re_git.Base.{
  ◌≡◌, ◌↔◌, ◌⊎◌, refl, sym, ap, ◌∙◌, Bool, true, false, ◌&&◌, ◌||◌, not, Bool-cases, inl, inr,
  Option, none, some, Text, text_eq, text_eq_iff, List, [], ◌∷◌, ◌++◌, is_empty, if◌then◌else◌,
  arith,
}
use re_git.Base.TextDicts.{TextDict, get_at}
use re_git.Store.Rows.{found}
use re_git.Store.Hash.{sorted}
use re_git.Store.Hash.Members.{contains-sorted}
use re_git.Store.Graph.{contains}
use re_git.Store.Graph.Edges.{contains-append}
use re_git.Store.Capture.{contains_text, dedup}
use re_git.Retrieval.Chunks.{Chunk}
use re_git.Retrieval.Delta.{
  ChunkRow, Positions, same_text, keep, old_sids, meets, gone, overlaps, own_id, replaces_of,
}
use re_git.Retrieval.Delta.Sentences.{Shares, meets_iff}
use re_git.Retrieval.Delta.Keys.{contains-keep, contains-gone}

contains_text-eq : (t : Text) (seen : List Text) → contains_text t seen ≡ contains t seen
unfolding contains contains_text
contains_text-eq t [] = refl
contains_text-eq t (u ∷ seen) = ground (arith, contains_text-eq t seen)

contains-dedup :
    (x : Text) (seen texts : List Text)
    → (contains x seen || contains x (dedup seen texts)) ≡ (contains x seen || contains x texts)
unfolding contains dedup contains_text
contains-dedup x seen [] = refl
contains-dedup x seen (t ∷ texts) = ground (
  arith,
  contains-dedup x (t ∷ seen) texts,
  contains-dedup x seen texts,
  contains_text-eq t seen,
  text_eq_iff t x,
)

-- The row goes or is written anew: no new chunk has its id and its text.
abbrev pub Changes : TextDict Chunk → Text → ChunkRow → Type 0
Changes new x r = (c : Chunk) → get_at x new ≡ some c → ¬ (r.text ≡ c.text)

module _ (read_list : Text → List Text) (old : TextDict ChunkRow) (new : TextDict Chunk)
    (at : Positions) where
  -- An old row has the id `x`, and this is the id `cid` of the chunk, or the row changes and lists the
  -- sid of an old sentence that a sentence of the chunk is aligned with.
  abbrev pub IsReplaced : Text → Chunk → Text → Type 0
  IsReplaced cid nc x =
      (r : ChunkRow) × (get_at x old ≡ some r)
      × ((x ≡ cid) ⊎ (Changes new x r × Shares at nc.sids (read_list r.sid_range)))

  contains-own_id :
      (x cid : Text)
      → contains x (own_id read_list old new cid) ≡ (text_eq cid x && found (get_at cid old))
  unfolding own_id contains
  contains-own_id x cid = ground arith

  contains-replaces_of :
      (x : Text) (nc : Chunk) (cid : Text)
      → contains x (replaces_of read_list old new at cid nc) ≡ (
          text_eq cid x && found (get_at cid old)
          || not (is_empty (old_sids at nc.sids))
            && (found (get_at x old) && not (same_text (get_at x old) (get_at x new)))
            && (not (text_eq x cid) && overlaps read_list old new (old_sids at nc.sids) x))
  unfolding replaces_of contains
  contains-replaces_of x nc cid =
      let covered = old_sids at nc.sids in
      let test =
        λ (ocid : Text). not (text_eq ocid cid) && overlaps read_list old new covered ocid in
      let names = own_id read_list old new cid in
      let others = keep test (sorted (dedup [] (gone old new))) in
      let chosen : List Text = if is_empty covered then [] else others in
      let split = contains-append x names chosen in
      let all = contains-sorted x (dedup [] (names ++ chosen)) in
      ground (
        arith,
        all,
        contains-dedup x [] (names ++ chosen),
        split,
        contains-own_id x cid,
        contains-keep test x (sorted (dedup [] (gone old new))),
        contains-sorted x (dedup [] (gone old new)),
        contains-dedup x [] (gone old new),
        contains-gone old new x,
      )

  changes :
      (x : Text) (r : ChunkRow)
      → get_at x old ≡ some r
      → same_text (get_at x old) (get_at x new) ≡ false
      → Changes new x r
  unfolding same_text
  changes x r e h c f t = ground (arith, e, f, t, h, text_eq_iff r.text c.text)

  to_changes :
      (x : Text) (r : ChunkRow) (n : Option Chunk)
      → get_at x new ≡ n
      → Changes new x r
      → same_text (some r) n ≡ false
  unfolding same_text
  to_changes x r none e h = refl
  to_changes x r (some c) e h = elim (Bool-cases (text_eq r.text c.text)) [
    | inl same ↦ absurd (h c e ((text_eq_iff r.text c.text).0 same))
    | inr differ ↦ differ
  ]

  own_or_shared : Text → Chunk → Text → Bool
  own_or_shared cid nc x =
      text_eq cid x && found (get_at cid old)
      || not (is_empty (old_sids at nc.sids))
        && (found (get_at x old) && not (same_text (get_at x old) (get_at x new)))
        && (not (text_eq x cid) && overlaps read_list old new (old_sids at nc.sids) x)

  own_or_shared-IsReplaced :
      (x : Text) (nc : Chunk) (cid : Text) (o : Option ChunkRow)
      → get_at x old ≡ o
      → own_or_shared cid nc x ≡ true
      → IsReplaced cid nc x
  unfolding overlaps own_or_shared
  own_or_shared-IsReplaced x nc cid none e h = elim (Bool-cases (text_eq cid x)) [
    | inl same ↦
        let gone_too : get_at cid old ≡ none =
          ap (λ y. get_at y old) ((text_eq_iff cid x).0 same) ∙ e in
        ground (arith, h, e, gone_too)
    | inr other ↦ ground (arith, h, e, other)
  ]
  own_or_shared-IsReplaced x nc cid (some r) e h = elim (Bool-cases (text_eq cid x)) [
    | inl same ↦ (r, e, inl (sym ((text_eq_iff cid x).0 same)))
    | inr other ↦ (
      r,
      e,
      inr (
        changes x r e (ground (arith, h, e, other)),
        (meets_iff at nc.sids (read_list r.sid_range)).0 (ground (arith, h, e, other)),
      ),
    )
  ]

  covers_none : (sids ys : List Text) → is_empty sids ≡ true → meets sids ys ≡ false
  unfolding meets
  covers_none [] ys e = refl
  covers_none (s ∷ sids) ys e = cc e

  IsReplaced-own_or_shared :
      (x : Text) (nc : Chunk) (cid : Text) → IsReplaced cid nc x → own_or_shared cid nc x ≡ true
  unfolding overlaps own_or_shared
  IsReplaced-own_or_shared x nc cid (r, e, inl same) =
      let here : get_at cid old ≡ some r = ap (λ y. get_at y old) (sym same) ∙ e in
      ground (arith, here, (text_eq_iff cid x).1 (sym same))
  IsReplaced-own_or_shared x nc cid (r, e, inr (c, shared)) =
      let m = (meets_iff at nc.sids (read_list r.sid_range)).1 shared in
      elim (Bool-cases (text_eq cid x)) [
        | inl same ↦
            let here : get_at cid old ≡ some r =
              ap (λ y. get_at y old) ((text_eq_iff cid x).0 same) ∙ e in
            ground (arith, here, same)
        | inr other ↦ ground (
          arith,
          e,
          m,
          other,
          text_eq_iff x cid,
          text_eq_iff cid x,
          covers_none (old_sids at nc.sids) (read_list r.sid_range),
          to_changes x r (get_at x new) refl c,
        )
      ]

  pub replaces_of-IsReplaced :
      (x : Text) (nc : Chunk) (cid : Text)
      → (contains x (replaces_of read_list old new at cid nc) ≡ true) ↔ IsReplaced cid nc x
  unfolding own_or_shared
  replaces_of-IsReplaced x nc cid = (
    λ h.
        own_or_shared-IsReplaced x nc cid (get_at x old) refl
          (sym (contains-replaces_of x nc cid) ∙ h),
    λ h. contains-replaces_of x nc cid ∙ IsReplaced-own_or_shared x nc cid h,
  )
