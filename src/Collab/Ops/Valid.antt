-- ===== src/Collab/Ops/Valid.antt =====
-- The invariant of an op log, and that `append` keeps it.
use re_git.Base.{
  ℕ, suc, ◌+◌, ◌≡◌, refl, sym, ◌∙◌, ap, true, false, Option, none, Bool-cases, inl, inr, Text,
  text_eq_iff, List, [], ◌∷◌, ◌++◌, map, length, length-append, append_assoc, arith, All,
  All-append, append-nil, span, span-suc,
}
use mathlib.Core.List.{map-append}
use re_git.Store.Monad.{Bytes}
use re_git.Collab.Ops.{
  CrdtLib, OpRecord, OpLog, has_digest, put_digest, update_digest, is_empty_update, new_record,
  append,
}

pub put_digest-new :
    (digest : Text) (rec : OpRecord) (index : List (Text × OpRecord))
    → has_digest digest index ≡ false
    → put_digest digest rec index ≡ index ++ (digest, rec) ∷ []
unfolding put_digest has_digest
put_digest-new digest rec [] h = refl
put_digest-new digest rec ((k, r) ∷ index) h = ground (arith, h, put_digest-new digest rec index)

has_digest-put_digest :
    (digest : Text) (rec : OpRecord) (index : List (Text × OpRecord))
    → has_digest digest (put_digest digest rec index) ≡ true
unfolding put_digest has_digest
has_digest-put_digest digest rec [] = ground (arith, text_eq_iff digest digest)
has_digest-put_digest digest rec ((k, r) ∷ index) =
    ground (arith, has_digest-put_digest digest rec index)

span-snoc : (start n : ℕ) → span start (suc n) ≡ span start n ++ (start + n) ∷ []
span-snoc start n = sym (append-nil (span start (suc n))) ∙ span-suc start n []

next_number :
    (ops : List OpRecord) (r : OpRecord)
    → span 1 (length ops) ++ (length ops + 1) ∷ [] ≡ span 1 (length (ops ++ r ∷ []))
next_number ops r =
    let n = length ops in
    let e : n + 1 ≡ 1 + n = omega arith in
    let l : suc n ≡ length (ops ++ r ∷ []) = omega (arith, length-append ops (r ∷ [])) in
    ap (λ k. span 1 n ++ k ∷ []) e ∙ sym (span-snoc 1 n) ∙ ap (span 1) l

module _ (lib : CrdtLib) where
  -- The entry of a record in `_by_digest`.
  abbrev pub entry : OpRecord → Text × OpRecord
  entry r = (update_digest lib r.update, r)

  -- No record has the digest of an entry of `index` or of a record before it.
  abbrev pub AreNew : List (Text × OpRecord) → List OpRecord → Type 0
  AreNew index [] = Unit
  AreNew index (r ∷ ops) =
      (has_digest (update_digest lib r.update) index ≡ false) × AreNew (index ++ entry r ∷ []) ops

  pub record IsLog (log : OpLog) : Type 0 where
    -- `_by_digest` holds the records of `_seq`, in their order
    pub indexed : log.by_digest ≡ map entry log.ops
    -- no two records have one digest
    pub distinct : AreNew [] log.ops
    -- the sequence numbers are 1, 2, ...
    pub numbered : map (λ r. r.seq) log.ops ≡ span 1 (length log.ops)
    -- every record names the room
    pub in_room : All (λ (r : OpRecord). r.room ≡ log.room) log.ops

  AreNew-snoc :
      (index : List (Text × OpRecord)) (ops : List OpRecord) (r : OpRecord)
      → AreNew index ops
      → has_digest (update_digest lib r.update) (index ++ map entry ops) ≡ false
      → AreNew index (ops ++ r ∷ [])
  AreNew-snoc index [] r n h =
      (sym (ap (has_digest (update_digest lib r.update)) (append-nil index)) ∙ h, tt)
  AreNew-snoc index (o ∷ ops) r n h = (
    n.0,
    AreNew-snoc (index ++ entry o ∷ []) ops r n.1 (
        ap (has_digest (update_digest lib r.update))
          (append_assoc index (entry o ∷ []) (map entry ops))
        ∙ h),
  )

  -- `append` keeps the invariant of a log: its index holds its records, no two of which have one
  -- digest, their numbers count up from 1, and they name the room.
  pub append-IsLog :
      (log : OpLog) (update : Bytes) (client_id : Text) (received_at : Option Text) (now : Text)
      → IsLog log
      → IsLog (append lib log update client_id received_at now).1
  unfolding append new_record
  append-IsLog log update client_id received_at now v = elim (Bool-cases (is_empty_update update)) [
    | inl e ↦ rw e v
    | inr e ↦ elim (Bool-cases (has_digest (update_digest lib update) log.by_digest)) [
      | inl old ↦ rw (e, old) v
      | inr new ↦
          let r = new_record lib log update client_id received_at now in
          rw (e, new)
            (record {
              indexed =
                  put_digest-new (update_digest lib update) r log.by_digest new
                  ∙ ap (λ i. i ++ entry r ∷ []) v.indexed
                  ∙ sym (map-append entry log.ops (r ∷ []));
              distinct =
                  AreNew-snoc [] log.ops r v.distinct
                    (sym (ap (has_digest (update_digest lib update)) v.indexed) ∙ new);
              numbered =
                  map-append (λ o. o.seq) log.ops (r ∷ [])
                  ∙ ap (λ i. i ++ (length log.ops + 1) ∷ []) v.numbered
                  ∙ next_number log.ops r;
              in_room =
                  All-append (λ (o : OpRecord). o.room ≡ log.room) log.ops (r ∷ []) v.in_room
                    (refl, tt);
            })
    ]
  ]

  -- An update that has just been appended is not recorded again: the second call returns None and
  -- leaves the log as it is, whatever the client and the date.
  pub append-twice :
      (log : OpLog) (update : Bytes) (c c' : Text) (d d' : Option Text) (now now' : Text)
      → append lib (append lib log update c d now).1 update c' d' now'
        ≡ (none, (append lib log update c d now).1)
  unfolding append
  append-twice log update c c' d d' now now' = ground (
    arith,
    has_digest-put_digest (update_digest lib update) (new_record lib log update c d now)
        log.by_digest,
  )
