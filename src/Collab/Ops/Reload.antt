-- ===== src/Collab/Ops/Reload.antt =====
-- A log that is written to rows and read back.
use re_git.Base.{
  ◌≡◌, refl, sym, ◌∙◌, ap, Text, List, [], ◌∷◌, ◌++◌, map, append_assoc, append-nil, All,
}
use re_git.Collab.Ops.{
  CrdtLib, OpRecord, OpLog, update_digest, from_row, row_of, load_from, load_rows, room_of,
}
use re_git.Collab.Ops.Valid.{entry, AreNew, IsLog, put_digest-new}

module _ (lib : CrdtLib) where
  reload :
      (room : Text) (seen ops : List OpRecord) (index : List (Text × OpRecord))
      → AreNew lib index ops
      → load_from lib (map row_of ops) (record { room = room; ops = seen; by_digest = index })
        ≡ record { room = room; ops = seen ++ ops; by_digest = index ++ map (entry lib) ops }
  unfolding load_from from_row row_of
  reload room seen [] index n = rw (append-nil seen, append-nil index) refl
  reload room seen (r ∷ ops) index n =
      rw (load_from, put_digest-new (update_digest lib r.update) r index n.0)
        (reload room (seen ++ r ∷ []) ops (index ++ entry lib r ∷ []) n.1
          ∙ rw
              (
                append_assoc seen (r ∷ []) ops,
                append_assoc index (entry lib r ∷ []) (map (entry lib) ops),
              )
              refl)

  first_room :
      (room : Text) (ops : List OpRecord) (first : OpRecord) (rest : List OpRecord)
      → ops ≡ first ∷ rest
      → All (λ (r : OpRecord). r.room ≡ room) ops
      → room_of lib (map row_of ops) ≡ room
  unfolding room_of row_of
  first_room room [] first rest e all = cc
  first_room room (r ∷ ops) first rest e all = all.0

  -- A log with a record, written to rows and loaded again, is the log.
  pub load_rows-row_of :
      (log : OpLog) (first : OpRecord) (rest : List OpRecord)
      → log.ops ≡ first ∷ rest
      → IsLog lib log
      → load_rows lib (map row_of log.ops) ≡ log
  unfolding load_rows
  load_rows-row_of log first rest e v =
      reload (room_of lib (map row_of log.ops)) [] log.ops [] v.distinct
      ∙ ap (λ k. record { room = k; ops = log.ops; by_digest = map (entry lib) log.ops })
          (first_room log.room log.ops first rest e v.in_room)
      ∙ ap (λ i. record { room = log.room; ops = log.ops; by_digest = i }) (sym v.indexed)
