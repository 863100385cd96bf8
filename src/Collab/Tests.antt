-- ===== src/Collab/Tests.antt =====
-- Runs of an op log, and its theorems at a small log.
use re_git.Base.{◌≡◌, refl, none, some, codes, text_eq, [], ◌∷◌, map, ◌++◌}
use re_git.Collab.Ops.{
  CrdtLib, OpRecord, OpLog, append, is_empty_update, has_digest, put_digest, update_digest,
  new_record, op_id_for, row_of, load_rows,
}
use re_git.Collab.Ops.Valid.{IsLog, append-IsLog, append-twice}
use re_git.Collab.Ops.Reload.{load_rows-row_of}

-- Updates as their own digests; one byte is a number.
abbrev plain_crdt : CrdtLib
plain_crdt = record {
  sha256 = λ b. b;
  get_state = λ b. some b;
  read_var_uint = λ b. elim b [ [] ↦ none | x ∷ rest ↦ some (x, rest) ];
  merge_updates = λ us. [];
}

abbrev no_ops : OpLog
no_ops = record { room = codes "art:main"; ops = []; by_digest = [] }

no_ops-IsLog : IsLog plain_crdt no_ops
no_ops-IsLog = record { indexed = refl; distinct = tt; numbered = refl; in_room = tt }

abbrev first_op : OpRecord
first_op = record {
  op_id = codes "op_" ++ (1 ∷ 2 ∷ []);
  room = codes "art:main";
  seq = 1;
  client_id = codes "ann";
  update = 1 ∷ 2 ∷ [];
  received_at = codes "d";
}

abbrev one_op : OpLog
one_op = record {
  room = codes "art:main";
  ops = first_op ∷ [];
  by_digest = (1 ∷ 2 ∷ [], first_op) ∷ [];
}

append_run :
    append plain_crdt no_ops (1 ∷ 2 ∷ []) (codes "ann") (some (codes "d")) []
    ≡ (some first_op, one_op)
unfolding append is_empty_update has_digest put_digest update_digest new_record op_id_for text_eq
append_run = refl

one_op-IsLog : IsLog plain_crdt one_op
unfolding update_digest has_digest
one_op-IsLog = record {
  indexed = refl;
  distinct = (refl, tt);
  numbered = refl;
  in_room = (refl, tt);
}

append-IsLog_example :
    IsLog plain_crdt (append plain_crdt one_op (3 ∷ []) (codes "bob") (some (codes "e")) []).1
append-IsLog_example =
    append-IsLog plain_crdt one_op (3 ∷ []) (codes "bob") (some (codes "e")) [] one_op-IsLog

append-twice_example :
    append plain_crdt
      (append plain_crdt no_ops (3 ∷ []) (codes "bob") none (codes "d")).1
      (3 ∷ [])
      (codes "ann")
      none
      (codes "e")
    ≡ (none, (append plain_crdt no_ops (3 ∷ []) (codes "bob") none (codes "d")).1)
append-twice_example =
    append-twice plain_crdt no_ops (3 ∷ []) (codes "bob") (codes "ann") none none (codes "d")
      (codes "e")

load_rows-row_of_example : load_rows plain_crdt (map row_of one_op.ops) ≡ one_op
load_rows-row_of_example = load_rows-row_of plain_crdt one_op first_op [] refl one_op-IsLog
