-- ===== src/Collab/Ops.antt =====
-- `OpLog` of backend/src/core/collaboration/ops.py: the log of a room's updates.
pub mod Valid
pub mod Reload
use re_git.Base.{
  ℕ, zero, suc, ◌+◌, Bool, true, false, ◌&&◌, ◌||◌, Option, none, some, Text, text_eq, codes, List,
  [], ◌∷◌, ◌++◌, map, length, take, is_empty, ltb, ◌==◌, max, if◌then◌else◌,
}
use re_git.Base.Dicts.{Dict, put, get_default}
use re_git.Store.Monad.{Bytes}
use re_git.Store.Hash.{or_else}

-- What the file takes from hashlib and from pycrdt: the hex digest of SHA-256, `get_state` (`none`
-- is an exception), the decoder's `read_var_uint`, which returns the bytes behind the number, and
-- `merge_updates`.
pub record CrdtLib : Type 0 where
  pub sha256 : Bytes → Text
  pub get_state : Bytes → Option Bytes
  pub read_var_uint : Bytes → Option (ℕ × Bytes)
  pub merge_updates : List Bytes → Bytes

pub record OpRecord : Type 0 where
  pub op_id : Text
  pub room : Text
  pub seq : ℕ
  pub client_id : Text
  pub update : Bytes
  pub received_at : Text

-- A row of crdt_ops.
pub record OpRow : Type 0 where
  pub id : Text
  pub room : Text
  pub seq : ℕ
  pub client_id : Text
  pub op : Bytes
  pub received_at : Text

-- `from_row`
unfoldable pub from_row : OpRow → OpRecord
from_row r = record {
  op_id = r.id;
  room = r.room;
  seq = r.seq;
  client_id = r.client_id;
  update = r.op;
  received_at = r.received_at;
}

-- `row`
unfoldable pub row_of : OpRecord → OpRow
row_of r = record {
  id = r.op_id;
  room = r.room;
  seq = r.seq;
  client_id = r.client_id;
  op = r.update;
  received_at = r.received_at;
}

-- `_seq` and `_by_digest`
pub record OpLog : Type 0 where
  pub room : Text
  pub ops : List OpRecord
  pub by_digest : List (Text × OpRecord)

-- update in _EMPTY_UPDATES
unfoldable pub is_empty_update : Bytes → Bool
is_empty_update update = is_empty update || text_eq update (0 ∷ 0 ∷ [])

-- digest in self._by_digest
unfoldable pub has_digest : Text → List (Text × OpRecord) → Bool
has_digest digest [] = false
has_digest digest ((k, r) ∷ index) = text_eq k digest || has_digest digest index

-- self._by_digest[digest] = rec
unfoldable pub put_digest : Text → OpRecord → List (Text × OpRecord) → List (Text × OpRecord)
put_digest digest rec [] = (digest, rec) ∷ []
put_digest digest rec ((k, r) ∷ index) =
    if text_eq k digest then (k, rec) ∷ index else (k, r) ∷ put_digest digest rec index

-- any(have.get(c, 0) < clk for c, clk in st.items())
unfoldable pub is_behind : Dict ℕ → Dict ℕ → Bool
is_behind have [] = false
is_behind have ((c, clock) ∷ st) = ltb (get_default 0 c have) clock || is_behind have st

module _ (lib : CrdtLib) where
  unfoldable pub update_digest : Bytes → Text
  update_digest update = lib.sha256 update

  unfoldable pub op_id_for : Bytes → Text
  unfolding update_digest
  op_id_for update = codes "op_" ++ take 26 (update_digest update)

  -- The loop over the pairs (client, clock); `none` is an exception of the decoder.
  unfoldable pub read_clocks : ℕ → Bytes → Dict ℕ → Option (Dict ℕ)
  read_clocks zero state out = some out
  read_clocks (suc n) state out = elim (lib.read_var_uint state) [
    | none ↦ none
    | some (client, rest) ↦ elim (lib.read_var_uint rest) [
      | none ↦ none
      | some (clock, rest') ↦
          read_clocks n rest' (put client (max (get_default 0 client out) clock) out)
    ]
  ]

  unfoldable pub parse_state_vector : Bytes → Dict ℕ
  unfolding read_clocks
  parse_state_vector [] = []
  parse_state_vector (b ∷ state) = elim (lib.read_var_uint (b ∷ state)) [
    | none ↦ []
    | some (n, rest) ↦ elim (read_clocks n rest []) [ none ↦ [] | some out ↦ out ]
  ]

  unfoldable pub update_state_vector : Bytes → Dict ℕ
  unfolding parse_state_vector
  update_state_vector update =
      if is_empty_update update
      then []
      else elim (lib.get_state update) [ none ↦ [] | some state ↦ parse_state_vector state ]

  -- The record that `append` makes; `now` is the clock, read if no date is given.
  unfoldable pub new_record : OpLog → Bytes → Text → Option Text → Text → OpRecord
  new_record log update client_id received_at now = record {
    op_id = op_id_for update;
    room = log.room;
    seq = length log.ops + 1;
    client_id = client_id;
    update = update;
    received_at = or_else received_at now;
  }

  unfoldable pub append : OpLog → Bytes → Text → Option Text → Text → Option OpRecord × OpLog
  append log update client_id received_at now =
      let digest = update_digest update in
      let rec = new_record log update client_id received_at now in
      if is_empty_update update
      then (none, log)
      else if has_digest digest log.by_digest
      then (none, log)
      else (
        some rec,
        record log { ops = log.ops ++ rec ∷ []; by_digest = put_digest digest rec log.by_digest },
      )

  -- The clients that cannot be shown to have an op are sent it.
  unfoldable pub is_missing : Dict ℕ → OpRecord → Bool
  is_missing have rec = let st = update_state_vector rec.update in is_empty st || is_behind have st

  unfoldable pub missing_from : Dict ℕ → List OpRecord → List OpRecord
  missing_from have [] = []
  missing_from have (rec ∷ ops) =
      let rest = missing_from have ops in if is_missing have rec then rec ∷ rest else rest

  unfoldable pub missing_ops : OpLog → Bytes → List OpRecord
  missing_ops log state_vector = missing_from (parse_state_vector state_vector) log.ops

  unfoldable pub merged : List OpRecord → Bytes
  merged [] = []
  merged (rec ∷ ops) = lib.merge_updates (map (λ r. r.update) (rec ∷ ops))

  unfoldable pub missing_update : OpLog → Bytes → Bytes
  missing_update log state_vector = merged (missing_ops log state_vector)

  -- The loop of `load_rows`.
  unfoldable pub load_from : List OpRow → OpLog → OpLog
  load_from [] log = log
  load_from (r ∷ rows) log =
      let rec = from_row r in
      load_from rows (record log {
        ops = log.ops ++ rec ∷ [];
        by_digest = put_digest (update_digest rec.update) rec log.by_digest;
      })

  unfoldable pub room_of : List OpRow → Text
  room_of [] = []
  room_of (r ∷ rows) = r.room

  unfoldable pub load_rows : List OpRow → OpLog
  load_rows rows = load_from rows (record { room = room_of rows; ops = []; by_digest = [] })
