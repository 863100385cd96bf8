-- ===== src/Store/Blobs.antt =====
-- `_path_for`, `put_blob` and `get_blob` of backend/src/core/objects/store.py.
pub mod RoundTrip
use re_git.Base.{
  Bool, true, ◌&&◌, ◌||◌, not, Option, none, some, Text, text_eq, codes, List, [], ◌∷◌, ◌++◌, leb,
  ◌==◌, if◌then◌else◌, length, take, drop,
}
use re_git.Store.Rows.{ObjectRow, Database, found, find_row, find_object, insert_or_ignore}
use re_git.Store.Monad.{
  File, Bytes, M, Result, ok, err, value_error, key_error, decode_error, assertion_error, pure,
  query, modify, require, tx, ◌>>=◌, ◌>>◌,
}
use re_git.Store.Host.{Host}
use re_git.Store.Hash.{blob_id}

-- all(char in "0123456789abcdef" for char in oid)
unfoldable pub is_hex : Text → Bool
is_hex [] = true
is_hex (c ∷ oid) = (leb b'0' c && leb c b'9' || leb b'a' c && leb c b'f') && is_hex oid

-- The two parts of the path below objects/.
unfoldable pub path_for : Text → Result (Text × Text)
path_for oid =
    if length oid == 64 && is_hex oid then ok (take 2 oid, drop 2 oid) else err value_error

abbrev pub path_eq : Text × Text → Text × Text → Bool
path_eq p q = text_eq p.0 q.0 && text_eq p.1 q.1

-- `p.exists()` and `p.read_bytes()`
abbrev pub find_file : Text × Text → List File → Option File
find_file p files = find_row (λ f. path_eq f.path p) files

unfoldable pub lift {ℓ} : {A : Type ℓ} → Result A → M A
lift r s = (r, s)

-- The temporary file is written whole and moved to its place, so a file appears at once.
unfoldable pub write_file : Text × Text → Bytes → M (Unit {0})
write_file p content s = (
  ok tt,
  if found (find_file p s.files)
      then s
      else record s { files = s.files ++ record { path = p; content = content } ∷ [] },
)

abbrev pub insert_object : ObjectRow → Database → Database
insert_object row db = record db {
  objects = insert_or_ignore (λ r. text_eq r.hash row.hash) row db.objects;
}

module _ (host : Host) where
  unfoldable pub put_blob : Text → Bytes → M Text
  put_blob kind bytes = do
    let oid = blob_id host kind bytes
    p ← lift (path_for oid)
    tx (do
      write_file p (host.compress bytes)
      modify (insert_object (record { hash = oid; kind = kind; size = length bytes; path = p })))
    pure oid

  unfoldable pub decompressed : Bytes → Result Bytes
  decompressed content = elim (host.decompress content) [ none ↦ err decode_error | some b ↦ ok b ]

  unfoldable pub read_file : Text × Text → M Bytes
  unfolding decompressed
  read_file p s = elim (find_file p s.files) [
    | none ↦ (err key_error, s)
    | some f ↦ (decompressed f.content, s)
  ]

  -- The kind of the object's row, or "unknown".
  unfoldable pub stored_kind : Text → Database → Text
  stored_kind oid db = elim (find_object oid db) [ none ↦ codes "unknown" | some r ↦ r.kind ]

  unfoldable pub get_blob : Text → Bool → M Bytes
  get_blob oid verify = do
    p ← lift (path_for oid)
    bytes ← read_file p
    kind ← query (stored_kind oid)
    require (not (verify || host.verify_on_read) || text_eq (blob_id host kind bytes) oid)
        assertion_error
    pure bytes
