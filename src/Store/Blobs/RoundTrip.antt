-- ===== src/Store/Blobs/RoundTrip.antt =====
-- `put_blob` and `get_blob` are inverse.
use re_git.Base.{
  ◌+◌, ◌≡◌, refl, ap, Bool, true, ◌||◌, not, none, some, Text, text_eq, text_eq_iff, List, [], ◌∷◌,
  ◌++◌, length, arith, ℕ,
}
use re_git.Store.Rows.{ObjectRow, find_object, find_row}
use re_git.Store.Monad.{File, Store, Result, ok, tx, ◌>>=◌}
use re_git.Store.Host.{Host}
use re_git.Store.Hash.{blob_id}
use re_git.Store.Blobs.{
  path_for, path_eq, find_file, lift, write_file, insert_object, put_blob, get_blob, read_file,
  decompressed, stored_kind,
}

path_eq_refl : (p : Text × Text) → path_eq p p ≡ true
path_eq_refl p = ground (arith, text_eq_iff p.0 p.0, text_eq_iff p.1 p.1)

find_file-append :
    (p : Text × Text) (content : List ℕ) (files : List File)
    → find_file p files ≡ none
    → find_file p (files ++ record { path = p; content = content } ∷ [])
      ≡ some (record { path = p; content = content })
unfolding find_row
find_file-append p content [] h = ground (arith, path_eq_refl p)
find_file-append p content (f ∷ files) h = ground (arith, find_file-append p content files, h)

find_row-append :
    (test : ObjectRow → Bool) (rows : List ObjectRow) (r : ObjectRow)
    → find_row test rows ≡ none
    → test r ≡ true
    → find_row test (rows ++ r ∷ []) ≡ some r
unfolding find_row
find_row-append test [] r h t = rw t refl
find_row-append test (x ∷ rows) r h t = ground (arith, find_row-append test rows r, h, t)

module _ (host : Host) (kind : Text) (bytes : List ℕ) (s : Store) (p : Text × Text) where
  oid : Text
  oid = blob_id host kind bytes

  row : ObjectRow
  row = record { hash = oid; kind = kind; size = length bytes; path = p }

  -- The state with the blob.
  stored : Store
  stored = record s {
    db = insert_object row s.db;
    files = s.files ++ record { path = p; content = host.compress bytes } ∷ [];
    savepoint = s.savepoint + 1;
  }

  module _ (path : path_for (blob_id host kind bytes) ≡ ok p) (no_file : find_file p s.files ≡ none)
      (no_row : find_object (blob_id host kind bytes) s.db ≡ none)
      (back : host.decompress (host.compress bytes) ≡ some bytes) where
    put_blob-eq : put_blob host kind bytes s ≡ (ok oid, stored)
    unfolding put_blob lift tx ◌>>=◌ write_file stored oid row
    put_blob-eq = rw (path, no_file) refl

    kind_stored : stored_kind host oid stored.db ≡ kind
    unfolding stored_kind stored oid row
    kind_stored =
        let same = (text_eq_iff (blob_id host kind bytes) (blob_id host kind bytes)).1 refl in
        let at_end =
          find_row-append (λ r. text_eq r.hash (blob_id host kind bytes)) s.db.objects row no_row
            same in
        rw (no_row, stored_kind, at_end) refl

    read_back : read_file host p stored ≡ (ok bytes, stored)
    unfolding read_file decompressed stored
    read_back =
        rw (read_file, find_file-append p (host.compress bytes) s.files no_file, decompressed, back)
          refl

    passes :
        (verify : Bool)
        → (not (verify || host.verify_on_read)
            || text_eq (blob_id host kind bytes) (blob_id host kind bytes))
          ≡ true
    passes verify = ground (arith, text_eq_iff (blob_id host kind bytes) (blob_id host kind bytes))

    -- A blob with a well-formed digest that has no row and no file yet is stored, and reading it by the
    -- id that is returned, with or without verification, gives its bytes back, if the compression can
    -- be undone.
    pub put_blob-get_blob :
        (verify : Bool)
        → ((put_blob host kind bytes s).0 ≡ ok (blob_id host kind bytes))
          × ((get_blob host (blob_id host kind bytes) verify (put_blob host kind bytes s).1).0
              ≡ ok bytes)
    unfolding get_blob lift ◌>>=◌ oid
    put_blob-get_blob verify = (
      ap (λ (r : Result Text × Store). r.0) put_blob-eq,
      rw (put_blob-eq, path, read_back, kind_stored, passes verify) refl,
    )
