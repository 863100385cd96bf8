-- ===== src/Store/Valid/Frame.antt =====
-- Capturing a commit's claims leaves the core tables alone.
use re_git.Base.{
  ◌+◌, ◌≡◌, refl, ◌∙◌, Bool, true, false, Option, none, some, Text, codes, List, [], ◌∷◌, arith,
  if◌then◌else◌,
}
use re_git.Store.Rows.{ArtifactRow, EdgeRow, ClaimRow, CommitRow, Database}
use re_git.Store.Monad.{
  Store, M, Result, ok, err, Error, pure, query, modify, require, tick, tx, close, continue, ◌>>=◌,
}
use re_git.Store.Host.{Host}
use re_git.Store.Blobs.{get_blob, read_file, lift}
use re_git.Store.Capture.{
  insert_edge, fresh_id, add_edge, find_claim, claim_row, source_edge, capture_claims, capture_text,
  capture_row, capture_commit,
}

pub record CoreSame (before after : Database) : Type 0 where
  pub objects : after.objects ≡ before.objects
  pub commits : after.commits ≡ before.commits
  pub commit_parents : after.commit_parents ≡ before.commit_parents
  pub refs : after.refs ≡ before.refs
  pub branches : after.branches ≡ before.branches
  pub artifacts : after.artifacts ≡ before.artifacts

CoreSame-refl : (db : Database) → CoreSame db db
CoreSame-refl db = record {
  objects = refl;
  commits = refl;
  commit_parents = refl;
  refs = refl;
  branches = refl;
  artifacts = refl;
}

CoreSame-trans : {a b c : Database} → CoreSame a b → CoreSame b c → CoreSame a c
CoreSame-trans p q = record {
  objects = q.objects ∙ p.objects;
  commits = q.commits ∙ p.commits;
  commit_parents = q.commit_parents ∙ p.commit_parents;
  refs = q.refs ∙ p.refs;
  branches = q.branches ∙ p.branches;
  artifacts = q.artifacts ∙ p.artifacts;
}

-- Whether it returns or raises, the action leaves the core tables alone.
pub record Frames {ℓ} {A : Type ℓ} (m : M A) : Type ℓ where
  pub at : (s : Store) → CoreSame s.db (m s).1.db

module _ {ℓ κ} {A : Type ℓ} {B : Type κ} where
  continue-Frames :
      (r : Result A) (f : A → M B)
      → ((a : A) → Frames (f a))
      → (s : Store) → CoreSame s.db (continue r f s).1.db
  continue-Frames (ok a) f h s = (h a).at s
  continue-Frames (err e) f h s = CoreSame-refl s.db

  Frames-bind : (m : M A) (f : A → M B) → Frames m → ((a : A) → Frames (f a)) → Frames (m >>= f)
  unfolding ◌>>=◌
  Frames-bind m f p h = record {
    at = λ s. CoreSame-trans (p.at s) (continue-Frames (m s).0 f h (m s).1);
  }

module _ {ℓ} {A : Type ℓ} where
  Frames-pure : (a : A) → Frames (pure a)
  unfolding pure
  Frames-pure a = record { at = λ s. CoreSame-refl s.db }

  Frames-query : (f : Database → A) → Frames (query f)
  unfolding query
  Frames-query f = record { at = λ s. CoreSame-refl s.db }

  Frames-lift : (r : Result A) → Frames (lift r)
  unfolding lift
  Frames-lift r = record { at = λ s. CoreSame-refl s.db }

  close-Frames :
      (before : Database) (r : Result A) (s : Store)
      → CoreSame before s.db
      → CoreSame before (close before r s).1.db
  close-Frames before (ok a) s h = h
  close-Frames before (err e) s h = CoreSame-refl before

  Frames-tx : (m : M A) → Frames m → Frames (tx m)
  unfolding tx
  Frames-tx m p = record {
    at = λ s.
        let s' = record s { savepoint = s.savepoint + 1 } in
        close-Frames s.db (m s').0 (m s').1 (p.at s');
  }

Frames-require : (b : Bool) (e : Error) → Frames (require b e)
unfolding require
Frames-require true e = record { at = λ s. CoreSame-refl s.db }
Frames-require false e = record { at = λ s. CoreSame-refl s.db }

Frames-tick : Frames tick
unfolding tick
Frames-tick = record { at = λ s. CoreSame-refl s.db }

Frames-if : (b : Bool) (m n : M (Unit {0})) → Frames m → Frames n → Frames (if b then m else n)
Frames-if true m n p q = p
Frames-if false m n p q = q

Frames-modify :
    (f : Database → Database) → ((db : Database) → CoreSame db (f db)) → Frames (modify f)
unfolding modify
Frames-modify f h = record { at = λ s. h s.db }

insert_edge-frames : (e : EdgeRow) (db : Database) → CoreSame db (insert_edge e db)
insert_edge-frames e db = record {
  objects = refl;
  commits = refl;
  commit_parents = refl;
  refs = refl;
  branches = refl;
  artifacts = refl;
}

with_claims-frames :
    (db : Database) (claims : List ClaimRow) → CoreSame db (record db { claims = claims })
with_claims-frames db claims = record {
  objects = refl;
  commits = refl;
  commit_parents = refl;
  refs = refl;
  branches = refl;
  artifacts = refl;
}

ruleset frame_rules = (
  Frames-bind, Frames-pure, Frames-query, Frames-lift, Frames-tx, Frames-require, Frames-tick,
  Frames-if, Frames-modify, insert_edge-frames, with_claims-frames,
)

module _ (host : Host) where
  Frames-add_edge :
      (fk fi tk ti rel created : Text) → Frames (add_edge host fk fi tk ti rel created)
  unfolding add_edge fresh_id
  Frames-add_edge fk fi tk ti rel created = search frame_rules depth 9

  Frames-claim_row :
      (cid aid created text : Text) (existing : Option ClaimRow)
      → Frames (claim_row host cid aid created text existing)
  unfolding claim_row fresh_id
  Frames-claim_row cid aid created text (some row) = search frame_rules
  Frames-claim_row cid aid created text none = search frame_rules depth 9

  Frames-source_edge :
      (claim created : Text) (source : Option Text) → Frames (source_edge host claim created source)
  unfolding source_edge
  Frames-source_edge claim created none = search frame_rules
  Frames-source_edge claim created (some source) = search (frame_rules, Frames-add_edge)

  Frames-capture_claims :
      (cid aid created : Text) (source : Option Text) (texts : List Text)
      → Frames (capture_claims host cid aid created source texts)
  unfolding capture_claims
  Frames-capture_claims cid aid created source [] = search frame_rules
  Frames-capture_claims cid aid created source (text ∷ texts) =
      Frames-bind (query (find_claim cid text)) _ (Frames-query (find_claim cid text)) λ existing.
        Frames-bind (claim_row host cid aid created text existing) _
          (Frames-claim_row cid aid created text existing)
          λ claim.
            Frames-bind
              (add_edge host (codes "commit") cid (codes "claim") claim (codes "states") created) _
              (Frames-add_edge (codes "commit") cid (codes "claim") claim (codes "states") created)
              λ _.
                Frames-bind (source_edge host claim created source) _
                  (Frames-source_edge claim created source)
                  (λ _. Frames-capture_claims cid aid created source texts)

  Frames-read_file : (p : Text × Text) → Frames (read_file host p)
  unfolding read_file
  Frames-read_file p = record { at = λ s. ground arith }

  Frames-get_blob : (oid : Text) (verify : Bool) → Frames (get_blob host oid verify)
  unfolding get_blob
  Frames-get_blob oid verify = search (frame_rules, Frames-read_file) depth 9

  Frames-capture_text : (c : CommitRow) (a : ArtifactRow) → Frames (capture_text host c a)
  unfolding capture_text
  Frames-capture_text c a = search (frame_rules, Frames-get_blob, Frames-capture_claims) depth 9

  Frames-capture_row : (row : Option (CommitRow × ArtifactRow)) → Frames (capture_row host row)
  unfolding capture_row
  Frames-capture_row none = search frame_rules
  Frames-capture_row (some (c, a)) =
      search (frame_rules, Frames-add_edge, Frames-capture_text) depth 9

  -- Capturing a commit's claims changes none of the core tables, whether it returns or raises.
  pub Frames-capture_commit : (cid : Text) → Frames (capture_commit host cid)
  unfolding capture_commit
  Frames-capture_commit cid = search (frame_rules, Frames-capture_row)
