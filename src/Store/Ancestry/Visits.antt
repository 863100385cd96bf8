-- ===== src/Store/Ancestry/Visits.antt =====
-- `distances` ends, and its keys are the commits that parent edges reach.
use re_git.Base.{
  ℕ, zero, suc, ◌+◌, ◌≤◌, ◌≡◌, ◌↔◌, inl, inr, refl, sym, ◌∙◌, true, false, ◌||◌, Option, some,
  Bool-cases, Text, text_eq, text_eq_iff, List, [], ◌∷◌, ◌++◌, arith, length, length-append,
  if◌then◌else◌,
}
use re_git.Store.Rows.{ParentRow, Database}
use re_git.Store.Graph.{Edges, parents_map, parents_of, contains}
use re_git.Store.Graph.Edges.{
  row_parents, is_parent, contains-row_parents, contains-append, parents_of-parents_map,
}
use re_git.Store.Graph.Reach.{Reaches, here, up, either}
use re_git.Store.Ancestry.{Dist, known, dist_of, Search, touch, touch_all, search_from, distances}

-- How many entries of a list are not known.
unfoldable fresh : Dist → List Text → ℕ
fresh dist [] = 0
fresh dist (x ∷ xs) = (if known x dist then 0 else 1) + fresh dist xs

known-snoc :
    (x p : Text) (d : ℕ) (dist : Dist)
    → known x (dist ++ (p, d) ∷ []) ≡ (known x dist || text_eq p x)
unfolding known
known-snoc x p d [] = ground arith
known-snoc x p d ((k, e) ∷ dist) = ground (arith, known-snoc x p d dist)

fresh-le :
    (p : Text) (d : ℕ) (dist : Dist) (xs : List Text)
    → fresh (dist ++ (p, d) ∷ []) xs ≤ fresh dist xs
unfolding fresh
fresh-le p d dist [] = omega arith
fresh-le p d dist (x ∷ xs) = ground (arith, fresh-le p d dist xs, known-snoc x p d dist)

fresh-snoc :
    (p : Text) (d : ℕ) (dist : Dist) (xs : List Text)
    → known p dist ≡ false
    → contains p xs ≡ true
    → suc (fresh (dist ++ (p, d) ∷ []) xs) ≤ fresh dist xs
unfolding fresh contains
fresh-snoc p d dist [] h c = cc
fresh-snoc p d dist (x ∷ xs) h c = ground (
  arith,
  fresh-le p d dist xs,
  fresh-snoc p d dist xs h,
  known-snoc x p d dist,
  text_eq_iff x p,
  text_eq_iff p x,
)

-- What following the parents `ps` of a commit does to the search.
record Follows (all ps : List Text) (s t : Search) : Type 0 where
  pub known_eq : (x : Text) → known x t.dist ≡ (known x s.dist || contains x ps)
  pub keeps : (x : Text) → contains x s.queue ≡ true → contains x t.queue ≡ true
  pub new : (x : Text) → known x t.dist ≡ true → (known x s.dist || contains x t.queue) ≡ true
  pub queued : (x : Text) → contains x t.queue ≡ true → (contains x s.queue || contains x ps) ≡ true
  pub fuel : length t.queue + fresh t.dist all ≤ length s.queue + fresh s.dist all

module _ (all : List Text) where
  Follows-touch :
      (d : ℕ) (p : Text) (s : Search) → contains p all ≡ true → Follows all (p ∷ []) s (touch d p s)
  unfolding touch contains
  Follows-touch d p s in_all = elim (Bool-cases (known p s.dist)) [
    | inl old ↦ rw old (record {
      known_eq = λ x. ground (arith, old, text_eq_iff p x);
      keeps = λ x h. h;
      new = λ x h. ground (arith, h);
      queued = λ x h. ground (arith, h);
      fuel = omega arith;
    })
    | inr unknown ↦ rw unknown (record {
      known_eq = λ x. ground (arith, known-snoc x p d s.dist);
      keeps = λ x h. ground (arith, h, contains-append x s.queue (p ∷ []));
      new = λ x h. ground (arith, h, known-snoc x p d s.dist, contains-append x s.queue (p ∷ []));
      queued = λ x h. ground (arith, h, contains-append x s.queue (p ∷ []));
      fuel =
          omega (arith, fresh-snoc p d s.dist all unknown in_all, length-append s.queue (p ∷ []));
    })
  ]

  Follows-then :
      (p : Text) (ps : List Text) (s t u : Search)
      → Follows all (p ∷ []) s t
      → Follows all ps t u
      → Follows all (p ∷ ps) s u
  unfolding contains
  Follows-then p ps s t u f g = record {
    known_eq = λ x. ground (arith, f.known_eq x, g.known_eq x);
    keeps = λ x h. g.keeps x (f.keeps x h);
    new = λ x h. ground (arith, h, g.new x, f.new x, g.keeps x);
    queued = λ x h. ground (arith, h, g.queued x, f.queued x);
    fuel = omega (arith, f.fuel, g.fuel);
  }

  Follows-touch_all :
      (d : ℕ) (ps : List Text) (s : Search)
      → ((x : Text) → contains x ps ≡ true → contains x all ≡ true)
      → Follows all ps s (touch_all d ps s)
  unfolding touch_all contains
  Follows-touch_all d [] s sub = record {
    known_eq = λ x. ground arith;
    keeps = λ x h. h;
    new = λ x h. ground (arith, h);
    queued = λ x h. ground (arith, h);
    fuel = omega arith;
  }
  Follows-touch_all d (p ∷ ps) s sub =
      Follows-then p ps s (touch d p s) (touch_all d ps (touch d p s))
        (Follows-touch d p s (sub p (ground (arith, text_eq_iff p p))))
        (Follows-touch_all d ps (touch d p s) (λ x h. sub x (ground (arith, h))))

parent_ids : List ParentRow → List Text
parent_ids [] = []
parent_ids (r ∷ rows) = r.parent_id ∷ parent_ids rows

contains-parent_ids :
    (node x : Text) (rows : List ParentRow)
    → contains x (row_parents node rows) ≡ true
    → contains x (parent_ids rows) ≡ true
unfolding contains row_parents parent_ids
contains-parent_ids node x [] h = h
contains-parent_ids node x (r ∷ rows) h = ground (arith, h, contains-parent_ids node x rows)

fresh-parent_ids :
    (dist : Dist) (rows : List ParentRow) → fresh dist (parent_ids rows) ≤ length rows
unfolding fresh parent_ids
fresh-parent_ids dist [] = omega arith
fresh-parent_ids dist (r ∷ rows) = ground (arith, fresh-parent_ids dist rows)

module _ (rows : List ParentRow) (start : Text) where
  -- What holds of `dist` and `q` at the head of the loop.
  record IsSearch (dist : Dist) (q : List Text) : Type 0 where
    pub sound : (x : Text) → known x dist ≡ true → Reaches rows start x
    pub queue_known : (x : Text) → contains x q ≡ true → known x dist ≡ true
    pub closed :
        (b c : Text)
        → known b dist ≡ true
        → is_parent b c rows ≡ true
        → (known c dist || contains b q) ≡ true
    pub started : known start dist ≡ true

  IsSearch-start : IsSearch ((start, 0) ∷ []) (start ∷ [])
  unfolding known contains
  IsSearch-start = record {
    sound = λ x h. elim (either (text_eq start x) false h) [
      | inl e ↦ rw (sym ((text_eq_iff start x).0 e)) here
      | inr other ↦ cc
    ];
    queue_known = λ x h. h;
    closed = λ b c h p. ground (arith, h);
    started = ground (arith, text_eq_iff start start);
  }

  IsSearch-visit :
      (all : List Text) (node : Text) (dist : Dist) (q : List Text) (t : Search)
      → IsSearch dist (node ∷ q)
      → Follows all (row_parents node rows) (record { dist = dist; queue = q }) t
      → IsSearch t.dist t.queue
  unfolding contains
  IsSearch-visit all node dist q t w f =
      let found : Reaches rows start node =
        w.sound node (w.queue_known node (ground (arith, text_eq_iff node node))) in
      record {
        sound = λ x h.
            elim (either (known x dist) (contains x (row_parents node rows))
              (sym (f.known_eq x) ∙ h)) [
                | inl old ↦ w.sound x old
                | inr new ↦ up found (sym (contains-row_parents node x rows) ∙ new)
              ];
        queue_known = λ x h. ground (arith, h, f.queued x, f.known_eq x, w.queue_known x);
        closed = λ b c h p. elim (either (known b dist) (contains b t.queue) (f.new b h)) [
          | inl old ↦ ground (
            arith,
            w.closed b c old p,
            text_eq_iff node b,
            f.keeps b,
            f.known_eq c,
            contains-row_parents b c rows,
            p,
          )
          | inr queued ↦ ground (arith, queued)
        ];
        started = ground (arith, f.known_eq start, w.started);
      }

  closed-known :
      (dist : Dist) → IsSearch dist [] → (x : Text) → Reaches rows start x → known x dist ≡ true
  unfolding contains
  closed-known dist w x here = w.started
  closed-known dist w x (up {child} {parent} r p) =
      ground (arith, w.closed child parent (closed-known dist w child r) p)

  abbrev SearchOutcome : Option Dist → Type 0
  SearchOutcome o =
      (dist : Dist) × (o ≡ some dist) × ((x : Text) → (known x dist ≡ true) ↔ Reaches rows start x)

  search-outcome :
      (edges : Edges)
      → ((node : Text) → parents_of edges node ≡ row_parents node rows)
      → (fuel : ℕ) (dist : Dist) (q : List Text) → length q + fresh dist (parent_ids rows) ≤ fuel
      → IsSearch dist q
      → SearchOutcome (search_from edges fuel dist q)
  unfolding search_from
  search-outcome edges e fuel dist [] enough w =
      (dist, refl, λ x. (w.sound x, closed-known dist w x))
  search-outcome edges e zero dist (node ∷ q) enough w = ground arith
  search-outcome edges e (suc fuel) dist (node ∷ q) enough w =
      let d = dist_of dist node + 1 in
      let s : Search = record { dist = dist; queue = q } in
      let t = touch_all d (parents_of edges node) s in
      let f : Follows (parent_ids rows) (row_parents node rows) s t = rw (e node) (
        Follows-touch_all (parent_ids rows) d (row_parents node rows) s
          (λ x. contains-parent_ids node x rows)) in
      search-outcome edges e fuel t.dist t.queue (omega (arith, enough, f.fuel))
        (IsSearch-visit (parent_ids rows) node dist q t w f)

-- `distances` ends, and its keys are the commits that a chain of parent edges leads to.
pub distances-Reaches :
    (db : Database) (start : Text)
    → (dist : Dist) × (distances db start ≡ some dist)
      × ((x : Text) → (known x dist ≡ true) ↔ Reaches db.commit_parents start x)
unfolding distances
distances-Reaches db start =
    let rows = db.commit_parents in
    search-outcome rows start (parents_map db) (λ node. parents_of-parents_map node db)
      (suc (length rows)) ((start, 0) ∷ []) (start ∷ [])
      (omega (arith, fresh-parent_ids ((start, 0) ∷ []) rows)) (IsSearch-start rows start)
