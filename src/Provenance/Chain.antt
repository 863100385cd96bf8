-- ===== src/Provenance/Chain.antt =====
-- The search of `get_claim` ends, and it finds what is joined to the claim.
use re_git.Base.{
  ℕ, zero, suc, ◌+◌, ◌≤◌, ◌≡◌, ◌↔◌, inl, inr, refl, sym, ap, ◌∙◌, Bool, true, false, ◌||◌,
  Bool-cases, Option, some, Text, List, [], ◌∷◌, ◌++◌, map, codes, length, length-append, arith,
}
use re_git.Store.Rows.{EdgeRow, ClaimRow, Database}
use re_git.Store.Graph.Reach.{either}
use re_git.Provenance.Ends.{
  key_eq_iff, has_key-append, HasEdge, of_origins, of_targets, to_origins, to_targets, open_ends,
  open_ends-le, open_ends-cons,
}
use re_git.Provenance.{
  claim_answer, Key, key_eq, has_key, origins, targets, chain_from, chain_of, onto, find_claim_row,
  link, with_chain, get_claim,
}

-- The ends of the edges at a node.
abbrev neighbours : List EdgeRow → Key → List Key
neighbours edges k = origins k edges ++ targets k edges

-- A path of edges, followed in either direction, leads from `start` to a node.
pub data Joins (edges : List EdgeRow) (start : Key) : Key → Type 0 where
  here : Joins edges start start
  forward : {a b : Key} → Joins edges start a → HasEdge a b edges → Joins edges start b
  backward : {a b : Key} → Joins edges start a → HasEdge b a edges → Joins edges start b

along :
    (edges : List EdgeRow) (start a b : Key)
    → Joins edges start a
    → has_key b (neighbours edges a) ≡ true
    → Joins edges start b
along edges start a b j h =
    elim (either (has_key b (origins a edges)) (has_key b (targets a edges))
      (sym (has_key-append b (origins a edges) (targets a edges)) ∙ h)) [
        | inl from ↦ backward j (of_origins b a edges from)
        | inr to ↦ forward j (of_targets a b edges to)
      ]

or_true : (a : Bool) → (a || true) ≡ true
or_true true = refl
or_true false = refl

module _ (edges : List EdgeRow) (start : Key) where
  -- What holds of `seen` and `q` at the head of the loop.
  record IsSearch (seen q : List Key) : Type 0 where
    seen_sound : (x : Key) → has_key x seen ≡ true → Joins edges start x
    queue_sound : (x : Key) → has_key x q ≡ true → Joins edges start x
    closed :
        (b c : Key)
        → has_key b seen ≡ true
        → has_key c (neighbours edges b) ≡ true
        → (has_key c seen || has_key c q) ≡ true
    started : (has_key start seen || has_key start q) ≡ true

  IsSearch-start : IsSearch [] (start ∷ [])
  unfolding has_key
  IsSearch-start = record {
    seen_sound = λ x h. cc;
    queue_sound = λ x h. elim (either (key_eq start x) false h) [
      | inl e ↦ rw (sym ((key_eq_iff start x).0 e)) here
      | inr other ↦ cc
    ];
    closed = λ b c h p. cc;
    started = ground (arith, key_eq_iff start start);
  }

  IsSearch-skip :
      (k : Key) (seen q : List Key)
      → has_key k seen ≡ true
      → IsSearch seen (k ∷ q)
      → IsSearch seen q
  unfolding has_key
  IsSearch-skip k seen q old w = record {
    seen_sound = w.seen_sound;
    queue_sound = λ x h. w.queue_sound x (ground (arith, h));
    closed = λ b c h p. ground (arith, w.closed b c h p, key_eq_iff k c, old, at_same k c seen);
    started = ground (arith, w.started, old, at_same k start seen);
  }
    where
      at_same : (k x : Key) (seen : List Key) → key_eq k x ≡ true → has_key x seen ≡ has_key k seen
      at_same k x seen e = ap (λ y. has_key y seen) (sym ((key_eq_iff k x).0 e))

  IsSearch-visit :
      (k : Key) (seen q : List Key)
      → IsSearch seen (k ∷ q)
      → IsSearch (k ∷ seen) (q ++ neighbours edges k)
  unfolding has_key
  IsSearch-visit k seen q w =
      let reached : Joins edges start k = w.queue_sound k (ground (arith, key_eq_iff k k)) in
      record {
        seen_sound = λ x h. elim (either (key_eq k x) (has_key x seen) h) [
          | inl e ↦ rw (sym ((key_eq_iff k x).0 e)) reached
          | inr old ↦ w.seen_sound x old
        ];
        queue_sound = λ x h.
            elim (either (has_key x q) (has_key x (neighbours edges k))
              (sym (has_key-append x q (neighbours edges k)) ∙ h)) [
                | inl old ↦ w.queue_sound x (ground (arith, old))
                | inr new ↦ along edges start k x reached new
              ];
        closed = λ b c h p.
            rw (has_key-append c q (neighbours edges k))
              (elim (either (key_eq k b) (has_key b seen) h) [
                | inl e ↦
                    let next : has_key c (neighbours edges k) ≡ true =
                      ap (λ y. has_key c (neighbours edges y)) ((key_eq_iff k b).0 e) ∙ p in
                    ground (arith, next)
                | inr old ↦ ground (arith, w.closed b c old p)
              ]);
        started = rw (has_key-append start q (neighbours edges k)) (ground (arith, w.started));
      }

  closed-Joins :
      (seen : List Key) → IsSearch seen [] → (x : Key) → Joins edges start x → has_key x seen ≡ true
  unfolding has_key
  closed-Joins seen w x here = ground (arith, w.started)
  closed-Joins seen w x (forward {a} {b} j e) =
      let next =
        has_key-append b (origins a edges) (targets a edges)
        ∙ ap (λ c. has_key b (origins a edges) || c) (to_targets a b edges e)
        ∙ or_true (has_key b (origins a edges)) in
      ground (arith, w.closed a b (closed-Joins seen w a j) next)
  closed-Joins seen w x (backward {a} {b} j e) =
      let next =
        has_key-append b (origins a edges) (targets a edges)
        ∙ ap (λ c. c || has_key b (targets a edges)) (to_origins b a edges e) in
      ground (arith, w.closed a b (closed-Joins seen w a j) next)

  -- The loop ends, and what it has seen by then are the nodes that are joined to the start.
  abbrev Ends : List Key → Option (List Key) → Type 0
  Ends seen o =
      (keys : List Key) × (o ≡ some keys)
      × ((x : Key) → ((has_key x seen || has_key x keys) ≡ true) ↔ Joins edges start x)

  chain_from-Ends :
      (fuel : ℕ) (seen q : List Key)
      → length q + open_ends seen edges ≤ fuel
      → IsSearch seen q
      → Ends seen (chain_from edges fuel seen q)
  unfolding chain_from has_key
  chain_from-Ends fuel seen [] enough w = (
    [],
    refl,
    λ x. (λ h. w.seen_sound x (ground (arith, h)), λ j. ground (arith, closed-Joins seen w x j)),
  )
  chain_from-Ends zero seen (k ∷ q) enough w = ground arith
  chain_from-Ends (suc fuel) seen (k ∷ q) enough w = elim (Bool-cases (has_key k seen)) [
    | inl old ↦
        rw (chain_from, old)
          (chain_from-Ends fuel seen q (omega (arith, enough)) (IsSearch-skip k seen q old w))
    | inr new ↦
        let rest =
          chain_from-Ends fuel (k ∷ seen) (q ++ neighbours edges k)
            (omega (
              arith,
              enough,
              length-append q (neighbours edges k),
              length-append (origins k edges) (targets k edges),
              open_ends-cons k seen edges new,
            ))
            (IsSearch-visit k seen q w) in
        rw (chain_from, new)
          (
            k ∷ rest.0,
            ap (onto k) rest.1,
            λ x. (λ h. (rest.2 x).0 (ground (arith, h)), λ j. ground (arith, (rest.2 x).1 j)),
          )
  ]

chain_of-Joins :
    (edges : List EdgeRow) (start : Key)
    → (keys : List Key) × (chain_of edges start ≡ some keys)
      × ((x : Key) → (has_key x keys ≡ true) ↔ Joins edges start x)
unfolding chain_of has_key
chain_of-Joins edges start =
    chain_from-Ends edges start (suc (length edges + length edges)) [] (start ∷ [])
      (omega (arith, open_ends-le edges)) (IsSearch-start edges start)

-- For a claim that has a row, `get_claim` ends and returns the row and a chain, whose nodes are exactly
-- those that a path of rows of the edge table, each followed from either of its ends to the other, joins
-- to the claim.
pub get_claim-Joins :
    (db : Database) (claim_id : Text) (row : ClaimRow)
    → find_claim_row claim_id db ≡ some row
    → (keys : List Key) × (get_claim db claim_id ≡ some (some (row, map (link db) keys)))
      × ((x : Key)
          → (has_key x keys ≡ true) ↔ Joins db.provenance_edges (codes "claim", claim_id) x)
unfolding get_claim
get_claim-Joins db claim_id row e =
    let found = chain_of-Joins db.provenance_edges (codes "claim", claim_id) in
    (found.0, ap (claim_answer db claim_id) e ∙ ap (with_chain db row) found.1, found.2)
