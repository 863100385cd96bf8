-- ===== src/Store/Graph/Reach.antt =====
-- `ancestors` finds the commits that parent edges reach.
use re_git.Base.{
  ℕ, zero, suc, ◌+◌, ◌≤◌, ◌≡◌, ◌↔◌, ◌⊎◌, inl, inr, refl, sym, ◌∙◌, Bool, true, false, ◌||◌, Option,
  some, Bool-cases, Text, text_eq, text_eq_iff, List, [], ◌∷◌, ◌++◌, arith, length, length-append,
}
use re_git.Store.Rows.{ParentRow, Database}
use re_git.Store.Graph.{Edges, parents_map, parents_of, contains, walk, ancestors}
use re_git.Store.Graph.Edges.{
  row_parents, is_parent, contains-row_parents, contains-append, parents_of-parents_map, open_rows,
  open_rows-le, open_rows-cons,
}

-- A chain of parent edges leads from `start` to a commit.
pub data Reaches (rows : List ParentRow) (start : Text) : Text → Type 0 where
  here : Reaches rows start start
  up :
      {child parent : Text}
      → Reaches rows start child
      → is_parent child parent rows ≡ true
      → Reaches rows start parent

pub either : (a b : Bool) → (a || b) ≡ true → (a ≡ true) ⊎ (b ≡ true)
either true b h = inl refl
either false b h = inr h

module _ (rows : List ParentRow) (start : Text) where
  -- What holds of `seen` and `q` at the head of the loop.
  record IsWalk (seen q : List Text) : Type 0 where
    pub seen_sound : (x : Text) → contains x seen ≡ true → Reaches rows start x
    pub queue_sound : (x : Text) → contains x q ≡ true → Reaches rows start x
    pub closed :
        (b c : Text)
        → contains b seen ≡ true
        → is_parent b c rows ≡ true
        → (contains c seen || contains c q) ≡ true
    pub started : (contains start seen || contains start q) ≡ true

  IsWalk-skip :
      (node : Text) (seen q : List Text)
      → contains node seen ≡ true
      → IsWalk seen (node ∷ q)
      → IsWalk seen q
  unfolding contains
  IsWalk-skip node seen q old w = record {
    seen_sound = w.seen_sound;
    queue_sound = λ x h. w.queue_sound x (ground (arith, h));
    closed = λ b c h p. ground (arith, w.closed b c h p, text_eq_iff node c, old);
    started = ground (arith, w.started, text_eq_iff node start, old);
  }

  IsWalk-visit :
      (node : Text) (seen q : List Text)
      → IsWalk seen (node ∷ q)
      → IsWalk (node ∷ seen) (q ++ row_parents node rows)
  unfolding contains
  IsWalk-visit node seen q w =
      let found : Reaches rows start node =
        w.queue_sound node (ground (arith, text_eq_iff node node)) in
      record {
        seen_sound = λ x h. elim (either (text_eq node x) (contains x seen) h) [
          | inl e ↦ rw (sym ((text_eq_iff node x).0 e)) found
          | inr old ↦ w.seen_sound x old
        ];
        queue_sound = λ x h.
            elim (either (contains x q) (contains x (row_parents node rows))
              (sym (contains-append x q (row_parents node rows)) ∙ h)) [
                | inl old ↦ w.queue_sound x (ground (arith, old))
                | inr new ↦ up found (sym (contains-row_parents node x rows) ∙ new)
              ];
        closed = λ b c h p.
            rw (contains-append c q (row_parents node rows), contains-row_parents node c rows)
              (elim (either (text_eq node b) (contains b seen) h) [
                | inl e ↦ ground (arith, (text_eq_iff node b).0 e, p)
                | inr old ↦ ground (arith, w.closed b c old p)
              ]);
        started = rw (contains-append start q (row_parents node rows)) (ground (arith, w.started));
      }

  -- With as much fuel as there are entries in the queue and rows to follow, the loop ends, and it
  -- ends with the commits that the start reaches.
  abbrev Outcome : Option (List Text) → Type 0
  Outcome o =
      (seen : List Text) × (o ≡ some seen)
      × ((x : Text) → (contains x seen ≡ true) ↔ Reaches rows start x)

  IsWalk-start : IsWalk [] (start ∷ [])
  unfolding contains
  IsWalk-start = record {
    seen_sound = λ x h. cc;
    queue_sound = λ x h. elim (either (text_eq start x) false h) [
      | inl e ↦ rw (sym ((text_eq_iff start x).0 e)) here
      | inr other ↦ cc
    ];
    closed = λ b c h p. cc;
    started = ground (arith, text_eq_iff start start);
  }

  closed-Reaches :
      (seen : List Text)
      → IsWalk seen []
      → (x : Text) → Reaches rows start x
      → contains x seen ≡ true
  unfolding contains
  closed-Reaches seen w x here = ground (arith, w.started)
  closed-Reaches seen w x (up {child} {parent} r p) =
      ground (arith, w.closed child parent (closed-Reaches seen w child r) p)

  walk-Outcome :
      (edges : Edges)
      → ((node : Text) → parents_of edges node ≡ row_parents node rows)
      → (fuel : ℕ) (seen q : List Text) → length q + open_rows seen rows ≤ fuel
      → IsWalk seen q
      → Outcome (walk edges fuel seen q)
  unfolding walk
  walk-Outcome edges e fuel seen [] enough w =
      (seen, refl, λ x. (w.seen_sound x, closed-Reaches seen w x))
  walk-Outcome edges e zero seen (node ∷ q) enough w = ground arith
  walk-Outcome edges e (suc fuel) seen (node ∷ q) enough w =
      elim (Bool-cases (contains node seen)) [
        | inl old ↦
            rw (walk, old)
              (walk-Outcome edges e fuel seen q (omega (arith, enough))
                (IsWalk-skip node seen q old w))
        | inr new ↦
            rw (walk, new, e node)
              (walk-Outcome edges e fuel (node ∷ seen) (q ++ row_parents node rows)
                (omega (
                  arith,
                  enough,
                  length-append q (row_parents node rows),
                  open_rows-cons node seen rows new,
                ))
                (IsWalk-visit node seen q w))
      ]

-- `ancestors` ends, and what it returns are the commits that a chain of parent edges leads to, the
-- commit itself among them.
pub ancestors-Reaches :
    (db : Database) (commit_id : Text)
    → (seen : List Text) × (ancestors db commit_id ≡ some seen)
      × ((x : Text) → (contains x seen ≡ true) ↔ Reaches db.commit_parents commit_id x)
unfolding ancestors
ancestors-Reaches db commit_id =
    let rows = db.commit_parents in
    walk-Outcome rows commit_id (parents_map db) (λ node. parents_of-parents_map node db)
      (suc (length rows)) [] (commit_id ∷ []) (omega (arith, open_rows-le rows))
      (IsWalk-start rows commit_id)
