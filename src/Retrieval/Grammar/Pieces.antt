-- ===== src/Retrieval/Grammar/Pieces.antt =====
-- The pieces of a long definition.
use re_git.Base.{
  ℕ, zero, suc, ◌+◌, ◌-◌, ◌≤◌, ◌<◌, ◌≡◌, sym, ap, ◌∙◌, Bool-cases, inl, inr, Option, none, some,
  Text, List, [], ◌∷◌, ◌++◌, take, drop, slice-append, ltb, leb, ltb→lt, arith,
}
use re_git.Retrieval.Grammar.{slice, find_from, past_line, advance, piece_end, Piece, pieces}

past_line-le :
    (stop : ℕ) (o : Option ℕ) (go_on : ℕ → ℕ × ℕ)
    → ((b : ℕ) → b ≤ stop → (go_on b).0 ≤ stop)
    → (past_line stop o go_on).0 ≤ stop
unfolding past_line
past_line-le stop none go_on h = omega arith
past_line-le stop (some nl) go_on h = elim (Bool-cases (ltb stop (nl + 1))) [
  | inl out ↦ rw out (omega arith)
  | inr inside ↦ rw inside (h (nl + 1) (ground arith))
]

advance-le :
    (source : Text) (stop lines end_byte : ℕ)
    → end_byte ≤ stop
    → (advance source stop lines end_byte).0 ≤ stop
unfolding advance
advance-le source stop zero end_byte h = h
advance-le source stop (suc lines) end_byte h = elim (Bool-cases (leb stop end_byte)) [
  | inl done ↦ rw done h
  | inr goes ↦ rw goes (
      past_line-le stop (find_from (drop end_byte source) end_byte) (advance source stop lines)
        (λ b k. advance-le source stop lines b k))
]

piece_end-bounds :
    (source : Text) (stop max_lines start : ℕ)
    → start < stop
    → (start < piece_end source stop max_lines start)
      × (piece_end source stop max_lines start ≤ stop)
unfolding piece_end
piece_end-bounds source stop max_lines start h =
    (ground arith, ground (arith, advance-le source stop max_lines start))

-- The source between the ends of the pieces.
unfoldable pub texts_of : Text → List Piece → Text
texts_of source [] = []
texts_of source (p ∷ rest) = slice source p.start p.end ++ texts_of source rest

slice-empty : (source : Text) (lo hi : ℕ) → hi ≤ lo → slice source lo hi ≡ []
unfolding slice
slice-empty source lo hi h =
    let e : hi - lo ≡ 0 = omega arith in ap (λ k. take k (drop lo source)) e

-- A definition that is cut by lines is cut into pieces that make it up again, in order: the loops end,
-- and no byte between the start and the end is lost or repeated.
pub pieces-texts_of :
    (source name : Text) (stop max_lines rounds start : ℕ)
    → stop ≤ start + rounds
    → texts_of source (pieces source name stop max_lines rounds start) ≡ slice source start stop
unfolding pieces texts_of slice
pieces-texts_of source name stop max_lines zero start h =
    sym (slice-empty source start stop (omega arith))
pieces-texts_of source name stop max_lines (suc rounds) start h =
    elim (Bool-cases (ltb start stop)) [
      | inr done ↦ rw done (sym (slice-empty source start stop (ground arith)))
      | inl on ↦
          let bounds = piece_end-bounds source stop max_lines start (ltb→lt start stop on) in
          let end = piece_end source stop max_lines start in
          rw on (
            ap (λ r. slice source start end ++ r)
              (pieces-texts_of source name stop max_lines rounds end (omega (arith, bounds)))
            ∙ slice-append source start end stop (omega (arith, bounds)) (omega (arith, bounds)))
    ]
