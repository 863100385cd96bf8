-- ===== src/Retrieval/Chunks/Complete.antt =====
-- No sentence of a prose document is lost on the way to its chunks.
use re_git.Base.{
  ℕ, suc, ◌≤◌, ◌<◌, ◌≡◌, refl, ◌∙◌, Bool, true, false, ◌||◌, ◌&&◌, Text, codes, List, [], ◌∷◌,
  length, get_or, ltb, leb, is_empty, if◌then◌else◌, All, arith,
}
use re_git.Diff.Split.{split_paragraphs}
use re_git.Diff.Prose.{Located, flatten, texts, nowhere}
use re_git.Diff.Prose.Grid.{IsGrid, flatten-IsGrid}
use re_git.Retrieval.Windows.{windows}
use re_git.Retrieval.Windows.Cover.{windows-Covers}
use re_git.Retrieval.Chunks.{
  Chunk, ChunkLib, Section, chunk, prose_sid, md_max_chars, headings_from, within, window_chunks,
  split_windows, heading_sections, sections, section_chunks, chunk_markdown,
}
use re_git.Retrieval.Chunks.Indexed.{
  is_indexed, is_indexed-append, in_some, Covers-in_some, contains-map, either_one,
}
use re_git.Retrieval.Chunks.Entries.{length-map, All-of, All-everywhere, All-both, of_within}

module _ (lib : ChunkLib) (artifact_id branch : Text) where
  window_chunks-in_some :
      (kind base_id : Text) (grid : List Located) (count w_i k : ℕ) (ws : List (List ℕ))
      → in_some k ws ≡ true
      → is_indexed
          (prose_sid lib artifact_id (get_or grid k nowhere))
          (window_chunks lib artifact_id branch kind base_id grid count w_i ws)
        ≡ true
  unfolding window_chunks chunk is_indexed in_some
  window_chunks-in_some kind base_id grid count w_i k [] h = cc h
  window_chunks-in_some kind base_id grid count w_i k (idxs ∷ ws) h = ground (
    arith,
    contains-map (λ i. prose_sid lib artifact_id (get_or grid i nowhere)) k idxs,
    window_chunks-in_some kind base_id grid count (suc w_i) k ws,
  )

  split_windows-indexed :
      (kind base_id : Text) (grid : List Located) (max_chars : ℕ) (rounded : ℕ → ℕ) (k : ℕ)
      → k < length grid
      → is_indexed
          (prose_sid lib artifact_id (get_or grid k nowhere))
          (split_windows lib artifact_id branch kind base_id grid max_chars rounded)
        ≡ true
  unfolding split_windows
  split_windows-indexed kind base_id grid max_chars rounded k h =
      let e = length-map (λ (l : Located). l.text) grid in
      window_chunks-in_some kind base_id grid _ 0 k (windows (texts grid) max_chars rounded) (
        Covers-in_some (length (texts grid)) 0 k _
          (windows-Covers (texts grid) max_chars rounded (omega (arith, e, h))) (omega arith)
          (omega (arith, e, h)))

  abbrev Indexed : List Chunk → Located → Type 0
  Indexed chunks l = is_indexed (prose_sid lib artifact_id l) chunks ≡ true

  split_windows-All :
      (kind base_id : Text) (grid : List Located) (max_chars : ℕ) (rounded : ℕ → ℕ)
      → All
          (Indexed (split_windows lib artifact_id branch kind base_id grid max_chars rounded))
          grid
  split_windows-All kind base_id grid max_chars rounded =
      All-of (Indexed _) grid (split_windows-indexed kind base_id grid max_chars rounded)

  -- The section has the paragraph.
  abbrev has_para : Section → ℕ → Bool
  has_para s p = leb s.first p && ltb p s.after

  in_sections : List Section → ℕ → Bool
  in_sections [] p = false
  in_sections (s ∷ ss) p = has_para s p || in_sections ss p

  section_chunks-Indexed :
      (grid : List Located) (ss : List Section)
      → All
          (λ l.
            in_sections ss l.para ≡ true
            → Indexed (section_chunks lib artifact_id branch grid ss) l)
          grid
  unfolding section_chunks in_sections
  section_chunks-Indexed grid [] = All-everywhere _ grid (λ l h. cc h)
  section_chunks-Indexed grid (s ∷ ss) =
      let first =
        split_windows lib artifact_id branch (codes "md") s.path (within s.first s.after grid)
          md_max_chars lib.rounded_tenth in
      let others = section_chunks lib artifact_id branch grid ss in
      All-both (λ l. has_para s l.para ≡ true → Indexed first l)
        (λ l. in_sections ss l.para ≡ true → Indexed others l) _ grid
        (of_within (Indexed first) s.first s.after grid (
          split_windows-All (codes "md") s.path (within s.first s.after grid) md_max_chars
            lib.rounded_tenth))
        (section_chunks-Indexed grid ss)
        (λ l here later h.
          is_indexed-append (prose_sid lib artifact_id l) first others
          ∙ either_one _ _ _ _ here later h)

  heading_sections-cover :
      (paras : List Text) (count p : ℕ) (headings : List ℕ)
      → get_or headings 0 count ≤ p
      → p < count
      → in_sections (heading_sections lib paras count headings) p ≡ true
  unfolding heading_sections in_sections
  heading_sections-cover paras count p [] h l = ground arith
  heading_sections-cover paras count p (hp ∷ headings) h l =
      ground (arith, heading_sections-cover paras count p headings)

  sections-cover :
      (paras : List Text) (headings : List ℕ) (p : ℕ)
      → is_empty headings ≡ false
      → p < length paras
      → in_sections (sections lib paras headings) p ≡ true
  unfolding sections in_sections
  sections-cover paras [] p e l = cc e
  sections-cover paras (hp ∷ headings) p e l =
      ground (arith, heading_sections-cover paras (length paras) p (hp ∷ headings))

  in_range :
      {count lower : ℕ} (grid : List Located)
      → IsGrid count lower grid
      → All (λ l. l.para < count) grid
  in_range [] h = tt
  in_range (l ∷ grid) (IsGrid.next _ _ _ p q r) = (q, in_range grid r)

  -- Every sentence of a prose document is in a chunk: its sid is among the sids that some chunk covers.
  pub chunk_markdown-indexed :
      (text : Text)
      → All
          (λ l.
            is_indexed (prose_sid lib artifact_id l) (chunk_markdown lib text artifact_id branch)
            ≡ true)
          (flatten (split_paragraphs text))
  unfolding chunk_markdown
  chunk_markdown-indexed text =
      let paras = split_paragraphs text in
      let headings = headings_from 0 paras in go (is_empty headings) refl
    where
      go :
          (b : Bool)
          → is_empty (headings_from 0 (split_paragraphs text)) ≡ b
          → All
              (Indexed (
                if b
                then split_windows lib artifact_id branch
                    (codes "md")
                    (codes "doc")
                    (flatten (split_paragraphs text))
                    md_max_chars
                    lib.rounded_tenth
                else section_chunks lib artifact_id branch (flatten (split_paragraphs text)) (
                    sections lib
                      (split_paragraphs text)
                      (headings_from 0 (split_paragraphs text)))))
              (flatten (split_paragraphs text))
      go true e =
          split_windows-All (codes "md") (codes "doc") (flatten (split_paragraphs text))
            md_max_chars lib.rounded_tenth
      go false e =
          let paras = split_paragraphs text in
          let ss = sections lib paras (headings_from 0 paras) in
          All-both (λ l. l.para < length paras)
            (λ l.
              in_sections ss l.para ≡ true
              → Indexed (section_chunks lib artifact_id branch (flatten paras) ss) l)
            _ (flatten paras) (in_range (flatten paras) (flatten-IsGrid paras))
            (section_chunks-Indexed (flatten paras) ss)
            (λ l p h. h (sections-cover paras (headings_from 0 paras) l.para e p))
