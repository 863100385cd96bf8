-- ===== src/Retrieval/Chunks/Prose.antt =====
-- The chunks of prose are short.
use re_git.Base.{
  ℕ, suc, ◌≤◌, ◌≡◌, sym, ◌∙◌, ◌⊎◌, inl, inr, Bool, true, false, Text, codes, List, [], ◌∷◌, length,
  is_empty, if◌then◌else◌, All, All-append,
}
use re_git.Diff.Split.{split_paragraphs}
use re_git.Diff.Prose.{Located, flatten, texts}
use re_git.Diff.Prose.Grid.{IsFull, flatten-IsFull}
use re_git.Retrieval.Chunks.Entries.{length-map, All-within}
use re_git.Retrieval.Windows.{windows, texts_at}
use re_git.Retrieval.Windows.Limits.{IsShort, windows-IsShort}
use re_git.Retrieval.Chunks.{
  Chunk, ChunkLib, Section, chunk, md_max_chars, headings_from, within, window_chunks,
  split_windows, sections, section_chunks, chunk_markdown,
}

-- A chunk with a text that is no longer than allowed, or of a single sentence.
abbrev pub IsSmall : ℕ → Chunk → Type 0
IsSmall max_chars c = (length c.sids ≡ 1) ⊎ (length c.text ≤ max_chars)

All-texts : (grid : List Located) → All IsFull grid → All (λ s. 1 ≤ length s) (texts grid)
All-texts [] h = tt
All-texts (l ∷ grid) h = (h.0, All-texts grid h.1)

module _ (lib : ChunkLib) (artifact_id branch kind : Text) where
  window_chunks-IsSmall :
      (base_id : Text) (grid : List Located) (max_chars count w_i : ℕ) (ws : List (List ℕ))
      → All (λ idxs. IsShort max_chars (texts_at (texts grid) idxs)) ws
      → All
          (IsSmall max_chars)
          (window_chunks lib artifact_id branch kind base_id grid count w_i ws)
  unfolding window_chunks chunk texts_at
  window_chunks-IsSmall base_id grid max_chars count w_i [] h = tt
  window_chunks-IsSmall base_id grid max_chars count w_i (idxs ∷ ws) h = (
    elim h.0 [
      | inl one ↦ inl (length-map _ idxs ∙ sym (length-map _ idxs) ∙ one)
      | inr short ↦ inr short
    ],
    window_chunks-IsSmall base_id grid max_chars count (suc w_i) ws h.1,
  )

  split_windows-IsSmall :
      (base_id : Text) (grid : List Located) (max_chars : ℕ) (rounded : ℕ → ℕ)
      → All IsFull grid
      → All
          (IsSmall max_chars)
          (split_windows lib artifact_id branch kind base_id grid max_chars rounded)
  unfolding split_windows
  split_windows-IsSmall base_id grid max_chars rounded h =
      window_chunks-IsSmall base_id grid max_chars _ 0 (windows (texts grid) max_chars rounded)
        (windows-IsShort (texts grid) max_chars rounded (All-texts grid h))

module _ (lib : ChunkLib) (artifact_id branch : Text) where
  section_chunks-IsSmall :
      (grid : List Located) (ss : List Section)
      → All IsFull grid
      → All (IsSmall md_max_chars) (section_chunks lib artifact_id branch grid ss)
  unfolding section_chunks
  section_chunks-IsSmall grid [] h = tt
  section_chunks-IsSmall grid (s ∷ ss) h =
      All-append (IsSmall md_max_chars)
        (split_windows lib artifact_id branch (codes "md") s.path (within s.first s.after grid)
          md_max_chars lib.rounded_tenth)
        (section_chunks lib artifact_id branch grid ss)
        (split_windows-IsSmall lib artifact_id branch (codes "md") s.path
          (within s.first s.after grid) md_max_chars lib.rounded_tenth
          (All-within IsFull s.first s.after grid h))
        (section_chunks-IsSmall grid ss h)

  -- Every chunk of a prose document has a text of at most 600 characters, or is a single sentence.
  pub chunk_markdown-IsSmall :
      (text : Text) → All (IsSmall 600) (chunk_markdown lib text artifact_id branch)
  unfolding chunk_markdown
  chunk_markdown-IsSmall text =
      let paras = split_paragraphs text in
      let grid = flatten paras in
      go (is_empty (headings_from 0 paras)) grid (sections lib paras (headings_from 0 paras))
        (flatten-IsFull paras)
    where
      go :
          (b : Bool) (grid : List Located) (ss : List Section)
          → All IsFull grid
          → All (IsSmall 600) (
              if b
              then split_windows lib artifact_id branch
                  (codes "md")
                  (codes "doc")
                  grid
                  md_max_chars
                  lib.rounded_tenth
              else section_chunks lib artifact_id branch grid ss)
      go true grid ss h =
          split_windows-IsSmall lib artifact_id branch (codes "md") (codes "doc") grid md_max_chars
            lib.rounded_tenth h
      go false grid ss h = section_chunks-IsSmall grid ss h
