-- ===== src/Retrieval/Documents.antt =====
-- The chunker of PDFs and `chunk_document` of backend/src/retrieval/chunkers.py.
use re_git.Base.{ℕ, suc, Option, Text, codes, List, [], ◌∷◌, ◌++◌, map, length, decimal}
use re_git.Diff.Split.{split_sentences}
use re_git.Retrieval.Windows.{windows, texts_at}
use re_git.Retrieval.Chunks.{
  Chunk, ChunkLib, ChatMessage, Page, chunk, id_of, window_suffix, pdf_max_chars, chunk_markdown,
  chunk_chat,
}
use re_git.Base.{join}
use re_git.Retrieval.Code.{SourceFile}
use re_git.Retrieval.Grammar.{Child, chunk_code}

-- A canonical payload with its kind; a key that is missing in the code's dict is the empty list or
-- text here. `other` has the kind and the payload as `str` writes it.
pub data Payload : Type 0 where
  document : Text → Payload
  chat : List ChatMessage → Payload
  pdf : List Page → Payload
  codebase : List SourceFile → Payload
  code_file : SourceFile → Payload
  other : Text → Text → Payload

module _ (lib : ChunkLib) where
  -- The windows of a paragraph of a PDF, which has its own sids.
  unfoldable pub pdf_chunks : Text → Text → Text → List Text → ℕ → ℕ → List (List ℕ) → List Chunk
  pdf_chunks artifact_id branch place sents count w_i [] = []
  pdf_chunks artifact_id branch place sents count w_i (idxs ∷ rest) =
      chunk lib (id_of lib artifact_id branch (place ++ window_suffix lib count w_i)) artifact_id
        branch (codes "pdf") (join (32 ∷ []) (texts_at sents idxs))
        (map (λ si. artifact_id ++ b':' ∷ (place ++ b':' ∷ decimal si)) idxs)
      ∷ pdf_chunks artifact_id branch place sents count (suc w_i) rest

  -- The paragraphs of the page `n` from the `pidx`-th on; round(0.0 * step) is 0.
  unfoldable pub chunk_paragraphs : Text → Text → ℕ → ℕ → List Text → List Chunk
  unfolding pdf_chunks
  chunk_paragraphs artifact_id branch n pidx [] = []
  chunk_paragraphs artifact_id branch n pidx (ptext ∷ paras) =
      let sents = split_sentences ptext in
      let ws = windows sents pdf_max_chars (λ step. 0) in
      pdf_chunks artifact_id branch (b'p' ∷ (decimal n ++ b':' ∷ decimal pidx)) sents (length ws) 0
        ws
      ++ chunk_paragraphs artifact_id branch n (suc pidx) paras

  unfoldable pub chunk_pdf : List Page → Text → Text → List Chunk
  unfolding chunk_paragraphs
  chunk_pdf [] artifact_id branch = []
  chunk_pdf (page ∷ pages) artifact_id branch =
      chunk_paragraphs artifact_id branch page.n 0 page.paragraphs
      ++ chunk_pdf pages artifact_id branch

  module _ (parse : Text → Option (List Child)) where
    unfoldable pub chunk_files : List SourceFile → Text → Text → List Chunk
    chunk_files [] artifact_id branch = []
    chunk_files (f ∷ files) artifact_id branch =
        chunk_code lib parse f.text f.path artifact_id branch
        ++ chunk_files files artifact_id branch

    unfoldable pub chunk_document : Payload → Text → Text → List Chunk
    unfolding chunk_files
    chunk_document (document text) artifact_id branch = chunk_markdown lib text artifact_id branch
    chunk_document (chat messages) artifact_id branch = chunk_chat lib messages artifact_id branch
    chunk_document (pdf pages) artifact_id branch = chunk_pdf pages artifact_id branch
    chunk_document (codebase files) artifact_id branch = chunk_files files artifact_id branch
    chunk_document (code_file f) artifact_id branch =
        chunk_code lib parse f.text f.path artifact_id branch
    chunk_document (other kind payload) artifact_id branch =
        chunk lib (id_of lib artifact_id branch (codes "all")) artifact_id branch kind payload
          ((artifact_id ++ codes ":all") ∷ [])
        ∷ []
