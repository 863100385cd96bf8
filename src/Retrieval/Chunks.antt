-- ===== src/Retrieval/Chunks.antt =====
-- The chunkers of prose, chats and PDFs in backend/src/retrieval/chunkers.py.
pub mod Entries
pub mod Indexed
pub mod Prose
pub mod Complete
use re_git.Base.{
  ℕ, zero, suc, ◌+◌, Bool, true, false, ◌&&◌, ◌||◌, not, Option, none, some, Text, codes, List, [],
  ◌∷◌, ◌++◌, map, length, take, is_space, is_empty, strip, join, decimal, get_or, ltb, leb, ◌==◌,
  if◌then◌else◌,
}
use re_git.Diff.Align.{TextLib, short_hash}
use re_git.Diff.Split.{split_paragraphs, split_sentences}
use re_git.Diff.Prose.{Located, flatten, sid_of, texts, nowhere}
use re_git.Retrieval.Windows.{windows, texts_at}

pub record Chunk : Type 0 where
  pub chunk_id : Text
  pub artifact_id : Text
  pub branch : Text
  pub kind : Text
  pub text : Text
  pub sids : List Text
  pub sid_range : Text

-- What the chunkers take from the libraries: the text functions, `round(0.10 * step)`, and a list of
-- strings as JSON.
pub record ChunkLib : Type 0 where
  pub text_lib : TextLib
  pub rounded_tenth : ℕ → ℕ
  pub json_list : List Text → Text

abbrev pub md_max_chars : ℕ
md_max_chars = 600

abbrev pub pdf_max_chars : ℕ
pdf_max_chars = 800

-- #{1,6}\s+\S after `hashes` marks: `_HEADING_RE`
unfoldable pub is_heading_from : ℕ → Bool → Text → Bool
is_heading_from hashes spaced [] = false
is_heading_from hashes true (c ∷ s) =
    let rest = is_heading_from hashes true s in if is_space c then rest else true
is_heading_from hashes false (c ∷ s) =
    let mark = is_heading_from (suc hashes) false s in
    let space = is_heading_from hashes true s in
    if c == b'#' then ltb hashes 6 && mark else leb 1 hashes && is_space c && space

unfoldable pub is_heading : Text → Bool
unfolding is_heading_from
is_heading paragraph = is_heading_from 0 false paragraph

-- [A-Za-z0-9]
unfoldable pub is_alnum : ℕ → Bool
is_alnum c = leb b'A' c && leb c b'Z' || leb b'a' c && leb c b'z' || leb b'0' c && leb c b'9'

-- re.sub(r"[^A-Za-z0-9]+", "-", s): `in_run` says that the run's dash stands already.
unfoldable pub dashed : Text → Bool → Text
unfolding is_alnum
dashed [] in_run = []
dashed (c ∷ s) in_run =
    let here = c ∷ dashed s false in
    let rest = dashed s true in if is_alnum c then here else (if in_run then rest else b'-' ∷ rest)

-- s.strip("-")
unfoldable pub lstrip_dashes : Text → Text
lstrip_dashes [] = []
lstrip_dashes (c ∷ s) = let rest = lstrip_dashes s in if c == b'-' then rest else c ∷ s

unfoldable pub rstrip_dashes : Text → Text
rstrip_dashes [] = []
rstrip_dashes (c ∷ s) = elim (rstrip_dashes s) [
  | [] ↦ if c == b'-' then [] else c ∷ []
  | d ∷ t ↦ c ∷ d ∷ t
]

abbrev pub or_doc : Text → Text
or_doc s = if is_empty s then codes "doc" else s

-- The indices of the paragraphs that are headings, counted from `pi`.
unfoldable pub headings_from : ℕ → List Text → List ℕ
unfolding is_heading
headings_from pi [] = []
headings_from pi (p ∷ paras) =
    let rest = headings_from (suc pi) paras in if is_heading p then pi ∷ rest else rest

-- A section: its path, its first paragraph and the paragraph after its last.
pub record Section : Type 0 where
  pub path : Text
  pub first : ℕ
  pub after : ℕ

-- [... for pi, si, s in grid if p_start <= pi < p_end]
unfoldable pub within : ℕ → ℕ → List Located → List Located
within first after [] = []
within first after (l ∷ grid) =
    let rest = within first after grid in
    if leb first l.para && ltb l.para after then l ∷ rest else rest

-- A message of a chat and a page of a PDF, as the canonical payload has them.
pub record ChatMessage : Type 0 where
  pub ord : ℕ
  pub role : Text
  pub text : Text

pub record Page : Type 0 where
  pub n : ℕ
  pub paragraphs : List Text

module _ (lib : ChunkLib) where
  unfoldable pub chunk : Text → Text → Text → Text → Text → List Text → Chunk
  chunk chunk_id artifact_id branch kind text sids = record {
    chunk_id = chunk_id;
    artifact_id = artifact_id;
    branch = branch;
    kind = kind;
    text = text;
    sids = sids;
    sid_range = lib.json_list sids;
  }

  unfoldable pub art_short : Text → Text
  art_short artifact_id = take 8 (short_hash lib.text_lib artifact_id)

  unfoldable pub slug : Text → Text
  unfolding dashed lstrip_dashes rstrip_dashes
  slug path =
      or_doc (rstrip_dashes (lstrip_dashes (dashed (lib.text_lib.lower (strip path)) false)))

  -- f"{_art_short(artifact_id)}:{branch}:{base_id}"
  unfoldable pub id_of : Text → Text → Text → Text
  id_of artifact_id branch base_id = art_short artifact_id ++ b':' ∷ (branch ++ b':' ∷ base_id)

  -- f"#{w_i}" if len(windows) > 1 else ""
  unfoldable pub window_suffix : ℕ → ℕ → Text
  window_suffix count w_i = if ltb 1 count then b'#' ∷ decimal w_i else []

  -- f"{artifact_id}:{pi}:{si}"
  unfoldable pub prose_sid : Text → Located → Text
  prose_sid artifact_id l = artifact_id ++ b':' ∷ sid_of l

  -- The chunks of the windows from the `w_i`-th on, of `count` windows in all. The indices are in range.
  unfoldable pub window_chunks :
      Text → Text → Text → Text → List Located → ℕ → ℕ → List (List ℕ) → List Chunk
  unfolding chunk id_of window_suffix prose_sid
  window_chunks artifact_id branch kind base_id grid count w_i [] = []
  window_chunks artifact_id branch kind base_id grid count w_i (idxs ∷ rest) =
      chunk (id_of artifact_id branch (base_id ++ window_suffix count w_i)) artifact_id branch kind
        (join (32 ∷ []) (texts_at (texts grid) idxs))
        (map (λ i. prose_sid artifact_id (get_or grid i nowhere)) idxs)
      ∷ window_chunks artifact_id branch kind base_id grid count (suc w_i) rest

  -- `_split_windows`
  unfoldable pub split_windows : Text → Text → Text → Text → List Located → ℕ → (ℕ → ℕ) → List Chunk
  split_windows artifact_id branch kind base_id grid max_chars rounded =
      let ws = windows (texts grid) max_chars rounded in
      window_chunks artifact_id branch kind base_id grid (length ws) 0 ws

  -- The sections that start at headings: each ends at the next heading, or at paragraph `count`.
  unfoldable pub heading_sections : List Text → ℕ → List ℕ → List Section
  heading_sections paras count [] = []
  heading_sections paras count (hp ∷ headings) =
      record { path = slug (get_or paras hp []); first = hp; after = get_or headings 0 count }
      ∷ heading_sections paras count headings

  -- The text before the first heading is a section if there is any.
  unfoldable pub sections : List Text → List ℕ → List Section
  unfolding heading_sections
  sections paras headings =
      let first = get_or headings 0 0 in
      let rest = heading_sections paras (length paras) headings in
      if ltb 0 first
      then record { path = codes "preamble"; first = 0; after = first } ∷ rest
      else rest

  unfoldable pub section_chunks : Text → Text → List Located → List Section → List Chunk
  section_chunks artifact_id branch grid [] = []
  section_chunks artifact_id branch grid (s ∷ rest) =
      split_windows artifact_id branch (codes "md") s.path (within s.first s.after grid)
        md_max_chars lib.rounded_tenth
      ++ section_chunks artifact_id branch grid rest

  unfoldable pub chunk_markdown : Text → Text → Text → List Chunk
  chunk_markdown text artifact_id branch =
      let paras = split_paragraphs text in
      let grid = flatten paras in
      let headings = headings_from 0 paras in
      if is_empty headings
      then split_windows artifact_id branch (codes "md") (codes "doc") grid md_max_chars
          lib.rounded_tenth
      else section_chunks artifact_id branch grid (sections paras headings)

  unfoldable pub chunk_message : Text → Text → ChatMessage → Chunk
  unfolding chunk id_of
  chunk_message artifact_id branch m =
      let place = codes "msg:" ++ (decimal m.ord ++ b':' ∷ m.role) in
      chunk (id_of artifact_id branch place) artifact_id branch (codes "chat")
        (m.role ++ (codes ": " ++ m.text)) ((artifact_id ++ b':' ∷ place) ∷ [])

  unfoldable pub chunk_chat : List ChatMessage → Text → Text → List Chunk
  chunk_chat messages artifact_id branch = map (chunk_message artifact_id branch) messages
