-- ===== src/Retrieval/Grammar.antt =====
-- `_code_chunks_from_tree` and `chunk_code` of backend/src/retrieval/chunkers.py, over the nodes that
-- tree-sitter gives.
pub mod Pieces
use re_git.Base.{
  length, map, is_empty, decimal, ltb, leb, not, ◌++◌, codes, ℕ, zero, suc, ◌+◌, ◌-◌, Bool, true,
  false, ◌&&◌, ◌||◌, not, Option, none, some, Text, text_eq, codes, List, [], ◌∷◌, ◌++◌, length,
  take, drop, is_empty, strip, decimal, ltb, leb, ◌==◌, if◌then◌else◌,
}
use re_git.Store.Graph.{contains}
use re_git.Retrieval.Chunks.{Chunk, ChunkLib, chunk, id_of}
use re_git.Retrieval.Code.{code_max_lines, fallback}

-- What the code reads of a node: its type, its name, its bytes from start to end, and its lines.
pub record Node : Type 0 where
  pub type : Text
  pub name : Option Text
  pub start_byte : ℕ
  pub end_byte : ℕ
  pub start_line : ℕ
  pub end_line : ℕ

-- A definition with its named children, and a child of the root with the definition that it decorates.
pub record Outer : Type 0 where
  pub node : Node
  pub named_children : List Node

pub record Child : Type 0 where
  pub own : Outer
  pub definition : Option Outer

-- `_DEF_NODE_TYPES`
unfoldable pub is_def : Text → Bool
is_def type =
    text_eq type (codes "function_definition")
    || text_eq type (codes "class_definition")
    || text_eq type (codes "decorated_definition")

unfoldable pub qualified_name : Node → Text
qualified_name node = elim node.name [ none ↦ codes "<anon>" | some name ↦ name ]

unfoldable pub node_lines : Node → ℕ
node_lines node = node.end_line - node.start_line + 1

-- The definition that a child of the root stands for.
unfoldable pub real_of : Child → Outer
real_of child =
    if text_eq child.own.node.type (codes "decorated_definition")
    then elim child.definition [ none ↦ child.own | some d ↦ d ]
    else child.own

unfoldable pub keep_defs : List Node → List Node
unfolding is_def
keep_defs [] = []
keep_defs (n ∷ nodes) = let rest = keep_defs nodes in if is_def n.type then n ∷ rest else rest

-- source[start:end]
unfoldable pub slice : Text → ℕ → ℕ → Text
slice source start end = take (end - start) (drop start source)

-- source.find("\n", from), where `at` is the index of the rest.
unfoldable pub find_from : Text → ℕ → Option ℕ
find_from [] at = none
find_from (c ∷ rest) at = let later = find_from rest (suc at) in if c == 10 then some at else later

-- A round of the inner loop, for the newline that was found: the line is passed, and the loop goes on
-- from the next byte, unless the line runs on behind `stop`.
unfoldable pub past_line : ℕ → Option ℕ → (ℕ → ℕ × ℕ) → ℕ × ℕ
past_line stop none go_on = (stop, 0)
past_line stop (some nl) go_on =
    let rest = go_on (nl + 1) in if ltb stop (nl + 1) then (stop, 0) else (rest.0, rest.1 + 1)

-- The inner loop: the end of up to `lines` lines from the byte `end_byte` on, but not behind `stop`,
-- and how many lines were passed.
unfoldable pub advance : Text → ℕ → ℕ → ℕ → ℕ × ℕ
unfolding find_from past_line
advance source stop zero end_byte = (end_byte, 0)
advance source stop (suc lines) end_byte =
    let further =
      past_line stop (find_from (drop end_byte source) end_byte) (advance source stop lines) in
    if leb stop end_byte then (end_byte, 0) else further

-- A part of a definition: its name, and its bytes.
pub record Piece : Type 0 where
  pub qname : Text
  pub start : ℕ
  pub end : ℕ

-- if end_byte <= start_byte: end_byte = real.end_byte
unfoldable pub piece_end : Text → ℕ → ℕ → ℕ → ℕ
unfolding advance
piece_end source stop max_lines start =
    let end_byte = (advance source stop max_lines start).0 in
    if leb end_byte start then stop else end_byte

-- The outer loop, from the byte `start` on; every piece has a byte, so a round for each is enough.
unfoldable pub pieces : Text → Text → ℕ → ℕ → ℕ → ℕ → List Piece
pieces source name stop max_lines zero start = []
pieces source name stop max_lines (suc rounds) start =
    let passed = (advance source stop max_lines start).1 in
    let end = piece_end source stop max_lines start in
    let rest = pieces source name stop max_lines rounds end in
    if ltb start stop
    then record { qname = name ++ b'#' ∷ decimal passed; start = start; end = end } ∷ rest
    else []

-- What the definition `real` is cut into.
unfoldable pub cut : Text → ℕ → Outer → List Piece
cut source max_lines real =
    let node = real.node in
    let name = qualified_name node in
    let inner = keep_defs real.named_children in
    if leb (node_lines node) max_lines
    then record { qname = name; start = node.start_byte; end = node.end_byte } ∷ []
    else (if is_empty inner
        then pieces source name node.end_byte max_lines (node.end_byte - node.start_byte)
            node.start_byte
        else map
            (λ sub. record {
              qname = name ++ b'.' ∷ qualified_name sub;
              start = sub.start_byte;
              end = sub.end_byte;
            })
            inner)

unfoldable pub cut_all : Text → ℕ → List Child → List Piece
unfolding cut is_def real_of
cut_all source max_lines [] = []
cut_all source max_lines (child ∷ children) =
    let rest = cut_all source max_lines children in
    if is_def child.own.node.type then cut source max_lines (real_of child) ++ rest else rest

-- cid, with a suffix if it is in the set of ids
unfoldable pub unique_id : List Text → Text → Text
unique_id ids cid = if contains cid ids then cid ++ b'#' ∷ decimal (length ids) else cid

-- ids.add(cid)
unfoldable pub add_id : List Text → Text → List Text
add_id ids cid = if contains cid ids then ids else cid ∷ ids

module _ (lib : ChunkLib) where
  -- `emit` for each piece in turn, where `ids` is the set of the ids so far.
  unfoldable pub emit : Text → Text → Text → Text → List Text → List Piece → List Chunk
  unfolding unique_id add_id slice
  emit source file_path artifact_id branch ids [] = []
  emit source file_path artifact_id branch ids (p ∷ rest) =
      let place = file_path ++ (codes "::" ++ p.qname) in
      let cid = unique_id ids (id_of lib artifact_id branch place) in
      chunk lib cid artifact_id branch (codes "code") (slice source p.start p.end)
        ((artifact_id ++ b':' ∷ place) ∷ [])
      ∷ emit source file_path artifact_id branch (add_id ids cid) rest

  -- `parse` has the children of the root, if tree-sitter is installed and parses the source.
  unfoldable pub chunk_code : (Text → Option (List Child)) → Text → Text → Text → Text → List Chunk
  unfolding emit cut_all
  chunk_code parse source file_path artifact_id branch = elim (parse source) [
    | some children ↦
        emit source file_path artifact_id branch [] (cut_all source code_max_lines children)
    | none ↦ fallback lib source file_path artifact_id branch
  ]
