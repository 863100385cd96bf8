-- ===== src/Diff/Tests.antt =====
-- Runs of the diff engine, and its theorems at concrete documents.
use re_git.Base.Utf8.{encode}
use re_git.Base.{
  ℕ, ◌≡◌, ◌≤◌, refl, ◌&&◌, ◌||◌, Text, codes, text_eq, List, [], ◌∷◌, map, leb, decimal, range,
  SameItems, All,
}
use re_git.Diff.Ops.{equal, delete, insert, olds, news, equals}
use re_git.Diff.Split.{split_paragraphs, split_sentences, normalize}
use re_git.Diff.Lcs.{lcs_backtrack}
use re_git.Diff.Lcs.Length.{Common}
use re_git.Diff.Lcs.Optimal.{Walks, lcs_backtrack_optimal}
use re_git.Diff.Align.{TextLib, hashes, align}
use re_git.Diff.Align.Coverage.{olds-align, news-align, align-IsJustified}
use re_git.Diff.Classify.{
  classify, classify_loop, flush, is_identical_run, emit_equals, emit_deletes, emit_delete,
  emit_inserts, partner, is_matched, pair_up, best_delete, better, similarity_of, no_best,
}
use re_git.Diff.Classify.Kinds.{IsJustified}
use re_git.Diff.Prose.{flatten, sid_prefix, diff_prose}
use re_git.Diff.Prose.Coverage.{old_side, entry, old_side-diff_prose}
use re_git.Diff.Prose.Same.{unchanged_entry, diff_prose-same}

decimal_example : decimal 1207 ≡ codes "1207"
unfolding decimal
decimal_example = refl

paragraphs_example :
    split_paragraphs (codes " a b \n \n\n c\nd\n\n  ") ≡ codes "a b" ∷ codes "c\nd" ∷ []
unfolding split_paragraphs
paragraphs_example = refl

sentences_example :
    split_sentences (codes "One, e.g. this. Two!  (Three) is? four.")
    ≡ codes "One, e.g. this." ∷ codes "Two!" ∷ codes "(Three) is? four." ∷ []
unfolding split_sentences
sentences_example = refl

-- Letters and digits as word characters, texts as their own hashes, no similarity.
abbrev pub plain_lib : TextLib
plain_lib = record {
  lower = λ t. t;
  is_word = λ c. leb b'a' c && leb c b'z' || leb b'A' c && leb c b'Z' || leb b'0' c && leb c b'9';
  sha1 = λ t. t;
  ratio = λ s t. 0;
}

abbrev old_lines : List Text
old_lines = codes "a" ∷ codes "b" ∷ codes "c" ∷ []

abbrev new_lines : List Text
new_lines = codes "b" ∷ codes "x" ∷ codes "c!" ∷ []

align_run : align plain_lib old_lines new_lines ≡ delete 0 ∷ equal 1 0 ∷ insert 1 ∷ equal 2 2 ∷ []
unfolding align hashes normalize lcs_backtrack classify classify_loop flush is_identical_run
    emit_equals emit_deletes emit_delete emit_inserts partner is_matched pair_up best_delete better
    similarity_of no_best text_eq encode
align_run = refl

olds-align_example : olds (align plain_lib old_lines new_lines) ≡ range 3
olds-align_example = olds-align plain_lib old_lines new_lines

news-align_example : SameItems (news (align plain_lib old_lines new_lines)) (range 3)
news-align_example = news-align plain_lib old_lines new_lines

align-IsJustified_example :
    All
      (IsJustified plain_lib.ratio old_lines new_lines
        (hashes plain_lib old_lines)
        (hashes plain_lib new_lines))
      (align plain_lib old_lines new_lines)
align-IsJustified_example = align-IsJustified plain_lib old_lines new_lines

abbrev two_hashes : List Text
two_hashes = codes "a" ∷ codes "b" ∷ []

abbrev one_hash : List Text
one_hash = codes "b" ∷ []

lcs_backtrack_optimal_example :
    Walks two_hashes one_hash 0 0 (lcs_backtrack two_hashes one_hash)
    × Common two_hashes one_hash 2 1 (equals (lcs_backtrack two_hashes one_hash))
    × ((k : ℕ) → Common two_hashes one_hash 2 1 k → k ≤ equals (lcs_backtrack two_hashes one_hash))
lcs_backtrack_optimal_example = lcs_backtrack_optimal two_hashes one_hash

abbrev pub old_document : Text
old_document = codes "One. Two."

abbrev pub new_document : Text
new_document = codes "One. Three."

old_side-diff_prose_example :
    old_side (diff_prose plain_lib old_document new_document (codes "art_1"))
    ≡ map (entry (sid_prefix (codes "art_1"))) (flatten (split_paragraphs old_document))
old_side-diff_prose_example =
    old_side-diff_prose plain_lib old_document new_document (codes "art_1")

diff_prose-same_example :
    diff_prose plain_lib old_document old_document []
    ≡ map (unchanged_entry (sid_prefix [])) (flatten (split_paragraphs old_document))
diff_prose-same_example = diff_prose-same plain_lib old_document []
