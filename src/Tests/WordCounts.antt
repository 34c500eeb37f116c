-- ===== src/Tests/WordCounts.antt =====
-- Two splitters and two counting workers; a is the byte 97 and b is 98.
use cranesps.Base.{ℕ, ◌≡◌, refl, List, [], ◌∷◌, map, filter, ◌==◌, ◌%◌, if◌then◌else◌}
use cranesps.Base.Bytes.{bytes_eq, bytes_key}
use cranesps.Base.StdMap.{at_or}
use cranesps.Worker.Send.{Tuple, destination}
use cranesps.Worker.Send.Routes.{goes_to}
use cranesps.Worker.Child.Tuples.{run_all}
use cranesps.UserCode.{words_from, next_id, word_tuples, word_count_bolt}
use cranesps.UserCode.Counts.{place}
use cranesps.UserCode.Words.{blank, last, next}
use cranesps.UserCode.WordCount.{
  split, IsMerge, done, pull, here, there, hits, line_hits, all_hits, AreStreams, word_count_exact,
}

abbrev line : ℕ → List ℕ → Tuple
line id text = record { id = id; fields = text ∷ [] }

abbrev streams : List (List Tuple)
streams = (line 0 (97 ∷ 32 ∷ 98 ∷ 32 ∷ 97 ∷ []) ∷ []) ∷ (line 7 (32 ∷ 97 ∷ 10 ∷ []) ∷ []) ∷ []

abbrev word : ℕ → List ℕ → Tuple
word id w = record { id = id; fields = w ∷ [] }

abbrev a : List ℕ
a = 97 ∷ []

abbrev b : List ℕ
b = 98 ∷ []

abbrev words : List Tuple
words = word 1 a ∷ word 8 a ∷ word 2 b ∷ word 3 a ∷ []

merged : IsMerge (map split streams) words
unfolding run_all words_from word_tuples next_id
merged = pull _ _ _ _ (here _ _ _) (
    pull _ _ _ _ (there _ _ _ _ (here _ _ _))
      (pull _ _ _ _ (here _ _ _) (pull _ _ _ _ (here _ _ _) (done _ (refl, (refl, tt))))))

abbrev texts : List (List (List (List ℕ)))
texts = ((a ∷ b ∷ a ∷ []) ∷ []) ∷ ((a ∷ []) ∷ []) ∷ []

read : AreStreams texts streams
read = (
  (
    (
      _,
      _,
      refl,
      next [] 97 [] 32 (b ∷ a ∷ []) (98 ∷ 32 ∷ 97 ∷ []) tt (refl, tt) refl
          (next [] 98 [] 32 (a ∷ []) a tt (refl, tt) refl (last [] 97 [] tt (refl, tt))),
    ),
    tt,
  ),
  (((_, _, refl, next (32 ∷ []) 97 [] 10 [] [] (refl, tt) (refl, tt) refl (blank [] tt)), tt), tt),
)

three : all_hits a texts ≡ 3
unfolding all_hits line_hits hits bytes_eq
three = refl

word_count_exact_example :
    at_or a 0
      (run_all
        (word_count_bolt (λ count. count ∷ []))
        []
        (filter (λ t. goes_to (destination 2 t) 1) words)).0
    ≡ (if place a 1 == 1 then all_hits a texts % 4294967296 else 0)
word_count_exact_example =
    word_count_exact (λ count. count ∷ []) 1 1 a texts streams words read merged
