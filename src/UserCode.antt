-- ===== src/UserCode.antt =====
-- Two bolts of user-code/WordCountTopology: SplitSentenceBolt (the class EchoBolt of
-- SplitSentenceBolt.cpp), which splits lines into words, and WordCountBolt, which counts words. A
-- tuple with no field has `data[0]` past its end; the functions take the empty text there. An `int`
-- is its 32 bits as a natural number.
pub mod Counts
pub mod WordCount
pub mod Words
use cranesps.Base.{
  ℕ, ◌+◌, ◌%◌, Bool, true, false, ◌&&◌, ◌||◌, List, [], ◌∷◌, ◌++◌, ltb, ◌==◌, if◌then◌else◌,
}
use cranesps.Base.Bytes.{bytes_key}
use cranesps.Base.StdMap.{set, at_or}
use cranesps.Worker.Send.{Tuple}
use cranesps.Worker.Child.{TopologyNode}

abbrev pub first_field : Tuple → List ℕ
first_field t = elim t.fields [ [] ↦ [] | str ∷ _ ↦ str ]

-- `std::isspace` of the C locale.
abbrev pub is_space : ℕ → Bool
is_space c = (ltb 8 c && ltb c 14) || (c == 32)

-- `istream_iterator<std::string>`: the words of a text, and the word that is being read.
unfoldable pub words_from : List ℕ → List ℕ → List (List ℕ)
words_from [] [] = []
words_from (x ∷ xs) [] = (x ∷ xs) ∷ []
words_from [] (c ∷ cs) =
    let skipped = words_from [] cs in
    let begun = words_from (c ∷ []) cs in if is_space c then skipped else begun
words_from (x ∷ xs) (c ∷ cs) =
    let ended = words_from [] cs in
    let grown = words_from ((x ∷ xs) ++ c ∷ []) cs in if is_space c then (x ∷ xs) ∷ ended else grown

unfoldable pub next_id : ℕ → ℕ
next_id id = (id + 1) % 4294967296

-- WordCountTopology/SplitSentenceBolt.cpp.
unfoldable pub word_tuples : ℕ → List (List ℕ) → List Tuple
word_tuples id [] = []
word_tuples id (token ∷ tokens) =
    record { id = next_id id; fields = token ∷ [] } ∷ word_tuples (next_id id) tokens

-- A bolt has no `nextTuple`; the worker calls it for spouts only.
abbrev pub no_tuple : Tuple
no_tuple = record { id = 0; fields = [] }

abbrev pub split_sentence_bolt : TopologyNode (Unit {0})
split_sentence_bolt = record {
  run_on_tuple = λ n t. (n, word_tuples t.id (words_from [] (first_field t)));
  next_tuple = λ n. (n, no_tuple);
}

-- WordCountTopology/WordCountBolt.cpp; `to_string` is std::to_string.
abbrev pub Counters : Type 0
Counters = List (List ℕ × ℕ)

abbrev pub count_word : List ℕ → Counters → ℕ
count_word word counts = (at_or word 0 counts + 1) % 4294967296

abbrev pub word_count_bolt : (ℕ → List ℕ) → TopologyNode Counters
word_count_bolt to_string = record {
  run_on_tuple = λ counts t.
      let word = first_field t in
      (
        set word (count_word word counts) counts,
        record { id = next_id t.id; fields = word ∷ to_string (count_word word counts) ∷ [] } ∷ [],
      );
  next_tuple = λ counts. (counts, no_tuple);
}
