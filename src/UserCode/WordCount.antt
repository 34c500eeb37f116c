-- ===== src/UserCode/WordCount.antt =====
-- The word count topology as a whole: lines, the words of several splitters as they come, and the
-- counters of the worker that they go to.
use cranesps.Base.{
  ℕ, ◌+◌, ◌%◌, ◌≡◌, refl, sym, ap, ◌∙◌, List, [], ◌∷◌, ◌++◌, ◌==◌, filter, All, map, map, arith,
  if◌then◌else◌, suc,
}
use cranesps.Base.Bytes.{bytes_eq, bytes_key}
use cranesps.Base.StdMap.{lookup, at_or}
use cranesps.Worker.Send.{Tuple, destination}
use cranesps.Worker.Send.Routes.{goes_to, HasFirst}
use cranesps.Worker.Child.Tuples.{run_all}
use cranesps.UserCode.{
  first_field, words_from, next_id, word_tuples, split_sentence_bolt, word_count_bolt,
}
use cranesps.UserCode.Words.{IsText, words_from-IsText}
use cranesps.UserCode.Counts.{occurs, place, occurs-filter, counters_lem}

-- How often a word is in a list of words, and in the lines of a stream.
unfoldable pub hits : List ℕ → List (List ℕ) → ℕ
hits w [] = 0
hits w (x ∷ xs) = let rest = hits w xs in if bytes_eq x w then suc rest else rest

unfoldable pub line_hits : List ℕ → List (List (List ℕ)) → ℕ
line_hits w [] = 0
line_hits w (ws ∷ lines) = hits w ws + line_hits w lines

unfoldable pub all_hits : List ℕ → List (List (List (List ℕ))) → ℕ
all_hits w [] = 0
all_hits w (s ∷ ss) = line_hits w s + all_hits w ss

-- The tuples carry, in their first fields, lines of the given words.
abbrev pub AreLines : List (List (List ℕ)) → List Tuple → Type 0
AreLines [] [] = Unit
AreLines (ws ∷ lines) (t ∷ ts) =
    ((text : List ℕ) × (more : List (List ℕ)) × (t.fields ≡ text ∷ more) × IsText ws text)
    × AreLines lines ts
AreLines _ _ = ⊥

abbrev pub AreStreams : List (List (List (List ℕ))) → List (List Tuple) → Type 0
AreStreams [] [] = Unit
AreStreams (lines ∷ rest) (s ∷ ss) = AreLines lines s × AreStreams rest ss
AreStreams _ _ = ⊥

occurs-append : (w : List ℕ) (a b : List Tuple) → occurs w (a ++ b) ≡ occurs w a + occurs w b
unfolding occurs
occurs-append w [] b = omega arith
occurs-append w (t ∷ a) b = ground (arith, occurs-append w a b)

occurs-word_tuples :
    (w : List ℕ) (id : ℕ) (tokens : List (List ℕ))
    → occurs w (word_tuples id tokens) ≡ hits w tokens
unfolding occurs hits word_tuples
occurs-word_tuples w id [] = refl
occurs-word_tuples w id (x ∷ xs) = ground (arith, occurs-word_tuples w (next_id id) xs)

-- The words that a splitter sends for its lines.
abbrev pub split : List Tuple → List Tuple
split lines = (run_all split_sentence_bolt tt lines).1

occurs-split :
    (w : List ℕ) (lines : List (List (List ℕ))) (ts : List Tuple)
    → AreLines lines ts
    → occurs w (split ts) ≡ line_hits w lines
unfolding run_all line_hits occurs
occurs-split w [] [] a = refl
occurs-split w [] (t ∷ ts) a = elim a [ ]
occurs-split w (ws ∷ lines) [] a = elim a [ ]
occurs-split w (ws ∷ lines) (t ∷ ts) ((text, more, is, read), a) =
    let tokens = words_from [] (first_field t) in
    let same : tokens ≡ ws =
      ap (words_from []) (ap (λ fs. elim fs [ [] ↦ [] | str ∷ _ ↦ str ]) is)
      ∙ words_from-IsText ws text read in
    omega (
      arith,
      occurs-append w (word_tuples t.id tokens) (split ts),
      occurs-word_tuples w t.id tokens,
      ap (hits w) same,
      occurs-split w lines ts a,
    )

All-append : (a b : List Tuple) → All HasFirst a → All HasFirst b → All HasFirst (a ++ b)
All-append [] b h k = k
All-append (t ∷ a) b h k = (h.0, All-append a b h.1 k)

word_tuples-HasFirst : (id : ℕ) (tokens : List (List ℕ)) → All HasFirst (word_tuples id tokens)
unfolding word_tuples
word_tuples-HasFirst id [] = tt
word_tuples-HasFirst id (x ∷ xs) = ((x, [], refl), word_tuples-HasFirst (next_id id) xs)

split-HasFirst : (lines : List Tuple) → All HasFirst (split lines)
unfolding run_all
split-HasFirst [] = tt
split-HasFirst (t ∷ ts) =
    All-append (word_tuples t.id (words_from [] (first_field t))) (split ts)
      (word_tuples-HasFirst t.id (words_from [] (first_field t))) (split-HasFirst ts)

-- A tuple is the next of one of the streams.
pub data Pick : List (List Tuple) → Tuple → List (List Tuple) → Type 0 where
  here : (t : Tuple) (s : List Tuple) (ss : List (List Tuple)) → Pick ((t ∷ s) ∷ ss) t (s ∷ ss)
  there :
      (t : Tuple) (s : List Tuple) (ss ss' : List (List Tuple))
      → Pick ss t ss'
      → Pick (s ∷ ss) t (s ∷ ss')

-- The streams of several workers as one, in any order that keeps each.
pub data IsMerge : List (List Tuple) → List Tuple → Type 0 where
  done : (ss : List (List Tuple)) → All (λ s. s ≡ []) ss → IsMerge ss []
  pull :
      (ss ss' : List (List Tuple)) (t : Tuple) (out : List Tuple)
      → Pick ss t ss'
      → IsMerge ss' out
      → IsMerge ss (t ∷ out)

unfoldable pub total : List ℕ → List (List Tuple) → ℕ
total w [] = 0
total w (s ∷ ss) = occurs w s + total w ss

total-done : (w : List ℕ) (ss : List (List Tuple)) → All (λ s. s ≡ []) ss → total w ss ≡ 0
unfolding total occurs
total-done w [] a = refl
total-done w (s ∷ ss) a =
    let empty : occurs w s ≡ 0 = ap (occurs w) a.0 in omega (arith, empty, total-done w ss a.1)

total-Pick :
    (w : List ℕ) (ss ss' : List (List Tuple)) (t : Tuple)
    → Pick ss t ss'
    → total w ss ≡ occurs w (t ∷ []) + total w ss'
unfolding total occurs
total-Pick w _ _ t (here _ s ss) = ground arith
total-Pick w _ _ t (there _ s ss ss' p) = omega (arith, total-Pick w ss ss' t p)

occurs-merge :
    (w : List ℕ) (ss : List (List Tuple)) (out : List Tuple)
    → IsMerge ss out
    → occurs w out ≡ total w ss
unfolding occurs
occurs-merge w _ _ (done ss a) = sym (total-done w ss a)
occurs-merge w _ _ (pull ss ss' t out p m) =
    let next = occurs-append w (t ∷ []) out in
    omega (arith, next, total-Pick w ss ss' t p, occurs-merge w ss' out m)

HasFirst-Pick :
    (ss ss' : List (List Tuple)) (t : Tuple)
    → Pick ss t ss'
    → All (All HasFirst) ss
    → HasFirst t × All (All HasFirst) ss'
HasFirst-Pick _ _ t (here _ s ss) a = (a.0.0, (a.0.1, a.1))
HasFirst-Pick _ _ t (there _ s ss ss' p) a =
    let (first, rest) = HasFirst-Pick ss ss' t p a.1 in (first, (a.0, rest))

HasFirst-merge :
    (ss : List (List Tuple)) (out : List Tuple)
    → IsMerge ss out
    → All (All HasFirst) ss
    → All HasFirst out
HasFirst-merge _ _ (done ss e) a = tt
HasFirst-merge _ _ (pull ss ss' t out p m) a =
    let (first, rest) = HasFirst-Pick ss ss' t p a in (first, HasFirst-merge ss' out m rest)

total-split :
    (w : List ℕ) (texts : List (List (List (List ℕ)))) (streams : List (List Tuple))
    → AreStreams texts streams
    → total w (map split streams) ≡ all_hits w texts
unfolding total all_hits
total-split w [] [] a = refl
total-split w [] (s ∷ ss) a = elim a [ ]
total-split w (lines ∷ rest) [] a = elim a [ ]
total-split w (lines ∷ rest) (s ∷ ss) a =
    omega (arith, occurs-split w lines s a.0, total-split w rest ss a.1)

splits-HasFirst : (streams : List (List Tuple)) → All (All HasFirst) (map split streams)
splits-HasFirst [] = tt
splits-HasFirst (lines ∷ rest) = (split-HasFirst lines, splits-HasFirst rest)

-- Lines of known words, set apart by spaces, go to any number of splitters, their words come together in any order that keeps the words
-- of each splitter, and each word goes by a field grouping to one of n + 1 counting workers: the
-- worker that its hash names has counted all times that the word is in the lines, in the 32 bits
-- of an `int`, and every other worker has counted none.
pub word_count_exact :
    (to_string : ℕ → List ℕ) (n i : ℕ) (w : List ℕ)
    → (texts : List (List (List (List ℕ)))) (streams : List (List Tuple)) (words : List Tuple)
    → AreStreams texts streams
    → IsMerge (map split streams) words
    → let mine = filter (λ t. goes_to (destination (suc n) t) i) words in
      at_or w 0 (run_all (word_count_bolt to_string) [] mine).0
      ≡ (if place w n == i then all_hits w texts % 4294967296 else 0)
unfolding lookup
word_count_exact to_string n i w texts streams words lines merge =
    let firsts = HasFirst-merge (map split streams) words merge (splits-HasFirst streams) in
    let sum : occurs w words ≡ all_hits w texts =
      occurs-merge w (map split streams) words merge ∙ total-split w texts streams lines in
    let mine = filter (λ t. goes_to (destination (suc n) t) i) words in
    let counted = counters_lem to_string w [] mine (omega arith) in
    let part = occurs-filter n i w words firsts in counted ∙ ground (arith, part, sum)
