-- ===== src/UserCode/Words.antt =====
-- The words that SplitSentenceBolt makes of a text.
use cranesps.Base.{
  ℕ, ◌≡◌, refl, sym, ap, ◌∙◌, not, true, false, All, append_nil, List, [], ◌∷◌, ◌++◌, filter,
  Bool-cases, inl, inr,
}
use mathlib.Core.List.{append_assoc}
use cranesps.UserCode.{is_space, words_from}

unfoldable pub concat : List (List ℕ) → List ℕ
concat [] = []
concat (x ∷ xs) = x ++ concat xs

-- The words, put together, are the word begun and the text without its spaces.
pub concat-words_from :
    (word cs : List ℕ) → concat (words_from word cs) ≡ word ++ filter (λ c. not (is_space c)) cs
unfolding concat words_from
concat-words_from [] [] = refl
concat-words_from (x ∷ xs) [] = refl
concat-words_from [] (c ∷ cs) = elim (Bool-cases (is_space c)) [
  | inl space ↦ rw space (concat-words_from [] cs)
  | inr other ↦ rw other (concat-words_from (c ∷ []) cs)
]
concat-words_from (x ∷ xs) (c ∷ cs) = elim (Bool-cases (is_space c)) [
  | inl space ↦ rw space (ap (λ t. (x ∷ xs) ++ t) (concat-words_from [] cs))
  | inr other ↦ rw other (
      concat-words_from ((x ∷ xs) ++ c ∷ []) cs
      ∙ append_assoc (x ∷ xs) (c ∷ []) (filter (λ d. not (is_space d)) cs))
]

abbrev pub AllSpace : List ℕ → Type 0
AllSpace = All (λ c. is_space c ≡ true)

abbrev pub NoSpace : List ℕ → Type 0
NoSpace = All (λ c. is_space c ≡ false)

-- A text and its words: nothing but spaces; spaces and a word at the end; or spaces, a word, and
-- after one space more a text.
pub data IsText : List (List ℕ) → List ℕ → Type 0 where
  blank : (gap : List ℕ) → AllSpace gap → IsText [] gap
  last :
      (gap : List ℕ) (c : ℕ) (cs : List ℕ)
      → AllSpace gap
      → NoSpace (c ∷ cs)
      → IsText ((c ∷ cs) ∷ []) (gap ++ c ∷ cs)
  next :
      (gap : List ℕ) (c : ℕ) (cs : List ℕ) (sep : ℕ) (ws : List (List ℕ)) (rest : List ℕ)
      → AllSpace gap
      → NoSpace (c ∷ cs)
      → is_space sep ≡ true
      → IsText ws rest
      → IsText ((c ∷ cs) ∷ ws) (gap ++ ((c ∷ cs) ++ (sep ∷ rest)))

words_from-gap : (gap cs : List ℕ) → AllSpace gap → words_from [] (gap ++ cs) ≡ words_from [] cs
unfolding words_from
words_from-gap [] cs s = refl
words_from-gap (c ∷ gap) cs s = rw s.0 (words_from-gap gap cs s.1)

words_from-word :
    (x : ℕ) (xs cs rest : List ℕ)
    → NoSpace cs
    → words_from (x ∷ xs) (cs ++ rest) ≡ words_from ((x ∷ xs) ++ cs) rest
unfolding words_from
words_from-word x xs [] rest n = ap (λ w. words_from w rest) (sym (append_nil (x ∷ xs)))
words_from-word x xs (c ∷ cs) rest n = rw n.0 (
    words_from-word x (xs ++ c ∷ []) cs rest n.1
    ∙ ap (λ w. words_from (x ∷ w) rest) (append_assoc xs (c ∷ []) cs))

-- The splitter makes exactly the words of a text, in order.
pub words_from-IsText : (ws : List (List ℕ)) (cs : List ℕ) → IsText ws cs → words_from [] cs ≡ ws
unfolding words_from
words_from-IsText _ _ (blank gap s) =
    ap (words_from []) (sym (append_nil gap)) ∙ words_from-gap gap [] s
words_from-IsText _ _ (last gap c cs s n) =
    words_from-gap gap (c ∷ cs) s
    ∙ rw n.0 (ap (words_from (c ∷ [])) (sym (append_nil cs)) ∙ words_from-word c [] cs [] n.1)
words_from-IsText _ _ (next gap c cs sep ws rest s n space t) =
    words_from-gap gap ((c ∷ cs) ++ (sep ∷ rest)) s
    ∙ rw n.0 (
        words_from-word c [] cs (sep ∷ rest) n.1
        ∙ rw space (ap (λ l. (c ∷ cs) ∷ l) (words_from-IsText ws rest t)))
