-- ===== src/FileNode/Transfer/Pieces.antt =====
-- A file as its chunks: the bytes that follow the first chunks, and the bytes of the first chunks.
use cranesps.Base.{
  append_nil, string_key, ℕ, zero, suc, ◌-◌, ◌/◌, ◌%◌, ◌*◌, ◌≤◌, ◌<◌, ◌≡◌, refl, sym, ap, ◌∙◌, List,
  [], ◌∷◌, ◌++◌, arith, length, take, drop, ◌==◌, Bool-cases, ◌⊎◌, inl, inr,
}
use mathlib.Core.List.{append_assoc}
use native.Mathlib.Nat.{div-add-mod', mod-lt, mul-le-mul_right}
use cranesps.FileNode.Chunks.{total_chunks}

abbrev pub after_chunks : ℕ → ℕ → List ℕ → List ℕ
after_chunks size zero content = content
after_chunks size (suc k) content = drop size (after_chunks size k content)

abbrev pub first_chunks : ℕ → ℕ → List ℕ → List ℕ
first_chunks size zero content = []
first_chunks size (suc k) content =
    first_chunks size k content ++ take size (after_chunks size k content)

take-drop : (n : ℕ) (xs : List ℕ) → take n xs ++ drop n xs ≡ xs
take-drop zero xs = refl
take-drop (suc n) [] = refl
take-drop (suc n) (x ∷ xs) = ap (λ t. x ∷ t) (take-drop n xs)

length-drop : (n : ℕ) (xs : List ℕ) → length (drop n xs) ≡ length xs - n
length-drop zero xs = omega arith
length-drop (suc n) [] = omega arith
length-drop (suc n) (x ∷ xs) = omega (arith, length-drop n xs)

first-after :
    (size k : ℕ) (content : List ℕ)
    → first_chunks size k content ++ after_chunks size k content ≡ content
first-after size zero content = refl
first-after size (suc k) content =
    append_assoc (first_chunks size k content) (take size (after_chunks size k content))
      (drop size (after_chunks size k content))
    ∙ ap (λ t. first_chunks size k content ++ t) (take-drop size (after_chunks size k content))
    ∙ first-after size k content

pub length-after :
    (size k : ℕ) (content : List ℕ)
    → length (after_chunks size k content) ≡ length content - k * size
length-after size zero content = omega arith
length-after size (suc k) content =
    omega (arith, length-drop size (after_chunks size k content), length-after size k content)

length-zero : (xs : List ℕ) → length xs ≡ 0 → xs ≡ []
length-zero [] e = refl
length-zero (x ∷ xs) e = ground arith

total-cases :
    (n size : ℕ)
    → n / size < 2147483648
    → ((total_chunks n size ≡ n / size) × (n % size ≡ 0))
      ⊎ ((total_chunks n size ≡ suc (n / size)) × (0 < n % size))
unfolding total_chunks
total-cases n size small = elim (Bool-cases (n % size == 0)) [
  | inl e ↦ inl (ground arith, ground arith)
  | inr e ↦ inr (ground arith, ground arith)
]

-- The chunks that the client asks for are all of the file.
pub first-total :
    (size : ℕ) (content : List ℕ)
    → 0 < size
    → length content / size < 2147483648
    → first_chunks size (total_chunks (length content) size) content ≡ content
first-total size content pos small =
    let n = length content in
    let none_left : n - total_chunks n size * size ≡ 0 = elim (total-cases n size small) [
      | inl (t, r) ↦ rw t (omega (arith, div-add-mod' n size))
      | inr (t, r) ↦ rw t (omega (arith, div-add-mod' n size, mod-lt n pos))
    ] in
    let empty : after_chunks size (total_chunks n size) content ≡ [] =
      length-zero _ (length-after size (total_chunks n size) content ∙ none_left) in
    sym (append_nil _)
    ∙ ap (λ t. first_chunks size (total_chunks n size) content ++ t) (sym empty)
    ∙ first-after size (total_chunks n size) content

-- Before the last of them the file has not ended.
pub before-total :
    (size k n : ℕ) → 0 < size → k < total_chunks n size → n / size < 2147483648 → k * size < n
before-total size k n pos h small = elim (total-cases n size small) [
  | inl (t, r) ↦
      let le : suc k * size ≤ n / size * size = mul-le-mul_right size (omega (arith, t, h)) in
      omega (arith, div-add-mod' n size, le)
  | inr (t, r) ↦
      let le : k * size ≤ n / size * size = mul-le-mul_right size (omega (arith, t, h)) in
      omega (arith, div-add-mod' n size, le, r)
]
