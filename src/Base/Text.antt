-- ===== src/Base/Text.antt =====
-- `std::string` as the native text: equality, and `operator<`, which compares byte by byte. On
-- UTF-8 that is the order of the code points, the one of the native `compare`.
use Prim.Native.String.{String, compare}
use Prim.Native.String.compare
use mathlib.Core.Path.{◌≡◌}
use mathlib.Core.Logic.{◌↔◌}
use mathlib.Core.Bool.{Bool, true, false}
use native.Mathlib.Omega.{arith}
use text.Mathlib.Text.{◌==◌, is_lt}
use text.Mathlib.TextEquality.{eq_iff}
use text.Mathlib.TextPositions.{compare_refl}

abbrev pub str_eq : String → String → Bool
str_eq s t = s == t

abbrev pub str_lt : String → String → Bool
str_lt s t = is_lt (compare s t)

pub str_eq_iff : (s t : String) → (str_eq s t ≡ true) ↔ (s ≡ t)
str_eq_iff = eq_iff

pub str_lt_irrefl : (s : String) → str_lt s s ≡ false
str_lt_irrefl s = rw (compare_refl s)

pub str_lt_trans : (s t u : String) → str_lt s t ≡ true → str_lt t u ≡ true → str_lt s u ≡ true
str_lt_trans String.[] String.[] u h k = k
str_lt_trans String.[] (String.◌∷◌ d t) String.[] h k = ground (arith, compare.cons-nil d t)
str_lt_trans String.[] (String.◌∷◌ d t) (String.◌∷◌ e u) h k = rw (compare.nil-cons e u)
str_lt_trans (String.◌∷◌ c s) String.[] u h k = ground (arith, compare.cons-nil c s)
str_lt_trans (String.◌∷◌ c s) (String.◌∷◌ d t) String.[] h k = ground (arith, compare.cons-nil d t)
str_lt_trans (String.◌∷◌ c s) (String.◌∷◌ d t) (String.◌∷◌ e u) h k = ground (
  arith,
  compare.cons-cons c d s t,
  compare.cons-cons d e t u,
  compare.cons-cons c e s u,
  str_lt_trans s t u,
)

pub str_lt_total : (s t : String) → str_lt s t ≡ false → str_eq s t ≡ false → str_lt t s ≡ true
str_lt_total String.[] String.[] h k = cc
str_lt_total String.[] (String.◌∷◌ d t) h k = ground (arith, compare.nil-cons d t)
str_lt_total (String.◌∷◌ c s) String.[] h k = rw (compare.nil-cons c s)
str_lt_total (String.◌∷◌ c s) (String.◌∷◌ d t) h k =
    ground (arith, compare.cons-cons c d s t, compare.cons-cons d c t s, str_lt_total s t)
