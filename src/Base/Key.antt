-- ===== src/Base/Key.antt =====
-- The keys of the program's maps and sets: a test for equality and `operator<`, a strict total
-- order. Node, file and topology names are texts; ports and destinations are numbers.
use Prim.Native.Nat.{ℕ}
use Prim.Native.String.{String}
use mathlib.Core.Path.{◌≡◌, refl}
use mathlib.Core.Logic.{◌↔◌}
use mathlib.Core.Bool.{Bool, true, false}
use native.Mathlib.Omega.{arith}
use cranesps.Base.Tests.{ltb, ◌==◌, ==_iff}
use cranesps.Base.Text.{str_eq, str_lt, str_eq_iff, str_lt_irrefl, str_lt_trans, str_lt_total}

pub record Key (K : Type 0) : Type 0 where
  pub same : K → K → Bool
  pub less : K → K → Bool
  pub same_iff : (a b : K) → (same a b ≡ true) ↔ (a ≡ b)
  pub less_irrefl : (a : K) → less a a ≡ false
  pub less_trans : (a b c : K) → less a b ≡ true → less b c ≡ true → less a c ≡ true
  pub less_total : (a b : K) → less a b ≡ false → same a b ≡ false → less b a ≡ true

instance abbrev pub string_key : Key String
string_key = record {
  same = str_eq;
  less = str_lt;
  same_iff = str_eq_iff;
  less_irrefl = str_lt_irrefl;
  less_trans = str_lt_trans;
  less_total = str_lt_total;
}

pub ltb_irrefl : (a : ℕ) → ltb a a ≡ false
ltb_irrefl a = ground arith

pub ltb_trans : (a b c : ℕ) → ltb a b ≡ true → ltb b c ≡ true → ltb a c ≡ true
ltb_trans a b c h k = ground arith

pub ltb_total : (a b : ℕ) → ltb a b ≡ false → (a == b) ≡ false → ltb b a ≡ true
ltb_total a b h k = ground arith

instance abbrev pub nat_key : Key ℕ
nat_key = record {
  same = ◌==◌;
  less = ltb;
  same_iff = ==_iff;
  less_irrefl = ltb_irrefl;
  less_trans = ltb_trans;
  less_total = ltb_total;
}

-- The tests of an instance.
module _ {K : Type 0} ⦃o : Key K⦄ where
  abbrev pub same : K → K → Bool
  same = o.same

  abbrev pub less : K → K → Bool
  less = o.less

  pub same_iff : (a b : K) → (same a b ≡ true) ↔ (a ≡ b)
  same_iff = o.same_iff

  pub same_refl : (a : K) → same a a ≡ true
  same_refl a = (o.same_iff a a).1 refl
