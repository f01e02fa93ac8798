-- ===== src/Value/Numbers.antt =====
-- JavaScript numbers, for code that compares and prints them but does no arithmetic on them.
-- A finite IEEE double is a whole multiple of 2 ^ -1074, so an integer stands for it exactly.
use payment_sim.Prelude.{ℕ, ◌*◌, ◌/◌, ◌^◌, ◌<◌, Bool, true, false, not, ◌&&◌, ltb, eqb, arith}

-- `negsuc n` is -(n + 1).
pub data ℤ : Type 0 where
  pos : ℕ → ℤ
  negsuc : ℕ → ℤ

abbrev pub ltb_ℤ : ℤ → ℤ → Bool
ltb_ℤ (pos a) (pos b) = ltb a b
ltb_ℤ (pos a) (negsuc b) = false
ltb_ℤ (negsuc a) (pos b) = true
ltb_ℤ (negsuc a) (negsuc b) = ltb b a

abbrev pub eqb_ℤ : ℤ → ℤ → Bool
eqb_ℤ (pos a) (pos b) = eqb a b
eqb_ℤ (negsuc a) (negsuc b) = eqb a b
eqb_ℤ _ _ = false

pub data Num : Type 0 where
  finite : ℤ → Num
  infinity neg_infinity nan : Num

-- The number 1, in units of the smallest positive double.
unfoldable pub unit : ℕ
unit = 2 ^ 1074

pub unit-pos : 0 < unit
unfolding unit
unit-pos = omega arith

-- An integer literal of the program text.
abbrev pub of_ℕ : ℕ → Num
of_ℕ n = finite (pos (n * unit))

-- The whole part of a number; 0 stands for one that is negative or not finite.
unfoldable pub whole : Num → ℕ
unfolding unit
whole (finite (pos a)) = a / unit
whole _ = 0

-- `a < b`
abbrev pub num_lt : Num → Num → Bool
num_lt (finite a) (finite b) = ltb_ℤ a b
num_lt (finite a) infinity = true
num_lt neg_infinity (finite b) = true
num_lt neg_infinity infinity = true
num_lt _ _ = false

abbrev pub is_nan : Num → Bool
is_nan nan = true
is_nan _ = false

-- `a <= b`
abbrev pub num_le : Num → Num → Bool
num_le a b = not (is_nan a) && not (is_nan b) && not (num_lt b a)

-- `a === b`
abbrev pub num_eq : Num → Num → Bool
num_eq (finite a) (finite b) = eqb_ℤ a b
num_eq infinity infinity = true
num_eq neg_infinity neg_infinity = true
num_eq _ _ = false

-- `Number.isFinite(a)`
abbrev pub is_finite : Num → Bool
is_finite (finite a) = true
is_finite _ = false

-- `Boolean(a)`
abbrev pub num_truthy : Num → Bool
num_truthy (finite (pos n)) = ltb 0 n
num_truthy nan = false
num_truthy _ = true
