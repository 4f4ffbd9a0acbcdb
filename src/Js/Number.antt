-- ===== src/Js/Number.antt =====
-- JavaScript numbers. A finite double is the rational that it denotes, as a fraction; sums and
-- products are exact, where the machine rounds beyond 53 bits.
use iforevents_sdks.Prelude.{ℕ, ◌+◌, ◌-◌, ◌*◌, ◌/◌, Bool, true, false, ltb, leb, if◌then◌else◌}

-- `negsuc n` is -(n + 1).
pub data ℤ : Type 0 where
  pos : ℕ → ℤ
  negsuc : ℕ → ℤ

-- `ratio n d` is n / (d + 1).
pub data Number : Type 0 where
  nan : Number
  minus_infinity : Number
  plus_infinity : Number
  ratio : ℤ → ℕ → Number

abbrev pub of_ℕ : ℕ → Number
of_ℕ n = ratio (pos n) 0

-- a * (k + 1)
abbrev scale : ℤ → ℕ → ℤ
scale (pos n) k = pos (n * (k + 1))
scale (negsuc n) k = negsuc ((n + 1) * (k + 1) - 1)

abbrev le_int : ℤ → ℤ → Bool
le_int (pos a) (pos b) = leb a b
le_int (pos a) (negsuc b) = false
le_int (negsuc a) (pos b) = true
le_int (negsuc a) (negsuc b) = leb b a

-- `a <= b`, which is false of a NaN.
unfoldable pub number_le : Number → Number → Bool
number_le nan b = false
number_le minus_infinity nan = false
number_le minus_infinity b = true
number_le plus_infinity plus_infinity = true
number_le plus_infinity b = false
number_le (ratio a d) nan = false
number_le (ratio a d) minus_infinity = false
number_le (ratio a d) plus_infinity = true
number_le (ratio a d) (ratio b e) = le_int (scale a e) (scale b d)

-- `Number.isFinite`
unfoldable pub is_finite : Number → Bool
is_finite (ratio a d) = true
is_finite x = false

-- `x > 0`
unfoldable pub is_positive : Number → Bool
is_positive plus_infinity = true
is_positive (ratio (pos n) d) = ltb 0 n
is_positive x = false

-- `Math.floor`
unfoldable pub floor : Number → Number
floor (ratio (pos n) d) = of_ℕ (n / (d + 1))
floor (ratio (negsuc n) d) = ratio (negsuc (n / (d + 1))) 0
floor x = x

-- `Math.min` and `Math.max` of a first argument that is an integer: a NaN is passed on.
unfoldable pub min_number : ℕ → Number → Number
unfolding number_le
min_number n nan = nan
min_number n x = if number_le (of_ℕ n) x then of_ℕ n else x

unfoldable pub max_number : ℕ → Number → Number
unfolding number_le
max_number n nan = nan
max_number n x = if number_le x (of_ℕ n) then of_ℕ n else x

-- `x * n` for an integer `n` above 0.
unfoldable pub times : Number → ℕ → Number
times (ratio (pos a) d) n = ratio (pos (a * n)) d
times (ratio (negsuc a) d) n = ratio (negsuc ((a + 1) * n - 1)) d
times x n = x
