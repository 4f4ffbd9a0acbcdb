-- ===== src/Ids/Shape.antt =====
-- The shape of generated identifiers, position by position.
use iforevents_sdks.Prelude.{
  ℕ, zero, suc, ◌<◌, ◌/◌, ◌%◌, ◌≡◌, refl, String, Bool, true, false, ◌&&◌, ◌||◌, ◌==◌, List, [],
  ◌∷◌, ◌++◌, length, replicate, All, arith,
}
use iforevents_sdks.Ids.{Bytes, hex_digit, hex_digits, hex_of, version, variant, uuid4_hex, dashed}

-- Whether a character is in a class of characters.
unfoldable pub one_of : List String → String → Bool
one_of [] c = false
one_of (d ∷ ds) c = (c == d) || one_of ds c

-- Whether a text has as many characters as there are classes, each in its class.
unfoldable pub matches : List (List String) → List String → Bool
matches [] [] = true
matches (p ∷ ps) (c ∷ cs) = one_of p c && matches ps cs
matches [] (c ∷ cs) = false
matches (p ∷ ps) [] = false

abbrev dash : List (List String)
dash = ("-" ∷ []) ∷ []

abbrev hex : ℕ → List (List String)
hex n = replicate n hex_digits

-- xxxxxxxx-xxxx-4xxx-[89ab]xxx-xxxxxxxxxxxx
abbrev pub uuid4_pattern : List (List String)
uuid4_pattern =
    hex 8
    ++ dash
    ++ hex 4
    ++ dash
    ++ (("4" ∷ []) ∷ hex 3)
    ++ dash
    ++ (("8" ∷ "9" ∷ "a" ∷ "b" ∷ []) ∷ hex 3)
    ++ dash
    ++ hex 12

-- Whether a test holds of every number under a bound.
holds_under : (ℕ → Bool) → ℕ → Bool
holds_under test zero = true
holds_under test (suc k) = holds_under test k && test k

from_table :
    (test : ℕ → Bool) (bound : ℕ)
    → holds_under test bound ≡ true
    → (k : ℕ) → k < bound
    → test k ≡ true
unfolding holds_under
from_table test zero table k lt = absurd (omega arith)
from_table test (suc bound) table k lt =
    ground
      (arith, (λ (h : holds_under test bound ≡ true) (l : k < bound). from_table test bound h k l))

digit_table : holds_under (λ n. one_of hex_digits (hex_digit n)) 16 ≡ true
unfolding holds_under one_of hex_digit
digit_table = refl

version_table : holds_under (λ b. one_of ("4" ∷ []) (hex_digit (version b / 16))) 256 ≡ true
unfolding holds_under one_of hex_digit
version_table = refl

variant_table :
    holds_under (λ b. one_of ("8" ∷ "9" ∷ "a" ∷ "b" ∷ []) (hex_digit (variant b / 16))) 256 ≡ true
unfolding holds_under one_of hex_digit
variant_table = refl

a_digit : (n : ℕ) → n < 16 → one_of hex_digits (hex_digit n) ≡ true
a_digit = from_table (λ n. one_of hex_digits (hex_digit n)) 16 digit_table

high : (b : ℕ) → b < 256 → one_of hex_digits (hex_digit (b / 16)) ≡ true
high b h = a_digit (b / 16) (omega arith)

low : (b : ℕ) → one_of hex_digits (hex_digit (b % 16)) ≡ true
low b = a_digit (b % 16) (omega arith)

version_digit : (b : ℕ) → b < 256 → one_of ("4" ∷ []) (hex_digit (version b / 16)) ≡ true
version_digit = from_table _ 256 version_table

variant_digit :
    (b : ℕ) → b < 256 → one_of ("8" ∷ "9" ∷ "a" ∷ "b" ∷ []) (hex_digit (variant b / 16)) ≡ true
variant_digit = from_table _ 256 variant_table

dash_itself : one_of ("-" ∷ []) "-" ≡ true
unfolding one_of
dash_itself = refl

-- From sixteen bytes a message id is a version 4 UUID.
pub dashed-uuid4_hex-matches :
    (bytes : Bytes)
    → length bytes ≡ 16
    → All (λ b. b < 256) bytes
    → matches uuid4_pattern (dashed (uuid4_hex bytes)) ≡ true
unfolding dashed uuid4_hex hex_of matches
dashed-uuid4_hex-matches (a ∷ b ∷ c ∷ d ∷ e ∷ f ∷ g ∷ h ∷ i ∷ j ∷ k ∷ l ∷ m ∷ n ∷ o ∷ p ∷ []) _
      (
        ha,
        (hb, (hc, (hd, (he, (hf, (hg, (hh, (hi, (hj, (hk, (hl, (hm, (hn, (ho, (hp, _))))))))))))))),
      ) =
    simp (
      high a ha,
      low a,
      high b hb,
      low b,
      high c hc,
      low c,
      high d hd,
      low d,
      high e he,
      low e,
      high f hf,
      low f,
      version_digit g hg,
      low (version g),
      high h hh,
      low h,
      variant_digit i hi,
      low (variant i),
      high j hj,
      low j,
      high k hk,
      low k,
      high l hl,
      low l,
      high m hm,
      low m,
      high n hn,
      low n,
      high o ho,
      low o,
      high p hp,
      low p,
      dash_itself,
    )
dashed-uuid4_hex-matches _ len _ = absurd (omega arith)
