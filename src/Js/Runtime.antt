-- ===== src/Js/Runtime.antt =====
-- What the language's library computes from texts and values: `trim`, `parseInt`, and, as a
-- record of parameters, the conversions and the JSON codec.
use Prim.Native.Char.{code}
use iforevents_sdks.Prelude.{
  ℕ, ◌+◌, ◌-◌, ◌*◌, String, Bool, true, false, ◌&&◌, ◌||◌, Option, none, some, eqb, leb, ltb,
  if◌then◌else◌,
}
use iforevents_sdks.Js.Number.{Number, nan, ratio, of_ℕ, negsuc}
use iforevents_sdks.Js.Value.{Value}

-- `string_of` is `String(v)`, `number_of` is `Number(text)`, `parse` is `JSON.parse`, with `none`
-- for a SyntaxError, and `stringify` is `JSON.stringify`.
pub record Runtime : Type 0 where
  pub string_of : Value → String
  pub number_of : String → Number
  pub decimal : ℕ → String
  pub parse : String → Option Value
  pub stringify : Value → String

-- White space and line terminators of the language.
unfoldable pub is_space : ℕ → Bool
is_space c =
    (leb 9 c && leb c 13)
    || eqb c 32
    || eqb c 0xa0
    || eqb c 0x1680
    || (leb 0x2000 c && leb c 0x200a)
    || eqb c 0x2028
    || eqb c 0x2029
    || eqb c 0x202f
    || eqb c 0x205f
    || eqb c 0x3000
    || eqb c 0xfeff

-- `text.trim() === ""`
unfoldable pub is_blank : String → Bool
unfolding is_space
is_blank String.[] = true
is_blank (String.◌∷◌ c s) = is_space (code c) && is_blank s

abbrev is_digit : ℕ → Bool
is_digit c = leb b'0' c && leb c b'9'

-- The digits read so far; `none` before the first.
digits_from : Option ℕ → String → Option ℕ
digits_from seen String.[] = seen
digits_from seen (String.◌∷◌ c s) =
    let more = digits_from (some (value seen * 10 + (code c - b'0'))) s in
    if is_digit (code c) then more else seen
  where
    value : Option ℕ → ℕ
    value none = 0
    value (some n) = n

abbrev signed : Bool → Option ℕ → Number
signed negative none = nan
signed false (some n) = of_ℕ n
signed true (some n) = if ltb 0 n then ratio (negsuc (n - 1)) 0 else of_ℕ 0

after_sign : String → Number
unfolding digits_from
after_sign String.[] = nan
after_sign (String.◌∷◌ c s) =
    if eqb (code c) b'-'
    then signed true (digits_from none s)
    else if eqb (code c) b'+'
    then signed false (digits_from none s)
    else signed false (digits_from none (String.◌∷◌ c s))

-- `Number.parseInt(text, 10)`; -0 is not told from 0.
unfoldable pub parse_int : String → Number
unfolding after_sign is_space
parse_int String.[] = nan
parse_int (String.◌∷◌ c s) =
    let rest = parse_int s in if is_space (code c) then rest else after_sign (String.◌∷◌ c s)
