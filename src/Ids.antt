-- ===== src/Ids.antt =====
-- The identifiers of js/packages/core/src/api-integration.ts. The sixteen random bytes, which the
-- platform supplies, are an argument; a text under construction is the list of its characters.
pub mod Shape
use Prim.Native.Nat.{bit_and, bit_or}
use Prim.Native.String.{◌++◌ as str_append}
use iforevents_sdks.Prelude.{ℕ, zero, suc, ◌/◌, ◌%◌, String, List, [], ◌∷◌, ◌++◌, take, drop}

abbrev pub Bytes : Type 0
Bytes = List ℕ

abbrev pub set_at : ℕ → (ℕ → ℕ) → Bytes → Bytes
set_at i f [] = []
set_at zero f (b ∷ bs) = f b ∷ bs
set_at (suc i) f (b ∷ bs) = b ∷ set_at i f bs

abbrev digit_from : ℕ → List String → String
digit_from n [] = ""
digit_from zero (d ∷ ds) = d
digit_from (suc n) (d ∷ ds) = digit_from n ds

abbrev pub hex_digits : List String
hex_digits =
    "0" ∷ "1" ∷ "2" ∷ "3" ∷ "4" ∷ "5" ∷ "6" ∷ "7" ∷ "8" ∷ "9" ∷ "a" ∷ "b" ∷ "c" ∷ "d" ∷ "e" ∷ "f"
    ∷ []

unfoldable pub hex_digit : ℕ → String
hex_digit n = digit_from n hex_digits

-- `b.toString(16).padStart(2, "0")` of each byte, in turn
unfoldable pub hex_of : Bytes → List String
hex_of [] = []
hex_of (b ∷ bs) = hex_digit (b / 16) ∷ hex_digit (b % 16) ∷ hex_of bs

abbrev pub version : ℕ → ℕ
version b = bit_or (bit_and b 0x0f) 0x40

abbrev pub variant : ℕ → ℕ
variant b = bit_or (bit_and b 0x3f) 0x80

-- `uuid4Hex`
unfoldable pub uuid4_hex : Bytes → List String
uuid4_hex bytes = hex_of (set_at 8 variant (set_at 6 version bytes))

abbrev pub join : List String → String
join [] = ""
join (c ∷ cs) = str_append c (join cs)

-- `h.slice(from, to)`, with the width to - from
abbrev pub slice : ℕ → ℕ → List String → List String
slice from width h = take width (drop from h)

-- `anonymousId`
unfoldable pub anonymous_id : Bytes → String
anonymous_id bytes = str_append "anon_" (join (uuid4_hex bytes))

unfoldable pub dashed : List String → List String
dashed h =
    slice 0 8 h
    ++ ("-" ∷ slice 8 4 h)
    ++ ("-" ∷ slice 12 4 h)
    ++ ("-" ∷ slice 16 4 h)
    ++ ("-" ∷ drop 20 h)

-- `messageId`
unfoldable pub message_id : Bytes → String
message_id bytes = join (dashed (uuid4_hex bytes))
