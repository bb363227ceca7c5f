-- ===== src/Totp/Base32.antt =====
-- `base32Encode` and `base32Decode` of src/totp.ts. `value` is a 32-bit integer that wraps around, kept
-- as its bit pattern; the low bits that a byte or an index is joined to are 0.
use Prim.Native.Char.{Char, code}
use Prim.Native.String
use ambit.Common.{
  ℕ, zero, suc, ◌+◌, ◌-◌, ◌*◌, ◌/◌, ◌%◌, ◌^◌, ◌&&◌, Option, none, some, List, [], ◌∷◌, ◌++◌, String,
  ◌==◌, leb, ltb, length, codes, is_space, str_eq, if◌then◌else◌,
}
use ambit.Platform.{Platform}

abbrev pub base32_alphabet : String
base32_alphabet = "ABCDEFGHIJKLMNOPQRSTUVWXYZ234567"

-- `text[i]`
abbrev pub char_text : String → ℕ → String
char_text String.[] i = ""
char_text (String.◌∷◌ c s) zero = String.◌∷◌ c ""
char_text (String.◌∷◌ c s) (suc i) = char_text s i

-- `text.indexOf(char)`, `none` for -1; `i` counts the characters passed.
abbrev pub index_of : Char → ℕ → String → Option ℕ
index_of x i String.[] = none
index_of x i (String.◌∷◌ c s) = if code c == code x then some i else index_of x (i + 1) s

-- The loop variables of `base32Encode`.
pub record Encoding : Type 0 where
  pub bits : ℕ
  pub value : ℕ
  pub output : String

-- The body of the inner loop.
unfoldable pub emit_char : Encoding → Encoding
emit_char e = record e {
  bits = e.bits - 5;
  output = String.◌++◌ e.output (char_text base32_alphabet (e.value / 2 ^ (e.bits - 5) % 32));
}

-- `while (bits >= 5)`: each round takes five bits, so `bits` rounds are enough.
unfoldable pub drain : ℕ → Encoding → Encoding
unfolding emit_char
drain zero e = e
drain (suc rounds) e = let rest = drain rounds (emit_char e) in if leb 5 e.bits then rest else e

-- The body of the outer loop.
unfoldable pub add_byte : ℕ → Encoding → Encoding
unfolding drain
add_byte b e =
    drain (e.bits + 8) (record e { value = (e.value * 256 + b) % 2 ^ 32; bits = e.bits + 8 })

unfoldable pub add_bytes : List ℕ → Encoding → Encoding
unfolding add_byte
add_bytes [] e = e
add_bytes (b ∷ bs) e = add_bytes bs (add_byte b e)

-- `if (bits > 0)`
unfoldable pub flush : Encoding → String
flush e =
    if ltb 0 e.bits
    then String.◌++◌ e.output (char_text base32_alphabet (e.value * 2 ^ (5 - e.bits) % 2 ^ 32 % 32))
    else e.output

-- `while (output.length % 8 !== 0)`: seven rounds are enough.
unfoldable pub pad : ℕ → String → String
pad zero output = output
pad (suc rounds) output =
    let rest = pad rounds (String.◌++◌ output "=") in
    if length (codes output) % 8 == 0 then output else rest

unfoldable pub base32_encode : List ℕ → String
unfolding add_bytes flush pad
base32_encode bytes = pad 7 (flush (add_bytes bytes (record { bits = 0; value = 0; output = "" })))

-- `text.replace(/=+$/, "")`
unfoldable pub strip_padding : String → String
strip_padding String.[] = ""
strip_padding (String.◌∷◌ c s) =
    let rest = strip_padding s in if code c == b'=' && str_eq rest "" then "" else String.◌∷◌ c rest

-- `text.replace(/\s+/g, "")`
unfoldable pub strip_space : String → String
strip_space String.[] = ""
strip_space (String.◌∷◌ c s) =
    if is_space (code c) then strip_space s else String.◌∷◌ c (strip_space s)

-- The loop variables of `base32Decode`.
pub record Decoding : Type 0 where
  pub bits : ℕ
  pub value : ℕ
  pub bytes : List ℕ

-- The body of the loop, past the guard.
unfoldable pub add_index : ℕ → Decoding → Decoding
add_index i d =
    let value = (d.value * 32 + i) % 2 ^ 32 in
    if leb 8 (d.bits + 5)
    then record {
      bits = d.bits + 5 - 8;
      value = value;
      bytes = d.bytes ++ (value / 2 ^ (d.bits + 5 - 8) % 256) ∷ [];
    }
    else record { bits = d.bits + 5; value = value; bytes = d.bytes }

-- The loop; a character that is not in the alphabet throws.
unfoldable pub read_chars : String → Decoding → Option (List ℕ)
unfolding add_index
read_chars String.[] d = some d.bytes
read_chars (String.◌∷◌ c s) d = elim (index_of c 0 base32_alphabet) [
  | none ↦ none
  | some i ↦ read_chars s (add_index i d)
]

unfoldable pub base32_decode : Platform → String → Option (List ℕ)
unfolding read_chars strip_padding strip_space
base32_decode pf input =
    read_chars (strip_space (strip_padding (pf.to_upper_case input)))
      (record { bits = 0; value = 0; bytes = [] })
