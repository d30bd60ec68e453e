-- ===== src/Text/Utf8.antt =====
-- utils/string.cc: UTF-8 characters. The `assert` on a lead byte is kept.
pub mod Chars
pub mod English
use Prim.Native.Nat.{bit_and}
use wenet_android.Prelude.{
  ℕ, zero, suc, ◌+◌, ◌≤◌, ◌<◌, ◌≡◌, refl, ◌≢◌, Bool, true, false, ◌&&◌, ◌||◌, Option, none, some,
  List, [], ◌∷◌, ◌++◌, arith, ltb, leb, ◌==◌, if◌then◌else◌, length, take, drop, ◌>>=◌, ◌>>◌, check,
  All, length-drop, take-append-drop, concat, ap, codes, take-append, drop-append, length-append,
}

abbrev pub Bytes : Type 0
Bytes = List ℕ

-- The four tests on a lead byte; a byte that passes none leaves `bytes` as it was.
unfoldable pub lead_bytes : ℕ → ℕ → ℕ
lead_bytes bytes c =
    if bit_and c 0x80 == 0x00
    then 1
    else if bit_and c 0xe0 == 0xc0
    then 2
    else if bit_and c 0xf0 == 0xe0
    then 3
    else if bit_and c 0xf8 == 0xf0
    then 4
    else bytes

unfoldable pub is_lead : ℕ → Bool
is_lead c = leb (bit_and c 0xf8) 0xf0

-- The loop from a position on, whose unread bytes are the last argument.
unfoldable pub split_from : ℕ → ℕ → Bytes → Option (List Bytes)
split_from fuel bytes [] = some []
split_from zero bytes (c ∷ rest) = none
split_from (suc fuel) bytes (c ∷ rest) = do
  check (is_lead c)
  let n = lead_bytes bytes c
  chars ← split_from fuel n (drop n (c ∷ rest))
  some (take n (c ∷ rest) ∷ chars)

unfoldable pub split_utf8_string_to_chars : Bytes → Option (List Bytes)
split_utf8_string_to_chars str = split_from (length str) 1 str

-- The tests of `UTF8StringLength`, which has its own copy of them.
unfoldable pub length_bytes : ℕ → ℕ → ℕ
length_bytes bytes c =
    if bit_and c 0x80 == 0x00
    then 1
    else if bit_and c 0xe0 == 0xc0
    then 2
    else if bit_and c 0xf0 == 0xe0
    then 3
    else if bit_and c 0xf8 == 0xf0
    then 4
    else bytes

unfoldable pub length_from : ℕ → ℕ → Bytes → ℕ
length_from fuel bytes [] = 0
length_from zero bytes (c ∷ rest) = 0
length_from (suc fuel) bytes (c ∷ rest) =
    let n = length_bytes bytes c in suc (length_from fuel n (drop n (c ∷ rest)))

unfoldable pub utf8_string_length : Bytes → ℕ
utf8_string_length str = length_from (length str) 1 str

-- `isalpha` of the C locale.
unfoldable pub is_alpha_byte : ℕ → Bool
is_alpha_byte c = (leb b'A' c && leb c b'Z') || (leb b'a' c && leb c b'z')

unfoldable pub check_english_char : Bytes → Bool
unfolding is_alpha_byte
check_english_char [] = false
check_english_char (c ∷ []) = is_alpha_byte c || c == b'\''
check_english_char (c ∷ d ∷ rest) = false

unfoldable pub all_english : List Bytes → Bool
all_english [] = true
all_english (ch ∷ chars) = if check_english_char ch then all_english chars else false

unfoldable pub check_english_word : Bytes → Option Bool
check_english_word word = do chars ← split_utf8_string_to_chars word; some (all_english chars)

unfoldable pub is_alpha : Bytes → Bool
unfolding is_alpha_byte
is_alpha [] = true
is_alpha (c ∷ rest) = if is_alpha_byte c then is_alpha rest else false

-- How many bytes a character has by its first byte, in the table of UTF-8; 0 for the bytes that
-- begin none.
unfoldable pub char_size : ℕ → ℕ
char_size c =
    if ltb c 0x80
    then 1
    else if ltb c 0xc0
    then 0
    else if ltb c 0xe0
    then 2
    else if ltb c 0xf0
    then 3
    else if ltb c 0xf8
    then 4
    else 0

-- A first byte, and as many more bytes as it asks for.
abbrev pub IsChar : Bytes → Type 0
IsChar [] = ⊥
IsChar (c ∷ rest) = (c < 256) × (char_size c ≡ length (c ∷ rest))
