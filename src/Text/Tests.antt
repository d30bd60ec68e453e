-- ===== src/Text/Tests.antt =====
-- The string functions at concrete texts.
use wenet_android.Prelude.{◌≡◌, refl, false, none, some, List, [], ◌∷◌, arith, codes}
use wenet_android.Text.Utf8.{
  Bytes, lead_bytes, is_lead, char_size, split_utf8_string_to_chars, split_from, utf8_string_length,
}
use wenet_android.Text.Utf8.Chars.{split_utf8-concat}
use wenet_android.Text.Trim.{trim, ltrim, rtrim, find_first_not_ws, find_last_not_ws, is_whitespace}
use wenet_android.Text.Parts.{
  split_string_to_vector, split_loop, find_first_of, push_piece, is_empty, join_string,
  split_string, join_path, needs_slash,
}
use wenet_android.Text.Blank.{
  space_symbol, space, squeeze, blank_loop, blank_round, ends_in_word, ends_in_space,
  drop_tail_space, pop_back, process_blank, convert,
}
use wenet_android.Text.Blank.Words.{words, squeeze-words}

-- "é" and "a".
abbrev accented : List Bytes
accented = (0xc3 ∷ 0xa9 ∷ []) ∷ (b'a' ∷ []) ∷ []

accented_cut : split_utf8_string_to_chars (0xc3 ∷ 0xa9 ∷ b'a' ∷ []) ≡ some accented
unfolding split_utf8_string_to_chars split_from lead_bytes is_lead
accented_cut = refl

-- A lead byte of five bytes fails the assert.
five_bytes : split_utf8_string_to_chars (0xf8 ∷ []) ≡ none
unfolding split_utf8_string_to_chars split_from is_lead
five_bytes = refl

split_utf8-concat_example :
    (split_utf8_string_to_chars (0xc3 ∷ 0xa9 ∷ b'a' ∷ []) ≡ some accented)
    × (utf8_string_length (0xc3 ∷ 0xa9 ∷ b'a' ∷ []) ≡ 2)
unfolding char_size
split_utf8-concat_example =
    split_utf8-concat accented ((omega arith, refl), ((omega arith, refl), tt))

trim_runs : trim (codes " \t a b \n") ≡ codes "a b"
unfolding trim ltrim rtrim find_first_not_ws find_last_not_ws is_whitespace
trim_runs = refl

split_runs : split_string (codes " a \tb") ≡ codes "a" ∷ codes "b" ∷ []
unfolding split_string split_string_to_vector split_loop find_first_of push_piece is_empty trim
    ltrim rtrim find_first_not_ws find_last_not_ws is_whitespace
split_runs = refl

join_path_runs : join_path (codes "model") (codes "units.txt") ≡ codes "model/units.txt"
unfolding join_path needs_slash
join_path_runs = refl

abbrev spaced_chars : List Bytes
spaced_chars =
    space_symbol ∷ codes "a" ∷ space_symbol ∷ space_symbol ∷ codes "b" ∷ space_symbol ∷ []

squeeze_runs : squeeze spaced_chars ≡ codes "a b"
unfolding squeeze blank_loop blank_round ends_in_word ends_in_space drop_tail_space pop_back
squeeze_runs = refl

squeeze-words_example : squeeze spaced_chars ≡ join_string (space ∷ []) (words spaced_chars)
squeeze-words_example = squeeze-words spaced_chars (omega arith)

-- Plain spaces are kept, also two in a row: only U+2581 is squeezed.
plain_spaces_stay :
    process_blank (λ s. some s) (λ s. some s) (codes "a  b") false ≡ some (codes "a  b")
unfolding process_blank convert squeeze blank_loop blank_round ends_in_word ends_in_space
    drop_tail_space pop_back trim ltrim rtrim find_first_not_ws find_last_not_ws is_whitespace
    split_utf8_string_to_chars split_from lead_bytes is_lead
plain_spaces_stay = refl
