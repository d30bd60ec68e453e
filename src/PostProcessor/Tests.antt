-- ===== src/PostProcessor/Tests.antt =====
-- Texts of test/post_processor_test.cc, and others. The conversion leaves bytes as they are.
use wenet_android.Prelude.{
  ◌≤◌, ◌≡◌, refl, false, Option, none, some, [], ◌∷◌, ◌++◌, arith, length, All, concat, codes,
}
use wenet_android.Text.Utf8.{
  Bytes, check_english_word, check_english_char, lead_bytes, is_lead, split_utf8_string_to_chars,
  split_from, all_english,
}
use wenet_android.Text.Utf8.English.{IsEnglish}
use wenet_android.Text.Trim.{trim, ltrim, rtrim, find_first_not_ws, find_last_not_ws, is_whitespace}
use wenet_android.Text.Parts.{is_empty, join_string}
use wenet_android.Text.Parts.RoundTrip.{tail_of}
use wenet_android.Text.Blank.{
  process_blank, convert, squeeze, blank_loop, blank_round, ends_in_word, ends_in_space,
  drop_tail_space, pop_back,
}
use wenet_android.PostProcessor.{
  default_options, del_substr, del_loop, find_sub, is_prefix, erase_at, process_symbols,
  process_space, read_words, add_words,
}
use wenet_android.PostProcessor.Symbols.{del_substr_free}
use wenet_android.PostProcessor.Spaces.{add_words_of_sentence}

abbrev same : Bytes → Option Bytes
same s = some s

-- U+4E5F as UTF-8.
abbrev ye : Bytes
ye = 0xe4 ∷ 0xb9 ∷ 0x9f ∷ []

mixed :
    process_space same same default_options (codes " life is " ++ ye) ≡ some (codes "life is" ++ ye)
unfolding process_space read_words add_words check_english_word all_english check_english_char
    is_empty process_blank convert squeeze blank_loop blank_round ends_in_word ends_in_space
    drop_tail_space pop_back trim ltrim rtrim find_first_not_ws find_last_not_ws is_whitespace
    split_utf8_string_to_chars split_from lead_bytes is_lead
mixed = refl

-- The removal of a later symbol can spell an earlier one again.
respelt : process_symbols (codes "<un<context>k>") ≡ some (codes "<unk>")
unfolding process_symbols del_substr del_loop find_sub is_prefix erase_at is_empty
respelt = refl

del_substr_free_example :
    (result : Bytes) × (del_substr (codes "<un<unk>k>a") (codes "<unk>") ≡ some result)
    × (find_sub (codes "<unk>") result ≡ none)
    × (length result ≤ 11)
del_substr_free_example = del_substr_free (codes "<un<unk>k>a") (codes "<unk>") (omega arith)

add_words_of_sentence_example :
    let ws = codes "he's" ∷ codes "in" ∷ [] in
    let read = add_words false [] (read_words [] (tail_of 32 ws)) in
    (All (All IsEnglish) ws → read ≡ some (join_string (32 ∷ []) ws))
    × (All (λ w. check_english_word w ≡ some false) ws → read ≡ some (concat ws))
unfolding is_whitespace
add_words_of_sentence_example =
    add_words_of_sentence (codes "he's" ∷ codes "in" ∷ []) (ground arith)
