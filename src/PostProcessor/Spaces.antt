-- ===== src/PostProcessor/Spaces.antt =====
-- Which spaces of a word sequence the Mandarin and English mode keeps.
use wenet_android.Prelude.{
  ◌≡◌, refl, ◌∙◌, Bool, true, false, ◌&&◌, some, List, [], ◌∷◌, ◌++◌, if◌then◌else◌, All,
  append-nil, append_assoc, concat,
}
use wenet_android.Text.Utf8.{Bytes, check_english_word}
use wenet_android.Text.Utf8.English.{IsEnglish, check_english_word_iff}
use wenet_android.Text.Trim.{is_whitespace}
use wenet_android.Text.Parts.{is_empty, join_string}
use wenet_android.Text.Parts.RoundTrip.{tail_of, spell, join-spell}
use wenet_android.PostProcessor.{read_words, add_words}

abbrev IsBare : Bytes → Type 0
IsBare = All (λ c. is_whitespace c ≡ false)

-- A word as the stream reads it: not empty, without white space.
abbrev pub IsWord : Bytes → Type 0
IsWord [] = ⊥
IsWord (c ∷ w) = All (λ c. is_whitespace c ≡ false) (c ∷ w)

read_words-append :
    (w word rest : Bytes) → IsBare w → read_words word (w ++ rest) ≡ read_words (word ++ w) rest
unfolding read_words
read_words-append [] word rest h = rw append-nil
read_words-append (c ∷ w) word rest (h, hs) =
    rw h (read_words-append w (word ++ c ∷ []) rest hs ∙ rw append_assoc)

read_words_space :
    (word s : Bytes)
    → read_words word (32 ∷ s) ≡ (if is_empty word then read_words [] s else word ∷ read_words [] s)
unfolding read_words is_whitespace
read_words_space word s = refl

read_words-tail_of :
    (ws : List Bytes) (word : Bytes)
    → All IsWord ws
    → read_words word (tail_of 32 ws) ≡ (if is_empty word then ws else word ∷ ws)
unfolding tail_of
read_words-tail_of [] word h = unfold read_words in refl
read_words-tail_of ([] ∷ ws) word (bad, h) = absurd bad
read_words-tail_of ((c ∷ w) ∷ ws) word (good, h) =
    let rest : read_words [] ((c ∷ w) ++ tail_of 32 ws) ≡ (c ∷ w) ∷ ws =
      read_words-append (c ∷ w) [] (tail_of 32 ws) good
      ∙ read_words-tail_of ws (c ∷ w) h
      ∙ unfold is_empty in refl in
    read_words_space word ((c ∷ w) ++ tail_of 32 ws) ∙ rw rest

add_english :
    (ws : List Bytes) (result : Bytes)
    → All (All IsEnglish) ws
    → add_words true result ws ≡ some (result ++ tail_of 32 ws)
unfolding add_words tail_of
add_english [] result h = rw append-nil
add_english (w ∷ ws) result (english, h) =
    rw ((check_english_word_iff w).1 english)
      (add_english ws (result ++ 32 ∷ w) h ∙ rw append_assoc)

and_false : (b : Bool) → (b && false) ≡ false
and_false true = refl
and_false false = refl

add_mandarin :
    (ws : List Bytes) (prev : Bool) (result : Bytes)
    → All (λ w. check_english_word w ≡ some false) ws
    → add_words prev result ws ≡ some (result ++ concat ws)
unfolding add_words
add_mandarin [] prev result h = rw append-nil
add_mandarin (w ∷ ws) prev result (mandarin, h) =
    rw (mandarin, and_false prev) (add_mandarin ws false (result ++ w) h ∙ rw append_assoc)

add_english_first :
    (ws : List Bytes)
    → All (All IsEnglish) ws
    → add_words false [] ws ≡ some (join_string (32 ∷ []) ws)
unfolding add_words spell
add_english_first [] h = rw (join-spell 32 [])
add_english_first (w ∷ ws) (english, h) =
    rw ((check_english_word_iff w).1 english, join-spell 32 (w ∷ ws)) (add_english ws w h)

-- A word sequence with a space before each word, as the WFST search spells it: where all words are
-- English they come out with one space between two, and where none is, all spaces are gone.
pub add_words_of_sentence :
    (ws : List Bytes)
    → All IsWord ws
    → let read = add_words false [] (read_words [] (tail_of 32 ws)) in
      (All (All IsEnglish) ws → read ≡ some (join_string (32 ∷ []) ws))
      × (All (λ w. check_english_word w ≡ some false) ws → read ≡ some (concat ws))
unfolding is_empty
add_words_of_sentence ws words =
    rw (read_words-tail_of ws [] words) (add_english_first ws, add_mandarin ws false [])
