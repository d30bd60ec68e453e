-- ===== src/Text/Utf8/English.antt =====
-- Which words `CheckEnglishWord` accepts.
use mathlib.Core.Bool.{false≢true}
use wenet_android.Prelude.{
  ap, inl, inr, ℕ, ◌≤◌, ◌<◌, ◌≡◌, refl, ◌⊎◌, ◌↔◌, true, Option, none, some, List, [], ◌∷◌, arith,
  All, concat, map, Bool-cases,
}
use wenet_android.Text.Utf8.{
  Bytes, char_size, split_utf8_string_to_chars, is_alpha_byte, check_english_char, all_english,
  check_english_word, IsChar,
}
use wenet_android.Text.Utf8.Chars.{split_utf8-concat, concat-split_utf8}

-- A letter of ASCII or an apostrophe.
abbrev pub IsEnglish : ℕ → Type 0
IsEnglish c = ((b'A' ≤ c) × (c ≤ b'Z')) ⊎ ((b'a' ≤ c) × (c ≤ b'z')) ⊎ (c ≡ b'\'')

ascii_IsChar : (c : ℕ) → c < 128 → IsChar (c ∷ [])
unfolding char_size
ascii_IsChar c h = (omega arith, ground arith)

check_english_char_iff :
    (ch : Bytes) → (check_english_char ch ≡ true) ↔ ((c : ℕ) × (ch ≡ c ∷ []) × IsEnglish c)
unfolding check_english_char is_alpha_byte
check_english_char_iff [] = (λ h. cc, λ (c, e, h). cc)
check_english_char_iff (c ∷ []) = (λ h. (c, refl, ground arith), λ (d, e, h). ground arith)
check_english_char_iff (c ∷ d ∷ rest) = (λ h. cc, λ (c, e, h). cc)

singletons : Bytes → List Bytes
singletons = map (λ c. c ∷ [])

concat-singletons : (w : Bytes) → concat (singletons w) ≡ w
unfolding singletons
concat-singletons [] = refl
concat-singletons (c ∷ w) = ap (λ t. c ∷ t) (concat-singletons w)

singletons-IsChar : (w : Bytes) → All IsEnglish w → All IsChar (singletons w)
unfolding singletons
singletons-IsChar [] h = tt
singletons-IsChar (c ∷ w) (h, hs) = (ascii_IsChar c (omega arith), singletons-IsChar w hs)

all_english-singletons : (w : Bytes) → All IsEnglish w → all_english (singletons w) ≡ true
unfolding singletons all_english
all_english-singletons [] h = refl
all_english-singletons (c ∷ w) (h, hs) =
    rw ((check_english_char_iff (c ∷ [])).1 (c, refl, h)) (all_english-singletons w hs)

all_english_sound : (cs : List Bytes) → all_english cs ≡ true → All IsEnglish (concat cs)
unfolding all_english
all_english_sound [] h = tt
all_english_sound (ch ∷ cs) h = elim (Bool-cases (check_english_char ch)) [
  | inl good ↦
      let (c, e, english) = (check_english_char_iff ch).0 good in
      let rest = all_english_sound cs (rw (good, all_english) at h) in rw e (english, rest)
  | inr bad ↦ absurd (false≢true (rw (bad, all_english) at h))
]

-- `CheckEnglishWord` accepts the words of letters and apostrophes, and no others.
pub check_english_word_iff : (w : Bytes) → (check_english_word w ≡ some true) ↔ All IsEnglish w
check_english_word_iff w = (sound (split_utf8_string_to_chars w) refl, complete)
  where
    sound :
        (r : Option (List Bytes))
        → split_utf8_string_to_chars w ≡ r
        → check_english_word w ≡ some true
        → All IsEnglish w
    sound none e h = unfold check_english_word in cc
    sound (some cs) e h =
        rw (← (concat-split_utf8 w cs e).0)
          (all_english_sound cs (unfold check_english_word in ground arith))

    complete : All IsEnglish w → check_english_word w ≡ some true
    complete h =
        let (e, _) = split_utf8-concat (singletons w) (singletons-IsChar w h) in
        let cut : split_utf8_string_to_chars w ≡ some (singletons w) = rw concat-singletons at e in
        unfold check_english_word in rw (cut, all_english-singletons w h)
