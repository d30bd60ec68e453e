-- ===== src/PostProcessor.antt =====
-- post_processor/post_processor.h and post_processor.cc. The inverse text normaliser is not in the
-- repository: a loaded one is a function.
pub mod Symbols
pub mod Spaces
mod Tests
use wenet_android.Prelude.{
  ℕ, zero, suc, ◌+◌, Bool, true, false, ◌&&◌, Option, none, some, List, [], ◌∷◌, ◌++◌, ◌==◌,
  if◌then◌else◌, length, take, drop, codes, ◌>>=◌,
}
use wenet_android.Text.Utf8.{Bytes, check_english_word}
use wenet_android.Text.Trim.{is_whitespace}
use wenet_android.Text.Parts.{is_empty}
use wenet_android.Text.Blank.{process_blank}

pub data LanguageType : Type 0 where
  mandarin_english indo_european : LanguageType

pub record PostProcessOptions : Type 0 where
  pub language_type : LanguageType
  pub lowercase : Bool
  pub itn : Bool

abbrev pub default_options : PostProcessOptions
default_options = record { language_type = mandarin_english; lowercase = true; itn = false }

unfoldable pub is_prefix : Bytes → Bytes → Bool
is_prefix [] s = true
is_prefix (c ∷ sub) [] = false
is_prefix (c ∷ sub) (d ∷ s) = (c == d) && is_prefix sub s

-- `result.find(sub)`.
unfoldable pub find_sub : Bytes → Bytes → Option ℕ
find_sub sub [] = if is_empty sub then some 0 else none
find_sub sub (c ∷ s) =
    let later = find_sub sub s in
    if is_prefix sub (c ∷ s) then some 0 else elim later [ none ↦ none | some i ↦ some (suc i) ]

-- `result.erase(pos, n)`.
unfoldable pub erase_at : ℕ → ℕ → Bytes → Bytes
erase_at pos n s = take pos s ++ drop n (drop pos s)

-- The loop, with fuel; `none` is a loop that has not ended.
unfoldable pub del_loop : ℕ → Bytes → Bytes → Option Bytes
del_loop zero sub result = none
del_loop (suc fuel) sub result = elim (find_sub sub result) [
  | none ↦ some result
  | some pos ↦ del_loop fuel sub (erase_at pos (length sub) result)
]

unfoldable pub del_substr : Bytes → Bytes → Option Bytes
del_substr str sub = del_loop (length str + 1) sub str

unfoldable pub process_symbols : Bytes → Option Bytes
process_symbols str = do
  result ← del_substr str (codes "<unk>")
  result' ← del_substr result (codes "<context>")
  del_substr result' (codes "</context>")

-- `while (ss >> tmp)`: the runs of bytes between white space; `word` is the run so far.
unfoldable pub read_words : Bytes → Bytes → List Bytes
read_words word [] = if is_empty word then [] else word ∷ []
read_words word (c ∷ s) =
    let go = read_words (word ++ c ∷ []) s in
    let cut = read_words [] s in
    if is_whitespace c then (if is_empty word then cut else word ∷ cut) else go

-- The loop over the words, whose state is `is_englishword_prev` and `result`.
unfoldable pub add_words : Bool → Bytes → List Bytes → Option Bytes
add_words prev result [] = some result
add_words prev result (w ∷ words) = check_english_word w >>= λ now.
    add_words now (if prev && now then result ++ 32 ∷ w else result ++ w) words

module _ (lower same : Bytes → Option Bytes) where
  unfoldable pub process_space : PostProcessOptions → Bytes → Option Bytes
  process_space opts str = do
    result ← elim opts.language_type [
      | mandarin_english ↦ if is_empty str then some str else add_words false [] (read_words [] str)
      | indo_european ↦ some str
    ]
    process_blank lower same result opts.lowercase

  -- `itn_resource` is `none` until `InitITNResource` has loaded it.
  unfoldable pub process : PostProcessOptions → Option (Bytes → Bytes) → Bytes → Bool → Option Bytes
  process opts itn_resource str finish = do
    symbols ← process_symbols str
    result ← process_space opts symbols
    some (
        if finish && opts.itn
        then elim itn_resource [ none ↦ result | some normalize ↦ normalize result ]
        else result)
