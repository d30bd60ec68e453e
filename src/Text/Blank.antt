-- ===== src/Text/Blank.antt =====
-- utils/string.cc: `ProcessBlank`.
pub mod Words
use wenet_android.Prelude.{
  ℕ, Bool, true, false, not, ◌&&◌, Option, none, some, List, [], ◌∷◌, ◌++◌, ◌==◌, if◌then◌else◌,
  bytes_eq, ◌>>=◌,
}
use wenet_android.Text.Utf8.{Bytes, split_utf8_string_to_chars}
use wenet_android.Text.Trim.{trim}

-- `kSpaceSymbol` of utils/utils.h: U+2581 in UTF-8.
abbrev pub space_symbol : Bytes
space_symbol = 0xe2 ∷ 0x96 ∷ 0x81 ∷ []

abbrev pub space : ℕ
space = 32

-- `!result.empty() && result.back() != ' '`.
unfoldable pub ends_in_word : Bytes → Bool
ends_in_word [] = false
ends_in_word (c ∷ []) = not (c == space)
ends_in_word (c ∷ d ∷ s) = ends_in_word (d ∷ s)

-- `!result.empty() && result.back() == ' '`.
unfoldable pub ends_in_space : Bytes → Bool
ends_in_space [] = false
ends_in_space (c ∷ []) = c == space
ends_in_space (c ∷ d ∷ s) = ends_in_space (d ∷ s)

unfoldable pub pop_back : Bytes → Bytes
pop_back [] = []
pop_back (c ∷ []) = []
pop_back (c ∷ d ∷ s) = c ∷ pop_back (d ∷ s)

unfoldable pub blank_round : Bytes → Bytes → Bytes
blank_round result ch =
    if not (bytes_eq ch space_symbol)
    then result ++ ch
    else if ends_in_word result
    then result ++ space ∷ []
    else result

unfoldable pub blank_loop : List Bytes → Bytes → Bytes
blank_loop [] result = result
blank_loop (ch ∷ chars) result = blank_loop chars (blank_round result ch)

unfoldable pub drop_tail_space : Bytes → Bytes
drop_tail_space result = if ends_in_space result then pop_back result else result

-- The words of `chars`, with single spaces between.
unfoldable pub squeeze : List Bytes → Bytes
squeeze chars = drop_tail_space (blank_loop chars [])

-- `lower` is the conversion to wide characters and back under `tolower` of the host's locale, and
-- `same` is that without `tolower`; `none` is an exception, which leaves the text as it was.
module _ (lower same : Bytes → Option Bytes) where
  unfoldable pub convert : Bool → Bytes → Bytes
  convert lowercase result = elim (if lowercase then lower result else same result) [
    | none ↦ result
    | some converted ↦ converted
  ]

  unfoldable pub process_blank : Bytes → Bool → Option Bytes
  process_blank [] lowercase = some []
  process_blank (c ∷ str) lowercase = do
    chars ← split_utf8_string_to_chars (trim (c ∷ str))
    some (convert lowercase (squeeze chars))
