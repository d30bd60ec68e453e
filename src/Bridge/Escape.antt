-- ===== src/Bridge/Escape.antt =====
-- What a JSON reader makes of a word that `JsonEscape` has escaped.
use wenet_android.Prelude.{
  ℕ, ◌≡◌, refl, Bool, true, false, Option, none, some, [], ◌∷◌, ◌++◌, arith, if◌then◌else◌, ◌==◌,
  ltb, not, ◌||◌, All, ◌>>=◌, append_assoc,
}
use wenet_android.Text.Utf8.{Bytes}
use wenet_android.Bridge.{escape_char, json_escape}

-- The character that a JSON reader puts in the place of a backslash and this one.
unfoldable pub unescape : ℕ → Option ℕ
unescape c =
    if c == b'"'
    then some b'"'
    else if c == b'\\'
    then some b'\\'
    else if c == b'n'
    then some b'\n'
    else if c == b'r'
    then some b'\r'
    else if c == b't'
    then some b'\t'
    else none

-- A JSON string behind its opening quote, without the escapes of \b, \f, \/ and \u: its characters,
-- and what follows its closing quote. A bare control character is not allowed. `true`: behind a
-- backslash.
unfoldable pub scan : Bool → Bytes → Option (Bytes × Bytes)
scan escaped [] = none
scan false (c ∷ s) =
    let plain = scan false s in
    let special = scan true s in
    if c == b'"'
    then some ([], s)
    else if c == b'\\'
    then special
    else if ltb c 32
    then none
    else (plain >>= (λ (w, rest). some (c ∷ w, rest)))
scan true (c ∷ s) =
    let plain = scan false s in unescape c >>= λ d. plain >>= λ (w, rest). some (d ∷ w, rest)

-- No control character, but for those that `JsonEscape` handles.
unfoldable pub is_plain : ℕ → Bool
is_plain c = not (ltb c 32) || (c == b'\n' || (c == b'\r' || c == b'\t'))

scan_char :
    (c : ℕ) (s : Bytes)
    → is_plain c ≡ true
    → scan false (escape_char c ++ s) ≡ (scan false s >>= λ (w, rest). some (c ∷ w, rest))
unfolding escape_char scan unescape is_plain
scan_char c s plain = ground arith

-- Where a word has no control character but the newline, the carriage return and the tab, a JSON
-- reader that starts behind the opening quote of the escaped word reads the word and stops at the
-- closing quote.
pub scan-json_escape :
    (s rest : Bytes)
    → All (λ c. is_plain c ≡ true) s
    → scan false (json_escape s ++ b'"' ∷ rest) ≡ some (s, rest)
unfolding json_escape
scan-json_escape [] rest plain = unfold scan in refl
scan-json_escape (c ∷ s) rest (here, plain) = rw (
  append_assoc (escape_char c) (json_escape s) (b'"' ∷ rest),
  scan_char c (json_escape s ++ b'"' ∷ rest) here,
  scan-json_escape s rest plain,
)
