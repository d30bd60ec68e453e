-- ===== src/PostProcessor/Symbols.antt =====
-- `del_substr` ends, and leaves no copy of the substring.
use wenet_android.Prelude.{
  ℕ, zero, suc, ◌+◌, ◌≤◌, ◌<◌, ◌≡◌, inl, inr, true, none, some, [], ◌∷◌, arith, length, take, drop,
  length-append, length-take, length-drop, Option-cases, codes,
}
use wenet_android.Text.Utf8.{Bytes}
use wenet_android.Text.Parts.{is_empty}
use wenet_android.PostProcessor.{
  is_prefix, find_sub, erase_at, del_loop, del_substr, process_symbols,
}

is_prefix-le : (sub s : Bytes) → is_prefix sub s ≡ true → length sub ≤ length s
unfolding is_prefix
is_prefix-le [] s h = omega arith
is_prefix-le (c ∷ sub) [] h = cc
is_prefix-le (c ∷ sub) (d ∷ s) h = ground (arith, is_prefix-le sub s)

find_sub-le : (sub s : Bytes) (pos : ℕ) → find_sub sub s ≡ some pos → pos + length sub ≤ length s
unfolding find_sub is_empty
find_sub-le [] [] pos h = ground arith
find_sub-le (c ∷ sub) [] pos h = cc
find_sub-le sub (c ∷ s) zero h = ground (arith, is_prefix-le sub (c ∷ s), find_sub-le sub s 0)
find_sub-le sub (c ∷ s) (suc pos) h = ground (arith, find_sub-le sub s pos)

length-erase_at :
    (pos n : ℕ) (s : Bytes) → pos + n ≤ length s → length (erase_at pos n s) + n ≡ length s
unfolding erase_at
length-erase_at pos n s h = omega (
  arith,
  length-append (take pos s) (drop n (drop pos s)),
  length-take pos s,
  length-drop n (drop pos s),
  length-drop pos s,
)

del_loop_total :
    (fuel : ℕ) (sub str : Bytes)
    → length str < fuel
    → 0 < length sub
    → (result : Bytes) × (del_loop fuel sub str ≡ some result)
      × (find_sub sub result ≡ none)
      × (length result ≤ length str)
unfolding del_loop
del_loop_total zero sub str h pos = absurd (omega arith)
del_loop_total (suc fuel) sub str h pos = elim (Option-cases (find_sub sub str)) [
  | inl e ↦ (str, rw (e, del_loop), e, omega arith)
  | inr (k, e) ↦
      let size = length-erase_at k (length sub) str (find_sub-le sub str k e) in
      let (result, ends, free, le) =
        del_loop_total fuel sub (erase_at k (length sub) str) (omega arith) pos in
      (result, rw (e, del_loop) ends, free, omega arith)
]

-- For a substring that is not empty the loop ends, the result holds no copy of the substring, and
-- it is no longer than the text.
pub del_substr_free :
    (str sub : Bytes)
    → 0 < length sub
    → (result : Bytes) × (del_substr str sub ≡ some result)
      × (find_sub sub result ≡ none)
      × (length result ≤ length str)
unfolding del_substr
del_substr_free str sub pos = del_loop_total (length str + 1) sub str (omega arith) pos

-- `ProcessSymbols` returns for every text, and its result holds no "</context>".
pub process_symbols_total :
    (str : Bytes)
    → (result : Bytes) × (process_symbols str ≡ some result)
      × (find_sub (codes "</context>") result ≡ none)
      × (length result ≤ length str)
unfolding process_symbols
process_symbols_total str =
    let (a, ea, _, la) = del_substr_free str (codes "<unk>") (omega arith) in
    let (b, eb, _, lb) = del_substr_free a (codes "<context>") (omega arith) in
    let (c, ec, free, lc) = del_substr_free b (codes "</context>") (omega arith) in
    (c, rw (ea, eb) ec, free, omega arith)
