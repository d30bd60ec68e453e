-- ===== src/Text/Utf8/Chars.antt =====
-- Cutting a text into characters.
use wenet_android.Prelude.{
  ℕ, zero, suc, ◌≤◌, ◌<◌, Bool, ◌&&◌, ◌||◌, ◌==◌, Bool-cases, inl, inr, ◌≡◌, refl, true, some, List,
  [], ◌∷◌, ◌++◌, arith, length, take, drop, All, length-drop, take-append-drop, concat, ap,
  take-append, drop-append, length-append, sym, ◌∙◌,
}
use wenet_android.Text.Utf8.{
  Bytes, lead_bytes, length_bytes, is_lead, split_from, split_utf8_string_to_chars, length_from,
  utf8_string_length, IsChar, char_size,
}

lead_bytes_pos : (n c : ℕ) → 1 ≤ n → 1 ≤ lead_bytes n c
unfolding lead_bytes
lead_bytes_pos n c h = ground arith

split_from_inv :
    (fuel n c : ℕ) (rest : Bytes) (cs : List Bytes)
    → split_from (suc fuel) n (c ∷ rest) ≡ some cs
    → (cs' : List Bytes) × (split_from fuel (lead_bytes n c) (drop (lead_bytes n c) (c ∷ rest))
        ≡ some cs')
      × (cs ≡ take (lead_bytes n c) (c ∷ rest) ∷ cs')
unfolding split_from
split_from_inv fuel n c rest cs h = ground arith

split_from_step :
    (fuel n c : ℕ) (rest : Bytes) (cs : List Bytes)
    → is_lead c ≡ true
    → split_from fuel (lead_bytes n c) (drop (lead_bytes n c) (c ∷ rest)) ≡ some cs
    → split_from (suc fuel) n (c ∷ rest) ≡ some (take (lead_bytes n c) (c ∷ rest) ∷ cs)
unfolding split_from
split_from_step fuel n c rest cs lead h = ground arith

length_from_step :
    (fuel n c : ℕ) (rest : Bytes)
    → length_from (suc fuel) n (c ∷ rest)
      ≡ suc (length_from fuel (lead_bytes n c) (drop (lead_bytes n c) (c ∷ rest)))
unfolding length_from lead_bytes length_bytes
length_from_step fuel n c rest = refl

-- The loop makes a round for each character, and the rounds spell the text.
split_from_sound :
    (fuel n : ℕ) (s : Bytes) (cs : List Bytes)
    → split_from fuel n s ≡ some cs
    → (concat cs ≡ s) × (length_from fuel n s ≡ length cs)
split_from_sound fuel n [] cs h = unfold split_from length_from in ground arith
split_from_sound zero n (c ∷ rest) cs h = unfold split_from in cc
split_from_sound (suc fuel) n (c ∷ rest) cs h =
    let m = lead_bytes n c in
    let (cs', e, hd) = split_from_inv fuel n c rest cs h in
    let (spelt, counted) = split_from_sound fuel m (drop m (c ∷ rest)) cs' e in
    (
      rw (hd, spelt) (take-append-drop m (c ∷ rest)),
      length_from_step fuel n c rest ∙ ap suc counted ∙ ap length (sym hd),
    )

All-drop {ℓ κ} : {A : Type ℓ} (P : A → Type κ) (n : ℕ) (xs : List A) → All P xs → All P (drop n xs)
All-drop P zero xs h = h
All-drop P (suc n) [] h = tt
All-drop P (suc n) (x ∷ xs) (_, h) = All-drop P n xs h

split_from_total :
    (fuel n : ℕ) (s : Bytes)
    → length s ≤ fuel
    → 1 ≤ n
    → All (λ c. is_lead c ≡ true) s
    → (cs : List Bytes) × (split_from fuel n s ≡ some cs)
split_from_total fuel n [] h pos ok = unfold split_from in ([], refl)
split_from_total zero n (c ∷ rest) h pos ok = absurd (omega arith)
split_from_total (suc fuel) n (c ∷ rest) h pos (lead, ok) =
    let m = lead_bytes n c in
    let (cs, e) =
      split_from_total fuel m (drop m (c ∷ rest))
        (omega (arith, length-drop m (c ∷ rest), lead_bytes_pos n c pos)) (lead_bytes_pos n c pos)
        (All-drop _ m (c ∷ rest) (lead, ok)) in
    (take m (c ∷ rest) ∷ cs, split_from_step fuel n c rest cs lead e)

all_below : ℕ → (ℕ → Bool) → Bool
all_below zero p = true
all_below (suc n) p = p n && all_below n p

all_below_lem : (n c : ℕ) (p : ℕ → Bool) → all_below n p ≡ true → c < n → p c ≡ true
unfolding all_below
all_below_lem zero c p h lt = absurd (omega arith)
all_below_lem (suc n) c p h lt = elim (Bool-cases (c == n)) [
  | inl e ↦ let same : c ≡ n = ground arith in rw same (ground arith)
  | inr e ↦ all_below_lem n c p (ground arith) (ground arith)
]

-- The masks of the loop find the size in the table of UTF-8.
agrees : ℕ → Bool
agrees c = (char_size c == 0) || (is_lead c && (lead_bytes 0 c == char_size c))

table : all_below 256 agrees ≡ true
unfolding all_below agrees char_size is_lead lead_bytes
table = refl

lead_bytes_set : (n m c : ℕ) → lead_bytes 0 c ≡ suc m → lead_bytes n c ≡ suc m
unfolding lead_bytes
lead_bytes_set n m c h = ground arith

agrees_inv :
    (c m : ℕ)
    → agrees c ≡ true
    → char_size c ≡ suc m
    → (is_lead c ≡ true) × (lead_bytes 0 c ≡ suc m)
unfolding agrees
agrees_inv c m fine size = ground arith

lead_bytes-char_size :
    (n c m : ℕ) → c < 256 → char_size c ≡ suc m → (is_lead c ≡ true) × (lead_bytes n c ≡ suc m)
lead_bytes-char_size n c m lt size =
    let (lead, set) = agrees_inv c m (all_below_lem 256 c agrees table lt) size in
    (lead, lead_bytes_set n m c set)

split_from-concat :
    (fuel n : ℕ) (cs : List Bytes)
    → length (concat cs) ≤ fuel
    → All IsChar cs
    → split_from fuel n (concat cs) ≡ some cs
split_from-concat fuel n [] h ok = unfold split_from in ground arith
split_from-concat fuel n ([] ∷ cs) h (bad, ok) = absurd bad
split_from-concat zero n ((c ∷ rest) ∷ cs) h ok = absurd (omega arith)
split_from-concat (suc fuel) n ((c ∷ rest) ∷ cs) h ((byte, size), ok) =
    let (lead, set) = lead_bytes-char_size n c (length rest) byte size in
    split_from_step fuel n c (rest ++ concat cs) cs lead (
      rw (set, drop-append (c ∷ rest) (concat cs))
        (split_from-concat fuel (length (c ∷ rest)) cs
          (omega (arith, length-append (c ∷ rest) (concat cs))) ok))
    ∙ ap (λ t. some (t ∷ cs)) (rw set (take-append (c ∷ rest) (concat cs)))

-- What `SplitUTF8StringToChars` returns spells the text again, and `UTF8StringLength` counts it.
pub concat-split_utf8 :
    (str : Bytes) (chars : List Bytes)
    → split_utf8_string_to_chars str ≡ some chars
    → (concat chars ≡ str) × (utf8_string_length str ≡ length chars)
unfolding split_utf8_string_to_chars utf8_string_length
concat-split_utf8 str chars h = split_from_sound (length str) 1 str chars h

-- The loop ends on every text whose bytes pass the `assert`.
pub split_utf8_total :
    (str : Bytes)
    → All (λ c. is_lead c ≡ true) str
    → (chars : List Bytes) × (split_utf8_string_to_chars str ≡ some chars)
unfolding split_utf8_string_to_chars
split_utf8_total str ok = split_from_total (length str) 1 str (omega arith) (omega arith) ok

-- A text that is made of characters, each a first byte of UTF-8 and as many more bytes as the table
-- of UTF-8 says for it, is cut into just these by `SplitUTF8StringToChars`, whose `assert` passes,
-- and `UTF8StringLength` counts them.
pub split_utf8-concat :
    (chars : List Bytes)
    → All IsChar chars
    → (split_utf8_string_to_chars (concat chars) ≡ some chars)
      × (utf8_string_length (concat chars) ≡ length chars)
unfolding split_utf8_string_to_chars
split_utf8-concat chars ok =
    let cut = split_from-concat (length (concat chars)) 1 chars (omega arith) ok in
    (cut, (concat-split_utf8 (concat chars) chars cut).1)
