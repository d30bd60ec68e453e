-- ===== src/Wav/Endless.antt =====
-- wav.h: the loop of `Open` that looks for the data.
use wenet_android.Prelude.{
  true, ℕ, zero, suc, ◌+◌, ◌≤◌, ◌<◌, ◌≡◌, refl, none, some, [], ◌∷◌, arith, length, take, drop,
  false, codes, bytes_eq, Bool-cases, inl, inr, length-drop, ◌⊎◌, length-append, length-take, min,
}
use wenet_android.Text.Utf8.{Bytes}
use wenet_android.Wav.{fread, skip_chunks, of_le, Chunk}

fread_end : (old file : Bytes) (at : ℕ) → length file ≤ at → fread old file at ≡ (old, at + 0)
unfolding fread
fread_end old file at h = let e : drop at file ≡ [] = drop_end at file h in rw (e, take_none old)
  where
    drop_end : (n : ℕ) (xs : Bytes) → length xs ≤ n → drop n xs ≡ []
    drop_end zero [] h = refl
    drop_end zero (x ∷ xs) h = absurd (omega arith)
    drop_end (suc n) [] h = refl
    drop_end (suc n) (x ∷ xs) h = drop_end n xs (omega arith)

    take_none : (xs : Bytes) → take {A = ℕ} (length xs) [] ≡ []
    take_none [] = refl
    take_none (x ∷ xs) = refl

-- Behind the end of the file a chunk that is not called `data` stays as it is, and the loop goes on
-- for ever, whatever the fuel.
pub skip_chunks_endless :
    (fuel : ℕ) (file : Bytes) (chunk : Chunk) (at : ℕ)
    → bytes_eq (take 4 chunk) (codes "data") ≡ false
    → length file ≤ at + of_le (drop 4 chunk)
    → skip_chunks fuel file chunk at ≡ none
unfolding skip_chunks
skip_chunks_endless zero file chunk at e h = refl
skip_chunks_endless (suc fuel) file chunk at e h =
    let r = fread_end chunk file (at + of_le (drop 4 chunk)) h in
    rw (r, e) (skip_chunks_endless fuel file chunk (at + of_le (drop 4 chunk) + 0) e (omega arith))

length-fread :
    (old file : Bytes) (at : ℕ)
    → at < length file
    → 0 < length old
    → (length (fread old file at).0 ≡ length old) × (at < (fread old file at).1)
unfolding fread
length-fread old file at h o =
    let got = take (length old) (drop at file) in
    let l : length got ≡ min (length old) (length (drop at file)) =
      length-take (length old) (drop at file) in
    let d = length-drop at file in
    (
      omega (arith, l, length-append got (drop (length got) old), length-drop (length got) old),
      omega (arith, l, d),
    )

lt_or_le : (a b : ℕ) → (a < b) ⊎ (b ≤ a)
lt_or_le a b = omega arith

never_lem :
    (file : Bytes) (chunk : Chunk) (at : ℕ)
    → bytes_eq (take 4 chunk) (codes "data") ≡ false
    → ((more : ℕ)
        → let (next, at') = fread chunk file (at + of_le (drop 4 chunk)) in
          skip_chunks more file next at' ≡ none)
    → (more : ℕ) → skip_chunks more file chunk at ≡ none
unfolding skip_chunks
never_lem file chunk at e h zero = refl
never_lem file chunk at e h (suc more) = rw e (h more)

-- The loop that looks for the chunk called `data` ends within as many rounds as the file has bytes
-- left and one more, at a chunk with that name, or it never ends.
pub skip_chunks_decided :
    (fuel : ℕ) (file : Bytes) (chunk : Chunk) (at : ℕ)
    → 0 < length chunk
    → length file ≤ at + fuel
    → ((r : Chunk × ℕ) × (skip_chunks (suc fuel) file chunk at ≡ some r)
        × (bytes_eq (take 4 r.0) (codes "data") ≡ true))
      ⊎ ((more : ℕ) → skip_chunks more file chunk at ≡ none)
unfolding skip_chunks
skip_chunks_decided zero file chunk at c h =
    elim (Bool-cases (bytes_eq (take 4 chunk) (codes "data"))) [
      | inl e ↦ inl ((chunk, at), rw e, e)
      | inr e ↦ inr (λ more. skip_chunks_endless more file chunk at e (omega arith))
    ]
skip_chunks_decided (suc fuel) file chunk at c h =
    elim (Bool-cases (bytes_eq (take 4 chunk) (codes "data"))) [
      | inl e ↦ inl ((chunk, at), rw e, e)
      | inr e ↦ elim (lt_or_le (at + of_le (drop 4 chunk)) (length file)) [
        | inr past ↦ inr (λ more. skip_chunks_endless more file chunk at e past)
        | inl before ↦
            let size = at + of_le (drop 4 chunk) in
            let (l, a) = length-fread chunk file size before c in
            elim (skip_chunks_decided fuel file (fread chunk file size).0 (fread chunk file size).1
              (omega (arith, l)) (omega (arith, a))) [
                | inl (r, found, tag) ↦ inl (r, rw e found, tag)
                | inr never ↦ inr (λ more. never_lem file chunk at e never more)
              ]
      ]
    ]
