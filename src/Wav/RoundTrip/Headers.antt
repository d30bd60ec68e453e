-- ===== src/Wav/RoundTrip/Headers.antt =====
-- wav.h: `Open` on a header that a writer has made, with the samples behind it.
use wenet_android.Prelude.{
  append_assoc, ℕ, ◌+◌, ◌^◌, ◌<◌, ◌≡◌, refl, ap, ◌∙◌, List, [], ◌∷◌, ◌++◌, arith, length, take,
  drop, append-nil, take-append, drop-append, map, All,
}
use wenet_android.Prelude.Int.{ℤ}
use wenet_android.Prelude.Float.{Float}
use wenet_android.Text.Utf8.{Bytes}
use wenet_android.Wav.{
  default_header, new_header, to_bytes, of_bytes, le_bytes, of_le, wrap, signed, fread,
}
use wenet_android.Wav.Files.{read_samples, encode_samples}
use wenet_android.Wav.Words.{length-le_bytes, of_le-le_bytes, Fits, signed-wrap, wrap-lt, drop-add}

module _ (n c rate bits : ℕ) where
  -- The fields of a new header are those that its bytes are read as.
  pub of_bytes-to_bytes : of_bytes (to_bytes (new_header n c rate bits)) ≡ new_header n c rate bits
  unfolding of_bytes to_bytes new_header le_bytes of_le
  of_bytes-to_bytes = ground arith

  pub length-to_bytes : length (to_bytes (new_header n c rate bits)) ≡ 44
  unfolding to_bytes new_header le_bytes
  length-to_bytes = refl

pub length-default_header : length (to_bytes default_header) ≡ 44
unfolding to_bytes le_bytes
length-default_header = refl

-- `fread` of as many bytes as `old` has, where the file has them.
pub fread_whole :
    (old file got : Bytes) (at : ℕ) (post : Bytes)
    → drop at file ≡ got ++ post
    → length old ≡ length got
    → fread old file at ≡ (got, at + length got)
unfolding fread
fread_whole old file got at post e l =
    let a : take (length old) (drop at file) ≡ got = rw (l, e) (take-append got post) in
    let b : drop (length got) old ≡ [] = rw (← l) (drop_all old) in rw (a, b, append-nil)
  where
    drop_all : (xs : Bytes) → drop (length xs) xs ≡ []
    drop_all [] = refl
    drop_all (x ∷ xs) = drop_all xs

module _ (f : Float) where
  -- Samples of `k` bytes are read back.
  pub read_samples-encode_samples :
      (k h : ℕ) (xs : List ℤ) (stale file post : Bytes) (at : ℕ)
      → 256 ^ k ≡ h + h
      → 0 < h
      → length stale ≡ k
      → All (Fits h) xs
      → drop at file ≡ encode_samples k xs ++ post
      → read_samples f (length xs) stale file at ≡ map f.of_int xs
  unfolding read_samples encode_samples
  read_samples-encode_samples k h [] stale file post at m hp l fits e = refl
  read_samples-encode_samples k h (x ∷ xs) stale file post at m hp l (fit, fits) e =
      let word = le_bytes k (wrap (256 ^ k) x) in
      let more = encode_samples k xs in
      let e' : drop at file ≡ word ++ (more ++ post) = e ∙ append_assoc word more post in
      let lw : length word ≡ k = length-le_bytes k (wrap (256 ^ k) x) in
      let r : fread stale file at ≡ (word, at + length word) =
        fread_whole stale file word at (more ++ post) e' (omega (arith, l, lw)) in
      let v : of_le word ≡ wrap (256 ^ k) x =
        of_le-le_bytes k (wrap (256 ^ k) x) (wrap-lt (256 ^ k) x (omega arith)) in
      let s : signed (256 ^ k) (wrap (256 ^ k) x) ≡ x = signed-wrap h (256 ^ k) x m fit in
      let d : drop (at + length word) file ≡ more ++ post =
        drop-add at (length word) file
        ∙ ap (drop (length word)) e'
        ∙ drop-append word (more ++ post) in
      rw (
        r,
        l,
        v,
        s,
        read_samples-encode_samples k h xs stale file post (at + length word) m hp l fits d,
      )
