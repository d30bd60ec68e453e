-- ===== src/Wav/RoundTrip/Streams.antt =====
-- wav.h: what the two writers leave in a file, and that `Open` reads it.
use wenet_android.Prelude.{
  length-map, drop-append_le, ℕ, zero, suc, ◌+◌, ◌-◌, ◌*◌, ◌/◌, ◌^◌, ◌<◌, ◌≡◌, refl, ap, sym, ◌∙◌,
  some, List, [], ◌∷◌, ◌++◌, arith, length, take, drop, inl, inr, ◌⊎◌, map, All, Bool-cases,
  bytes_eq, bytes_eq_sound, concat, append-nil, append_assoc, replicate, length-append, take-append,
}
use wenet_android.Prelude.Int.{ℤ}
use wenet_android.Prelude.Float.{Float}
use wenet_android.Text.Utf8.{Bytes}
use wenet_android.Wav.{new_header, to_bytes, sample_width, fwrite}
use wenet_android.Wav.Files.{
  opened, open_file, encode_samples, StreamWavWriter, open_stream, write_stream, write_blocks,
  close_stream, encode_wave, write_wave,
}
use wenet_android.Wav.Words.{Fits, encode_samples-append, length-encode_samples}
use wenet_android.Wav.RoundTrip.Headers.{length-to_bytes}
use wenet_android.Wav.RoundTrip.Opening.{IsSane, wave, open_file-wave_file}

drop_nil : (n : ℕ) → drop {A = ℕ} n [] ≡ []
drop_nil zero = refl
drop_nil (suc n) = refl

drop_past : (n : ℕ) (file : Bytes) → drop (length file + n) file ≡ []
drop_past n [] = drop_nil (0 + n)
drop_past n (x ∷ file) =
    let e : suc (length file) + n ≡ suc (length file + n) = omega arith in rw e (drop_past n file)

fwrite_end : (bytes file : Bytes) → fwrite bytes (length file) file ≡ file ++ bytes
unfolding fwrite
fwrite_end bytes file =
    let z : length file - length file ≡ 0 = omega arith in
    rw (z, take-append file [], drop_past (length bytes) file, append-nil)

fwrite_first : (bytes : Bytes) → fwrite bytes 44 [] ≡ replicate 44 0 ++ bytes
unfolding fwrite
fwrite_first bytes = rw (drop_nil (44 + length bytes), append-nil)

-- A stream that holds the samples `xs` behind the place of the header.
record Holds (rate : ℕ) (xs : List ℤ) (w : StreamWavWriter) : Type 0 where
  set_up : (w.num_channel ≡ 1) × (w.sample_rate ≡ rate) × (w.bits_per_sample ≡ 16)
  place : (length w.file ≡ w.position) ⊎ ((w.file ≡ []) × (w.position ≡ 44))
  far : w.position ≡ 44 + 2 * length xs
  total : w.total_num_samples ≡ length xs
  encoded : drop 44 w.file ≡ encode_samples 2 xs

fwrite_place :
    (rate : ℕ) (xs : List ℤ) (w : StreamWavWriter) (bytes : Bytes)
    → Holds rate xs w
    → (length (fwrite bytes w.position w.file) ≡ w.position + length bytes)
      × (drop 44 (fwrite bytes w.position w.file) ≡ encode_samples 2 xs ++ bytes)
fwrite_place rate xs w bytes h = elim h.place [
  | inl e ↦
      let q : fwrite bytes w.position w.file ≡ w.file ++ bytes =
        ap (λ t. fwrite bytes t w.file) (sym e) ∙ fwrite_end bytes w.file in
      (
        ap length q ∙ length-append w.file bytes ∙ ap (λ t. t + length bytes) e,
        ap (drop 44) q
            ∙ drop-append_le 44 w.file bytes (omega (arith, e, h.far))
            ∙ ap (λ t. t ++ bytes) h.encoded,
      )
  | inr (e, p) ↦
      let q : fwrite bytes w.position w.file ≡ replicate 44 0 ++ bytes =
        ap (λ t. fwrite bytes t w.file) p ∙ ap (fwrite bytes 44) e ∙ fwrite_first bytes in
      (
        ap length q ∙ omega (arith, p),
        ap (drop 44) q ∙ ap (λ t. t ++ bytes) (sym (ap (drop 44) e) ∙ h.encoded),
      )
]

write_stream-Holds :
    (rate : ℕ) (xs ys : List ℤ) (w : StreamWavWriter)
    → Holds rate xs w
    → Holds rate (xs ++ ys) (write_stream ys w)
unfolding write_stream
write_stream-Holds rate xs ys w h =
    let bytes = encode_samples 2 ys in
    let len = length-encode_samples 2 ys in
    let (l, d) = fwrite_place rate xs w bytes h in
    let both = encode_samples-append 2 xs ys in
    elim (Bool-cases (bytes_eq bytes [])) [
      | inl e ↦
          let none_left : bytes ≡ [] = bytes_eq_sound bytes [] e in
          let z : length bytes ≡ 0 = ap length none_left in
          rw e (record {
            set_up = h.set_up;
            place = elim h.place [
              | inl p ↦ inl (omega (arith, p, z))
              | inr (n, p) ↦ inr (n, omega (arith, p, z))
            ];
            far = omega (arith, h.far, len, length-append xs ys);
            total = omega (arith, h.total, length-append xs ys);
            encoded =
                h.encoded
                ∙ sym (both ∙ ap (λ t. encode_samples 2 xs ++ t) none_left ∙ append-nil _);
          })
      | inr e ↦ rw e (record {
        set_up = h.set_up;
        place = inl l;
        far = omega (arith, h.far, len, length-append xs ys);
        total = omega (arith, h.total, length-append xs ys);
        encoded = d ∙ sym both;
      })
    ]

write_blocks-Holds :
    (rate : ℕ) (blocks : List (List ℤ)) (xs : List ℤ) (w : StreamWavWriter)
    → Holds rate xs w
    → Holds rate (xs ++ concat blocks) (write_blocks blocks w)
unfolding write_blocks
write_blocks-Holds rate [] xs w h = rw (append-nil xs) h
write_blocks-Holds rate (ys ∷ blocks) xs w h = rw (← append_assoc xs ys (concat blocks)) (
    write_blocks-Holds rate blocks (xs ++ ys) (write_stream ys w)
      (write_stream-Holds rate xs ys w h))

open_stream-Holds : (rate : ℕ) → Holds rate [] (open_stream 1 rate 16)
unfolding open_stream encode_samples
open_stream-Holds rate = record {
  set_up = (refl, refl, refl);
  place = inr (refl, refl);
  far = refl;
  total = refl;
  encoded = refl;
}

fwrite_front : (head file : Bytes) → length head ≡ 44 → fwrite head 0 file ≡ head ++ drop 44 file
unfolding fwrite
fwrite_front head file l = let e : 0 + length head ≡ 44 = omega (arith, l) in rw e

-- What a stream that was opened, written in any blocks and closed leaves.
close_stream_lem :
    (rate : ℕ) (blocks : List (List ℤ))
    → let n = length (concat blocks) in
      close_stream (write_blocks blocks (open_stream 1 rate 16))
      ≡ to_bytes (new_header n 1 rate 16) ++ encode_samples 2 (concat blocks)
unfolding close_stream
close_stream_lem rate blocks =
    let w = write_blocks blocks (open_stream 1 rate 16) in
    let h : Holds rate (concat blocks) w =
      write_blocks-Holds rate blocks [] (open_stream 1 rate 16) (open_stream-Holds rate) in
    let (c, r, b) = h.set_up in
    let l = length-to_bytes (length (concat blocks)) 1 rate 16 in
    rw (h.total, c, r, b)
      (fwrite_front (to_bytes (new_header (length (concat blocks)) 1 rate 16)) w.file l
        ∙ ap (λ t. to_bytes (new_header (length (concat blocks)) 1 rate 16) ++ t) h.encoded)

-- A stream of one channel and 16 bits that is opened, written in any blocks and closed is read back
-- by `Open`: the rate, and the samples of all blocks in order.
pub open_file-close_stream :
    (f : Float) (rate : ℕ) (blocks : List (List ℤ)) (stale : Bytes)
    → rate < 2 ^ 31
    → 2 * length (concat blocks) + 36 < 2 ^ 31
    → length stale ≡ 4
    → All (Fits (2 ^ 15)) (concat blocks)
    → open_file f 1 stale (some (close_stream (write_blocks blocks (open_stream 1 rate 16))))
      ≡ some (opened (wave f (length (concat blocks)) 1 rate 16 2 (concat blocks)))
unfolding sample_width
open_file-close_stream f rate blocks stale r size l fits =
    let sane : IsSane (length (concat blocks)) 1 rate 16 2 = record {
      width = refl;
      some_channel = omega arith;
      channels_fit = omega arith;
      rate_fits = r;
      size_fits = omega arith;
    } in
    rw (close_stream_lem rate blocks) (
      open_file-wave_file f (length (concat blocks)) 1 rate 16 2 (concat blocks) 0 stale sane l
        (omega arith) fits)

module _ {F : Type 0} (to_int : F → ℤ) where
  encode_wave_lem :
      (bits k : ℕ) (values : List F)
      → sample_width bits ≡ some k
      → encode_wave to_int bits values ≡ encode_samples k (map to_int values)
  unfolding encode_wave encode_samples
  encode_wave_lem bits k [] e = refl
  encode_wave_lem bits k (x ∷ values) e = rw (e, encode_wave_lem bits k values e)

  -- A file of 8, 16 or 32 bits that `WavWriter::Write` makes is read back by `Open`: the header, and
  -- the integers that the floats were cast to.
  pub open_file-write_wave :
      (f : Float) (values : List F) (n c rate bits k : ℕ) (stale : Bytes)
      → IsSane n c rate bits k
      → length values ≡ n * c
      → All (Fits (256 ^ k / 2)) (map to_int values)
      → length stale ≡ 4
      → open_file f 1 stale (some (write_wave to_int values n c rate bits))
        ≡ some (opened (wave f n c rate bits k (map to_int values)))
  unfolding write_wave
  open_file-write_wave f values n c rate bits k stale sane len fits l =
      let t : take (n * c) values ≡ values = ap (λ m. take m values) (sym len) ∙ take_all values in
      rw (t, encode_wave_lem bits k values sane.width)
        (open_file-wave_file f n c rate bits k (map to_int values) 0 stale sane l
          (length-map values to_int ∙ len) fits)
    where
      take_all : (xs : List F) → take (length xs) xs ≡ xs
      take_all [] = refl
      take_all (x ∷ xs) = ap (λ t. x ∷ t) (take_all xs)
