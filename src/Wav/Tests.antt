-- ===== src/Wav/Tests.antt =====
-- Short wave files.
use wenet_android.Prelude.{
  true, take, bytes_eq, ℕ, ◌≡◌, refl, ◌++◌, codes, none, some, List, [], ◌∷◌, arith, concat, ◌⊎◌,
  replicate, map,
}
use wenet_android.Prelude.Int.{ℤ, pos, negsuc}
use wenet_android.Prelude.Float.{whole}
use wenet_android.Text.Utf8.{Bytes}
use wenet_android.Wav.{
  of_bytes, to_bytes, wrap, signed, fwrite, new_header, sample_width, skip_chunks, fread, of_le,
  le_bytes, Chunk,
}
use wenet_android.Wav.Files.{
  opened, refused, open_file, open_stream, write_blocks, close_stream, write_wave, write_stream,
  encode_samples, header_refused, first_chunk, read_data, read_samples,
}
use wenet_android.Wav.RoundTrip.Opening.{wave}
use wenet_android.Wav.RoundTrip.Streams.{open_file-close_stream, open_file-write_wave}
use wenet_android.Wav.Endless.{skip_chunks_decided}

abbrev four_zeros : Bytes
four_zeros = replicate 4 0

abbrev two_blocks : List (List ℤ)
two_blocks = (pos 5 ∷ negsuc 299 ∷ []) ∷ [] ∷ (pos 32_767 ∷ []) ∷ []

open_file-close_stream_example :
    open_file whole 1 four_zeros
      (some (close_stream (write_blocks two_blocks (open_stream 1 16_000 16))))
    ≡ some (opened (wave whole 3 1 16_000 16 2 (concat two_blocks)))
open_file-close_stream_example =
    open_file-close_stream whole 16_000 two_blocks four_zeros (omega arith) (omega arith) refl
      (omega arith)

abbrev stereo : List ℤ
stereo = pos 1 ∷ negsuc 0 ∷ pos 127 ∷ negsuc 127 ∷ []

open_file-write_wave_example :
    open_file whole 1 four_zeros (some (write_wave (λ x. x) stereo 2 2 8_000 8))
    ≡ some (opened (wave whole 2 2 8_000 8 1 (map (λ x. x) stereo)))
unfolding sample_width
open_file-write_wave_example =
    open_file-write_wave (λ x. x) whole stereo 2 2 8_000 8 1 four_zeros
      (record {
        width = refl;
        some_channel = omega arith;
        channels_fit = omega arith;
        rate_fits = omega arith;
        size_fits = omega arith;
      })
      refl (omega arith) refl

-- A chunk called `fact` of four bytes stands before the data.
abbrev with_fact : Bytes
with_fact = le_bytes 4 7 ++ (codes "data" ++ le_bytes 4 2)

abbrev fact_chunk : Chunk
fact_chunk = codes "fact" ++ le_bytes 4 4

skip_chunks_decided_example :
    ((r : Chunk × ℕ) × (skip_chunks 13 with_fact fact_chunk 0 ≡ some r)
      × (bytes_eq (take 4 r.0) (codes "data") ≡ true))
    ⊎ ((more : ℕ) → skip_chunks more with_fact fact_chunk 0 ≡ none)
unfolding le_bytes
skip_chunks_decided_example =
    skip_chunks_decided 12 with_fact fact_chunk 0 (omega arith) (omega arith)

fact_skipped : skip_chunks 13 with_fact fact_chunk 0 ≡ some (codes "data" ++ le_bytes 4 2, 12)
unfolding skip_chunks fread of_le le_bytes
fact_skipped = refl

not_a_wave : open_file whole 1 four_zeros (some (codes "RIFX")) ≡ some refused
unfolding open_file fread of_bytes to_bytes of_le le_bytes header_refused
not_a_wave = refl

-- The header of a stream counts the samples of every channel once for each channel.
stream_of_two_channels :
    open_file whole 1 four_zeros
      (some (close_stream (write_blocks ((pos 1 ∷ pos 2 ∷ []) ∷ []) (open_stream 2 8_000 16))))
    ≡ some (opened (wave whole 2 2 8_000 16 2 (pos 1 ∷ pos 2 ∷ pos 0 ∷ pos 0 ∷ [])))
unfolding open_file fread of_bytes to_bytes of_le le_bytes header_refused first_chunk skip_chunks
    read_data read_samples sample_width signed new_header close_stream write_blocks write_stream
    open_stream fwrite encode_samples wrap
stream_of_two_channels = refl
