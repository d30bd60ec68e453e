-- ===== src/Wav/Files.antt =====
-- wav.h: what the reader and the writers do to a file.
use wenet_android.Prelude.{
  ℕ, zero, suc, ◌+◌, ◌*◌, ◌/◌, ◌^◌, Bool, not, ◌||◌, Option, none, some, List, [], ◌∷◌, ◌++◌, ltb,
  ◌==◌, if◌then◌else◌, length, take, drop, ◌>>=◌, ◌>>◌, check, codes, bytes_eq,
}
use wenet_android.Prelude.Int.{ℤ}
use wenet_android.Prelude.Float.{Float}
use wenet_android.Text.Utf8.{Bytes}
use wenet_android.Wav.{
  WavHeader, header_size, default_header, new_header, to_bytes, of_bytes, fread, fwrite, Chunk,
  skip_chunks, seek_fmt, sample_width, of_le, le_bytes, wrap, signed,
}

module _ (f : Float) where
  pub record WavReader : Type 0 where
    pub num_channel : ℕ
    pub sample_rate : ℤ
    pub bits_per_sample : ℕ
    pub num_samples : ℕ
    pub samples : List f.F  -- data_

  -- `Open` returns false, or true with the reader filled in.
  pub data Opened : Type 0 where
    refused : Opened
    opened : WavReader → Opened

  -- The rounds of the sample loop. `stale` is what the variable `sample` holds before each `fread`.
  unfoldable pub read_samples : ℕ → Bytes → Bytes → ℕ → List f.F
  read_samples zero stale file at = []
  read_samples (suc n) stale file at =
      let (sample, at') = fread stale file at in
      f.of_int (signed (256 ^ length stale) (of_le sample)) ∷ read_samples n stale file at'

  -- From the chunk called `data` on.
  unfoldable pub read_data : WavHeader → Bytes → Bytes → ℕ → Option Opened
  read_data h stale file at = do
    check (not (h.bit / 8 == 0))
    let num_data = h.data_size / (h.bit / 8)
    check (ltb num_data (2 ^ 31))
    check (not (h.channels == 0))
    samples ←
        if num_data == 0
        then some []
        else (sample_width h.bit >>= λ width.
            some (read_samples num_data (take width stale) file at))
    some (
        opened record {
          num_channel = h.channels;
          sample_rate = signed (2 ^ 32) h.sample_rate;
          bits_per_sample = h.bit;
          num_samples = num_data / h.channels;
          samples = samples;
        })

  -- The two tests on the header.
  unfoldable pub header_refused : WavHeader → Bool
  header_refused h =
      not (bytes_eq h.riff (codes "RIFF"))
      || (not (bytes_eq h.wav (codes "WAVE")) || not (bytes_eq (take 3 h.fmt) (codes "fmt")))
      || ltb h.fmt_size 16

  -- The chunk behind the format, with its position.
  unfoldable pub first_chunk : WavHeader → Bytes → ℕ → Chunk × ℕ
  first_chunk h file at =
      let here = h.data_tag ++ le_bytes 4 h.data_size in
      if ltb 16 h.fmt_size then fread here file (seek_fmt h.fmt_size at) else (here, at)

  -- `Open`, where a file that `fopen` does not find is `none`.
  unfoldable pub open_file : ℕ → Bytes → Option Bytes → Option Opened
  open_file fuel stale none = some refused
  open_file fuel stale (some file) =
      let (bytes, at) = fread (to_bytes default_header) file 0 in
      let h = of_bytes bytes in
      let (first, start) = first_chunk h file at in
      let rest = skip_chunks fuel file first start >>= λ (chunk, at').
      read_data (record h { data_tag = take 4 chunk; data_size = of_le (drop 4 chunk) }) stale file
        at' in
      if header_refused h then some refused else rest

-- `StreamWavWriter`, whose samples have 16 bits in `Write` whatever its width is.
pub record StreamWavWriter : Type 0 where
  pub num_channel : ℕ
  pub sample_rate : ℕ
  pub bits_per_sample : ℕ
  pub total_num_samples : ℕ
  pub file : Bytes
  pub position : ℕ

unfoldable pub open_stream : ℕ → ℕ → ℕ → StreamWavWriter
open_stream num_channel rate bits = record {
  num_channel = num_channel;
  sample_rate = rate;
  bits_per_sample = bits;
  total_num_samples = 0;
  file = [];
  position = header_size;
}

unfoldable pub encode_samples : ℕ → List ℤ → Bytes
encode_samples width [] = []
encode_samples width (x ∷ xs) = le_bytes width (wrap (256 ^ width) x) ++ encode_samples width xs

unfoldable pub write_stream : List ℤ → StreamWavWriter → StreamWavWriter
write_stream xs w =
    let bytes = encode_samples 2 xs in
    record w {
      file = if bytes_eq bytes [] then w.file else fwrite bytes w.position w.file;
      position = w.position + length bytes;
      total_num_samples = w.total_num_samples + length xs;
    }

unfoldable pub write_blocks : List (List ℤ) → StreamWavWriter → StreamWavWriter
write_blocks [] w = w
write_blocks (xs ∷ blocks) w = write_blocks blocks (write_stream xs w)

-- The file that `Close` leaves.
unfoldable pub close_stream : StreamWavWriter → Bytes
close_stream w =
    let h = new_header w.total_num_samples w.num_channel w.sample_rate w.bits_per_sample in
    fwrite (to_bytes h) 0 w.file

-- `WavWriter::Write`: no width but the three writes a sample. `to_int` is the cast of a float.
module _ {F : Type 0} (to_int : F → ℤ) where
  unfoldable pub encode_wave : ℕ → List F → Bytes
  encode_wave bits [] = []
  encode_wave bits (x ∷ xs) =
      (elim (sample_width bits) [
        | none ↦ []
        | some width ↦ le_bytes width (wrap (256 ^ width) (to_int x))
      ])
      ++ encode_wave bits xs

  unfoldable pub write_wave : List F → ℕ → ℕ → ℕ → ℕ → Bytes
  write_wave values num_samples num_channel rate bits =
      to_bytes (new_header num_samples num_channel rate bits)
      ++ encode_wave bits (take (num_samples * num_channel) values)
