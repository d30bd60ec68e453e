-- ===== src/Wav.antt =====
-- wenet/runtime/core/frontend/wav.h: the header of a wave file, `WavReader`, `WavWriter` and
-- `StreamWavWriter`, on files that are byte strings, for a little-endian machine whose `char` is
-- signed. A division by zero, an array that is too large, an unsupported width and a loop that
-- uses up its fuel are `none`.
mod Words
mod Files
mod RoundTrip
mod Endless
mod Tests
use wenet_android.Prelude.{
  ℕ, zero, suc, ◌+◌, ◌-◌, ◌*◌, ◌/◌, ◌%◌, ◌^◌, Bool, true, false, not, ◌&&◌, Option, none, some,
  List, [], ◌∷◌, ◌++◌, arith, ltb, ◌==◌, if◌then◌else◌, length, take, drop, replicate, ◌>>=◌, ◌>>◌,
  check, codes, bytes_eq, map, concat,
}
use wenet_android.Prelude.Int.{ℤ, pos, negsuc}
use wenet_android.Prelude.Float.{Float}
use wenet_android.Text.Utf8.{Bytes}

-- `k` bytes of a number, the lowest first.
unfoldable pub le_bytes : ℕ → ℕ → Bytes
le_bytes zero v = []
le_bytes (suc k) v = v % 256 ∷ le_bytes k (v / 256)

unfoldable pub of_le : Bytes → ℕ
of_le [] = 0
of_le (b ∷ bytes) = b + 256 * of_le bytes

-- The bit pattern of an integer in a word of `m` values, and the integer of a pattern.
unfoldable pub wrap : ℕ → ℤ → ℕ
wrap m (pos n) = n % m
wrap m (negsuc n) = m - 1 - n % m

unfoldable pub signed : ℕ → ℕ → ℤ
signed m v = if ltb v (m / 2) then pos v else negsuc (m - 1 - v)

pub record WavHeader : Type 0 where
  pub riff : Bytes
  pub size : ℕ
  pub wav : Bytes
  pub fmt : Bytes
  pub fmt_size : ℕ
  pub format : ℕ
  pub channels : ℕ
  pub sample_rate : ℕ
  pub bytes_per_second : ℕ
  pub block_size : ℕ
  pub bit : ℕ
  pub data_tag : Bytes
  pub data_size : ℕ

abbrev pub header_size : ℕ
header_size = 44

abbrev pub default_header : WavHeader
default_header = record {
  riff = codes "RIFF";
  size = 0;
  wav = codes "WAVE";
  fmt = codes "fmt ";
  fmt_size = 16;
  format = 1;
  channels = 0;
  sample_rate = 0;
  bytes_per_second = 0;
  block_size = 0;
  bit = 0;
  data_tag = codes "data";
  data_size = 0;
}

-- The constructor, from four `int`s that are not negative.
unfoldable pub new_header : ℕ → ℕ → ℕ → ℕ → WavHeader
new_header num_samples num_channel rate bits =
    let bytes = num_samples * num_channel * (bits / 8) % 2 ^ 32 in
    record default_header {
      data_size = bytes;
      size = (header_size - 8 + bytes) % 2 ^ 32;
      channels = num_channel % 2 ^ 16;
      sample_rate = rate % 2 ^ 32;
      bytes_per_second = rate * num_channel * (bits / 8) % 2 ^ 32;
      block_size = num_channel * (bits / 8) % 2 ^ 16;
      bit = bits % 2 ^ 16;
    }

-- The header in memory: its fields leave no gaps.
unfoldable pub to_bytes : WavHeader → Bytes
to_bytes h =
    h.riff
    ++ (le_bytes 4 h.size
        ++ (h.wav
            ++ (h.fmt
                ++ (le_bytes 4 h.fmt_size
                    ++ (le_bytes 2 h.format
                        ++ (le_bytes 2 h.channels
                            ++ (le_bytes 4 h.sample_rate
                                ++ (le_bytes 4 h.bytes_per_second
                                    ++ (le_bytes 2 h.block_size
                                        ++ (le_bytes 2 h.bit
                                            ++ (h.data_tag ++ le_bytes 4 h.data_size)))))))))))

unfoldable pub of_bytes : Bytes → WavHeader
of_bytes b = record {
  riff = take 4 b;
  size = of_le (take 4 (drop 4 b));
  wav = take 4 (drop 8 b);
  fmt = take 4 (drop 12 b);
  fmt_size = of_le (take 4 (drop 16 b));
  format = of_le (take 2 (drop 20 b));
  channels = of_le (take 2 (drop 22 b));
  sample_rate = of_le (take 4 (drop 24 b));
  bytes_per_second = of_le (take 4 (drop 28 b));
  block_size = of_le (take 2 (drop 32 b));
  bit = of_le (take 2 (drop 34 b));
  data_tag = take 4 (drop 36 b);
  data_size = of_le (take 4 (drop 40 b));
}

-- `fread` at a position: it overwrites the front of `old` by the bytes that the file still has, and
-- moves behind them.
unfoldable pub fread : Bytes → Bytes → ℕ → Bytes × ℕ
fread old file at =
    let got = take (length old) (drop at file) in (got ++ drop (length got) old, at + length got)

-- `fseek` to a position behind the end and `fwrite` fill the gap with zeros.
unfoldable pub fwrite : Bytes → ℕ → Bytes → Bytes
fwrite bytes at file =
    take at (file ++ replicate (at - length file) 0) ++ (bytes ++ drop (at + length bytes) file)

-- The eight bytes of a chunk's tag and size.
abbrev pub Chunk : Type 0
Chunk = Bytes

-- The loop that skips chunks until one is called `data`: the chunk and the position behind it.
unfoldable pub skip_chunks : ℕ → Bytes → Chunk → ℕ → Option (Chunk × ℕ)
skip_chunks zero file chunk at = none
skip_chunks (suc fuel) file chunk at =
    let (next, at') = fread chunk file (at + of_le (drop 4 chunk)) in
    let rest = skip_chunks fuel file next at' in
    if bytes_eq (take 4 chunk) (codes "data") then some (chunk, at) else rest

-- `int offset`, from which `fseek` fails if it is negative.
unfoldable pub seek_fmt : ℕ → ℕ → ℕ
seek_fmt fmt_size at =
    let offset = (header_size - 8 + fmt_size - 16) % 2 ^ 32 in
    if ltb offset (2 ^ 31) then offset else at

-- The number of bytes of a sample.
unfoldable pub sample_width : ℕ → Option ℕ
sample_width bits =
    if bits == 8 then some 1 else if bits == 16 then some 2 else if bits == 32 then some 4 else none
