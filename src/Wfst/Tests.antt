-- ===== src/Wfst/Tests.antt =====
-- The same unit twice with a skipped blank between, and the theorem at it.
use wenet_android.Prelude.{ℕ, suc, ◌≡◌, refl, false, Option, none, some, List, [], ◌∷◌}
use wenet_android.Prelude.Int.{ℤ, pos, ◌*ℤ◌}
use wenet_android.Prelude.Float.{whole}
use wenet_android.Decoder.Stamps.{IsRising}
use wenet_android.Wfst.{
  CtcWfstBeamSearch, max_loop, max_element, reset, decode_frame, add_blank, keep_frame, skip_frame,
  search_frame, search_frames, repeats, convert_to_inputs,
}
use wenet_android.Wfst.Times.{convert-IsRising}

abbrev count_from : ℕ → ℕ
count_from n = 0

abbrev count : List ℤ → ℕ → ℕ
count frame n = suc n

abbrev start : CtcWfstBeamSearch whole ℕ
start = record {
  opts = record { blank = 0; blank_scale = pos 1; blank_skip_thresh = pos 5 };
  num_frames = 0;
  decoded_frames_mapping = [];
  is_last_frame_blank = false;
  last_best = 0;
  last_frame_prob = [];
  decoder = 7;
}

abbrev spoken : List ℤ
spoken = pos 0 ∷ pos 10 ∷ []

abbrev blank_frame : List ℤ
blank_frame = pos 10 ∷ pos 0 ∷ []

abbrev or_start : Option (CtcWfstBeamSearch whole ℕ) → CtcWfstBeamSearch whole ℕ
or_start none = start
or_start (some st) = st

abbrev after : CtcWfstBeamSearch whole ℕ
after = or_start (
    search_frames count_from count (spoken ∷ blank_frame ∷ spoken ∷ [])
      (reset count_from count start))

after_run :
    search_frames count_from count
      (spoken ∷ blank_frame ∷ spoken ∷ [])
      (reset count_from count start)
    ≡ some after
unfolding search_frames search_frame skip_frame keep_frame add_blank decode_frame max_element
    max_loop reset ◌*ℤ◌
after_run = refl

units :
    convert_to_inputs 0 none (2 ∷ 1 ∷ 2 ∷ []) after.decoded_frames_mapping
    ≡ some (1 ∷ 1 ∷ [], 0 ∷ 2 ∷ [])
unfolding search_frames search_frame skip_frame keep_frame add_blank decode_frame max_element
    max_loop reset ◌*ℤ◌ convert_to_inputs repeats
units = refl

convert-IsRising_example : IsRising none (0 ∷ 2 ∷ [])
unfolding search_frames search_frame skip_frame keep_frame add_blank decode_frame max_element
    max_loop reset ◌*ℤ◌
convert-IsRising_example =
    convert-IsRising count_from count (spoken ∷ blank_frame ∷ spoken ∷ []) start after
      (2 ∷ 1 ∷ 2 ∷ []) (1 ∷ 1 ∷ []) (0 ∷ 2 ∷ []) after_run units
