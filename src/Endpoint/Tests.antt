-- ===== src/Endpoint/Tests.antt =====
-- The endpoint detector at concrete frames: 10 stands for a blank, 0 for speech, 40 ms each.
use wenet_android.Prelude.{
  ◌*◌, ◌≡◌, refl, ◌⊎◌, ◌↔◌, Bool, true, some, List, [], ◌∷◌, arith, replicate, ◌>>=◌,
}
use wenet_android.Prelude.Int.{ℤ, pos, ◌*ℤ◌}
use wenet_android.Prelude.Float.{whole}
use wenet_android.Endpoint.{
  Config, CtcEndpoint, default_rule1, default_rule2, default_rule3, reset, is_endpoint,
  accept_frame, accept_frames, is_blank, rules_activated,
}
use wenet_android.Endpoint.History.{
  is_endpoint_after_history, calls, frames_of, counted, trailing_silent, Holds,
}

abbrev config : Config whole
config = record {
  blank = 0;
  blank_scale = pos 1;
  blank_threshold = pos 5;
  rule1 = default_rule1;
  rule2 = default_rule2;
  rule3 = default_rule3;
}

abbrev fresh : CtcEndpoint whole
fresh = record {
  config = config;
  frame_shift_in_ms = pos 40;
  num_frames_decoded = 7;
  num_frames_trailing_blank = 0;
}

abbrev blank_frame : List ℤ
blank_frame = pos 10 ∷ pos 0 ∷ []

abbrev speech_frame : List ℤ
speech_frame = pos 0 ∷ pos 10 ∷ []

-- 1,000 ms of silence after speech end the utterance.
silence_ends :
    (is_endpoint (reset fresh) (speech_frame ∷ replicate 25 blank_frame) true >>= λ r. some r.1)
    ≡ some true
unfolding is_endpoint ◌*ℤ◌ accept_frames accept_frame reset is_blank rules_activated
silence_ends = refl

is_endpoint_after_history_example :
    let heard = speech_frame ∷ blank_frame ∷ blank_frame ∷ [] in
    let silence = trailing_silent config heard * 40 in
    (ended : Bool) × ((calls (reset fresh) ((speech_frame ∷ blank_frame ∷ [], true) ∷ []) >>= λ e'.
    is_endpoint e' (blank_frame ∷ []) true)
      ≡ some (counted fresh heard, ended))
    × ((ended ≡ true) ↔ (
        Holds default_rule1 true silence 120
        ⊎ Holds default_rule2 true silence 120
        ⊎ Holds default_rule3 true silence 120))
unfolding frames_of
is_endpoint_after_history_example =
    is_endpoint_after_history fresh ((speech_frame ∷ blank_frame ∷ [], true) ∷ [])
      (blank_frame ∷ []) true (omega arith) (omega arith)
