-- ===== src/Api/Loop.antt =====
-- wenet_api.cc: the loop of `Recognizer::Decode` ends, and what its result says of the features.
use wenet_android.Prelude.{
  ℕ, zero, suc, ◌+◌, ◌<◌, ◌≡◌, refl, ap, ◌∙◌, ◌⊎◌, inl, inr, true, false, [], arith, if_cases,
  length, Option-cases,
}
use wenet_android.Prelude.Int.{ℤ}
use wenet_android.Prelude.Float.{Float}
use wenet_android.Model.{num_frames_for_chunk, set_chunk_size, set_num_left_chunks}
use wenet_android.Bridge.{DecodeState, end_batch, endpoint, end_feats, wait_feats}
use wenet_android.Decoder.Advance.{Resource, AsrDec, advance_decoding, reset_continuous_decoding}
use wenet_android.Decoder.Rescoring.{attention_rescoring}
use wenet_android.Decoder.States.{required, Says, advance-Says}
use wenet_android.Decoder.Kept.{Keeps, advance-Keeps, rescoring-feature_pipeline}
use wenet_android.Api.{
  some, Output, Call, returns, fails, out_of_fuel, Recognizer, update_result, Decoded, conclude,
  decode_round, decode_loop,
}

module _ {f : Float} {V E S : Type 0} (r : Resource f ℤ V E S) where
  required_pos : (d : AsrDec r) → 0 < d.model.subsampling_rate → 0 < required r d
  unfolding num_frames_for_chunk set_chunk_size set_num_left_chunks
  required_pos d h = grind arith

  required_kept :
      (d d' : AsrDec r) → Keeps r d d' → d'.start ≡ d.start → required r d' ≡ required r d
  unfolding num_frames_for_chunk set_chunk_size set_num_left_chunks
  required_kept d d' k s = rw (k.same_opts, k.same_context, k.same_rate, s)

  -- The states behind which the loop goes on.
  abbrev pub Passes : Recognizer r → DecodeState → Type 0
  Passes rec end_batch = Unit
  Passes rec endpoint = rec.continuous_decoding ≡ false
  Passes rec end_feats = ⊥
  Passes rec wait_feats = ⊥

  -- Rounds of the loop that have not ended it.
  pub data Rounds (rec : Recognizer r) (start : AsrDec r) : AsrDec r → Type 0 where
    here : Rounds rec start start
    next :
        {d : AsrDec r} (state : DecodeState) (d' : AsrDec r)
        → Rounds rec start d
        → advance_decoding r false d ≡ some (state, d')
        → Passes rec state
        → Rounds rec start d'

  -- The loop that started at `start` has come to a round that returns `state`.
  abbrev pub Reaches : Recognizer r → AsrDec r → DecodeState → AsrDec r → Type 0
  Reaches rec start state d =
      (before : AsrDec r) × Rounds rec start before
      × (advance_decoding r false before ≡ some (state, d))

  -- A partial result: the input goes on, and no whole chunk is queued.
  abbrev pub IsPartial : Recognizer r → AsrDec r → Output f → AsrDec r → Type 0
  IsPartial rec start out d =
      Reaches rec start wait_feats d
      × (out ≡ update_result r false rec d)
      × (d.feature_pipeline.input_finished ≡ false)
      × (length d.feature_pipeline.feature_queue < required r d)

  -- The final result of the whole input.
  abbrev pub IsFinal : Recognizer r → AsrDec r → Output f → AsrDec r → Type 0
  IsFinal rec start out d =
      (decoded : AsrDec r) × Reaches rec start end_feats decoded
      × (attention_rescoring r decoded ≡ some d)
      × (out ≡ update_result r true rec d)
      × (d.feature_pipeline.input_finished ≡ true)
      × (d.feature_pipeline.feature_queue ≡ [])

  -- The final result of one of several utterances, after which the next one starts.
  abbrev pub IsUtterance : Recognizer r → AsrDec r → Output f → AsrDec r → Type 0
  IsUtterance rec start out d =
      (decoded rescored : AsrDec r) × (rec.continuous_decoding ≡ true)
      × Reaches rec start endpoint decoded
      × (attention_rescoring r decoded ≡ some rescored)
      × (out ≡ update_result r true rec rescored)
      × (d ≡ reset_continuous_decoding r rescored)

  -- The loop has ended, unless a check has failed.
  abbrev pub Ends : Recognizer r → AsrDec r → Call (Decoded r) → Type 0
  Ends rec start (returns (out, d)) =
      IsPartial rec start out d ⊎ (IsFinal rec start out d ⊎ IsUtterance rec start out d)
  Ends rec start fails = Unit
  Ends rec start out_of_fuel = ⊥

  conclude_final :
      (rec : Recognizer r) (start d : AsrDec r)
      → Reaches rec start end_feats d
      → d.feature_pipeline.input_finished ≡ true
      → d.feature_pipeline.feature_queue ≡ []
      → Ends rec start (conclude r rec (λ d'. d') d)
  unfolding conclude
  conclude_final rec start d way fin empty = elim (Option-cases (attention_rescoring r d)) [
    | inl e ↦ rw (e, conclude) tt
    | inr (d', e) ↦
        let same = rescoring-feature_pipeline r d d' e in
        rw (e, conclude)
          (inr (
            inl (
              d,
              way,
              e,
              refl,
              ap (λ p. p.input_finished) same ∙ fin,
              ap (λ p. p.feature_queue) same ∙ empty,
            )))
  ]

  conclude_utterance :
      (rec : Recognizer r) (start d : AsrDec r)
      → Reaches rec start endpoint d
      → rec.continuous_decoding ≡ true
      → Ends rec start (conclude r rec (reset_continuous_decoding r) d)
  unfolding conclude
  conclude_utterance rec start d way goes_on = elim (Option-cases (attention_rescoring r d)) [
    | inl e ↦ rw (e, conclude) tt
    | inr (d', e) ↦ rw (e, conclude) (inr (inr (d, d', goes_on, way, e, refl, refl)))
  ]

  round-Ends :
      (rec : Recognizer r) (start d d' : AsrDec r) (state : DecodeState) (later : Call (Decoded r))
      → Rounds rec start d
      → advance_decoding r false d ≡ some (state, d')
      → Says r state false d d'
      → Keeps r d d'
      → (Rounds rec start d'
          → length d'.feature_pipeline.feature_queue + required r d
            ≡ length d.feature_pipeline.feature_queue
          → Ends rec start later)
      → Ends rec start (decode_round r rec state d' later)
  unfolding decode_round
  round-Ends rec start d d' wait_feats later way e says k h =
      let (_, fin, few, same, _, st) = says in
      let needed = required_kept d d' k st in
      inl ((d, way, e), refl, ap (λ p. p.input_finished) same ∙ fin, rw (same, needed) few)
  round-Ends rec start d d' end_feats later way e says k h =
      let (fin, _, empty, _, _) = says in
      conclude_final rec start d' (d, way, e) (k.same_finished ∙ fin) empty
  round-Ends rec start d d' endpoint later way e says k h =
      if_cases (Ends rec start) rec.continuous_decoding
        (conclude_utterance rec start d' (d, way, e))
        (λ stays. h (next endpoint d' way e stays) (omega (arith, says)))
  round-Ends rec start d d' end_batch later way e says k h =
      h (next end_batch d' way e tt) (omega (arith, says))

  -- A call's loop ends within one round for each queued frame and one more, and what it then returns
  -- is a partial result, the final result of the input, or in continuous decoding that of an
  -- utterance.
  pub decode_loop-Ends :
      (fuel : ℕ) (rec : Recognizer r) (start d : AsrDec r)
      → Rounds rec start d
      → 0 < d.model.subsampling_rate
      → length d.feature_pipeline.feature_queue < fuel
      → Ends rec start (decode_loop r fuel rec d)
  unfolding decode_loop
  decode_loop-Ends zero rec start d way rate enough = absurd (omega arith)
  decode_loop-Ends (suc fuel) rec start d way rate enough =
      elim (Option-cases (advance_decoding r false d)) [
        | inl e ↦ rw (e, decode_loop) tt
        | inr ((state, d'), e) ↦
            let k = advance-Keeps r false d d' state e in
            rw (e, decode_loop)
              (round-Ends rec start d d' state (decode_loop r fuel rec d') way e
                (advance-Says r false d d' state e) k
                (λ way' taken.
                  decode_loop-Ends fuel rec start d' way' (omega (arith, k.same_rate))
                    (omega (arith, taken, required_pos d rate))))
      ]
