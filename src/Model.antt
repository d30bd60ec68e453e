-- ===== src/Model.antt =====
-- wenet/runtime/core/decoder/asr_model.cc: `AsrModel`, the part of a model that does not depend on
-- the library that computes it. The encoder itself is a parameter.
mod Chunks
mod Tests
use wenet_android.Prelude.{
  ℕ, ◌+◌, ◌-◌, ◌*◌, Bool, true, false, List, [], ◌∷◌, ◌++◌, arith, if◌then◌else◌, ltb, leb, length,
  drop, take,
}
use wenet_android.Prelude.Int.{ℤ, pos, negsuc, pos_part, ltb_ℤ}

-- `V` is a feature, `E` the state of the encoder.
pub record AsrModel (V E : Type 0) : Type 0 where
  pub right_context : ℕ
  pub subsampling_rate : ℕ
  pub chunk_size : ℤ
  pub num_left_chunks : ℤ
  pub cached_feature : List V
  pub encoder : E

module _ {V E : Type 0} where
  unfoldable pub set_chunk_size : ℤ → AsrModel V E → AsrModel V E
  set_chunk_size chunk_size m = record m { chunk_size = chunk_size }

  unfoldable pub set_num_left_chunks : ℤ → AsrModel V E → AsrModel V E
  set_num_left_chunks num_left_chunks m = record m { num_left_chunks = num_left_chunks }

  -- `start` is true from the second chunk on.
  unfoldable pub num_frames_for_chunk : AsrModel V E → Bool → ℕ
  num_frames_for_chunk m start =
      let chunk_size = pos_part m.chunk_size in
      let context = m.right_context + 1 in
      if ltb_ℤ (pos 0) m.chunk_size
      then (if start
          then chunk_size * m.subsampling_rate
          else (chunk_size - 1) * m.subsampling_rate + context)
      else 2_147_483_647

  -- A negative size is a huge number in the comparison, and nothing is cached.
  unfoldable pub cache_feature : List V → AsrModel V E → AsrModel V E
  cache_feature chunk_feats m =
      let cached_feature_size = 1 + m.right_context - m.subsampling_rate in
      if ltb (1 + m.right_context) m.subsampling_rate
      then m
      else if leb cached_feature_size (length chunk_feats)
      then record m { cached_feature = drop (length chunk_feats - cached_feature_size) chunk_feats }
      else m

  -- `ForwardEncoderFunc` gets the cached features and the chunk behind them.
  module _ {P : Type 0} (forward : List V → E → List P × E) where
    unfoldable pub forward_encoder : List V → AsrModel V E → List P × AsrModel V E
    forward_encoder chunk_feats m =
        let num_frames = length m.cached_feature + length chunk_feats in
        if leb (m.right_context + 1) num_frames
        then (let (ctc_prob, encoder) = forward (m.cached_feature ++ chunk_feats) m.encoder in
            (ctc_prob, cache_feature chunk_feats (record m { encoder = encoder })))
        else ([], m)
