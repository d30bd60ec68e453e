-- ===== src/Model/Chunks.antt =====
-- What the encoder sees, chunk by chunk.
use native.Mathlib.Nat.{suc-mul}
use wenet_android.Prelude.{
  zero, ℕ, suc, ◌+◌, ◌-◌, ◌*◌, ◌≤◌, ◌<◌, ◌≡◌, ap, ◌∙◌, true, false, List, [], ◌++◌, arith, ltb, leb,
  length, drop, length-drop, length-append,
}
use wenet_android.Prelude.Int.{pos, pos_part, ltb_ℤ}
use wenet_android.Model.{AsrModel, num_frames_for_chunk, cache_feature, forward_encoder}

module _ {V E P : Type 0} (forward : List V → E → List P × E) where
  -- A chunk size above 0, and no more frames per step than the encoder looks at.
  abbrev pub IsStreaming : AsrModel V E → Type 0
  IsStreaming m = (0 < pos_part m.chunk_size) × (m.subsampling_rate ≤ 1 + m.right_context)

  -- The frames of one chunk for the encoder.
  abbrev pub window : AsrModel V E → ℕ
  window m = (pos_part m.chunk_size - 1) * m.subsampling_rate + (m.right_context + 1)

  chunk_lem :
      (m : AsrModel V E)
      → IsStreaming m
      → (num_frames_for_chunk m false ≡ window m)
        × (num_frames_for_chunk m true + (1 + m.right_context - m.subsampling_rate) ≡ window m)
  unfolding num_frames_for_chunk
  chunk_lem m (some_chunk, rate) =
      let streaming : ltb_ℤ (pos 0) m.chunk_size ≡ true = ground arith in
      (rw streaming, rw streaming (step (pos_part m.chunk_size) m.subsampling_rate some_chunk rate))
    where
      step :
          (k rate : ℕ)
          → 0 < k
          → rate ≤ 1 + m.right_context
          → k * rate + (1 + m.right_context - rate) ≡ (k - 1) * rate + (m.right_context + 1)
      step zero rate h r = absurd (omega arith)
      step (suc k) rate h r =
          let e : suc k - 1 ≡ k = omega arith in rw e (omega (arith, suc-mul k rate))

  caches :
      (m : AsrModel V E) (chunk : List V)
      → m.subsampling_rate ≤ 1 + m.right_context
      → m.right_context + 1 ≤ length m.cached_feature + length chunk
      → 1 + m.right_context - m.subsampling_rate ≤ length chunk
      → ((forward_encoder forward chunk m).0 ≡ (forward (m.cached_feature ++ chunk) m.encoder).0)
        × ((forward_encoder forward chunk m).1.cached_feature
            ≡ drop (length chunk - (1 + m.right_context - m.subsampling_rate)) chunk)
  unfolding forward_encoder cache_feature
  caches m chunk rate enough long =
      let a : leb (m.right_context + 1) (length m.cached_feature + length chunk) ≡ true =
        ground arith in
      let b : ltb (1 + m.right_context) m.subsampling_rate ≡ false = ground arith in
      let c : leb (1 + m.right_context - m.subsampling_rate) (length chunk) ≡ true = ground arith in
      (rw a, rw (a, b, c))

  first_state :
      (m : AsrModel V E) (chunk : List V)
      → m.right_context + 1 ≤ length m.cached_feature + length chunk
      → ((forward_encoder forward chunk m).1.encoder
          ≡ (forward (m.cached_feature ++ chunk) m.encoder).1)
        × ((forward_encoder forward chunk m).1.right_context ≡ m.right_context)
  unfolding forward_encoder cache_feature
  first_state m chunk enough =
      let a : leb (m.right_context + 1) (length m.cached_feature + length chunk) ≡ true =
        ground arith in
      rw a (ground arith)

  runs :
      (m : AsrModel V E) (chunk : List V)
      → m.right_context + 1 ≤ length m.cached_feature + length chunk
      → (forward_encoder forward chunk m).0 ≡ (forward (m.cached_feature ++ chunk) m.encoder).0
  unfolding forward_encoder
  runs m chunk enough =
      let a : leb (m.right_context + 1) (length m.cached_feature + length chunk) ≡ true =
        ground arith in
      rw a

  second_run :
      (m : AsrModel V E) (first second : List V)
      → m.cached_feature ≡ []
      → m.right_context + 1 ≤ length m.cached_feature + length first
      → m.right_context + 1
        ≤ length (forward_encoder forward first m).1.cached_feature + length second
      → let m' = (forward_encoder forward first m).1 in
        (forward_encoder forward second m').0
        ≡ (forward (m'.cached_feature ++ second) (forward first m.encoder).1).0
  second_run m first second fresh enough1 enough2 =
      let m' = (forward_encoder forward first m).1 in
      let (state, same) = first_state m first enough1 in
      let state' : m'.encoder ≡ (forward first m.encoder).1 =
        state ∙ ap (λ c. (forward (c ++ first) m.encoder).1) fresh in
      runs m' second (omega arith) ∙ ap (λ e. (forward (m'.cached_feature ++ second) e).0) state'

  -- With a chunk size above 0, a subsampling rate of `1 + right_context` at most and an empty cache,
  -- for a first chunk as long as `num_frames_for_chunk(false)` asks and a second one as long as
  -- `num_frames_for_chunk(true)` asks: the first call computes on the first chunk; the second one
  -- computes, from the encoder state that the first has left, on the last
  -- `1 + right_context - subsampling_rate` frames of the first chunk and the second chunk behind
  -- them; and both inputs have the same length.
  pub windows_overlap :
      (m : AsrModel V E) (first second : List V)
      → IsStreaming m
      → m.cached_feature ≡ []
      → length first ≡ num_frames_for_chunk m false
      → length second ≡ num_frames_for_chunk m true
      → let m' = (forward_encoder forward first m).1 in
        let overlap = 1 + m.right_context - m.subsampling_rate in
        (length first ≡ window m)
        × ((forward_encoder forward first m).0 ≡ (forward first m.encoder).0)
        × (m'.cached_feature ≡ drop (length first - overlap) first)
        × (length (m'.cached_feature ++ second) ≡ window m)
        × ((forward_encoder forward second m').0
            ≡ (forward (m'.cached_feature ++ second) (forward first m.encoder).1).0)
  windows_overlap m first second (some_chunk, rate) fresh len1 len2 =
      let (a, b) = chunk_lem m (some_chunk, rate) in
      let (run, cached) = caches m first rate (omega arith) (omega arith) in
      let overlap = 1 + m.right_context - m.subsampling_rate in
      let enough1 : m.right_context + 1 ≤ length m.cached_feature + length first = omega arith in
      let enough2 : m.right_context + 1
          ≤ length (forward_encoder forward first m).1.cached_feature + length second =
        rw cached (omega (arith, length-drop (length first - overlap) first)) in
      (
        len1 ∙ a,
        run ∙ ap (λ c. (forward (c ++ first) m.encoder).0) fresh,
        cached,
        rw cached (
            omega (
              arith,
              length-append (drop (length first - overlap) first) second,
              length-drop (length first - overlap) first,
            )),
        second_run m first second fresh enough1 enough2,
      )
