-- ===== src/Decoder/States.antt =====
-- What each state that `AdvanceDecoding` returns says of the features.
use wenet_android.Prelude.{
  ℕ, ◌+◌, ◌<◌, ◌≡◌, refl, ap, sym, ◌∙◌, ◌⊎◌, inl, inr, Bool, true, false, some, List, [], ◌++◌,
  arith, if◌then◌else◌, length, length-append, Bool-cases, bind_inv, some_inj,
}
use wenet_android.Prelude.Float.{Float}
use wenet_android.Feature.{FeaturePipeline, num_queued_frames, read}
use wenet_android.Feature.Reading.{read_sound}
use wenet_android.Endpoint.{is_endpoint}
use wenet_android.Model.{num_frames_for_chunk, set_chunk_size, set_num_left_chunks}
use wenet_android.Bridge.{DecodeState, end_batch, endpoint, end_feats, wait_feats}
use wenet_android.Decoder.Advance.{
  Resource, AsrDec, scale_blank, update_result, results_from, decode_chunk, finish_chunk, waits,
  advance_decoding,
}

module _ {f : Float} {Sample V E S : Type 0} (r : Resource f Sample V E S) where
  -- The frames the next chunk asks for.
  abbrev pub required : AsrDec r → ℕ
  required d =
      num_frames_for_chunk
        (set_num_left_chunks d.opts.num_left_chunks (set_chunk_size d.opts.chunk_size d.model))
        d.start

  -- What a returned state says: of the frames that were queued and of those that are left.
  abbrev pub Says : DecodeState → Bool → AsrDec r → AsrDec r → Type 0
  Says wait_feats block d d' =
      (block ≡ false)
      × (d.feature_pipeline.input_finished ≡ false)
      × (length d.feature_pipeline.feature_queue < required d)
      × (d'.feature_pipeline ≡ d.feature_pipeline)
      × (d'.num_frames ≡ d.num_frames)
      × (d'.start ≡ d.start)
  Says end_feats block d d' =
      (d.feature_pipeline.input_finished ≡ true)
      × (length d.feature_pipeline.feature_queue < required d)
      × (d'.feature_pipeline.feature_queue ≡ [])
      × (d'.num_frames ≡ d.num_frames + length d.feature_pipeline.feature_queue)
      × (d'.start ≡ true)
  Says end_batch block d d' =
      (length d.feature_pipeline.feature_queue
        ≡ required d + length d'.feature_pipeline.feature_queue)
      × (d'.num_frames ≡ d.num_frames + required d)
      × (d'.start ≡ true)
  Says endpoint block d d' =
      (length d.feature_pipeline.feature_queue
        ≡ required d + length d'.feature_pipeline.feature_queue)
      × (d'.num_frames ≡ d.num_frames + required d)
      × (d'.start ≡ true)

  update_result_lem :
      (finish : Bool) (d d' : AsrDec r)
      → update_result r finish d ≡ some d'
      → (d'.feature_pipeline ≡ d.feature_pipeline) × (d'.num_frames ≡ d.num_frames)
  unfolding update_result
  update_result_lem finish d d' e =
      let (result, _, last) = bind_inv (results_from r finish _ _ _ _ _ _) _ d' e in
      rw (some_inj _ d' last) (refl, refl)

  either :
      (ends : Bool)
      → ((if ends then endpoint else end_batch) ≡ end_batch)
        ⊎ ((if ends then endpoint else end_batch) ≡ endpoint)
  either true = inr refl
  either false = inl refl

  waits_lem :
      (block : Bool) (n : ℕ) (p : FeaturePipeline Sample V)
      → waits r block n p ≡ true
      → (block ≡ false) × (p.input_finished ≡ false) × (length p.feature_queue < n)
  unfolding waits num_queued_frames
  waits_lem block n p h = ground arith

  finish_lem :
      (enough : Bool) (probs : List (List f.F)) (mid d' : AsrDec r) (state : DecodeState)
      → finish_chunk r enough probs mid ≡ some (state, d')
      → (d'.feature_pipeline ≡ mid.feature_pipeline)
        × (d'.num_frames ≡ mid.num_frames)
        × (d'.start ≡ true)
        × (enough ≡ true → (state ≡ end_batch) ⊎ (state ≡ endpoint))
        × (enough ≡ false → state ≡ end_feats)
  unfolding finish_chunk
  finish_lem true probs mid d' state e =
      let ((ep, ends), _, last) =
        bind_inv (is_endpoint mid.ctc_endpointer probs _) _ (state, d') e in
      let same = some_inj _ (state, d') last in
      rw (ap (λ q. q.0) same, ap (λ q. q.1) same) (refl, refl, refl, λ _. either ends, λ h. cc)
  finish_lem false probs mid d' state e =
      let same = some_inj _ (state, d') e in
      rw (ap (λ q. q.0) same, ap (λ q. q.1) same) (refl, refl, refl, λ h. cc, λ _. refl)

  -- A chunk adds its frames, and the state tells whether it was a whole one.
  chunk_lem :
      (enough : Bool) (feats : List V) (p : FeaturePipeline Sample V) (d d' : AsrDec r)
      (state : DecodeState)
      → decode_chunk r enough feats p d ≡ some (state, d')
      → (d'.feature_pipeline ≡ p)
        × (d'.num_frames ≡ d.num_frames + length feats)
        × (d'.start ≡ true)
        × (enough ≡ true → (state ≡ end_batch) ⊎ (state ≡ endpoint))
        × (enough ≡ false → state ≡ end_feats)
  unfolding decode_chunk
  chunk_lem enough feats p d d' state e =
      let (probs, _, e1) = bind_inv (scale_blank r d.opts.blank_scale _) _ (state, d') e in
      let (searcher, _, e2) = bind_inv (r.search.search probs d.searcher) _ (state, d') e1 in
      let (mid, up, e3) = bind_inv (update_result r false _) _ (state, d') e2 in
      let (same_p, same_n) = update_result_lem false _ mid up in
      let (p_kept, n_kept, started, whole, short) = finish_lem enough probs mid d' state e3 in
      (p_kept ∙ same_p, n_kept ∙ same_n, started, whole, short)

  says_lem :
      (block enough : Bool) (feats : List V) (p : FeaturePipeline Sample V) (d d' : AsrDec r)
      (state : DecodeState)
      → feats ++ p.feature_queue ≡ d.feature_pipeline.feature_queue
      → (enough ≡ true → length feats ≡ required d)
      → (enough ≡ false
          → (length feats < required d)
            × (d.feature_pipeline.input_finished ≡ true)
            × (p.feature_queue ≡ []))
      → d'.feature_pipeline ≡ p
      → d'.num_frames ≡ d.num_frames + length feats
      → d'.start ≡ true
      → (enough ≡ true → (state ≡ end_batch) ⊎ (state ≡ endpoint))
      → (enough ≡ false → state ≡ end_feats)
      → Says state block d d'
  says_lem block true feats p d d' state split whole _ same_p same_n started states _ =
      let len : length feats + length p.feature_queue ≡ length d.feature_pipeline.feature_queue =
        sym (length-append feats p.feature_queue) ∙ ap length split in
      let left : length d'.feature_pipeline.feature_queue ≡ length p.feature_queue =
        ap (λ q. length q.feature_queue) same_p in
      let taken = whole refl in
      elim (states refl) [
        | inl e ↦ rw e (omega arith, omega arith, started)
        | inr e ↦ rw e (omega arith, omega arith, started)
      ]
  says_lem block false feats p d d' state split _ short same_p same_n started _ states =
      let (few, ended, empty) = short refl in
      let len : length feats + length p.feature_queue ≡ length d.feature_pipeline.feature_queue =
        sym (length-append feats p.feature_queue) ∙ ap length split in
      let none_left : length p.feature_queue ≡ 0 = ap length empty in
      rw (states refl)
        (ended, omega arith, ap (λ q. q.feature_queue) same_p ∙ empty, omega arith, started)

  -- In every state it returns, `AdvanceDecoding` accounts for the features. kWaitFeats: it was not to
  -- block, the input has not ended, too few frames were queued, and none was taken. kEndFeats: the
  -- input has ended, too few were queued, and all of them were decoded. kEndBatch and kEndpoint: the
  -- chunk's frames were taken off the queue and counted.
  pub advance-Says :
      (block : Bool) (d d' : AsrDec r) (state : DecodeState)
      → advance_decoding r block d ≡ some (state, d')
      → Says state block d d'
  unfolding advance_decoding
  advance-Says block d d' state e =
      elim (Bool-cases (waits r block (required d) d.feature_pipeline)) [
        | inl w ↦
            let same = some_inj _ (state, d') (rw w at e) in
            let (b, u, q) = waits_lem block (required d) d.feature_pipeline w in
            rw (ap (λ q. q.0) same, ap (λ q. q.1) same) (b, u, q, refl, refl, refl)
        | inr w ↦
            let ((enough, feats, p), rd, e') =
              bind_inv (read (required d) d.feature_pipeline) _ (state, d') (rw w at e) in
            let (split, whole, short) =
              read_sound (required d) d.feature_pipeline p enough feats rd in
            let (same_p, same_n, started, if_whole, if_short) =
              chunk_lem enough feats p _ d' state e' in
            says_lem block enough feats p d d' state split whole short same_p same_n started
              if_whole if_short
      ]
