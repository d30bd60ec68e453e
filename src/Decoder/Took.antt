-- ===== src/Decoder/Took.antt =====
-- What `AdvanceDecoding` does with the frames that it takes.
use wenet_android.Prelude.{
  if◌then◌else◌, ◌≢◌, ◌+◌, ◌≡◌, refl, ap, sym, ◌∙◌, Bool, true, false, some, List, ◌++◌, length,
  Bool-cases, bind_inv, some_inj, inl, inr,
}
use wenet_android.Prelude.Float.{Float}
use wenet_android.Feature.{FeaturePipeline, read}
use wenet_android.Feature.Reading.{read_sound}
use wenet_android.Endpoint.{is_endpoint}
use wenet_android.Model.{AsrModel, forward_encoder, set_chunk_size, set_num_left_chunks}
use wenet_android.Bridge.{DecodeState, end_batch, endpoint, end_feats, wait_feats}
use wenet_android.Decoder.Advance.{
  Resource, AsrDec, scale_blank, update_result, results_from, decode_chunk, finish_chunk, waits,
  advance_decoding,
}
use wenet_android.Decoder.States.{required, Says, advance-Says}

module _ {f : Float} {Sample V E S : Type 0} (r : Resource f Sample V E S) where
  -- The model with the options of the decoder.
  abbrev pub prepared : AsrDec r → AsrModel V E
  prepared d = set_num_left_chunks d.opts.num_left_chunks (set_chunk_size d.opts.chunk_size d.model)

  -- The chunk went through the encoder, the blank scale and the search, in this order.
  abbrev pub Decodes : List V → AsrDec r → AsrDec r → Type 0
  Decodes chunk d d' =
      (d'.model ≡ (forward_encoder r.forward chunk (prepared d)).1)
      × ((probs : List (List f.F)) × (scale_blank r d.opts.blank_scale
              (forward_encoder r.forward chunk (prepared d)).0
            ≡ some probs)
          × (r.search.search probs d.searcher ≡ some d'.searcher))

  -- The frames that were taken off the front of the queue are those that were decoded.
  abbrev pub Took : AsrDec r → AsrDec r → Type 0
  Took d d' =
      (chunk : List V) × (d.feature_pipeline.feature_queue
        ≡ chunk ++ d'.feature_pipeline.feature_queue)
      × (d'.num_frames ≡ d.num_frames + length chunk)
      × Decodes chunk d d'

  -- With kWaitFeats neither the model's state nor the search has moved.
  abbrev pub Accounts : DecodeState → AsrDec r → AsrDec r → Type 0
  Accounts wait_feats d d' = (d'.model ≡ prepared d) × (d'.searcher ≡ d.searcher)
  Accounts end_feats d d' = Took d d'
  Accounts end_batch d d' = Took d d'
  Accounts endpoint d d' = Took d d'

  update_kept :
      (finish : Bool) (d d' : AsrDec r)
      → update_result r finish d ≡ some d'
      → (d'.feature_pipeline ≡ d.feature_pipeline)
        × (d'.num_frames ≡ d.num_frames)
        × (d'.model ≡ d.model)
        × (d'.searcher ≡ d.searcher)
  unfolding update_result
  update_kept finish d d' e =
      let (result, _, last) = bind_inv (results_from r finish _ _ _ _ _ _) _ d' e in
      rw (some_inj _ d' last) (refl, refl, refl, refl)

  finish_kept :
      (enough : Bool) (probs : List (List f.F)) (mid d' : AsrDec r) (state : DecodeState)
      → finish_chunk r enough probs mid ≡ some (state, d')
      → (d'.feature_pipeline ≡ mid.feature_pipeline)
        × (d'.num_frames ≡ mid.num_frames)
        × (d'.model ≡ mid.model)
        × (d'.searcher ≡ mid.searcher)
        × (state ≢ wait_feats)
  unfolding finish_chunk
  finish_kept true probs mid d' state e =
      let ((ep, ends), _, last) =
        bind_inv (is_endpoint mid.ctc_endpointer probs _) _ (state, d') e in
      let same = some_inj _ (state, d') last in
      rw (ap (λ q. q.0) same, ap (λ q. q.1) same) (refl, refl, refl, refl, moves ends)
    where
      moves : (b : Bool) → (if b then endpoint else end_batch) ≢ wait_feats
      moves true h = cc
      moves false h = cc
  finish_kept false probs mid d' state e =
      let same = some_inj _ (state, d') e in
      rw (ap (λ q. q.0) same, ap (λ q. q.1) same) (refl, refl, refl, refl, λ h. cc)

  Took-Accounts :
      (state : DecodeState) (d d' : AsrDec r) → state ≢ wait_feats → Took d d' → Accounts state d d'
  Took-Accounts wait_feats d d' n h = absurd (n refl)
  Took-Accounts end_feats d d' n h = h
  Took-Accounts end_batch d d' n h = h
  Took-Accounts endpoint d d' n h = h

  chunk-Took :
      (enough : Bool) (chunk : List V) (p : FeaturePipeline Sample V) (d d' : AsrDec r)
      (state : DecodeState)
      → decode_chunk r enough chunk p (record d { model = prepared d }) ≡ some (state, d')
      → d.feature_pipeline.feature_queue ≡ chunk ++ p.feature_queue
      → Accounts state d d'
  unfolding decode_chunk
  chunk-Took enough chunk p d d' state e split =
      let (probs, scaled, e1) = bind_inv (scale_blank r d.opts.blank_scale _) _ (state, d') e in
      let (searcher, found, e2) = bind_inv (r.search.search probs d.searcher) _ (state, d') e1 in
      let (mid, up, e3) = bind_inv (update_result r false _) _ (state, d') e2 in
      let (p1, n1, m1, s1) = update_kept false _ mid up in
      let (p2, n2, m2, s2, moved) = finish_kept enough probs mid d' state e3 in
      Took-Accounts state d d' moved (
        chunk,
        split ∙ ap (λ q. chunk ++ q.feature_queue) (sym (p2 ∙ p1)),
        n2 ∙ n1,
        (m2 ∙ m1, (probs, scaled, found ∙ ap some (sym (s2 ∙ s1)))),
      )

  -- In every state it returns, `AdvanceDecoding` accounts for the features. kWaitFeats: it was not to
  -- block, the input has not ended, too few frames were queued, none was taken, and neither the
  -- encoder nor the search has moved. kEndFeats: the input has ended, too few were queued, and all
  -- of them were taken. kEndBatch and kEndpoint: just the frames that a chunk asks for were taken.
  -- In these three states the frames that were taken off the front of the queue are those that the
  -- encoder got, its scores went through the blank scale to the search, and the decoder keeps the
  -- model and the search that these calls left and counts these frames.
  pub advance-Accounts :
      (block : Bool) (d d' : AsrDec r) (state : DecodeState)
      → advance_decoding r block d ≡ some (state, d')
      → Says r state block d d' × Accounts state d d'
  unfolding advance_decoding
  advance-Accounts block d d' state e = (
    advance-Says r block d d' state e,
    elim (Bool-cases (waits r block (required r d) d.feature_pipeline)) [
      | inl w ↦
          let same = some_inj _ (state, d') (rw w at e) in
          rw (ap (λ q. q.0) same, ap (λ q. q.1) same) (refl, refl)
      | inr w ↦
          let ((enough, chunk, p), rd, e') =
            bind_inv (read (required r d) d.feature_pipeline) _ (state, d') (rw w at e) in
          let (split, _, _) = read_sound (required r d) d.feature_pipeline p enough chunk rd in
          chunk-Took enough chunk p d d' state e' (sym split)
    ],
  )
