-- ===== src/Decoder/Kept.antt =====
-- What `AdvanceDecoding` and `Rescoring` leave as it was.
use wenet_android.Prelude.{
  ◌==◌, ◌⊎◌, ◌≡◌, refl, ap, ◌∙◌, Bool, true, false, some, List, Bool-cases, bind_inv, some_inj, inl,
  inr, if_cases, leb, ltb, length, ◌+◌, ℕ, arith, ◌++◌, ◌-◌, not, ◌&&◌,
}
use wenet_android.Prelude.Int.{pos}
use wenet_android.Prelude.Float.{Float}
use wenet_android.Feature.{FeaturePipeline, read}
use wenet_android.Endpoint.{is_endpoint}
use wenet_android.Model.{
  AsrModel, forward_encoder, cache_feature, set_chunk_size, set_num_left_chunks,
}
use wenet_android.Bridge.{DecodeState}
use wenet_android.Decoder.Advance.{
  Resource, AsrDec, scale_blank, update_result, results_from, decode_chunk, finish_chunk, waits,
  advance_decoding,
}
use wenet_android.Decoder.Rescoring.{attention_rescoring, combine_scores, combine}
use wenet_android.Decoder.States.{required}

read-input_finished :
    {S V : Type 0} (n : ℕ) (p p' : FeaturePipeline S V) (enough : Bool) (feats : List V)
    → read n p ≡ some (enough, feats, p')
    → p'.input_finished ≡ p.input_finished
unfolding read
read-input_finished n p p' enough feats e = ground arith

-- The shape of a model.
abbrev SameShape : {V E : Type 0} → AsrModel V E → AsrModel V E → Type 0
SameShape m m' = (m'.right_context ≡ m.right_context) × (m'.subsampling_rate ≡ m.subsampling_rate)

cache_feature-SameShape :
    {V E : Type 0} (feats : List V) (m : AsrModel V E) → SameShape m (cache_feature feats m)
unfolding cache_feature
cache_feature-SameShape feats m =
    if_cases (SameShape m) (ltb (1 + m.right_context) m.subsampling_rate) (λ _. (refl, refl))
      (λ _.
        if_cases (SameShape m) (leb (1 + m.right_context - m.subsampling_rate) (length feats))
          (λ _. (refl, refl)) (λ _. (refl, refl)))

forward_encoder-SameShape :
    {V E P : Type 0} (forward : List V → E → List P × E) (feats : List V) (m : AsrModel V E)
    → SameShape m (forward_encoder forward feats m).1
unfolding forward_encoder
forward_encoder-SameShape {V} {E} {P} forward feats m =
    let (probs, encoder) = forward (m.cached_feature ++ feats) m.encoder in
    if_cases {A = List P × AsrModel V E} (λ q. SameShape m q.1)
      (leb (m.right_context + 1) (length m.cached_feature + length feats))
      (λ _. cache_feature-SameShape feats (record m { encoder = encoder })) (λ _. (refl, refl))

module _ {f : Float} {Sample V E S : Type 0} (r : Resource f Sample V E S) where
  -- The options, the shape of the model, and whether the input has ended.
  pub record Keeps (d d' : AsrDec r) : Type 0 where
    pub same_opts : d'.opts ≡ d.opts
    pub same_context : d'.model.right_context ≡ d.model.right_context
    pub same_rate : d'.model.subsampling_rate ≡ d.model.subsampling_rate
    pub same_finished : d'.feature_pipeline.input_finished ≡ d.feature_pipeline.input_finished

  update_result_keeps :
      (finish : Bool) (d d' : AsrDec r)
      → update_result r finish d ≡ some d'
      → (d'.opts ≡ d.opts) × (d'.model ≡ d.model) × (d'.feature_pipeline ≡ d.feature_pipeline)
  unfolding update_result
  update_result_keeps finish d d' e =
      let (result, _, last) = bind_inv (results_from r finish _ _ _ _ _ _) _ d' e in
      rw (some_inj _ d' last) (refl, refl, refl)

  finish_keeps :
      (enough : Bool) (probs : List (List f.F)) (mid d' : AsrDec r) (state : DecodeState)
      → finish_chunk r enough probs mid ≡ some (state, d')
      → (d'.opts ≡ mid.opts) × (d'.model ≡ mid.model) × (d'.feature_pipeline ≡ mid.feature_pipeline)
  unfolding finish_chunk
  finish_keeps true probs mid d' state e =
      let ((ep, ends), _, last) =
        bind_inv (is_endpoint mid.ctc_endpointer probs _) _ (state, d') e in
      rw (ap (λ q. q.1) (some_inj _ (state, d') last)) (refl, refl, refl)
  finish_keeps false probs mid d' state e =
      rw (ap (λ q. q.1) (some_inj _ (state, d') e)) (refl, refl, refl)

  chunk_keeps :
      (enough : Bool) (feats : List V) (p : FeaturePipeline Sample V) (d d' : AsrDec r)
      (state : DecodeState)
      → decode_chunk r enough feats p d ≡ some (state, d')
      → (d'.opts ≡ d.opts) × SameShape d.model d'.model × (d'.feature_pipeline ≡ p)
  unfolding decode_chunk
  chunk_keeps enough feats p d d' state e =
      let (probs, _, e1) = bind_inv (scale_blank r d.opts.blank_scale _) _ (state, d') e in
      let (searcher, _, e2) = bind_inv (r.search.search probs d.searcher) _ (state, d') e1 in
      let (mid, up, e3) = bind_inv (update_result r false _) _ (state, d') e2 in
      let (o, m, q) = update_result_keeps false _ mid up in
      let (o', m', q') = finish_keeps enough probs mid d' state e3 in
      let (c, s) = forward_encoder-SameShape r.forward feats d.model in
      let same = m' ∙ m in
      (o' ∙ o, (ap (λ n. n.right_context) same ∙ c, ap (λ n. n.subsampling_rate) same ∙ s), q' ∙ q)

  pub advance-Keeps :
      (block : Bool) (d d' : AsrDec r) (state : DecodeState)
      → advance_decoding r block d ≡ some (state, d')
      → Keeps d d'
  unfolding advance_decoding set_chunk_size set_num_left_chunks
  advance-Keeps block d d' state e =
      elim (Bool-cases (waits r block (required r d) d.feature_pipeline)) [
        | inl w ↦ rw (ap (λ q. q.1) (some_inj _ (state, d') (rw w at e))) (record {
          same_opts = refl;
          same_context = refl;
          same_rate = refl;
          same_finished = refl;
        })
        | inr w ↦
            let ((enough, feats, p), rd, e') =
              bind_inv (read (required r d) d.feature_pipeline) _ (state, d') (rw w at e) in
            let (o, (c, s), q) = chunk_keeps enough feats p _ d' state e' in
            record {
              same_opts = o;
              same_context = c;
              same_rate = s;
              same_finished =
                  ap (λ p'. p'.input_finished) q
                  ∙ read-input_finished (required r d) d.feature_pipeline p enough feats rd;
            }
      ]

  combine_scores-feature_pipeline :
      (d d' : AsrDec r) → combine_scores r d ≡ some d' → d'.feature_pipeline ≡ d.feature_pipeline
  unfolding combine_scores
  combine_scores-feature_pipeline d d' e =
      elim (Bool-cases (length (r.search.inputs d.searcher) == 0)) [
        | inl none_found ↦ ap (λ d. d.feature_pipeline) (some_inj _ d' (rw none_found at e))
        | inr found ↦
            let (result, _, last) = bind_inv (combine _ _ _ _ d.result) _ d' (rw found at e) in
            ap (λ d. d.feature_pipeline) (some_inj _ d' last)
      ]

  pub rescoring-feature_pipeline :
      (d d' : AsrDec r)
      → attention_rescoring r d ≡ some d'
      → d'.feature_pipeline ≡ d.feature_pipeline
  unfolding attention_rescoring
  rescoring-feature_pipeline d d' e =
      let (searcher, _, e0) = bind_inv (r.search.finalize_search d.searcher) _ d' e in
      let (mid, made, e1) =
        bind_inv (update_result r true (record d { searcher = searcher })) _ d' e0 in
      let (_, _, q) = update_result_keeps true _ mid made in
      elim (Bool-cases (
        not (f.lt (f.of_int (pos 0)) mid.opts.rescoring_weight)
        && not (f.lt mid.opts.rescoring_weight (f.of_int (pos 0))))) [
          | inl zero_weight ↦
              ap (λ d. d.feature_pipeline) (some_inj _ d' (rw zero_weight at e1)) ∙ q
          | inr weight ↦ combine_scores-feature_pipeline mid d' (rw weight at e1) ∙ q
        ]

  update_result-searcher :
      (finish : Bool) (d d' : AsrDec r)
      → update_result r finish d ≡ some d'
      → d'.searcher ≡ d.searcher
  unfolding update_result
  update_result-searcher finish d d' e =
      let (result, _, last) = bind_inv (results_from r finish _ _ _ _ _ _) _ d' e in
      ap (λ d. d.searcher) (some_inj _ d' last)

  finish_chunk-searcher :
      (enough : Bool) (probs : List (List f.F)) (mid d' : AsrDec r) (state : DecodeState)
      → finish_chunk r enough probs mid ≡ some (state, d')
      → d'.searcher ≡ mid.searcher
  unfolding finish_chunk
  finish_chunk-searcher true probs mid d' state e =
      let ((ep, ends), _, last) =
        bind_inv (is_endpoint mid.ctc_endpointer probs _) _ (state, d') e in
      ap (λ q. q.1.searcher) (some_inj _ (state, d') last)
  finish_chunk-searcher false probs mid d' state e =
      ap (λ q. q.1.searcher) (some_inj _ (state, d') e)

  -- The search of a call: none, or one of some frames.
  pub advance-searcher :
      (block : Bool) (d d' : AsrDec r) (state : DecodeState)
      → advance_decoding r block d ≡ some (state, d')
      → (d'.searcher ≡ d.searcher)
        ⊎ ((probs : List (List f.F)) × (r.search.search probs d.searcher ≡ some d'.searcher))
  unfolding advance_decoding decode_chunk
  advance-searcher block d d' state e =
      elim (Bool-cases (waits r block (required r d) d.feature_pipeline)) [
        | inl w ↦ inl (ap (λ q. q.1.searcher) (some_inj _ (state, d') (rw w at e)))
        | inr w ↦
            let ((enough, feats, p), rd, e') =
              bind_inv (read (required r d) d.feature_pipeline) _ (state, d') (rw w at e) in
            let (probs, _, e1) = bind_inv (scale_blank r d.opts.blank_scale _) _ (state, d') e' in
            let (searcher, found, e2) =
              bind_inv (r.search.search probs d.searcher) _ (state, d') e1 in
            let (mid, up, e3) = bind_inv (update_result r false _) _ (state, d') e2 in
            let same =
              finish_chunk-searcher enough probs mid d' state e3
              ∙ update_result-searcher false _ mid up in
            inr (probs, rw same found)
      ]
