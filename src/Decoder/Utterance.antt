-- ===== src/Decoder/Utterance.antt =====
-- The decoder around the prefix beam search: from its reset to the final results.
mod Tests
use wenet_android.Prelude.{◌≡◌, inl, inr, Bool, false, some, All-map_of, bind_inv}
use wenet_android.Prelude.Float.{Float}
use wenet_android.PrefixBeam.{Hyps, CtcPrefixBeamSearch, search, finalize_search, reset}
use wenet_android.PrefixBeam.Reached.{IsWalk}
use wenet_android.PrefixBeam.Rising.{
  AreStamped, reset-AreStamped, search-AreStamped, finalize-AreStamped,
}
use wenet_android.Feature.{FeaturePipeline}
use wenet_android.PrefixScore.Stamped.{Between-IsRising}
use wenet_android.Bridge.{DecodeState}
use wenet_android.Decoder.{Search}
use wenet_android.Decoder.Advance.{Resource, AsrDec, advance_decoding, reset_continuous_decoding}
use wenet_android.Decoder.Advance as Advance
use wenet_android.Decoder.Rescoring.{attention_rescoring}
use wenet_android.Decoder.Ordered.{AreOrderly, rescoring_orderly}
use wenet_android.Decoder.Kept.{advance-searcher}

module _ {f : Float} (walk : Hyps f → Hyps f) where
  -- `CtcPrefixBeamSearch` behind `SearchInterface`.
  abbrev pub prefix_beam : Search f (CtcPrefixBeamSearch f)
  prefix_beam = record {
    search = search walk;
    finalize_search = finalize_search walk;
    reset = reset;
    inputs = λ st. st.hypotheses;
    outputs = λ st. st.outputs;
    likelihood = λ st. st.likelihood;
    times = λ st. st.times_of;
    is_wfst = false;
  }

  module _ {Sample V E : Type 0} (r : Resource f Sample V E (CtcPrefixBeamSearch f)) where
    abbrev pub with_beam : Resource f Sample V E (CtcPrefixBeamSearch f)
    with_beam = record r { search = prefix_beam }

    -- The decoders of an utterance: after a reset, or the end of the utterance before, any calls of
    -- `Decode` that pass their checks, while others change the pipeline.
    pub data Runs : AsrDec with_beam → Type 0 where
      begun : (d : AsrDec with_beam) → Runs (Advance.reset with_beam d)
      resumed : (d : AsrDec with_beam) → Runs (reset_continuous_decoding with_beam d)
      heard :
          {d : AsrDec with_beam} (pipeline : FeaturePipeline Sample V)
          → Runs d
          → Runs (record d { feature_pipeline = pipeline })
      decoded :
          {d d' : AsrDec with_beam} (block : Bool) (state : DecodeState)
          → Runs d
          → advance_decoding with_beam block d ≡ some (state, d')
          → Runs d'

    module _ (is_walk : IsWalk walk) where
      Runs-AreStamped : {d : AsrDec with_beam} → Runs d → AreStamped d.searcher
      unfolding Advance.reset reset_continuous_decoding
      Runs-AreStamped (begun d) = reset-AreStamped d.searcher
      Runs-AreStamped (resumed d) = reset-AreStamped d.searcher
      Runs-AreStamped (heard {d} pipeline run) = Runs-AreStamped run
      Runs-AreStamped (decoded {d} {d'} block state run e) =
          elim (advance-searcher with_beam block d d' state e) [
            | inl same ↦ rw same (Runs-AreStamped run)
            | inr (probs, found) ↦
                search-AreStamped walk is_walk probs d.searcher d'.searcher found
                  (Runs-AreStamped run)
          ]

      -- Whatever an utterance was decoded from, and with whatever scores, after `Rescoring` each word
      -- piece of each result ends not before it starts, and the next one starts not before it ends.
      pub utterance_orderly :
          (d d' : AsrDec with_beam)
          → Runs d
          → attention_rescoring with_beam d ≡ some d'
          → AreOrderly d'.result
      unfolding attention_rescoring
      utterance_orderly d d' run e =
          let (searcher, final, _) = bind_inv (finalize_search walk d.searcher) _ d' e in
          let stamped =
            finalize-AreStamped walk is_walk d.searcher searcher final (Runs-AreStamped run) in
          rescoring_orderly with_beam d d' searcher final
            (All-map_of (λ xs h. Between-IsRising searcher.abs_time_step xs h) searcher.times_of
              stamped.shown)
            e
