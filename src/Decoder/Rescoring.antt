-- ===== src/Decoder/Rescoring.antt =====
-- `AsrDecoder::AttentionRescoring`.
use wenet_android.Prelude.{
  ℕ, zero, suc, length, ◌==◌, Bool, true, not, ◌&&◌, Option, none, some, List, [], ◌∷◌,
  if◌then◌else◌, ◌>>=◌,
}
use wenet_android.Prelude.Int.{pos}
use wenet_android.Prelude.Float.{Float}
use wenet_android.Decoder.{Result}
use wenet_android.Decoder.Advance.{Resource, AsrDec, update_result}

module _ {f : Float} where
  -- `DecodeResult::CompareFunc`, and `std::sort` by it.
  unfoldable pub compare_func : Result f → Result f → Bool
  compare_func a b = f.lt b.score a.score

  unfoldable pub insert : Result f → List (Result f) → List (Result f)
  insert a [] = a ∷ []
  insert a (b ∷ result) =
      let later = insert a result in if compare_func b a then b ∷ later else a ∷ b ∷ result

  unfoldable pub sort : List (Result f) → List (Result f)
  sort [] = []
  sort (a ∷ result) = insert a (sort result)

  -- The loop over `num_hyps` results; `none` where there is no such result or score.
  unfoldable pub combine : f.F → f.F → ℕ → List f.F → List (Result f) → Option (List (Result f))
  combine rescoring_weight ctc_weight zero scores result = some result
  combine rescoring_weight ctc_weight (suc num_hyps) [] result = none
  combine rescoring_weight ctc_weight (suc num_hyps) (s ∷ scores) [] = none
  combine rescoring_weight ctc_weight (suc num_hyps) (s ∷ scores) (p ∷ result) =
      combine rescoring_weight ctc_weight num_hyps scores result >>= λ later.
      some
        (record p { score = f.add (f.mul rescoring_weight s) (f.mul ctc_weight p.score) } ∷ later)

module _ {f : Float} {Sample V E S : Type 0} (r : Resource f Sample V E S) where
  -- The scores of the attention decoder are combined with those of the search.
  unfoldable pub combine_scores : AsrDec r → Option (AsrDec r)
  combine_scores d =
      let hypotheses = r.search.inputs d.searcher in
      let combined =
        combine d.opts.rescoring_weight d.opts.ctc_weight (length hypotheses)
          (r.attention_rescoring hypotheses d.opts.reverse_weight d.model.encoder) d.result
        >>= λ result. some (record d { result = sort result }) in
      if length hypotheses == 0 then some d else combined

  unfoldable pub attention_rescoring : AsrDec r → Option (AsrDec r)
  attention_rescoring d = r.search.finalize_search d.searcher >>= λ searcher.
      update_result r true (record d { searcher = searcher }) >>= λ d'. rescore d'
    where
      rescore : AsrDec r → Option (AsrDec r)
      rescore d' =
          let zero_score = f.of_int (pos 0) in
          let combined = combine_scores d' in
          if not (f.lt zero_score d'.opts.rescoring_weight)
            && not (f.lt d'.opts.rescoring_weight zero_score)
          then some d'
          else combined
