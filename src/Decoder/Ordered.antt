-- ===== src/Decoder/Ordered.antt =====
-- The word pieces of the final results.
use wenet_android.Prelude.{
  ◌==◌, length, inl, inr, Option-cases, All-get_elem?, ap, not, ◌&&◌, ℕ, zero, suc, ◌≡◌, Bool, true,
  not, ◌&&◌, Option, none, some, List, [], ◌∷◌, drop, get_elem?, All, Bool-cases, bind_inv,
  some_inj, if_cases, ap,
}
use wenet_android.Prelude.Int.{pos}
use wenet_android.Prelude.Float.{Float}
use wenet_android.Bridge.{WordPiece}
use wenet_android.Decoder.{length, Result}
use wenet_android.Decoder.Advance.{
  Resource, AsrDec, sentence_of, pieces_of, results_from, update_result,
}
use wenet_android.Decoder.Rescoring.{
  compare_func, insert, sort, combine, combine_scores, attention_rescoring,
}
use wenet_android.Decoder.Stamps.{IsOrderly, IsRising, pieces-IsOrderly}

module _ {f : Float} where
  abbrev pub AreOrderly : List (Result f) → Type 0
  AreOrderly result = All (λ (p : Result f). IsOrderly p.word_pieces) result

  insert_orderly :
      (a : Result f) (result : List (Result f))
      → IsOrderly a.word_pieces
      → AreOrderly result
      → AreOrderly (insert a result)
  unfolding insert
  insert_orderly a [] h _ = (h, tt)
  insert_orderly a (b ∷ result) h (k, ks) =
      if_cases AreOrderly (compare_func b a) (λ _. (k, insert_orderly a result h ks))
        (λ _. (h, (k, ks)))

  sort_orderly : (result : List (Result f)) → AreOrderly result → AreOrderly (sort result)
  unfolding sort
  sort_orderly [] _ = tt
  sort_orderly (a ∷ result) (h, hs) = insert_orderly a (sort result) h (sort_orderly result hs)

  combine_orderly :
      (w c : f.F) (n : ℕ) (scores : List f.F) (result result' : List (Result f))
      → combine w c n scores result ≡ some result'
      → AreOrderly result
      → AreOrderly result'
  unfolding combine
  combine_orderly w c zero scores result result' e h = rw (some_inj result result' e) h
  combine_orderly w c (suc n) [] result result' e h = cc
  combine_orderly w c (suc n) (s ∷ scores) [] result' e h = cc
  combine_orderly w c (suc n) (s ∷ scores) (p ∷ result) result' e (h, hs) =
      let (later, run, last) = bind_inv (combine w c n scores result) _ result' e in
      rw (some_inj _ result' last) (h, combine_orderly w c n scores result later run hs)

module _ {f : Float} {Sample V E S : Type 0} (r : Resource f Sample V E S) where
  pieces_of-IsOrderly :
      (finish : Bool) (offset shift : ℕ) (input : Option (List ℕ)) (times : List (List ℕ))
      (pieces : List WordPiece)
      → All (IsRising none) times
      → pieces_of r finish offset shift input (get_elem? times 0) ≡ some pieces
      → IsOrderly pieces
  unfolding pieces_of
  pieces_of-IsOrderly finish offset shift input times pieces h e = elim (Option-cases r.find_unit) [
    | inl no_table ↦ rw (some_inj _ pieces (rw no_table at e)) tt
    | inr (find, table) ↦ elim (Bool-cases finish) [
      | inr partial ↦ rw (some_inj _ pieces (rw (table, partial) at e)) tt
      | inl final ↦
          let (units, _, e1) = bind_inv input _ pieces (rw (table, final) at e) in
          let (stamps, at_0, e2) = bind_inv (get_elem? times 0) _ pieces e1 in
          pieces-IsOrderly find offset shift none units stamps pieces
            (All-get_elem? (IsRising none) times 0 stamps h at_0) e2
    ]
  ]

  results_orderly :
      (finish : Bool) (offset shift : ℕ) (hyps : List (List ℕ)) (likelihood : List f.F)
      (inputs times : List (List ℕ)) (result : List (Result f))
      → All (IsRising none) times
      → results_from r finish offset shift hyps likelihood inputs times ≡ some result
      → AreOrderly result
  unfolding results_from
  results_orderly finish offset shift [] [] inputs times result h e = rw (some_inj _ result e) tt
  results_orderly finish offset shift [] (l ∷ ls) inputs times result h e = cc
  results_orderly finish offset shift (hyp ∷ hyps) [] inputs times result h e = cc
  results_orderly finish offset shift (hyp ∷ hyps) (l ∷ ls) inputs times result h e =
      let (later, run, e1) =
        bind_inv (results_from r finish offset shift hyps ls (drop 1 inputs) (drop 1 times)) _
          result e in
      let (sentence, _, e2) = bind_inv (sentence_of r finish hyp) _ result e1 in
      let (pieces, made, last) =
        bind_inv (pieces_of r finish offset shift (get_elem? inputs 0) (get_elem? times 0)) _ result
          e2 in
      rw (some_inj _ result last) (
        pieces_of-IsOrderly finish offset shift (get_elem? inputs 0) times pieces h made,
        results_orderly finish offset shift hyps ls (drop 1 inputs) (drop 1 times) later
            (drop_rising times h) run,
      )
    where
      drop_rising :
          (times : List (List ℕ)) → All (IsRising none) times → All (IsRising none) (drop 1 times)
      drop_rising [] _ = tt
      drop_rising (t ∷ times) (_, h) = h

  update_orderly :
      (finish : Bool) (d d' : AsrDec r)
      → All (IsRising none) (r.search.times d.searcher)
      → update_result r finish d ≡ some d'
      → AreOrderly d'.result
  unfolding update_result
  update_orderly finish d d' h e =
      let (result, made, last) = bind_inv (results_from r finish _ _ _ _ _ _) _ d' e in
      rw (ap (λ d. d.result) (some_inj _ d' last))
        (results_orderly finish _ _ _ _ _ _ result h made)

  combine_scores_orderly :
      (d d' : AsrDec r) → AreOrderly d.result → combine_scores r d ≡ some d' → AreOrderly d'.result
  unfolding combine_scores
  combine_scores_orderly d d' h e = elim (Bool-cases (length (r.search.inputs d.searcher) == 0)) [
    | inl none_found ↦ rw (ap (λ d. d.result) (some_inj _ d' (rw none_found at e))) h
    | inr found ↦
        let (result, made, last) = bind_inv (combine _ _ _ _ d.result) _ d' (rw found at e) in
        rw (ap (λ d. d.result) (some_inj _ d' last))
          (sort_orderly result (combine_orderly _ _ _ _ d.result result made h))
  ]

  -- After `Rescoring`, where it passes its checks, in every result each word piece ends not before it
  -- starts and the next one starts not before it ends, if the search's times of no hypothesis fall.
  pub rescoring_orderly :
      (d d' : AsrDec r) (searcher : S)
      → r.search.finalize_search d.searcher ≡ some searcher
      → All (IsRising none) (r.search.times searcher)
      → attention_rescoring r d ≡ some d'
      → AreOrderly d'.result
  unfolding attention_rescoring
  rescoring_orderly d d' searcher final h e =
      let (mid, made, e1) =
        bind_inv (update_result r true (record d { searcher = searcher })) _ d' (rw final at e) in
      let orderly = update_orderly true (record d { searcher = searcher }) mid h made in
      elim (Bool-cases (
        not (f.lt (f.of_int (pos 0)) mid.opts.rescoring_weight)
        && not (f.lt mid.opts.rescoring_weight (f.of_int (pos 0))))) [
          | inl zero_weight ↦ rw (ap (λ d. d.result) (some_inj _ d' (rw zero_weight at e1))) orderly
          | inr weight ↦ combine_scores_orderly mid d' orderly (rw weight at e1)
        ]
