-- ===== src/Api/Bounds.antt =====
-- wenet_api.cc: whole calls of `Recognizer::Decode`, and the size and shape of what they return.
use wenet_android.Prelude.{
  ℕ, suc, ◌+◌, ◌≤◌, ◌<◌, ◌≡◌, refl, ap, sym, ◌∙◌, ◌⊎◌, inl, inr, Bool, true, false, ◌&&◌, Option,
  none, some, List, [], ◌∷◌, arith, if◌then◌else◌, if_cases, length, take, map, length-map,
  length-take, All, Option-cases, bind_inv, some_inj, ◌>>=◌, ◌>>◌, check, not, ◌||◌, zero,
}
use wenet_android.Prelude.Int.{ℤ, pos, pos_part}
use wenet_android.Prelude.Float.{Float}
use wenet_android.Text.Utf8.{Bytes}
use wenet_android.Bridge.{DecodeState, end_batch, endpoint, end_feats, wait_feats}
use wenet_android.Decoder.{Result}
use wenet_android.Decoder.Advance.{Resource, AsrDec, advance_decoding, reset_continuous_decoding}
use wenet_android.Decoder.Rescoring.{attention_rescoring}
use wenet_android.Api.{
  Setup, Entry, Output, Call, returns, fails, out_of_fuel, Recognizer, entry_of, update_result,
  Decoded, conclude, decode_round, decode_loop, new_decoder, init_decoder, decoder_of, accept, fed,
  decode,
}
use wenet_android.Api.Loop.{here, IsPartial, IsFinal, IsUtterance, Ends, decode_loop-Ends}

abbrev given {ℓ} : {A : Type ℓ} → Option A → Bool
given none = false
given (some a) = true

check_then {ℓ} : {A : Type ℓ} (b : Bool) (x a : A) → (check b >> some x) ≡ some a → a ≡ x
check_then true x a e = some_inj x a e
check_then false x a e = cc

module _ {f : Float} {V E S : Type 0} (r : Resource f ℤ V E S) where
  -- As many entries as were asked for at most, and word pieces in all of them or in none.
  abbrev pub Within : Recognizer r → Output f → Type 0
  Within rec out =
      (length out.nbest ≤ (if out.final_result then pos_part rec.nbest else 1))
      × All (λ (e : Entry f). given e.word_pieces ≡ (out.final_result && rec.enable_timestamp))
          out.nbest

  update_result-Within :
      (final : Bool) (rec : Recognizer r) (d : AsrDec r) → Within rec (update_result r final rec d)
  unfolding update_result entry_of
  update_result-Within final rec d =
      let n = if final then pos_part rec.nbest else 1 in
      let shown = take n d.result in
      (
        omega (
          arith,
          length-map shown (entry_of r (final && rec.enable_timestamp)),
          length-take n d.result,
        ),
        all_given (final && rec.enable_timestamp) shown,
      )
    where
      all_given :
          (b : Bool) (paths : List (Result f))
          → All (λ (e : Entry f). given e.word_pieces ≡ b) (map (entry_of r b) paths)
      all_given b [] = tt
      all_given true (p ∷ paths) = (refl, all_given true paths)
      all_given false (p ∷ paths) = (refl, all_given false paths)

  abbrev AllWithin : Recognizer r → Call (Decoded r) → Type 0
  AllWithin rec (returns (out, d)) = Within rec out
  AllWithin rec fails = Unit
  AllWithin rec out_of_fuel = Unit

  conclude_within :
      (rec : Recognizer r) (next : AsrDec r → AsrDec r) (d : AsrDec r)
      → AllWithin rec (conclude r rec next d)
  unfolding conclude
  conclude_within rec next d = elim (Option-cases (attention_rescoring r d)) [
    | inl e ↦ rw (e, conclude) tt
    | inr (d', e) ↦ rw (e, conclude) (update_result-Within true rec d')
  ]

  round_within :
      (rec : Recognizer r) (state : DecodeState) (d : AsrDec r) (later : Call (Decoded r))
      → AllWithin rec later
      → AllWithin rec (decode_round r rec state d later)
  unfolding decode_round
  round_within rec wait_feats d later h = update_result-Within false rec d
  round_within rec end_feats d later h = conclude_within rec (λ d'. d') d
  round_within rec endpoint d later h =
      if_cases (AllWithin rec) rec.continuous_decoding
        (λ _. conclude_within rec (reset_continuous_decoding r) d) (λ _. h)
  round_within rec end_batch d later h = h

  loop_within :
      (fuel : ℕ) (rec : Recognizer r) (d : AsrDec r) → AllWithin rec (decode_loop r fuel rec d)
  unfolding decode_loop
  loop_within zero rec d = tt
  loop_within (suc fuel) rec d = elim (Option-cases (advance_decoding r false d)) [
    | inl e ↦ rw (e, decode_loop) tt
    | inr ((state, d'), e) ↦
        rw (e, decode_loop)
          (round_within rec state d' (decode_loop r fuel rec d') (loop_within fuel rec d'))
  ]

module _ {f : Float} {V E S G : Type 0} (s : Setup f V E S G) where
  -- What a call of `wenet_decode` tells: its result, and where the decoder stands.
  abbrev pub Tells :
      Bytes → ℤ → Recognizer s.resource → Call (Output f × Recognizer s.resource) → Type 0
  Tells bytes last rec (returns (out, rec')) =
      Within s.resource rec out
      × ((start d : AsrDec s.resource) × ((decoder_of s rec >>= fed s bytes last) ≡ some start)
          × (rec'.decoder ≡ some d)
          × (IsPartial s.resource rec start out d
              ⊎ (IsFinal s.resource rec start out d ⊎ IsUtterance s.resource rec start out d)))
  Tells bytes last rec fails = Unit
  Tells bytes last rec out_of_fuel = ⊥

  -- The models that a call may use take frames.
  abbrev pub HasRate : Recognizer s.resource → Type 0
  HasRate rec =
      (0 < s.model.subsampling_rate)
      × ((d : AsrDec s.resource) → rec.decoder ≡ some d → 0 < d.model.subsampling_rate)

  init_decoder-model :
      (rec : Recognizer s.resource) (d : AsrDec s.resource)
      → init_decoder s rec ≡ some d
      → d.model ≡ s.model
  unfolding init_decoder new_decoder
  init_decoder-model rec d e =
      ap (λ d. d.model)
        (check_then (not (f.lt (f.of_int (pos 0)) s.options.reverse_weight) || s.is_bidirectional) _
          d e)

  decoder_of-HasRate :
      (rec : Recognizer s.resource) (d : AsrDec s.resource)
      → HasRate rec
      → decoder_of s rec ≡ some d
      → 0 < d.model.subsampling_rate
  unfolding decoder_of init_decoder
  decoder_of-HasRate rec d (rate, old) e = elim (Option-cases rec.decoder) [
    | inl n ↦ let m = init_decoder-model rec d (sym (rw (n, decoder_of)) ∙ e) in rw m rate
    | inr (d', o) ↦ let same = some_inj d' d (sym (rw (o, decoder_of)) ∙ e) in rw same (old d' o)
  ]

  fed-model :
      (bytes : Bytes) (last : ℤ) (d d' : AsrDec s.resource)
      → fed s bytes last d ≡ some d'
      → d'.model ≡ d.model
  unfolding fed
  fed-model bytes last d d' e =
      let (p, _, e') = bind_inv (accept s bytes last d.feature_pipeline) _ d' e in
      ap (λ d. d.model) (some_inj _ d' e')

  -- Where the model's subsampling rate is positive, a call of `wenet_decode` never runs out of the
  -- rounds given to its loop, which starts at the decoder that has taken the samples of the call. It
  -- returns at most one entry, or in a final result at most `nbest` ones, with word pieces in a
  -- final result if time stamps are enabled. The result is one of three. A partial one: the rounds
  -- have come to kWaitFeats, the input goes on and no whole chunk is left. The final one of the
  -- input: they have come to kEndFeats, the input has ended, no frame is left, and the decoder was
  -- rescored. That of an utterance, in continuous decoding only: they have come to kEndpoint, and
  -- the decoder was rescored and then reset for the next utterance. Each round before was a
  -- kEndBatch or, without continuous decoding, a kEndpoint.
  pub decode-Tells :
      (bytes : Bytes) (last : ℤ) (rec : Recognizer s.resource)
      → HasRate rec
      → Tells bytes last rec (decode s bytes last rec)
  unfolding decode
  decode-Tells bytes last rec rate = elim (Option-cases (decoder_of s rec >>= fed s bytes last)) [
    | inl e ↦ rw (e, decode) tt
    | inr (d, e) ↦
        let (d0, made, given_to) = bind_inv (decoder_of s rec) (fed s bytes last) d e in
        let m = fed-model bytes last d0 d given_to in
        let rate' : 0 < d.model.subsampling_rate = rw m (decoder_of-HasRate rec d0 rate made) in
        let n = length d.feature_pipeline.feature_queue + 1 in
        rw (e, decode)
          (told d e (decode_loop s.resource n rec d)
            (decode_loop-Ends s.resource n rec d d here rate' (omega arith))
            (loop_within s.resource n rec d))
  ]
    where
      told :
          (start : AsrDec s.resource)
          → (decoder_of s rec >>= fed s bytes last) ≡ some start
          → (c : Call (Decoded s.resource)) → Ends s.resource rec start c
          → AllWithin s.resource rec c
          → Tells bytes last rec (elim c [
            | returns (out, d') ↦ returns (out, record rec { decoder = some d' })
            | fails ↦ fails
            | out_of_fuel ↦ out_of_fuel
          ])
      told start e (returns (out, d)) h w = (w, (start, d, e, refl, h))
      told start e fails h w = tt
      told start e out_of_fuel h w = h
