-- ===== src/Bridge/Deltas.antt =====
-- What the application gets of the timed result, poll by poll.
use wenet_android.Prelude.{
  ℕ, ◌≡◌, refl, ap, sym, ◌∙◌, List, [], ◌∷◌, ◌++◌, arith, length, All, if_cases, codes,
  append_assoc, drop-append,
}
use wenet_android.Prelude.Int.{ℤ, pos, ◌+ℤ◌, ltb_ℤ}
use wenet_android.Text.Utf8.{Bytes}
use wenet_android.Text.Parts.{join_string}
use wenet_android.Text.Parts.RoundTrip.{spell, join-spell}
use wenet_android.Bridge.{Decoder, Bridge}
use wenet_android.Bridge.Calls.{
  reset, accept_waveform, push_silence, add_skipped_samples, snapshot_offset, decode_round,
  get_result_delta, get_timed_result_delta, has_new_endpoint_fn,
}
use wenet_android.Bridge.Runs.{
  Step, Run, resets, accepts, skips, snapshots, decodes, polls_result, polls_timed, polls_endpoint,
  stay, go, IsQuiet, AreQuiet,
}
use wenet_android.Bridge.Pieces.{IsPiece, IsSent, Grows, same_lem, round_at_lem, poll_lem}

module _ {D : Type 0} (dec : Decoder D) (format_time : ℤ → List ℕ) where
  quiet_step_lem :
      (st st' : Bridge D) (step : Step dec format_time st st') (pieces : List Bytes) (n : ℕ)
      → IsQuiet dec format_time step
      → IsSent dec format_time pieces n st
      → Grows dec format_time pieces n st'
  unfolding accept_waveform push_silence add_skipped_samples snapshot_offset decode_round
      get_result_delta has_new_endpoint_fn
  quiet_step_lem st st' (resets _) pieces n quiet h = absurd quiet
  quiet_step_lem st st' (accepts waveform _) pieces n quiet h =
      same_lem dec format_time pieces n st _ h refl refl
  quiet_step_lem st st' (skips count _) pieces n quiet h =
      if_cases
        (λ (s : Bridge D). Grows dec format_time pieces n (record s {
          total_samples = s.total_samples +ℤ count;
          skipped_samples_offset = s.skipped_samples_offset +ℤ count;
        }))
        (ltb_ℤ (pos 0) count) (λ _. same_lem dec format_time pieces n st _ h refl refl)
        (λ _. same_lem dec format_time pieces n st _ h refl refl)
  quiet_step_lem st st' (snapshots _) pieces n quiet h =
      same_lem dec format_time pieces n st _ h refl refl
  quiet_step_lem st st' (decodes _) pieces n quiet h =
      round_at_lem dec format_time _ _ pieces n st h
  quiet_step_lem st st' (polls_result _) pieces n quiet h =
      same_lem dec format_time pieces n st _ h refl refl
  quiet_step_lem st st' (polls_timed _) pieces n quiet h = absurd quiet
  quiet_step_lem st st' (polls_endpoint _) pieces n quiet h =
      same_lem dec format_time pieces n st _ h refl refl

  quiet_run_lem :
      (st st' : Bridge D) (run : Run dec format_time st st') (pieces : List Bytes) (n : ℕ)
      → AreQuiet dec format_time run
      → IsSent dec format_time pieces n st
      → Grows dec format_time pieces n st'
  unfolding Grows
  quiet_run_lem st st' (stay _) pieces n quiet h =
      same_lem dec format_time pieces n st st h refl refl
  quiet_run_lem st st' (go {mid = mid} run step) pieces n (quiet, still) h =
      let (more, h') = quiet_run_lem st mid run pieces n quiet h in
      let (new, h'') = quiet_step_lem mid st' step (pieces ++ more) n still h' in
      (more ++ new, rw⁻¹ (append_assoc pieces more new) h'')

  Some : Bridge D → Type 0
  Some st = (pieces : List Bytes) × (n : ℕ) × IsSent dec format_time pieces n st

  reset_lem : (st : Bridge D) → Some (reset dec format_time st)
  unfolding Some reset spell
  reset_lem st = ([], 0, record { shape = tt; count = omega arith; json = refl; sent = refl })

  step_lem : (st st' : Bridge D) → Step dec format_time st st' → Some st → Some st'
  unfolding Some Grows
  step_lem st st' (resets _) h = reset_lem st
  step_lem st st' (polls_timed _) (pieces, n, h) =
      (pieces, length pieces, (poll_lem dec format_time pieces n st h).1)
  step_lem st st' (accepts waveform _) (pieces, n, h) =
      let (more, h') = quiet_step_lem st _ (accepts waveform st) pieces n tt h in
      (pieces ++ more, n, h')
  step_lem st st' (skips count _) (pieces, n, h) =
      let (more, h') = quiet_step_lem st _ (skips count st) pieces n tt h in (pieces ++ more, n, h')
  step_lem st st' (snapshots _) (pieces, n, h) =
      let (more, h') = quiet_step_lem st _ (snapshots st) pieces n tt h in (pieces ++ more, n, h')
  step_lem st st' (decodes _) (pieces, n, h) =
      let (more, h') = quiet_step_lem st _ (decodes st) pieces n tt h in (pieces ++ more, n, h')
  step_lem st st' (polls_result _) (pieces, n, h) =
      let (more, h') = quiet_step_lem st _ (polls_result st) pieces n tt h in
      (pieces ++ more, n, h')
  step_lem st st' (polls_endpoint _) (pieces, n, h) =
      let (more, h') = quiet_step_lem st _ (polls_endpoint st) pieces n tt h in
      (pieces ++ more, n, h')

  run_lem : (st st' : Bridge D) → Run dec format_time st st' → Some st → Some st'
  run_lem st st' (stay _) h = h
  run_lem st st' (go {mid = mid} run step) h = step_lem mid st' step (run_lem st mid run h)

  -- After any calls from a reset, the timed result is a list of texts that each begin with an opening
  -- brace, with commas between them; a poll, and then calls without a reset or such a poll, only
  -- add such texts to it; and the next poll gives just the texts that came in between, with
  -- commas between them, in square brackets.
  pub delta_since_poll :
      (st0 st st' : Bridge D) (run : Run dec format_time (reset dec format_time st0) st)
      (later : Run dec format_time (get_timed_result_delta dec format_time st).1 st')
      → AreQuiet dec format_time later
      → (pieces more : List Bytes) × All IsPiece (pieces ++ more)
        × (st.timed_result_json ≡ join_string (b',' ∷ []) pieces)
        × (st'.timed_result_json ≡ join_string (b',' ∷ []) (pieces ++ more))
        × ((get_timed_result_delta dec format_time st').0
            ≡ codes "[" ++ join_string (b',' ∷ []) more ++ codes "]")
  unfolding Grows Some
  delta_since_poll st0 st st' run later quiet =
      let (pieces, n, h) = run_lem (reset dec format_time st0) st run (reset_lem st0) in
      let polled = (poll_lem dec format_time pieces n st h).1 in
      let (more, h') = quiet_run_lem _ st' later pieces (length pieces) quiet polled in
      let (next, _) = poll_lem dec format_time (pieces ++ more) (length pieces) st' h' in
      (
        pieces,
        more,
        h'.shape,
        h.json ∙ sym (join-spell b',' pieces),
        h'.json ∙ sym (join-spell b',' (pieces ++ more)),
        next
            ∙ ap (λ t. codes "[" ++ t ++ codes "]")
                (ap (spell b',') (drop-append pieces more) ∙ sym (join-spell b',' more)),
      )
