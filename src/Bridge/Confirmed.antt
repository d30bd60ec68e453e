-- ===== src/Bridge/Confirmed.antt =====
-- What the application gets of the confirmed text, poll by poll.
use wenet_android.Prelude.{
  ℕ, ◌+◌, ◌≡◌, refl, ap, sym, ◌∙◌, inl, inr, List, [], ◌∷◌, ◌++◌, arith, length, drop, if_cases,
  ltb, ◌==◌, append_assoc, append-nil, drop-append, length-append, Bool-cases,
}
use wenet_android.Prelude.Int.{ℤ, pos, ◌+ℤ◌, ltb_ℤ}
use wenet_android.Text.Utf8.{Bytes}
use wenet_android.Bridge.{
  Decoder, Bridge, DecodeState, end_batch, endpoint, end_feats, wait_feats, decoded_something,
}
use wenet_android.Bridge.Calls.{
  reset, accept_waveform, push_silence, add_skipped_samples, snapshot_offset, decode_round,
  round_at, finish_round, endpoint_round, partial_round, append_result, partial, new_confirmed,
  get_result_delta, get_timed_result_delta, has_new_endpoint_fn,
}
use wenet_android.Bridge.Runs.{
  Step, Run, resets, accepts, skips, snapshots, decodes, polls_result, polls_timed, polls_endpoint,
  stay, go, KeepsText, AllKeepText,
}

module _ {D : Type 0} (dec : Decoder D) (format_time : ℤ → List ℕ) where
  -- `rest` of the confirmed text has not been sent.
  Pending : Bytes → Bridge D → Type 0
  Pending rest st = st.total_result ≡ st.total_result_sent ++ rest

  poll_lem :
      (rest : Bytes) (st : Bridge D)
      → Pending rest st
      → (new_confirmed dec format_time st ≡ rest)
        × ((get_result_delta dec format_time st).1.total_result ≡ st.total_result)
        × Pending [] (get_result_delta dec format_time st).1
  unfolding new_confirmed get_result_delta Pending
  poll_lem rest st h =
      let len : length st.total_result ≡ length st.total_result_sent + length rest =
        ap length h ∙ length-append st.total_result_sent rest in
      elim (Bool-cases (ltb (length st.total_result_sent) (length st.total_result))) [
        | inl more ↦ (
          rw more
              (ap (drop (length st.total_result_sent)) h ∙ drop-append st.total_result_sent rest),
          refl,
          rw more (sym (append-nil st.total_result)),
        )
        | inr none_new ↦
            let empty : rest ≡ [] = nil_of_length rest (ground arith) in
            (
              rw (none_new, empty),
              refl,
              rw none_new (h ∙ ap (λ t. st.total_result_sent ++ t) empty),
            )
      ]
    where
      nil_of_length : (xs : Bytes) → length xs ≡ 0 → xs ≡ []
      nil_of_length [] e = refl
      nil_of_length (x ∷ xs) e = absurd (omega arith)

  -- More is confirmed, and nothing is sent.
  Grows : Bridge D → Bridge D → Type 0
  Grows st st' =
      (more : Bytes) × (st'.total_result ≡ st.total_result ++ more)
      × (st'.total_result_sent ≡ st.total_result_sent)

  same_lem :
      (st st' : Bridge D)
      → st'.total_result ≡ st.total_result
      → st'.total_result_sent ≡ st.total_result_sent
      → Grows st st'
  unfolding Grows
  same_lem st st' same sent = ([], same ∙ sym (append-nil st.total_result), sent)

  append_result_lem :
      (st : Bridge D) → (append_result dec format_time st).total_result_sent ≡ st.total_result_sent
  unfolding append_result
  append_result_lem st =
      if_cases (λ (s : Bridge D). s.total_result_sent ≡ st.total_result_sent)
        (decoded_something (dec.result st.decoder)) (λ _. refl) (λ _. refl)

  partial_round_lem : (st : Bridge D) → Grows st (partial_round dec format_time st)
  unfolding partial_round
  partial_round_lem st =
      if_cases (Grows st) (decoded_something (dec.result st.decoder)) (λ _. same_lem st _ refl refl)
        (λ _. same_lem st st refl refl)

  round_at_lem :
      (state : DecodeState) (d : D) (st : Bridge D)
      → Grows st (round_at dec format_time state d st).0
  unfolding round_at finish_round endpoint_round Grows
  round_at_lem end_feats d st = (_, refl, refl)
  round_at_lem endpoint d st =
      (_, refl, append_result_lem (record st { state = endpoint; decoder = dec.rescoring d }))
  round_at_lem end_batch d st = partial_round_lem (record st { state = end_batch; decoder = d })
  round_at_lem wait_feats d st = partial_round_lem (record st { state = wait_feats; decoder = d })

  quiet_step_lem :
      (st st' : Bridge D) (step : Step dec format_time st st')
      → KeepsText dec format_time step
      → Grows st st'
  unfolding accept_waveform push_silence add_skipped_samples snapshot_offset decode_round
      get_timed_result_delta has_new_endpoint_fn
  quiet_step_lem st st' (resets _) quiet = absurd quiet
  quiet_step_lem st st' (accepts waveform _) quiet = same_lem st _ refl refl
  quiet_step_lem st st' (skips count _) quiet =
      if_cases
        (λ (s : Bridge D). Grows st (record s {
          total_samples = s.total_samples +ℤ count;
          skipped_samples_offset = s.skipped_samples_offset +ℤ count;
        }))
        (ltb_ℤ (pos 0) count) (λ _. same_lem st _ refl refl) (λ _. same_lem st _ refl refl)
  quiet_step_lem st st' (snapshots _) quiet = same_lem st _ refl refl
  quiet_step_lem st st' (decodes _) quiet = round_at_lem _ _ st
  quiet_step_lem st st' (polls_result _) quiet = absurd quiet
  quiet_step_lem st st' (polls_timed _) quiet =
      if_cases {A = Bytes × Bridge D} (λ r. Grows st r.1)
        (length st.timed_result_json == st.timed_result_sent_pos) (λ _. same_lem st _ refl refl)
        (λ _. same_lem st _ refl refl)
  quiet_step_lem st st' (polls_endpoint _) quiet = same_lem st _ refl refl

  quiet_run_lem :
      (st st' : Bridge D) (run : Run dec format_time st st')
      → AllKeepText dec format_time run
      → Grows st st'
  unfolding Grows
  quiet_run_lem st st' (stay _) quiet = same_lem st st refl refl
  quiet_run_lem st st' (go {mid = mid} run step) (quiet, still) =
      let (more, text, sent) = quiet_run_lem st mid run quiet in
      let (new, text', sent') = quiet_step_lem mid st' step still in
      (
        more ++ new,
        text' ∙ ap (λ t. t ++ new) text ∙ append_assoc st.total_result more new,
        sent' ∙ sent,
      )

  grown-Pending :
      (rest : Bytes) (st st' : Bridge D)
      → Pending rest st
      → (g : Grows st st') → (rest' : Bytes) × Pending rest' st'
  unfolding Pending Grows
  grown-Pending rest st st' h (more, text, sent) = (
    rest ++ more,
    text
        ∙ ap (λ t. t ++ more) h
        ∙ append_assoc st.total_result_sent rest more
        ∙ ap (λ t. t ++ (rest ++ more)) (sym sent),
  )

  step_lem :
      (st st' : Bridge D) (rest : Bytes)
      → Step dec format_time st st'
      → Pending rest st
      → (rest' : Bytes) × Pending rest' st'
  step_lem st st' rest (resets _) h = ([], unfold Pending reset in refl)
  step_lem st st' rest (polls_result _) h = ([], (poll_lem rest st h).2)
  step_lem st st' rest (accepts waveform _) h =
      grown-Pending rest st st' h (quiet_step_lem st st' (accepts waveform st) tt)
  step_lem st st' rest (skips count _) h =
      grown-Pending rest st st' h (quiet_step_lem st st' (skips count st) tt)
  step_lem st st' rest (snapshots _) h =
      grown-Pending rest st st' h (quiet_step_lem st st' (snapshots st) tt)
  step_lem st st' rest (decodes _) h =
      grown-Pending rest st st' h (quiet_step_lem st st' (decodes st) tt)
  step_lem st st' rest (polls_timed _) h =
      grown-Pending rest st st' h (quiet_step_lem st st' (polls_timed st) tt)
  step_lem st st' rest (polls_endpoint _) h =
      grown-Pending rest st st' h (quiet_step_lem st st' (polls_endpoint st) tt)

  run_lem :
      (st st' : Bridge D) (rest : Bytes)
      → Run dec format_time st st'
      → Pending rest st
      → (rest' : Bytes) × Pending rest' st'
  run_lem st st' rest (stay _) h = (rest, h)
  run_lem st st' rest (go {mid = mid} run step) h =
      let (rest', h') = run_lem st mid rest run h in step_lem mid st' rest' step h'

  -- After any calls from a reset, and a poll of the confirmed text, calls without a reset or such a
  -- poll only add to the confirmed text, and the next poll gives just what they added, a newline and
  -- the current partial sentence.
  pub confirmed_since_poll :
      (st0 st st' : Bridge D) (run : Run dec format_time (reset dec format_time st0) st)
      (later : Run dec format_time (get_result_delta dec format_time st).1 st')
      → AllKeepText dec format_time later
      → (more : Bytes) × (st'.total_result ≡ st.total_result ++ more)
        × ((get_result_delta dec format_time st').0
            ≡ more ++ b'\n' ∷ partial dec format_time st'.decoder)
  unfolding Grows Pending
  confirmed_since_poll st0 st st' run later quiet =
      let (rest, h) = run_lem (reset dec format_time st0) st [] run (unfold reset in refl) in
      let (_, kept, none_left) = poll_lem rest st h in
      let (more, text, sent) =
        quiet_run_lem (get_result_delta dec format_time st).1 st' later quiet in
      let pending : Pending more st' =
        text ∙ ap (λ t. t ++ more) (none_left ∙ append-nil _) ∙ ap (λ t. t ++ more) (sym sent) in
      let (given, _, _) = poll_lem more st' pending in
      (
        more,
        text ∙ ap (λ t. t ++ more) kept,
        unfold get_result_delta in ap (λ t. t ++ b'\n' ∷ partial dec format_time st'.decoder) given,
      )
