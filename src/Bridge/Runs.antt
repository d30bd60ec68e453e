-- ===== src/Bridge/Runs.antt =====
-- Every sequence of calls, in any order.
use wenet_android.Prelude.{ℕ, List}
use wenet_android.Prelude.Int.{ℤ}
use wenet_android.Bridge.{Decoder, Bridge}
use wenet_android.Bridge.Calls.{
  reset, accept_waveform, add_skipped_samples, snapshot_offset, decode_round, get_result_delta,
  get_timed_result_delta, has_new_endpoint_fn,
}

module _ {D : Type 0} (dec : Decoder D) (format_time : ℤ → List ℕ) where
  -- One call of the application, or one round of the decoding thread.
  pub data Step : Bridge D → Bridge D → Type 0 where
    resets : (st : Bridge D) → Step st (reset dec format_time st)
    accepts :
        (waveform : List ℤ) (st : Bridge D) → Step st (accept_waveform dec format_time waveform st)
    skips : (count : ℤ) (st : Bridge D) → Step st (add_skipped_samples dec format_time count st)
    snapshots : (st : Bridge D) → Step st (snapshot_offset dec format_time st)
    decodes : (st : Bridge D) → Step st (decode_round dec format_time st).0
    polls_result : (st : Bridge D) → Step st (get_result_delta dec format_time st).1
    polls_timed : (st : Bridge D) → Step st (get_timed_result_delta dec format_time st).1
    polls_endpoint : (st : Bridge D) → Step st (has_new_endpoint_fn dec format_time st).1

  -- Any number of them.
  pub data Run : Bridge D → Bridge D → Type 0 where
    stay : (st : Bridge D) → Run st st
    go : {st mid st' : Bridge D} → Run st mid → Step mid st' → Run st st'

  -- Neither a reset nor a poll of the timed result.
  abbrev pub IsQuiet : {st st' : Bridge D} → Step st st' → Type 0
  IsQuiet (resets st) = ⊥
  IsQuiet (accepts waveform st) = Unit
  IsQuiet (skips count st) = Unit
  IsQuiet (snapshots st) = Unit
  IsQuiet (decodes st) = Unit
  IsQuiet (polls_result st) = Unit
  IsQuiet (polls_timed st) = ⊥
  IsQuiet (polls_endpoint st) = Unit

  abbrev pub AreQuiet : {st st' : Bridge D} → Run st st' → Type 0
  AreQuiet (stay st) = Unit
  AreQuiet (go run step) = AreQuiet run × IsQuiet step

  -- Neither a reset nor a poll of the confirmed text.
  abbrev pub KeepsText : {st st' : Bridge D} → Step st st' → Type 0
  KeepsText (resets st) = ⊥
  KeepsText (accepts waveform st) = Unit
  KeepsText (skips count st) = Unit
  KeepsText (snapshots st) = Unit
  KeepsText (decodes st) = Unit
  KeepsText (polls_result st) = ⊥
  KeepsText (polls_timed st) = Unit
  KeepsText (polls_endpoint st) = Unit

  abbrev pub AllKeepText : {st st' : Bridge D} → Run st st' → Type 0
  AllKeepText (stay st) = Unit
  AllKeepText (go run step) = AllKeepText run × KeepsText step
