-- ===== src/Bridge/Calls.antt =====
-- The calls of wenet.cc: those of the application and one round of the decoding thread.
use wenet_android.Prelude.{
  ◌+◌, ◌*◌, ◌/◌, ◌%◌, ◌-◌, ℕ, Bool, true, false, List, [], ◌∷◌, ◌++◌, if◌then◌else◌, ltb, ◌==◌,
  length, drop, replicate, codes,
}
use wenet_android.Prelude.Int.{ℤ, pos, negsuc, ◌+ℤ◌, ◌-ℤ◌, ltb_ℤ}
use wenet_android.Text.Utf8.{Bytes}
use wenet_android.Bridge.{
  DecodeState, end_batch, endpoint, end_feats, wait_feats, Decoder, OffsetEntry, Bridge,
  sample_rate, append_word_pieces, append_element, newline_marker, decoded_something,
  first_sentence, first_pieces,
}

-- The conversion of a number to an `int` of 32 bits.
unfoldable pub to_int32 : ℕ → ℤ
to_int32 n =
    let low = n % 4_294_967_296 in
    if ltb low 2_147_483_648 then pos low else negsuc (4_294_967_295 - low)

module _ {D : Type 0} (dec : Decoder D) (format_time : ℤ → Bytes) where
  unfoldable pub reset : Bridge D → Bridge D
  reset st = record st {
    decoder = dec.reset st.decoder;
    state = end_batch;
    decode_thread_done = false;
    has_new_endpoint = false;
    total_result = [];
    timed_result_json = [];
    timed_result_sent_pos = 0;
    total_result_sent = [];
    total_samples = pos 0;
    endpoint_start_sample = pos 0;
    skipped_samples_offset = pos 0;
    pushed_silence_total = 0;
    total_fed_samples = 0;
    offset_map = [];
  }

  unfoldable pub accept_waveform : List ℤ → Bridge D → Bridge D
  accept_waveform waveform st = record st {
    decoder = dec.accept_waveform waveform st.decoder;
    total_samples = st.total_samples +ℤ pos (length waveform);
    total_fed_samples = st.total_fed_samples + length waveform;
  }

  -- One second of silence, and then the count.
  unfoldable pub push_silence : Bridge D → Bridge D
  push_silence st = record st {
    decoder = dec.accept_waveform (replicate 8000 (pos 0)) st.decoder;
    total_fed_samples = st.total_fed_samples + 8000;
    pushed_silence_total = st.pushed_silence_total + 8000;
  }

  unfoldable pub add_skipped_samples : ℤ → Bridge D → Bridge D
  add_skipped_samples count st =
      let st' = if ltb_ℤ (pos 0) count then push_silence st else st in
      record st' {
        total_samples = st'.total_samples +ℤ count;
        skipped_samples_offset = st'.skipped_samples_offset +ℤ count;
      }

  unfoldable pub snapshot_offset : Bridge D → Bridge D
  snapshot_offset st =
      let entry : OffsetEntry = record {
        pipeline_ms = to_int32 (st.total_fed_samples * 1000 / sample_rate);
        skip_samples = st.skipped_samples_offset -ℤ pos st.pushed_silence_total;
      } in
      record st { offset_map = st.offset_map ++ entry ∷ [] }

  -- " [MM:SS.S-MM:SS.S]"
  unfoldable pub time_tag : Bridge D → Bytes
  time_tag st =
      codes " ["
      ++ format_time st.endpoint_start_sample
      ++ codes "-"
      ++ format_time st.total_samples
      ++ codes "]"

  unfoldable pub append_result : Bridge D → Bridge D
  append_result st =
      let results = dec.result st.decoder in
      if decoded_something results
      then record st {
        timed_result_json =
            append_word_pieces st.offset_map (first_pieces results) st.timed_result_json;
      }
      else st

  -- The round that ends at kEndFeats.
  unfoldable pub finish_round : Bytes → Bridge D → Bridge D
  finish_round result st =
      let results = dec.result st.decoder in
      let pieces =
        if decoded_something results then first_pieces results else st.last_partial_pieces in
      record st {
        total_result = st.total_result ++ (result ++ time_tag st);
        timed_result_json = append_word_pieces st.offset_map pieces st.timed_result_json;
        decode_thread_done = true;
      }

  -- The round that ends at kEndpoint.
  unfoldable pub endpoint_round : Bytes → Bridge D → Bridge D
  endpoint_round result st =
      let appended = append_result st in
      record appended {
        total_result = st.total_result ++ (result ++ time_tag st ++ b'\n' ∷ []);
        timed_result_json = append_element appended.timed_result_json newline_marker;
        has_new_endpoint = true;
        last_partial_pieces = [];
        endpoint_start_sample = st.total_samples;
        decoder = dec.reset_continuous_decoding st.decoder;
      }

  unfoldable pub partial_round : Bridge D → Bridge D
  partial_round st =
      let results = dec.result st.decoder in
      if decoded_something results
      then record st { last_partial_pieces = first_pieces results }
      else st

  -- The sentence that a round reads, empty if nothing was decoded.
  unfoldable pub partial : D → Bytes
  partial decoder =
      let results = dec.result decoder in
      if decoded_something results then first_sentence results else []

  -- The round after `Decode` has returned, and whether the thread goes on.
  unfoldable pub round_at : DecodeState → D → Bridge D → Bridge D × Bool
  round_at end_feats decoder st =
      let d = dec.rescoring decoder in
      (finish_round (partial d) (record st { state = end_feats; decoder = d }), false)
  round_at endpoint decoder st =
      let d = dec.rescoring decoder in
      (endpoint_round (partial d) (record st { state = endpoint; decoder = d }), true)
  round_at end_batch decoder st =
      (partial_round (record st { state = end_batch; decoder = decoder }), true)
  round_at wait_feats decoder st =
      (partial_round (record st { state = wait_feats; decoder = decoder }), true)

  -- One round of `decode_thread_func`.
  unfoldable pub decode_round : Bridge D → Bridge D × Bool
  decode_round st = let (state, decoder) = dec.decode st.decoder in round_at state decoder st

  -- "CONFIRMED\nPARTIAL", and the confirmed part alone.
  unfoldable pub new_confirmed : Bridge D → Bytes
  new_confirmed st =
      if ltb (length st.total_result_sent) (length st.total_result)
      then drop (length st.total_result_sent) st.total_result
      else []

  unfoldable pub get_result : Bridge D → Bytes
  get_result st = st.total_result ++ partial st.decoder

  unfoldable pub get_result_delta : Bridge D → Bytes × Bridge D
  get_result_delta st =
      let sent =
        if ltb (length st.total_result_sent) (length st.total_result)
        then st.total_result
        else st.total_result_sent in
      (new_confirmed st ++ b'\n' ∷ partial st.decoder, record st { total_result_sent = sent })

  unfoldable pub strip_comma : Bytes → Bytes
  strip_comma [] = []
  strip_comma (c ∷ delta) = if c == b',' then delta else c ∷ delta

  unfoldable pub get_timed_result_delta : Bridge D → Bytes × Bridge D
  get_timed_result_delta st =
      let cur_len = length st.timed_result_json in
      if cur_len == st.timed_result_sent_pos then (codes "[]", st) else (
        codes "[" ++ strip_comma (drop st.timed_result_sent_pos st.timed_result_json) ++ codes "]",
        record st { timed_result_sent_pos = cur_len },
      )

  unfoldable pub get_timed_result : Bridge D → Bytes
  get_timed_result st = codes "[" ++ st.timed_result_json ++ codes "]"

  unfoldable pub has_new_endpoint_fn : Bridge D → Bool × Bridge D
  has_new_endpoint_fn st = (st.has_new_endpoint, record st { has_new_endpoint = false })

  unfoldable pub get_finished : Bridge D → Bool
  get_finished st = st.decode_thread_done
