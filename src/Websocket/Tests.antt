-- ===== src/Websocket/Tests.antt =====
-- A decoding thread over a batch and the end of the features, and a session of a client.
use wenet_android.Prelude.{List, true, false, [], ◌∷◌, codes}
use wenet_android.Bridge.{end_batch, end_feats}
use wenet_android.Websocket.{Round, decode_thread}
use wenet_android.Prelude.{◌≡◌, Bool, not, ◌&&◌, ◌≢◌, refl, List, false, arith}
use wenet_android.Prelude.Int.{pos}
use wenet_android.Websocket.Connection.{
  Event, receives, peer_closes, unreadable, other_exception, system_error, other_code, closed_code,
  session, finish, Outcome, throws, start_signal, end_signal, binary, given, absent, serve,
  new_handler, aborts, then_do, meet, handle, set_nbest, set_continuous, on_speech_start,
  write_reply, start_thread, after_text,
}
use wenet_android.Websocket.Safe.{starts, Reads, session_never_aborts}
use wenet_android.Websocket.Serving.{EndsWell, decode_thread-EndsWell}

abbrev two_rounds : List Round
two_rounds =
    record { state = end_batch; decoded = true; text = λ _. codes "one" }
    ∷ record { state = end_feats; decoded = true; text = λ _. codes "two" }
    ∷ []

decode_thread-EndsWell_example : EndsWell (decode_thread false two_rounds)
decode_thread-EndsWell_example = decode_thread-EndsWell false two_rounds

abbrev a_session : List Event
a_session =
    receives (start_signal (given (pos 2)) absent)
    ∷ receives (binary (pos 5 ∷ []))
    ∷ receives end_signal
    ∷ []

session_never_aborts_example : session a_session (new_handler closed_code) ≢ aborts
unfolding starts Reads
session_never_aborts_example =
    session_never_aborts a_session closed_code (omega arith) (tt, (tt, (tt, tt)))

-- A second start message ends the server.
started_twice :
    session
      (receives (start_signal absent absent) ∷ receives (start_signal absent absent) ∷ [])
      (new_handler closed_code)
    ≡ aborts
unfolding session finish serve then_do meet handle set_nbest set_continuous on_speech_start
    write_reply start_thread after_text
started_twice = refl

-- So does a signal on which `as_string` throws an exception that is no system error.
signal_of_a_number :
    session
      (receives (start_signal absent absent) ∷ receives (unreadable other_exception) ∷ [])
      (new_handler closed_code)
    ≡ aborts
unfolding session finish serve then_do meet handle set_nbest set_continuous on_speech_start
    write_reply start_thread after_text
signal_of_a_number = refl

-- A client that is gone without closing leaves a thread that waits for the end of its input.
dropped_input : Outcome → Bool
dropped_input (throws (system_error other_code) h) = h.has_thread && not h.input_finished
dropped_input o = false

dropped_client :
    dropped_input (
      serve
        (receives (start_signal absent absent) ∷ peer_closes other_code ∷ receives end_signal ∷ [])
        (new_handler closed_code))
    ≡ true
unfolding dropped_input serve then_do meet handle set_nbest set_continuous on_speech_start
    write_reply start_thread after_text
dropped_client = refl
