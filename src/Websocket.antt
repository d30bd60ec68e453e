-- ===== src/Websocket.antt =====
-- wenet/runtime/core/websocket/websocket_server.cc: the decoding thread of a connection, with
-- replies that have not been printed, while its writes succeed.
mod Connection
mod Safe
mod Serving
mod Tests
use wenet_android.Prelude.{Bool, true, false, List, [], ◌∷◌, ◌++◌, if◌then◌else◌}
use wenet_android.Text.Utf8.{Bytes}
use wenet_android.Bridge.{DecodeState, end_batch, endpoint, end_feats, wait_feats}

pub data Reply : Type 0 where
  partial_result : Bytes → Reply
  final_result : Bytes → Reply
  speech_end : Reply

-- One round of `DecodeThreadFunc`: the replies, and whether the thread goes on. `text` is
-- `SerializeResult` by `finish`.
unfoldable pub thread_round : Bool → (Bool → Bytes) → Bool → DecodeState → List Reply × Bool
thread_round continuous text decoded end_feats = (final_result (text true) ∷ speech_end ∷ [], false)
thread_round continuous text decoded endpoint =
    if continuous
    then (final_result (text true) ∷ [], true)
    else (final_result (text true) ∷ speech_end ∷ [], false)
thread_round continuous text decoded end_batch =
    (if decoded then partial_result (text false) ∷ [] else [], true)
thread_round continuous text decoded wait_feats =
    (if decoded then partial_result (text false) ∷ [] else [], true)

pub record Round : Type 0 where
  pub state : DecodeState
  pub decoded : Bool
  pub text : Bool → Bytes

-- The replies over what the decoder returns, round by round, and whether the thread has ended,
-- which sets `stop_recognition_`.
unfoldable pub decode_thread : Bool → List Round → List Reply × Bool
decode_thread continuous [] = ([], false)
decode_thread continuous (r ∷ rounds) =
    let (later, ended) = decode_thread continuous rounds in
    let (replies, more) = thread_round continuous r.text r.decoded r.state in
    if more then (replies ++ later, ended) else (replies, true)
