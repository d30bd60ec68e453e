-- ===== src/Websocket/Serving.antt =====
-- What a client is told by the decoding thread of its connection.
use wenet_android.Prelude.{
  sym, ◌≡◌, refl, ap, ◌∙◌, Bool, true, false, List, [], ◌∷◌, ◌++◌, if◌then◌else◌, All, All-append,
  append_assoc,
}
use wenet_android.Text.Utf8.{Bytes}
use wenet_android.Bridge.{DecodeState, end_batch, endpoint, end_feats, wait_feats}
use wenet_android.Websocket.{
  Reply, partial_result, final_result, speech_end, thread_round, Round, decode_thread,
}

-- The reply is not the end of the speech.
abbrev pub IsResult : Reply → Type 0
IsResult (partial_result text) = Unit
IsResult (final_result text) = Unit
IsResult speech_end = ⊥

-- How a decoding thread's replies end.
abbrev pub EndsWell : List Reply × Bool → Type 0
EndsWell (replies, false) = All IsResult replies
EndsWell (replies, true) =
    (before : List Reply) × (text : Bytes) × All IsResult before
    × (replies ≡ before ++ final_result text ∷ speech_end ∷ [])

after_results :
    (sent : List Reply) (rest : List Reply × Bool)
    → All IsResult sent
    → EndsWell rest
    → EndsWell (sent ++ rest.0, rest.1)
after_results sent (replies, false) ok h = All-append IsResult sent replies ok h
after_results sent (replies, true) ok (before, text, h, e) = (
  sent ++ before,
  text,
  All-append IsResult sent before ok h,
  ap (λ t. sent ++ t) e ∙ sym (append_assoc sent before (final_result text ∷ speech_end ∷ [])),
)

round-EndsWell :
    (continuous : Bool) (text : Bool → Bytes) (decoded : Bool) (state : DecodeState)
    (rest : List Reply × Bool)
    → EndsWell rest
    → EndsWell (
        let (replies, more) = thread_round continuous text decoded state in
        if more then (replies ++ rest.0, rest.1) else (replies, true))
unfolding thread_round
round-EndsWell continuous text decoded end_feats rest h = ([], text true, tt, refl)
round-EndsWell true text decoded endpoint rest h =
    after_results (final_result (text true) ∷ []) rest (tt, tt) h
round-EndsWell false text decoded endpoint rest h = ([], text true, tt, refl)
round-EndsWell continuous text true end_batch rest h =
    after_results (partial_result (text false) ∷ []) rest (tt, tt) h
round-EndsWell continuous text false end_batch rest h = after_results [] rest tt h
round-EndsWell continuous text true wait_feats rest h =
    after_results (partial_result (text false) ∷ []) rest (tt, tt) h
round-EndsWell continuous text false wait_feats rest h = after_results [] rest tt h

-- The decoding thread, over any states that the decoder returns, sends results only; and if it ends,
-- its last replies are a final result and the end of the speech, which it sends once.
pub decode_thread-EndsWell :
    (continuous : Bool) (rounds : List Round) → EndsWell (decode_thread continuous rounds)
unfolding decode_thread
decode_thread-EndsWell continuous [] = tt
decode_thread-EndsWell continuous (r ∷ rounds) =
    round-EndsWell continuous r.text r.decoded r.state (decode_thread continuous rounds)
      (decode_thread-EndsWell continuous rounds)
