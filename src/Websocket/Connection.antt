-- ===== src/Websocket/Connection.antt =====
-- wenet/runtime/core/websocket/websocket_server.cc: the loop of a connection, over messages that
-- have been parsed, and what is done behind it. A read or a write on a closed socket throws.
use wenet_android.Prelude.{
  Bool, true, false, List, [], ◌∷◌, ◌++◌, if◌then◌else◌, codes, Option, none, some,
}
use wenet_android.Prelude.Int.{ℤ, pos}
use wenet_android.Text.Utf8.{Bytes}

pub data Answer : Type 0 where
  server_ready : Answer
  failed : Bytes → Answer

-- An option of the start message: absent, of the wrong type, or given.
pub data Setting (A : Type 0) : Type 0 where
  absent : Setting A
  wrong_type : Setting A
  given : A → Setting A

-- The code of a system error: that of a closed WebSocket, or another one.
pub data Code : Type 0 where
  closed_code : Code
  other_code : Code

-- An exception: a `beast::system_error`, or not.
pub data Failure : Type 0 where
  system_error : Code → Failure
  other_exception : Failure

pub data Message : Type 0 where
  start_signal : Setting ℤ → Setting Bool → Message
  end_signal : Message
  other_signal : Message
  no_signal : Message
  no_object : Message
  -- Text that `json::parse` or `as_string` throws on.
  unreadable : Failure → Message
  binary : List ℤ → Message

-- What the loop meets: a message, the peer that closes, or the decoding thread that has stopped.
pub data Event : Type 0 where
  receives : Message → Event
  peer_closes : Code → Event
  recognition_stops : Event

pub record Handler : Type 0 where
  pub got_start_tag : Bool
  pub got_end_tag : Bool
  pub stop_recognition : Bool
  pub continuous_decoding : Bool
  pub nbest : ℤ
  pub pipeline : Option (List ℤ)  -- the samples that it was given
  pub input_finished : Bool
  pub has_thread : Bool
  pub answers : List Answer
  pub closed : Option Code  -- what a read or a write then throws
  pub close_code : Code  -- what it throws once the server has closed

-- The loop goes on, is left, is left by an exception, or the process ends.
pub data Outcome : Type 0 where
  goes_on : Handler → Outcome
  leaves : Handler → Outcome
  throws : Failure → Handler → Outcome
  aborts : Outcome

unfoldable pub then_do : Outcome → (Handler → Outcome) → Outcome
then_do (goes_on h) next = next h
then_do (leaves h) next = leaves h
then_do (throws e h) next = throws e h
then_do aborts next = aborts

unfoldable pub write_reply : Answer → Handler → Outcome
write_reply reply h = elim h.closed [
  | none ↦ goes_on (record h { answers = h.answers ++ reply ∷ [] })
  | some code ↦ throws (system_error code) h
]

unfoldable pub on_error : Bytes → Handler → Outcome
on_error message h =
    then_do (write_reply (failed message) h)
      (λ h'. goes_on (record h' { closed = some h'.close_code }))

-- The thread that is assigned takes the place of a joinable one: that ends the process.
unfoldable pub start_thread : Handler → Outcome
start_thread h =
    if h.has_thread
    then aborts
    else goes_on (record h { pipeline = some []; input_finished = false; has_thread = true })

unfoldable pub on_speech_start : Handler → Outcome
on_speech_start h =
    then_do (write_reply server_ready (record h { got_start_tag = true })) start_thread

-- `set_input_finished` checks that it is called once.
unfoldable pub on_speech_end : Handler → Outcome
on_speech_end h = elim h.pipeline [
  | none ↦ goes_on (record h { got_end_tag = true })
  | some samples ↦
      if h.input_finished
      then aborts
      else goes_on (record h { input_finished = true; got_end_tag = true })
]

unfoldable pub on_speech_data : List ℤ → Handler → Outcome
on_speech_data pcm h = elim h.pipeline [
  | none ↦ aborts
  | some samples ↦ goes_on (record h { pipeline = some (samples ++ pcm) })
]

-- For a number that an `int` holds.
unfoldable pub set_nbest : Setting ℤ → Handler → Outcome
set_nbest absent h = goes_on h
set_nbest wrong_type h = on_error (codes "integer is expected for nbest option") h
set_nbest (given n) h = goes_on (record h { nbest = n })

unfoldable pub set_continuous : Setting Bool → Handler → Outcome
set_continuous absent h = goes_on h
set_continuous wrong_type h =
    on_error (codes "boolean true or false is expected for continuous_decoding option") h
set_continuous (given b) h = goes_on (record h { continuous_decoding = b })

-- After `OnText` the loop is left if the end has been signalled.
unfoldable pub after_text : Handler → Outcome
after_text h = if h.got_end_tag then leaves h else goes_on h

-- One message of the loop of `operator()`.
unfoldable pub handle : Message → Handler → Outcome
handle (start_signal nbest continuous) h =
    then_do (set_nbest nbest h)
      (λ a. then_do (set_continuous continuous a) (λ b. then_do (on_speech_start b) after_text))
handle end_signal h = then_do (on_speech_end h) after_text
handle other_signal h = then_do (on_error (codes "Unexpected signal type") h) after_text
handle no_signal h = then_do (on_error (codes "Wrong message header") h) after_text
handle (unreadable e) h = throws e h
handle no_object h = then_do (on_error (codes "Wrong protocol") h) after_text
handle (binary pcm) h =
    let serve = if h.stop_recognition then leaves h else on_speech_data pcm h in
    if h.got_start_tag
    then serve
    else on_error (codes "Start signal is expected before binary data") h

unfoldable pub meet : Event → Handler → Outcome
meet (receives m) h = elim h.closed [ none ↦ handle m h | some code ↦ throws (system_error code) h ]
meet (peer_closes code) h = goes_on (record h { closed = some code })
meet recognition_stops h = goes_on (record h { stop_recognition = true })

unfoldable pub serve : List Event → Handler → Outcome
serve [] h = goes_on h
serve (x ∷ events) h = then_do (meet x h) (serve events)

unfoldable pub join_thread : Handler → Outcome
join_thread h = leaves (record h { has_thread = false })

-- Behind the loop: the thread is joined, but for the last handler of exceptions. There the thread
-- goes with the connection, and a joinable one ends the process.
unfoldable pub finish : Outcome → Outcome
finish (goes_on h) = goes_on h
finish (leaves h) = join_thread h
finish (throws (system_error closed_code) h) = then_do (on_speech_end h) join_thread
finish (throws (system_error other_code) h) = join_thread h
finish (throws other_exception h) = if h.has_thread then aborts else leaves h
finish aborts = aborts

unfoldable pub session : List Event → Handler → Outcome
session events h = finish (serve events h)

abbrev pub new_handler : Code → Handler
new_handler code = record {
  got_start_tag = false;
  got_end_tag = false;
  stop_recognition = false;
  continuous_decoding = false;
  nbest = pos 1;
  pipeline = none;
  input_finished = false;
  has_thread = false;
  answers = [];
  closed = none;
  close_code = code;
}
