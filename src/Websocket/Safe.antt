-- ===== src/Websocket/Safe.antt =====
-- What a client may do to the server through the loop of its connection.
use wenet_android.Prelude.{
  Option, ◌≢◌, Option, none, All, Option-cases, false, inl, inr, Bool-cases, if_cases, ◌≡◌, refl,
  Bool, true, some, List, [], ◌∷◌, ◌++◌, arith, if◌then◌else◌, ℕ, suc, ◌+◌, ◌≤◌,
}
use wenet_android.Prelude.Int.{ℤ}
use wenet_android.Text.Utf8.{Bytes}
use wenet_android.Websocket.Connection.{
  Setting, absent, wrong_type, given, start_signal, end_signal, other_signal, no_signal, no_object,
  binary, Handler, Outcome, goes_on, leaves, throws, aborts, then_do, write_reply, on_error,
  start_thread, on_speech_start, on_speech_end, on_speech_data, set_nbest, set_continuous,
  after_text, handle, serve, session, finish, join_thread, new_handler, Code, closed_code,
  other_code, system_error, other_exception, Message, unreadable, Event, receives, peer_closes,
  recognition_stops, meet,
}

-- Once the start tag is there, there is a pipeline, and its input goes on.
IsServed : Handler → Type 0
IsServed h =
    (h.got_start_tag ≡ true → (samples : List ℤ) × (h.pipeline ≡ some samples))
    × (h.input_finished ≡ false)

input_goes_on : (h : Handler) → IsServed h → h.input_finished ≡ false
unfolding IsServed
input_goes_on h served = served.1

-- The threads that the connection has.
unfoldable used : Handler → ℕ
used h = if h.has_thread then 1 else 0

unfoldable pub starts : List Event → ℕ
starts [] = 0
starts (receives (start_signal nbest continuous) ∷ events) = suc (starts events)
starts (x ∷ events) = starts events

-- The JSON library throws system errors only.
unfoldable pub Reads : Event → Type 0
Reads (receives (unreadable other_exception)) = ⊥
Reads x = Unit

-- Not aborted, and if the loop goes on, served and with room for `n` starts.
IsFine : ℕ → Outcome → Type 0
IsFine n (goes_on h) = IsServed h × (used h + n ≤ 1)
IsFine n (leaves h) = Unit
IsFine n (throws (system_error code) h) = h.input_finished ≡ false
IsFine n (throws other_exception h) = ⊥
IsFine n aborts = ⊥

then_do-IsFine :
    (m n : ℕ) (o : Outcome) (next : Handler → Outcome)
    → IsFine m o
    → ((h : Handler) → IsServed h → used h + m ≤ 1 → IsFine n (next h))
    → IsFine n (then_do o next)
unfolding then_do IsFine
then_do-IsFine m n (goes_on h) next (served, room) rest = rest h served room
then_do-IsFine m n (leaves h) next fine rest = tt
then_do-IsFine m n (throws (system_error code) h) next fine rest = fine
then_do-IsFine m n (throws other_exception h) next fine rest = absurd fine
then_do-IsFine m n aborts next fine rest = fine

on_error-IsFine :
    (n : ℕ) (message : Bytes) (h : Handler)
    → IsServed h
    → used h + n ≤ 1
    → IsFine n (on_error message h)
unfolding on_error write_reply then_do IsFine IsServed used
on_error-IsFine n message h served room = elim (Option-cases h.closed) [
  | inl e ↦ rw e (served, room)
  | inr (code, e) ↦ rw e (served.1)
]

on_speech_start-IsFine :
    (n : ℕ) (h : Handler) → IsServed h → used h + suc n ≤ 1 → IsFine n (on_speech_start h)
unfolding on_speech_start start_thread write_reply then_do IsFine IsServed used
on_speech_start-IsFine n h served room = elim (Option-cases h.closed) [
  | inr (code, e) ↦ rw e (served.1)
  | inl e ↦ elim (Bool-cases h.has_thread) [
    | inl t ↦ absurd (ground arith)
    | inr t ↦ rw e (rw t (((λ _. ([], refl)), refl), ground arith))
  ]
]

set_nbest-IsFine :
    (m : ℕ) (n : Setting ℤ) (h : Handler) → IsServed h → used h + m ≤ 1 → IsFine m (set_nbest n h)
unfolding set_nbest IsFine IsServed used
set_nbest-IsFine m absent h served room = (served, room)
set_nbest-IsFine m wrong_type h served room = on_error-IsFine m _ h served room
set_nbest-IsFine m (given n) h served room = (served, room)

set_continuous-IsFine :
    (m : ℕ) (b : Setting Bool) (h : Handler)
    → IsServed h
    → used h + m ≤ 1
    → IsFine m (set_continuous b h)
unfolding set_continuous IsFine IsServed used
set_continuous-IsFine m absent h served room = (served, room)
set_continuous-IsFine m wrong_type h served room = on_error-IsFine m _ h served room
set_continuous-IsFine m (given b) h served room = (served, room)

after_text-IsFine : (n : ℕ) (h : Handler) → IsServed h → used h + n ≤ 1 → IsFine n (after_text h)
unfolding after_text IsFine
after_text-IsFine n h served room =
    if_cases (IsFine n) h.got_end_tag (λ _. tt) (λ _. (served, room))

on_speech_end-IsFine :
    (n : ℕ) (h : Handler)
    → h.input_finished ≡ false
    → IsFine n (then_do (on_speech_end h) after_text)
unfolding on_speech_end then_do after_text IsFine
on_speech_end-IsFine n h pending = elim (Option-cases h.pipeline) [
  | inl e ↦ rw e tt
  | inr (samples, e) ↦ rw e (rw pending tt)
]

on_speech_data-IsFine :
    (n : ℕ) (pcm : List ℤ) (h : Handler)
    → h.got_start_tag ≡ true
    → IsServed h
    → used h + n ≤ 1
    → IsFine n (on_speech_data pcm h)
unfolding on_speech_data IsFine IsServed used
on_speech_data-IsFine n pcm h started served room =
    let (samples, e) = served.0 started in rw e (((λ _. (samples ++ pcm, refl)), served.1), room)

start-IsFine :
    (n : ℕ) (nbest : Setting ℤ) (continuous : Setting Bool) (h : Handler)
    → IsServed h
    → used h + suc n ≤ 1
    → IsFine n (handle (start_signal nbest continuous) h)
unfolding handle
start-IsFine n nbest continuous h served room =
    then_do-IsFine (suc n) n (set_nbest nbest h) _ (set_nbest-IsFine (suc n) nbest h served room)
      (λ a ok_a room_a.
        then_do-IsFine (suc n) n (set_continuous continuous a) _
          (set_continuous-IsFine (suc n) continuous a ok_a room_a)
          (λ b ok_b room_b.
            then_do-IsFine n n (on_speech_start b) after_text
              (on_speech_start-IsFine n b ok_b room_b) (after_text-IsFine n)))

error-IsFine :
    (n : ℕ) (message : Bytes) (h : Handler)
    → IsServed h
    → used h + n ≤ 1
    → IsFine n (then_do (on_error message h) after_text)
error-IsFine n message h served room =
    then_do-IsFine n n (on_error message h) after_text (on_error-IsFine n message h served room)
      (after_text-IsFine n)

binary-IsFine :
    (n : ℕ) (pcm : List ℤ) (h : Handler)
    → IsServed h
    → used h + n ≤ 1
    → IsFine n (handle (binary pcm) h)
unfolding handle IsFine
binary-IsFine n pcm h served room =
    if_cases (IsFine n) h.got_start_tag
      (λ e.
        if_cases (IsFine n) h.stop_recognition (λ _. tt)
          (λ _. on_speech_data-IsFine n pcm h e served room))
      (λ _. on_error-IsFine n _ h served room)

handle-IsFine :
    (m : Message) (events : List Event) (h : Handler)
    → Reads (receives m)
    → IsServed h
    → used h + starts (receives m ∷ events) ≤ 1
    → IsFine (starts events) (handle m h)
unfolding handle IsFine starts Reads
handle-IsFine (start_signal nbest continuous) events h reads served room =
    start-IsFine (starts events) nbest continuous h served room
handle-IsFine end_signal events h reads served room =
    on_speech_end-IsFine (starts events) h (input_goes_on h served)
handle-IsFine other_signal events h reads served room = error-IsFine (starts events) _ h served room
handle-IsFine no_signal events h reads served room = error-IsFine (starts events) _ h served room
handle-IsFine no_object events h reads served room = error-IsFine (starts events) _ h served room
handle-IsFine (unreadable (system_error code)) events h reads served room = input_goes_on h served
handle-IsFine (unreadable other_exception) events h reads served room = absurd reads
handle-IsFine (binary pcm) events h reads served room =
    binary-IsFine (starts events) pcm h served room

meet-IsFine :
    (x : Event) (events : List Event) (h : Handler)
    → Reads x
    → IsServed h
    → used h + starts (x ∷ events) ≤ 1
    → IsFine (starts events) (meet x h)
unfolding meet IsFine starts IsServed used
meet-IsFine (receives m) events h reads served room = by_socket h.closed
  where
    by_socket :
        (c : Option Code)
        → IsFine
            (starts events)
            (elim c [ none ↦ handle m h | some code ↦ throws (system_error code) h ])
    by_socket none = handle-IsFine m events h reads served room
    by_socket (some code) = served.1
meet-IsFine (peer_closes code) events h reads served room = (served, room)
meet-IsFine recognition_stops events h reads served room = (served, room)

serve-IsFine :
    (events : List Event) (h : Handler)
    → All Reads events
    → IsServed h
    → used h + starts events ≤ 1
    → IsFine 0 (serve events h)
unfolding serve IsFine starts
serve-IsFine [] h reads served room = (served, room)
serve-IsFine (x ∷ events) h (read, reads) served room =
    then_do-IsFine (starts events) 0 (meet x h) (serve events)
      (meet-IsFine x events h read served room)
      (λ h' served' room'. serve-IsFine events h' reads served' room')

finish-not-aborts : (o : Outcome) → IsFine 0 o → finish o ≢ aborts
unfolding finish join_thread on_speech_end then_do IsFine
finish-not-aborts (goes_on h) fine e = cc
finish-not-aborts (leaves h) fine e = cc
finish-not-aborts (throws (system_error closed_code) h) fine e = elim (Option-cases h.pipeline) [
  | inl k ↦ let e' = rw k at e in cc
  | inr (samples, k) ↦ let e' = rw (k, fine) at e in cc
]
finish-not-aborts (throws (system_error other_code) h) fine e = cc
finish-not-aborts (throws other_exception h) fine e = absurd fine
finish-not-aborts aborts fine e = absurd fine

-- Whatever a client sends, in whatever order, and whenever it closes or its thread stops, a
-- connection does not end the process, as long as the client sends at most one start message and
-- what the JSON library throws on its texts is a system error: no samples meet a missing pipeline,
-- the input is not finished twice, no thread takes the place of another, and none is left unjoined.
pub session_never_aborts :
    (events : List Event) (code : Code)
    → starts events ≤ 1
    → All Reads events
    → session events (new_handler code) ≢ aborts
unfolding session IsServed used
session_never_aborts events code once reads =
    finish-not-aborts (serve events (new_handler code))
      (serve-IsFine events (new_handler code) reads ((λ k. cc), refl) (omega arith))
