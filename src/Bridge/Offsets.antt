-- ===== src/Bridge/Offsets.antt =====
-- The map of offsets over every sequence of calls, and what is looked up in it.
use wenet_android.Text.Utf8.{Bytes}
use wenet_android.Prelude.{
  ◌==◌, ℕ, ◌+◌, ◌*◌, ◌/◌, ◌≤◌, ◌<◌, ◌≡◌, refl, inl, inr, false, List, [], ◌∷◌, ◌++◌, arith, length,
  All, All-map_of, All-append, Chain, Bool-cases, if_cases, ap,
}
use wenet_android.Prelude.Int.{ℤ, pos, leb_ℤ, ltb_ℤ, ◌≤ℤ◌}
use wenet_android.Bridge.{Decoder, OffsetEntry, Bridge, lookup_loop, sample_rate}
use wenet_android.Bridge.Calls.{
  to_int32, round_at, reset, accept_waveform, push_silence, add_skipped_samples, snapshot_offset,
  decode_round, finish_round, endpoint_round, partial_round, append_result, get_result_delta,
  get_timed_result_delta, has_new_endpoint_fn,
}
use wenet_android.Bridge.Runs.{
  Step, Run, resets, accepts, skips, snapshots, decodes, polls_result, polls_timed, polls_endpoint,
  stay, go,
}

-- The skip of the last entry, 0 without one.
pub last_skip : List OffsetEntry → ℤ → ℤ
last_skip [] skip = skip
last_skip (e ∷ entries) skip = last_skip entries e.skip_samples

-- The entries are in the order of time, and none is later than `now`.
record IsChronological (now : ℕ) (entries : List OffsetEntry) : Type 0 where
  ordered : Chain (λ (a b : OffsetEntry). a.pipeline_ms ≤ℤ b.pipeline_ms) entries
  past : All (λ (e : OffsetEntry). e.pipeline_ms ≤ℤ pos now) entries

later-IsChronological :
    (now later : ℕ) (entries : List OffsetEntry)
    → now ≤ later
    → IsChronological now entries
    → IsChronological later entries
later-IsChronological now later entries le h = record {
  ordered = h.ordered;
  past =
      All-map_of {Q = λ (e : OffsetEntry). e.pipeline_ms ≤ℤ pos later}
        (λ (e : OffsetEntry) (k : e.pipeline_ms ≤ℤ pos now). omega arith) entries h.past;
}

snoc-ordered :
    (entries : List OffsetEntry) (last : OffsetEntry)
    → Chain (λ (a b : OffsetEntry). a.pipeline_ms ≤ℤ b.pipeline_ms) entries
    → All (λ (e : OffsetEntry). e.pipeline_ms ≤ℤ last.pipeline_ms) entries
    → Chain (λ (a b : OffsetEntry). a.pipeline_ms ≤ℤ b.pipeline_ms) (entries ++ last ∷ [])
snoc-ordered [] last _ _ = (tt, tt)
snoc-ordered (e ∷ entries) last (first, h) (le, past) = (
  All-append (λ (b : OffsetEntry). e.pipeline_ms ≤ℤ b.pipeline_ms) entries (last ∷ []) first
      (le, tt),
  snoc-ordered entries last h past,
)

lookup_loop_lem :
    (entries : List OffsetEntry) (ms : ℤ) (skip : ℤ)
    → Chain (λ (a b : OffsetEntry). a.pipeline_ms ≤ℤ b.pipeline_ms) entries
    → (before after : List OffsetEntry) × (entries ≡ before ++ after)
      × All (λ (e : OffsetEntry). e.pipeline_ms ≤ℤ ms) before
      × All (λ (e : OffsetEntry). leb_ℤ e.pipeline_ms ms ≡ false) after
      × (lookup_loop entries ms skip ≡ last_skip before skip)
unfolding lookup_loop last_skip
lookup_loop_lem [] ms skip _ = ([], [], refl, tt, tt, refl)
lookup_loop_lem (e ∷ entries) ms skip (first, h) = elim (Bool-cases (leb_ℤ e.pipeline_ms ms)) [
  | inl le ↦
      let (before, after, cut, small, large, same) = lookup_loop_lem entries ms e.skip_samples h in
      (e ∷ before, after, ap (λ t. e ∷ t) cut, (ground arith, small), large, rw le same)
  | inr gt ↦ (
    [],
    e ∷ entries,
    refl,
    tt,
    (
      gt,
      All-map_of {Q = λ (b : OffsetEntry). leb_ℤ b.pipeline_ms ms ≡ false}
          (λ (b : OffsetEntry) (k : e.pipeline_ms ≤ℤ b.pipeline_ms). ground arith) entries first,
    ),
    rw gt,
  )
]

to_int32-fits : (n : ℕ) → n < 2_147_483_648 → to_int32 n ≡ pos n
unfolding to_int32
to_int32-fits n h = ground arith

module _ {D : Type 0} (dec : Decoder D) (format_time : ℤ → List ℕ) where
  -- The milliseconds that the pipeline was fed.
  abbrev pub fed_ms : Bridge D → ℕ
  fed_ms st = st.total_fed_samples * 1000 / sample_rate

  -- As long as an `int` holds them.
  abbrev IsInOrder : Bridge D → Type 0
  IsInOrder st = fed_ms st < 2_147_483_648 → IsChronological (fed_ms st) st.offset_map

  fed_more :
      (st st' : Bridge D) (more : ℕ)
      → st'.offset_map ≡ st.offset_map
      → st'.total_fed_samples ≡ st.total_fed_samples + more
      → IsInOrder st
      → IsInOrder st'
  fed_more st st' more same fed h fits =
      rw same (
        later-IsChronological (fed_ms st) (fed_ms st') st.offset_map (omega arith)
          (h (omega arith)))

  decode_round-same :
      (st : Bridge D)
      → ((decode_round dec format_time st).0.offset_map ≡ st.offset_map)
        × ((decode_round dec format_time st).0.total_fed_samples ≡ st.total_fed_samples)
  unfolding decode_round round_at finish_round endpoint_round partial_round append_result
  decode_round-same st = ground arith

  snapshot-IsInOrder :
      (st : Bridge D) → IsInOrder st → IsInOrder (snapshot_offset dec format_time st)
  unfolding snapshot_offset
  snapshot-IsInOrder st h fits =
      let now = to_int32-fits (fed_ms st) fits in
      let chron = h fits in
      rw now (record {
        ordered = snoc-ordered st.offset_map _ chron.ordered chron.past;
        past =
            All-append (λ (e : OffsetEntry). e.pipeline_ms ≤ℤ pos (fed_ms st)) st.offset_map
              (_ ∷ []) chron.past (omega arith, tt);
      })

  Step-IsInOrder : (st st' : Bridge D) → Step dec format_time st st' → IsInOrder st → IsInOrder st'
  unfolding reset accept_waveform push_silence add_skipped_samples get_result_delta
      get_timed_result_delta has_new_endpoint_fn
  Step-IsInOrder st st' (resets _) h = λ _. record { ordered = tt; past = tt }
  Step-IsInOrder st st' (accepts waveform _) h = fed_more st st' (length waveform) refl refl h
  Step-IsInOrder st st' (skips count _) h =
      if_cases IsInOrder (ltb_ℤ (pos 0) count)
        (λ _. fed_more st (push_silence dec format_time st) 8000 refl refl h) (λ _. h)
  Step-IsInOrder st st' (snapshots _) h = snapshot-IsInOrder st h
  Step-IsInOrder st st' (decodes _) h = let (a, b) = decode_round-same st in rw (a, b) h
  Step-IsInOrder st st' (polls_result _) h = h
  Step-IsInOrder st st' (polls_timed _) h =
      if_cases {A = Bytes × Bridge D} (λ r. IsInOrder r.1)
        (length st.timed_result_json == st.timed_result_sent_pos) (λ _. h) (λ _. h)
  Step-IsInOrder st st' (polls_endpoint _) h = h

  Run-IsInOrder : (st st' : Bridge D) → Run dec format_time st st' → IsInOrder st → IsInOrder st'
  Run-IsInOrder st st' (stay _) h = h
  Run-IsInOrder st st' (go {mid = mid} run step) h =
      Step-IsInOrder mid st' step (Run-IsInOrder st mid run h)

  -- In every state that calls and rounds reach from a reset, while the milliseconds that the
  -- pipeline was fed since the last reset fit an `int` of 32 bits (24 days), the offset that is
  -- looked up for a time is that of the last snapshot that was taken at this time or before, or 0 if
  -- there is none: the entries up to it are not later than the time, and all behind it are.
  pub lookup_latest :
      (st st' : Bridge D) (ms : ℤ)
      → Run dec format_time (reset dec format_time st) st'
      → st'.total_fed_samples * 1000 / sample_rate < 2_147_483_648
      → (before after : List OffsetEntry) × (st'.offset_map ≡ before ++ after)
        × All (λ (e : OffsetEntry). e.pipeline_ms ≤ℤ ms) before
        × All (λ (e : OffsetEntry). leb_ℤ e.pipeline_ms ms ≡ false) after
        × (lookup_loop st'.offset_map ms (pos 0) ≡ last_skip before (pos 0))
  lookup_latest st st' ms run fits =
      let start : IsInOrder (reset dec format_time st) =
        unfold reset in λ _. record { ordered = tt; past = tt } in
      lookup_loop_lem st'.offset_map ms (pos 0)
        (Run-IsInOrder (reset dec format_time st) st' run start fits).ordered
