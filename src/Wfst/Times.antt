-- ===== src/Wfst/Times.antt =====
-- The times of the units of an alignment.
use wenet_android.Prelude.{
  ℕ, suc, ◌+◌, ◌-◌, ◌≤◌, ◌<◌, ◌≡◌, inl, inr, true, not, ◌&&◌, Option, none, some, List, [], ◌∷◌,
  ◌++◌, arith, ◌==◌, get_elem?, bind_inv, some_inj, All, All-map_of, All-append, Chain, Chain-snoc,
  Bool-cases, if_cases, ap,
}
use wenet_android.Prelude.Float.{Float}
use wenet_android.Decoder.Stamps.{IsRising}
use wenet_android.Wfst.{
  CtcWfstBeamSearch, max_element, reset, decode_frame, add_blank, keep_frame, skip_frame,
  search_frame, search_frames, repeats, convert_to_inputs,
}

-- The decoded frames are in order, and below `n`.
record IsInOrder (n : ℕ) (mapping : List ℕ) : Type 0 where
  rising : Chain (λ a b. a < b) mapping
  below : All (λ a. a < n) mapping

snoc-IsInOrder :
    (n m : ℕ) (mapping : List ℕ) → IsInOrder n mapping → n < m → IsInOrder m (mapping ++ n ∷ [])
snoc-IsInOrder n m mapping h lt = record {
  rising = Chain-snoc (λ a b. a < b) mapping n h.rising h.below;
  below =
      All-append (λ a. a < m) mapping (n ∷ [])
        (All-map_of {Q = λ a. a < m} (λ a (k : a < n). omega arith) mapping h.below) (lt, tt);
}

wider-IsInOrder : (n m : ℕ) (mapping : List ℕ) → n ≤ m → IsInOrder n mapping → IsInOrder m mapping
wider-IsInOrder n m mapping le h = record {
  rising = h.rising;
  below = All-map_of {Q = λ a. a < m} (λ a (k : a < n). omega arith) mapping h.below;
}

module _ {f : Float} {D : Type 0} (init : D → D) (advance : List f.F → D → D) where
  -- After a skipped frame, that frame has not been decoded.
  record IsMapped (st : CtcWfstBeamSearch f D) : Type 0 where
    in_order : IsInOrder st.num_frames st.decoded_frames_mapping
    skipped :
        st.is_last_frame_blank ≡ true
        → (n : ℕ) × (st.num_frames ≡ suc n) × IsInOrder n st.decoded_frames_mapping

  add_blank_lem :
      (cur_best : ℕ) (st : CtcWfstBeamSearch f D)
      → IsMapped st
      → IsInOrder st.num_frames (add_blank init advance cur_best st).decoded_frames_mapping
  unfolding add_blank decode_frame
  add_blank_lem cur_best st h =
      if_cases (λ (s : CtcWfstBeamSearch f D). IsInOrder st.num_frames s.decoded_frames_mapping)
        (not (cur_best == st.opts.blank) && st.is_last_frame_blank && (cur_best == st.last_best))
        (λ b.
          let (n, e, order) = h.skipped (ground arith) in
          let back : st.num_frames - 1 ≡ n = omega arith in
          rw back (snoc-IsInOrder n st.num_frames st.decoded_frames_mapping order (omega arith)))
        (λ _. h.in_order)

  search_frame_lem :
      (frame : List f.F) (st st' : CtcWfstBeamSearch f D)
      → search_frame init advance frame st ≡ some st'
      → IsMapped st
      → IsMapped st'
  unfolding search_frame skip_frame keep_frame decode_frame
  search_frame_lem frame st st' e h =
      let (blank, _, last) = bind_inv (get_elem? frame st.opts.blank) _ st' e in
      rw (some_inj _ st' last) (
        if_cases IsMapped (f.lt (f.mul st.opts.blank_skip_thresh st.opts.blank_scale) (f.exp blank))
          (λ _. record {
            in_order =
                wider-IsInOrder st.num_frames (st.num_frames + 1) st.decoded_frames_mapping
                  (omega arith) h.in_order;
            skipped = λ _. (st.num_frames, omega arith, h.in_order);
          })
          (λ _. record {
            in_order =
                snoc-IsInOrder st.num_frames (st.num_frames + 1)
                  (add_blank init advance (max_element f frame) st).decoded_frames_mapping
                  (add_blank_lem (max_element f frame) st h) (omega arith);
            skipped = λ k. cc;
          }))

  search_frames_lem :
      (logp : List (List f.F)) (st st' : CtcWfstBeamSearch f D)
      → search_frames init advance logp st ≡ some st'
      → IsMapped st
      → IsMapped st'
  unfolding search_frames
  search_frames_lem [] st st' e h = rw (some_inj st st' e) h
  search_frames_lem (frame ∷ logp) st st' e h =
      let (mid, e1, later) =
        bind_inv (search_frame init advance frame st) (search_frames init advance logp) st' e in
      search_frames_lem logp mid st' later (search_frame_lem frame st mid e1 h)

-- The times of the units, from `low` on.
times_rise :
    (blank low : ℕ) (previous : Option ℕ) (alignment mapping input time : List ℕ)
    → Chain (λ a b. a < b) mapping
    → All (λ a. low ≤ a) mapping
    → convert_to_inputs blank previous alignment mapping ≡ some (input, time)
    → IsRising (some low) time
unfolding convert_to_inputs
times_rise blank low previous [] mapping input time _ _ e =
    rw (ap (λ q. q.1) (some_inj _ (input, time) e)) tt
times_rise blank low previous (label ∷ alignment) [] input time _ _ e =
    elim (Bool-cases (label == blank + 1)) [
      | inl b ↦ times_rise blank low (some label) alignment [] input time tt tt (rw b at e)
      | inr b ↦ elim (Bool-cases (repeats previous label)) [
        | inl c ↦ times_rise blank low (some label) alignment [] input time tt tt (rw (b, c) at e)
        | inr c ↦ let none_there = rw (b, c) at e in cc
      ]
    ]
times_rise blank low previous (label ∷ alignment) (frame ∷ mapping) input time (first, chain)
      (le, above) e =
    let later = times_rise blank low (some label) alignment mapping in
    elim (Bool-cases (label == blank + 1)) [
      | inl b ↦ later input time chain above (rw b at e)
      | inr b ↦ elim (Bool-cases (repeats previous label)) [
        | inl c ↦ later input time chain above (rw (b, c) at e)
        | inr c ↦
            let ((input', time'), run, last) =
              bind_inv (convert_to_inputs blank (some label) alignment mapping) _ (input, time)
                (rw (b, c) at e) in
            let from_frame : All (λ a. frame ≤ a) mapping =
              All-map_of {Q = λ a. frame ≤ a} (λ a (k : frame < a). omega arith) mapping first in
            let rest =
              times_rise blank frame (some label) alignment mapping input' time' chain from_frame
                run in
            rw (ap (λ q. q.1) (some_inj _ (input, time) last)) (le, rest)
      ]
    ]

from_none : (time : List ℕ) → IsRising (some 0) time → IsRising none time
from_none [] h = tt
from_none (t ∷ time) (_, h) = h

module _ {f : Float} {D : Type 0} (init : D → D) (advance : List f.F → D → D) where
  -- After a search from a reset, for every alignment that stays within the decoded frames, the times
  -- of its units do not fall: an added blank frame keeps the mapping in order.
  pub convert-IsRising :
      (logp : List (List f.F)) (st st' : CtcWfstBeamSearch f D) (alignment input time : List ℕ)
      → search_frames init advance logp (reset init advance st) ≡ some st'
      → convert_to_inputs st'.opts.blank none alignment st'.decoded_frames_mapping
        ≡ some (input, time)
      → IsRising none time
  convert-IsRising logp st st' alignment input time run e =
      let start : IsMapped init advance (reset init advance st) =
        unfold reset in
        record { in_order = record { rising = tt; below = tt }; skipped = λ k. cc } in
      let h = search_frames_lem init advance logp (reset init advance st) st' run start in
      from_none time (
        times_rise st'.opts.blank 0 none alignment st'.decoded_frames_mapping input time
          h.in_order.rising
          (All-map_of {Q = λ a. 0 ≤ a} (λ a (k : a < st'.num_frames). omega arith)
            st'.decoded_frames_mapping h.in_order.below)
          e)
