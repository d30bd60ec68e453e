-- ===== src/Wfst.antt =====
-- wenet/runtime/core/decoder/ctc_wfst_beam_search.cc: which frames `CtcWfstBeamSearch` hands to the
-- lattice decoder, which is kaldi's and a parameter, and the units of an alignment.
mod Times
mod Tests
use wenet_android.Prelude.{
  ℕ, zero, suc, ◌+◌, ◌-◌, Bool, true, false, not, ◌&&◌, Option, none, some, List, [], ◌∷◌, ◌++◌,
  arith, if◌then◌else◌, ◌==◌, get_elem?, ◌>>=◌,
}
use wenet_android.Prelude.Float.{Float}

pub record WfstOptions (f : Float) : Type 0 where
  pub blank : ℕ
  pub blank_scale : f.F
  pub blank_skip_thresh : f.F

-- `D` is the lattice decoder with the log-likelihoods it has been given.
pub record CtcWfstBeamSearch (f : Float) (D : Type 0) : Type 0 where
  pub opts : WfstOptions f
  pub num_frames : ℕ
  pub decoded_frames_mapping : List ℕ
  pub is_last_frame_blank : Bool
  pub last_best : ℕ
  pub last_frame_prob : List f.F
  pub decoder : D

module _ (f : Float) where
  -- `std::max_element`: the index of the first of the largest entries, which is `best` at `top` so far.
  unfoldable pub max_loop : ℕ → f.F → ℕ → List f.F → ℕ
  max_loop best top i [] = best
  max_loop best top i (p ∷ frame) =
      let kept = max_loop best top (suc i) frame in
      let taken = max_loop i p (suc i) frame in if f.lt top p then taken else kept

  unfoldable pub max_element : List f.F → ℕ
  max_element [] = 0
  max_element (p ∷ frame) = max_loop 0 p 1 frame

module _ {f : Float} where
  module _ {D : Type 0} (init : D → D) (advance : List f.F → D → D) where
    unfoldable pub reset : CtcWfstBeamSearch f D → CtcWfstBeamSearch f D
    reset st = record st {
      num_frames = 0;
      decoded_frames_mapping = [];
      is_last_frame_blank = false;
      last_best = 0;
      decoder = init st.decoder;
    }

    -- `AcceptLoglikes`, `AdvanceDecoding`, and the frame that this was.
    unfoldable pub decode_frame : List f.F → ℕ → CtcWfstBeamSearch f D → CtcWfstBeamSearch f D
    decode_frame loglikes frame st = record st {
      decoder = advance loglikes st.decoder;
      decoded_frames_mapping = st.decoded_frames_mapping ++ frame ∷ [];
    }

    unfoldable pub add_blank : ℕ → CtcWfstBeamSearch f D → CtcWfstBeamSearch f D
    add_blank cur_best st =
        if not (cur_best == st.opts.blank) && st.is_last_frame_blank && (cur_best == st.last_best)
        then decode_frame st.last_frame_prob (st.num_frames - 1) st
        else st

    unfoldable pub keep_frame : List f.F → CtcWfstBeamSearch f D → CtcWfstBeamSearch f D
    keep_frame frame st =
        let cur_best = max_element f frame in
        let st' = decode_frame frame st.num_frames (add_blank cur_best st) in
        record st' {
          last_best = cur_best;
          is_last_frame_blank = false;
          num_frames = st.num_frames + 1;
        }

    unfoldable pub skip_frame : List f.F → CtcWfstBeamSearch f D → CtcWfstBeamSearch f D
    skip_frame frame st = record st {
      is_last_frame_blank = true;
      last_frame_prob = frame;
      num_frames = st.num_frames + 1;
    }

    -- One frame: skipped if the blank is likely enough.
    unfoldable pub search_frame : List f.F → CtcWfstBeamSearch f D → Option (CtcWfstBeamSearch f D)
    search_frame frame st = get_elem? frame st.opts.blank >>= λ blank. some (
        if f.lt (f.mul st.opts.blank_skip_thresh st.opts.blank_scale) (f.exp blank)
        then skip_frame frame st
        else keep_frame frame st)

    unfoldable pub search_frames :
        List (List f.F) → CtcWfstBeamSearch f D → Option (CtcWfstBeamSearch f D)
    search_frames [] st = some st
    search_frames (frame ∷ logp) st = search_frame frame st >>= λ st'. search_frames logp st'

-- Whether a label repeats the one before it.
unfoldable pub repeats : Option ℕ → ℕ → Bool
repeats none label = false
repeats (some before) label = label == before

-- `ConvertToInputs`: the units and their times. A label is a unit and 1, since 0 is the empty label
-- of an automaton and in no alignment. A label behind the last decoded frame is out of range.
unfoldable pub convert_to_inputs : ℕ → Option ℕ → List ℕ → List ℕ → Option (List ℕ × List ℕ)
convert_to_inputs blank previous [] mapping = some ([], [])
convert_to_inputs blank previous (label ∷ alignment) [] =
    let later = convert_to_inputs blank (some label) alignment [] in
    if label == blank + 1 then later else if repeats previous label then later else none
convert_to_inputs blank previous (label ∷ alignment) (frame ∷ mapping) =
    let later = convert_to_inputs blank (some label) alignment mapping in
    if label == blank + 1
    then later
    else if repeats previous label
    then later
    else (later >>= (λ (input, time). some ((label - 1) ∷ input, frame ∷ time)))
