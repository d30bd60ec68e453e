-- ===== src/Endpoint.antt =====
-- decoder/ctc_endpoint.h and ctc_endpoint.cc. A frame is its vector of log probabilities; the
-- millisecond counts stay below 2 ^ 31.
pub mod History
mod Tests
use wenet_android.Prelude.{
  ℕ, suc, ◌+◌, ◌*◌, ◌≡◌, Bool, true, false, not, ◌&&◌, ◌||◌, Option, none, some, List, [], ◌∷◌, leb,
  ltb, if◌then◌else◌, get_elem?, ◌>>=◌, ◌>>◌, check,
}
use wenet_android.Prelude.Int.{ℤ, pos, leb_ℤ, ltb_ℤ, pos_part}
use wenet_android.Prelude.Float.{Float}

pub record Rule : Type 0 where
  pub must_decoded_sth : Bool
  pub min_trailing_silence : ℤ
  pub min_utterance_length : ℤ

pub record Config (f : Float) : Type 0 where
  pub blank : ℕ
  pub blank_scale : f.F
  pub blank_threshold : f.F
  pub rule1 : Rule
  pub rule2 : Rule
  pub rule3 : Rule

-- The rules of a default `CtcEndpointConfig`.
abbrev pub default_rule1 : Rule
default_rule1 = record {
  must_decoded_sth = false;
  min_trailing_silence = pos 5000;
  min_utterance_length = pos 0;
}

abbrev pub default_rule2 : Rule
default_rule2 = record {
  must_decoded_sth = true;
  min_trailing_silence = pos 1000;
  min_utterance_length = pos 0;
}

abbrev pub default_rule3 : Rule
default_rule3 = record {
  must_decoded_sth = false;
  min_trailing_silence = pos 0;
  min_utterance_length = pos 20000;
}

pub record CtcEndpoint (f : Float) : Type 0 where
  pub config : Config f
  pub frame_shift_in_ms : ℤ
  pub num_frames_decoded : ℕ
  pub num_frames_trailing_blank : ℕ

pub rule_activated : Rule → Bool → ℕ → ℕ → Bool
rule_activated rule decoded_sth trailing_silence utterance_length =
    (decoded_sth || not rule.must_decoded_sth)
    && leb_ℤ rule.min_trailing_silence (pos trailing_silence)
    && leb_ℤ rule.min_utterance_length (pos utterance_length)

module _ {f : Float} where
  unfoldable pub reset : CtcEndpoint f → CtcEndpoint f
  reset e = record e { num_frames_decoded = 0; num_frames_trailing_blank = 0 }

  unfoldable pub set_frame_shift_in_ms : ℤ → CtcEndpoint f → CtcEndpoint f
  set_frame_shift_in_ms ms e = record e { frame_shift_in_ms = ms }

  -- `blank_prob > config_.blank_threshold * config_.blank_scale`
  pub is_blank : Config f → f.F → Bool
  is_blank c logp = f.lt (f.mul c.blank_threshold c.blank_scale) (f.exp logp)

  -- One round of the loop over the frames.
  pub accept_frame : CtcEndpoint f → List f.F → Option (CtcEndpoint f)
  accept_frame e logp_t = do
    logp ← get_elem? logp_t e.config.blank
    some (record e {
      num_frames_decoded = e.num_frames_decoded + 1;
      num_frames_trailing_blank =
          if is_blank e.config logp then e.num_frames_trailing_blank + 1 else 0;
    })

  pub accept_frames : CtcEndpoint f → List (List f.F) → Option (CtcEndpoint f)
  accept_frames e [] = some e
  accept_frames e (logp_t ∷ rest) = accept_frame e logp_t >>= λ e'. accept_frames e' rest

  -- The rules, tried in order.
  pub rules_activated : CtcEndpoint f → Bool → Bool
  unfolding rule_activated
  rules_activated e decoded_something =
      let shift = pos_part e.frame_shift_in_ms in
      let utterance_length = e.num_frames_decoded * shift in
      let trailing_silence = e.num_frames_trailing_blank * shift in
      if rule_activated e.config.rule1 decoded_something trailing_silence utterance_length
      then true
      else if rule_activated e.config.rule2 decoded_something trailing_silence utterance_length
      then true
      else rule_activated e.config.rule3 decoded_something trailing_silence utterance_length

  pub is_endpoint : CtcEndpoint f → List (List f.F) → Bool → Option (CtcEndpoint f × Bool)
  is_endpoint e ctc_log_probs decoded_something = do
    e' ← accept_frames e ctc_log_probs
    check (leb e'.num_frames_trailing_blank e'.num_frames_decoded)
    check (ltb_ℤ (pos 0) e'.frame_shift_in_ms)
    some (e', rules_activated e' decoded_something)
