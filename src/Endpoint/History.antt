-- ===== src/Endpoint/History.antt =====
-- What the endpoint detector has counted after any history of calls.
use mathlib.Core.List.{reverse, reverse-cons, reverse-reverse}
use native.Mathlib.Nat.{add_assoc}
use wenet_android.Prelude.{
  ℕ, suc, ◌+◌, ◌*◌, ◌≤◌, ◌<◌, ◌≡◌, refl, ◌⊎◌, ◌↔◌, ap, sym, ◌∙◌, Bool, true, false, Option, none,
  some, List, [], ◌∷◌, ◌++◌, arith, if◌then◌else◌, length, length-append, get_elem?,
  get_elem?_of_lt, ◌>>=◌,
}
use wenet_android.Prelude.Int.{pos, ◌≤ℤ◌, pos_part}
use wenet_android.Prelude.Float.{Float}
use wenet_android.Endpoint.{
  Rule, Config, CtcEndpoint, rule_activated, reset, is_blank, accept_frame, accept_frames,
  rules_activated, is_endpoint,
}

-- One of the rules holds of these times.
abbrev pub Holds : Rule → Bool → ℕ → ℕ → Type 0
Holds rule decoded_sth silence_ms utterance_ms =
    ((decoded_sth ≡ true) ⊎ (rule.must_decoded_sth ≡ false))
    × (rule.min_trailing_silence ≤ℤ pos silence_ms)
    × (rule.min_utterance_length ≤ℤ pos utterance_ms)

rule_activated_iff :
    (r : Rule) (d : Bool) (s u : ℕ) → (rule_activated r d s u ≡ true) ↔ Holds r d s u
unfolding rule_activated
rule_activated_iff r d s u = ground arith

unfoldable pub frames_of {ℓ} : {A : Type ℓ} → List (List A × Bool) → List A
frames_of [] = []
frames_of ((frames, decoded) ∷ rest) = frames ++ frames_of rest

module _ {f : Float} where
  -- A frame whose vector has no blank entry is silent by convention; `HasBlank` excludes it.
  pub is_silent : Config f → List f.F → Bool
  is_silent c frame = elim (get_elem? frame c.blank) [ none ↦ true | some p ↦ is_blank c p ]

  abbrev pub HasBlank : Config f → List (List f.F) → Type 0
  HasBlank c [] = Unit
  HasBlank c (frame ∷ frames) = (c.blank < length frame) × HasBlank c frames

  take_silent : Config f → List (List f.F) → ℕ
  take_silent c [] = 0
  take_silent c (frame ∷ frames) = if is_silent c frame then suc (take_silent c frames) else 0

  -- How many frames at the end are silent.
  pub trailing_silent : Config f → List (List f.F) → ℕ
  trailing_silent c frames = take_silent c (reverse frames)

  count_from : Config f → ℕ → List (List f.F) → ℕ
  count_from c n [] = n
  count_from c n (frame ∷ frames) = count_from c (if is_silent c frame then n + 1 else 0) frames

  count_from-snoc :
      (c : Config f) (n : ℕ) (frames : List (List f.F)) (frame : List f.F)
      → count_from c n (frames ++ frame ∷ [])
        ≡ (if is_silent c frame then count_from c n frames + 1 else 0)
  unfolding count_from
  count_from-snoc c n [] frame = refl
  count_from-snoc c n (x ∷ frames) frame =
      count_from-snoc c (if is_silent c x then n + 1 else 0) frames frame

  count_from-reverse :
      (c : Config f) (frames : List (List f.F))
      → count_from c 0 (reverse frames) ≡ take_silent c frames
  unfolding take_silent
  count_from-reverse c [] = unfold count_from in refl
  count_from-reverse c (x ∷ frames) =
      rw (reverse-cons x frames, count_from-snoc c 0 (reverse frames) x)
        (ground (arith, count_from-reverse c frames))

  count_from-trailing :
      (c : Config f) (frames : List (List f.F)) → count_from c 0 frames ≡ trailing_silent c frames
  unfolding trailing_silent
  count_from-trailing c frames =
      ap (count_from c 0) (sym (reverse-reverse frames)) ∙ count_from-reverse c (reverse frames)

  count_from-append :
      (c : Config f) (n : ℕ) (xs ys : List (List f.F))
      → count_from c n (xs ++ ys) ≡ count_from c (count_from c n xs) ys
  unfolding count_from
  count_from-append c n [] ys = refl
  count_from-append c n (x ∷ xs) ys = count_from-append c (if is_silent c x then n + 1 else 0) xs ys

  count_from-le : (c : Config f) (n : ℕ) (xs : List (List f.F)) → count_from c n xs ≤ n + length xs
  unfolding count_from
  count_from-le c n [] = omega arith
  count_from-le c n (x ∷ xs) = ground (arith, count_from-le c (n + 1) xs, count_from-le c 0 xs)

  abbrev after_frame : CtcEndpoint f → List f.F → CtcEndpoint f
  after_frame e frame = record e {
    num_frames_decoded = e.num_frames_decoded + 1;
    num_frames_trailing_blank =
        if is_silent e.config frame then e.num_frames_trailing_blank + 1 else 0;
  }

  accept_frame_lem :
      (e : CtcEndpoint f) (frame : List f.F)
      → e.config.blank < length frame
      → accept_frame e frame ≡ some (after_frame e frame)
  unfolding accept_frame is_silent
  accept_frame_lem e frame h = ground (arith, get_elem?_of_lt frame e.config.blank h)

  count_from_cons :
      (c : Config f) (n : ℕ) (x : List f.F) (xs : List (List f.F))
      → count_from c n (x ∷ xs) ≡ count_from c (if is_silent c x then n + 1 else 0) xs
  unfolding count_from
  count_from_cons c n x xs = refl

  accept_frames_lem :
      (e : CtcEndpoint f) (frames : List (List f.F))
      → HasBlank e.config frames
      → accept_frames e frames
        ≡ some (record e {
          num_frames_decoded = e.num_frames_decoded + length frames;
          num_frames_trailing_blank = count_from e.config e.num_frames_trailing_blank frames;
        })
  unfolding accept_frames
  accept_frames_lem e [] h = unfold count_from in ground arith
  accept_frames_lem e (frame ∷ frames) (h, hs) = rw (accept_frame_lem e frame h) (
      accept_frames_lem (after_frame e frame) frames hs
      ∙ ground (arith, count_from_cons e.config e.num_frames_trailing_blank frame frames))

  -- The detector after it has seen `frames`.
  pub counted : CtcEndpoint f → List (List f.F) → CtcEndpoint f
  counted e frames = record e {
    num_frames_decoded = length frames;
    num_frames_trailing_blank = trailing_silent e.config frames;
  }

  -- Calls of `IsEndpoint` one after the other, with what the caller says it has decoded.
  pub calls : CtcEndpoint f → List (List (List f.F) × Bool) → Option (CtcEndpoint f)
  calls e [] = some e
  calls e ((frames, decoded) ∷ rest) = do (e', ended) ← is_endpoint e frames decoded; calls e' rest

  -- The detector after it has counted `frames` on top of what it had.
  abbrev more : CtcEndpoint f → List (List f.F) → CtcEndpoint f
  more e frames = record e {
    num_frames_decoded = e.num_frames_decoded + length frames;
    num_frames_trailing_blank = count_from e.config e.num_frames_trailing_blank frames;
  }

  abbrev Sound : CtcEndpoint f → Type 0
  Sound e =
      (e.num_frames_trailing_blank ≤ e.num_frames_decoded) × (1 ≤ pos_part e.frame_shift_in_ms)

  is_endpoint_lem :
      (e : CtcEndpoint f) (frames : List (List f.F)) (decoded : Bool)
      → HasBlank e.config frames
      → Sound e
      → is_endpoint e frames decoded ≡ some (more e frames, rules_activated (more e frames) decoded)
  unfolding is_endpoint
  is_endpoint_lem e frames decoded h (le, shift) =
      rw (accept_frames_lem e frames h)
        (ground (arith, count_from-le e.config e.num_frames_trailing_blank frames))

  more-Sound : (e : CtcEndpoint f) (frames : List (List f.F)) → Sound e → Sound (more e frames)
  more-Sound e frames (le, shift) =
      (omega (arith, count_from-le e.config e.num_frames_trailing_blank frames), shift)

  more-more :
      (e : CtcEndpoint f) (xs ys : List (List f.F)) → more (more e xs) ys ≡ more e (xs ++ ys)
  more-more e xs ys = ground (
    arith,
    length-append xs ys,
    count_from-append e.config e.num_frames_trailing_blank xs ys,
    add_assoc e.num_frames_decoded (length xs) (length ys),
  )

  HasBlank-append :
      (c : Config f) (xs ys : List (List f.F))
      → HasBlank c (xs ++ ys)
      → HasBlank c xs × HasBlank c ys
  HasBlank-append c [] ys h = (tt, h)
  HasBlank-append c (x ∷ xs) ys (h, hs) = let (hx, hy) = HasBlank-append c xs ys hs in ((h, hx), hy)

  calls_lem :
      (e : CtcEndpoint f) (past : List (List (List f.F) × Bool))
      → HasBlank e.config (frames_of past)
      → Sound e
      → calls e past ≡ some (more e (frames_of past))
  unfolding calls frames_of
  calls_lem e [] h v = unfold count_from in ground arith
  calls_lem e ((frames, decoded) ∷ rest) h v =
      let (hx, hy) = HasBlank-append e.config frames (frames_of rest) h in
      rw (is_endpoint_lem e frames decoded hx v) (
        calls_lem (more e frames) rest hy (more-Sound e frames v)
        ∙ ap some (more-more e frames (frames_of rest)))

  counted_lem :
      (e : CtcEndpoint f) (frames : List (List f.F)) → more (reset e) frames ≡ counted e frames
  unfolding reset counted
  counted_lem e frames = ground (arith, count_from-trailing e.config frames)

  rules_activated_iff :
      (e : CtcEndpoint f) (decoded : Bool)
      → let shift = pos_part e.frame_shift_in_ms in
        let silence = e.num_frames_trailing_blank * shift in
        let utterance = e.num_frames_decoded * shift in
        (rules_activated e decoded ≡ true) ↔ (
          Holds e.config.rule1 decoded silence utterance
          ⊎ Holds e.config.rule2 decoded silence utterance
          ⊎ Holds e.config.rule3 decoded silence utterance)
  unfolding rules_activated
  rules_activated_iff e decoded =
      let shift = pos_part e.frame_shift_in_ms in
      let silence = e.num_frames_trailing_blank * shift in
      let utterance = e.num_frames_decoded * shift in
      ground (
        arith,
        rule_activated_iff e.config.rule1 decoded silence utterance,
        rule_activated_iff e.config.rule2 decoded silence utterance,
        rule_activated_iff e.config.rule3 decoded silence utterance,
      )

  -- After any calls since a reset, over frames that all have a blank entry and with a frame shift of
  -- 1 ms at least, the next call returns, with every other `CHECK` passed, and its answer is that of the rules at the true totals: all frames
  -- since the reset, and the silent ones at the end, however the frames were cut into calls.
  pub is_endpoint_after_history :
      (e : CtcEndpoint f) (past : List (List (List f.F) × Bool)) (frames : List (List f.F))
      (decoded : Bool)
      → HasBlank e.config (frames_of past ++ frames)
      → 1 ≤ pos_part e.frame_shift_in_ms
      → let heard = frames_of past ++ frames in
        let shift = pos_part e.frame_shift_in_ms in
        let silence = trailing_silent e.config heard * shift in
        let utterance = length heard * shift in
        (ended : Bool) × ((calls (reset e) past >>= λ e'. is_endpoint e' frames decoded)
          ≡ some (counted e heard, ended))
        × ((ended ≡ true) ↔ (
            Holds e.config.rule1 decoded silence utterance
            ⊎ Holds e.config.rule2 decoded silence utterance
            ⊎ Holds e.config.rule3 decoded silence utterance))
  is_endpoint_after_history e past frames decoded h shift =
      let heard = frames_of past ++ frames in
      let (hx, hy) = HasBlank-append e.config (frames_of past) frames h in
      (
        rules_activated (counted e heard) decoded,
        answer hx hy,
        unfold counted in rules_activated_iff (counted e heard) decoded,
      )
    where
      answer :
          HasBlank e.config (frames_of past)
          → HasBlank e.config frames
          → (calls (reset e) past >>= λ e'. is_endpoint e' frames decoded)
            ≡ some (
              counted e (frames_of past ++ frames),
              rules_activated (counted e (frames_of past ++ frames)) decoded,
            )
      answer hx hy =
          unfold reset in
          rw (calls_lem (reset e) past hx (omega arith, shift)) (
            is_endpoint_lem (more (reset e) (frames_of past)) frames decoded hy
              (more-Sound (reset e) (frames_of past) (omega arith, shift))
            ∙ ap (λ x. some (x, rules_activated x decoded))
                (more-more (reset e) (frames_of past) frames
                  ∙ counted_lem e (frames_of past ++ frames)))
