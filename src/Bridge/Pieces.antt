-- ===== src/Bridge/Pieces.antt =====
-- The pieces of the timed result, and how polls and rounds of the decoding thread move them.
use wenet_android.Prelude.{
  if◌then◌else◌, if_cases, if_cases, inr, inl, ◌==◌, Bool-cases, length-append, ◌≤◌, take-append_le,
  ℕ, zero, suc, ◌≡◌, refl, ap, sym, ◌∙◌, List, [], ◌∷◌, ◌++◌, length, take, drop, map, All,
  All-append, append_assoc, append-nil, take-append-drop, drop-append,
}
use wenet_android.Prelude.Int.{ℤ}
use wenet_android.Text.Utf8.{Bytes}
use wenet_android.Text.Parts.{is_empty}
use wenet_android.Text.Parts.RoundTrip.{tail_of, spell, tail_of-append}
use wenet_android.Bridge.{
  first_pieces, decoded_something, newline_marker, codes, arith, DecodeState, end_batch, endpoint,
  end_feats, wait_feats, Decoder, Bridge, OffsetEntry, WordPiece, print_piece, append_element,
  append_word_pieces,
}
use wenet_android.Bridge.Calls.{
  append_result, partial_round, endpoint_round, get_timed_result_delta, finish_round, round_at,
  strip_comma,
}

-- The text of an element: it begins with a brace, also where the print was cut off.
abbrev pub IsPiece : Bytes → Type 0
IsPiece [] = ⊥
IsPiece (c ∷ p) = c ≡ b'{'

append_element-spell :
    (pieces : List Bytes) (p : Bytes)
    → All IsPiece pieces
    → append_element (spell b',' pieces) p ≡ spell b',' (pieces ++ p ∷ [])
unfolding append_element spell tail_of is_empty
append_element-spell [] p _ = sym (append-nil p)
append_element-spell ([] ∷ qs) p (h, _) = absurd h
append_element-spell ((c ∷ q) ∷ qs) p _ =
    rw (tail_of-append b',' qs (p ∷ []), append-nil p)
      (append_assoc (c ∷ q ++ tail_of b',' qs) (b',' ∷ []) p
        ∙ append_assoc (c ∷ q) (tail_of b',' qs) (b',' ∷ p))

print_piece-IsPiece :
    (entries : List OffsetEntry) (wp : WordPiece) → IsPiece (print_piece entries wp)
unfolding print_piece
print_piece-IsPiece entries wp = refl

print_pieces-IsPiece :
    (entries : List OffsetEntry) (wps : List WordPiece)
    → All IsPiece (map (λ wp. print_piece entries wp) wps)
print_pieces-IsPiece entries [] = tt
print_pieces-IsPiece entries (wp ∷ wps) =
    (print_piece-IsPiece entries wp, print_pieces-IsPiece entries wps)

append_word_pieces-spell :
    (entries : List OffsetEntry) (wps : List WordPiece) (pieces : List Bytes)
    → All IsPiece pieces
    → append_word_pieces entries wps (spell b',' pieces)
      ≡ spell b',' (pieces ++ map (λ wp. print_piece entries wp) wps)
unfolding append_word_pieces
append_word_pieces-spell entries [] pieces h = rw (append-nil pieces)
append_word_pieces-spell entries (wp ∷ wps) pieces h =
    let p = print_piece entries wp in
    let piece = print_piece-IsPiece entries wp in
    rw (append_element-spell pieces p h) (
      append_word_pieces-spell entries wps (pieces ++ p ∷ [])
        (All-append IsPiece pieces (p ∷ []) h (piece, tt))
      ∙ ap (spell b',') (append_assoc pieces (p ∷ []) (map (λ wp. print_piece entries wp) wps)))

-- Behind the first pieces come the others, each with a comma before it.
drop-spell :
    (n : ℕ) (q : Bytes) (qs : List Bytes)
    → drop (length (spell b',' (q ∷ take n qs))) (spell b',' (q ∷ qs)) ≡ tail_of b',' (drop n qs)
unfolding spell
drop-spell n q qs =
    let cut : q ++ tail_of b',' qs ≡ (q ++ tail_of b',' (take n qs)) ++ tail_of b',' (drop n qs) =
      ap (λ t. q ++ tail_of b',' t) (sym (take-append-drop n qs))
      ∙ ap (λ t. q ++ t) (tail_of-append b',' (take n qs) (drop n qs))
      ∙ sym (append_assoc q (tail_of b',' (take n qs)) (tail_of b',' (drop n qs))) in
    ap (drop (length (q ++ tail_of b',' (take n qs)))) cut
    ∙ drop-append (q ++ tail_of b',' (take n qs)) (tail_of b',' (drop n qs))

drop_all : {A : Type 0} (xs : List A) → drop (length xs) xs ≡ []
drop_all [] = refl
drop_all (x ∷ xs) = drop_all xs

take_all : {A : Type 0} (xs : List A) → take (length xs) xs ≡ xs
take_all [] = refl
take_all (x ∷ xs) = ap (λ t. x ∷ t) (take_all xs)

module _ {D : Type 0} (dec : Decoder D) (format_time : ℤ → List ℕ) where
  strip_tail : (rs : List Bytes) → strip_comma dec format_time (tail_of b',' rs) ≡ spell b',' rs
  unfolding strip_comma tail_of spell
  strip_tail [] = refl
  strip_tail (r ∷ rs) = refl

  strip_spell :
      (ps : List Bytes)
      → All IsPiece ps
      → strip_comma dec format_time (spell b',' ps) ≡ spell b',' ps
  unfolding strip_comma spell
  strip_spell [] _ = refl
  strip_spell ([] ∷ ps) (h, _) = absurd h
  strip_spell ((c ∷ p) ∷ ps) (h, _) = rw h

  strip_drop :
      (n : ℕ) (ps : List Bytes)
      → All IsPiece ps
      → strip_comma dec format_time (drop (length (spell b',' (take n ps))) (spell b',' ps))
        ≡ spell b',' (drop n ps)
  strip_drop zero ps h = unfold spell in strip_spell ps h
  strip_drop (suc n) [] h = unfold spell strip_comma in refl
  strip_drop (suc n) (q ∷ qs) h = rw (drop-spell n q qs) (strip_tail (drop n qs))

  -- Of the pieces of the timed result the first `n` have been sent.
  pub record IsSent (pieces : List Bytes) (n : ℕ) (st : Bridge D) : Type 0 where
    pub shape : All IsPiece pieces
    pub count : n ≤ length pieces
    pub json : st.timed_result_json ≡ spell b',' pieces
    pub sent : st.timed_result_sent_pos ≡ length (spell b',' (take n pieces))

  -- A poll sends the pieces that have not been sent.
  pub poll_lem :
      (pieces : List Bytes) (n : ℕ) (st : Bridge D)
      → IsSent pieces n st
      → ((get_timed_result_delta dec format_time st).0
          ≡ codes "[" ++ spell b',' (drop n pieces) ++ codes "]")
        × IsSent pieces (length pieces) (get_timed_result_delta dec format_time st).1
  unfolding get_timed_result_delta
  poll_lem pieces n st h =
      let all : spell b',' (take (length pieces) pieces) ≡ spell b',' pieces =
        ap (spell b',') (take_all pieces) in
      elim (Bool-cases (length st.timed_result_json == st.timed_result_sent_pos)) [
        | inl same ↦
            let len : length st.timed_result_json ≡ st.timed_result_sent_pos = ground arith in
            let len' : length (spell b',' pieces) ≡ length (spell b',' (take n pieces)) =
              ap length (sym h.json) ∙ len ∙ h.sent in
            let nothing : spell b',' (drop n pieces) ≡ [] =
              sym (strip_drop n pieces h.shape)
              ∙ ap (λ k. strip_comma dec format_time (drop k (spell b',' pieces))) (sym len')
              ∙ ap (strip_comma dec format_time) (drop_all (spell b',' pieces))
              ∙ unfold strip_comma in refl in
            (
              rw (same, nothing),
              rw same (record {
                shape = h.shape;
                count = omega arith;
                json = h.json;
                sent = sym len ∙ ap length (h.json ∙ sym all);
              }),
            )
        | inr more ↦ (
          rw (more, h.json, h.sent, strip_drop n pieces h.shape),
          rw more (record {
            shape = h.shape;
            count = omega arith;
            json = h.json;
            sent = ap length (h.json ∙ sym all);
          }),
        )
      ]

  -- More pieces, none sent.
  grow_lem :
      (pieces more : List Bytes) (n : ℕ) (st st' : Bridge D)
      → IsSent pieces n st
      → All IsPiece more
      → st'.timed_result_json ≡ spell b',' (pieces ++ more)
      → st'.timed_result_sent_pos ≡ st.timed_result_sent_pos
      → IsSent (pieces ++ more) n st'
  grow_lem pieces more n st st' h ok json same = record {
    shape = All-append IsPiece pieces more h.shape ok;
    count = omega (arith, h.count, length-append pieces more);
    json = json;
    sent =
        same
        ∙ h.sent
        ∙ ap (λ ps. length (spell b',' ps)) (sym (take-append_le n pieces more h.count));
  }

  unfoldable pub Grows : List Bytes → ℕ → Bridge D → Type 0
  Grows pieces n st' = (more : List Bytes) × IsSent (pieces ++ more) n st'

  pub same_lem :
      (pieces : List Bytes) (n : ℕ) (st st' : Bridge D)
      → IsSent pieces n st
      → st'.timed_result_json ≡ st.timed_result_json
      → st'.timed_result_sent_pos ≡ st.timed_result_sent_pos
      → Grows pieces n st'
  unfolding Grows
  same_lem pieces n st st' h json same = (
    [],
    grow_lem pieces [] n st st' h tt (json ∙ h.json ∙ ap (spell b',') (sym (append-nil pieces)))
        same,
  )

  move_lem :
      (pieces : List Bytes) (n : ℕ) (st st' : Bridge D)
      → IsSent pieces n st
      → st'.timed_result_json ≡ st.timed_result_json
      → st'.timed_result_sent_pos ≡ st.timed_result_sent_pos
      → IsSent pieces n st'
  move_lem pieces n st st' h json same = record {
    shape = h.shape;
    count = h.count;
    json = json ∙ h.json;
    sent = same ∙ h.sent;
  }

  -- The pieces of these words are behind the others.
  words_lem :
      (pieces : List Bytes) (n : ℕ) (wps : List WordPiece) (st st' : Bridge D)
      → IsSent pieces n st
      → st'.timed_result_json ≡ append_word_pieces st.offset_map wps st.timed_result_json
      → st'.timed_result_sent_pos ≡ st.timed_result_sent_pos
      → Grows pieces n st'
  unfolding Grows
  words_lem pieces n wps st st' h json same =
      let more = map (λ wp. print_piece st.offset_map wp) wps in
      (
        more,
        grow_lem pieces more n st st' h (print_pieces-IsPiece st.offset_map wps)
            (json
              ∙ ap (append_word_pieces st.offset_map wps) h.json
              ∙ append_word_pieces-spell st.offset_map wps pieces h.shape)
            same,
      )

  finish_round_lem :
      (result : Bytes) (pieces : List Bytes) (n : ℕ) (st : Bridge D)
      → IsSent pieces n st
      → Grows pieces n (finish_round dec format_time result st)
  unfolding finish_round
  finish_round_lem result pieces n st h =
      let results = dec.result st.decoder in
      words_lem pieces n
        (if decoded_something results then first_pieces results else st.last_partial_pieces) st
        (finish_round dec format_time result st) h refl refl

  append_result_lem :
      (pieces : List Bytes) (n : ℕ) (st : Bridge D)
      → IsSent pieces n st
      → Grows pieces n (append_result dec format_time st)
  unfolding append_result
  append_result_lem pieces n st h =
      if_cases (Grows pieces n) (decoded_something (dec.result st.decoder))
        (λ _. words_lem pieces n (first_pieces (dec.result st.decoder)) st _ h refl refl)
        (λ _. same_lem pieces n st st h refl refl)

  endpoint_round_lem :
      (result : Bytes) (pieces : List Bytes) (n : ℕ) (st : Bridge D)
      → IsSent pieces n st
      → Grows pieces n (endpoint_round dec format_time result st)
  unfolding endpoint_round Grows
  endpoint_round_lem result pieces n st h =
      let appended = append_result dec format_time st in
      let (more, h') = append_result_lem pieces n st h in
      let done =
        grow_lem (pieces ++ more) (newline_marker ∷ []) n appended
          (endpoint_round dec format_time result st) h' (refl, tt)
          (ap (λ json. append_element json newline_marker) h'.json
            ∙ append_element-spell (pieces ++ more) newline_marker h'.shape)
          refl in
      (more ++ newline_marker ∷ [], rw⁻¹ (append_assoc pieces more (newline_marker ∷ [])) done)

  partial_round_lem :
      (pieces : List Bytes) (n : ℕ) (st : Bridge D)
      → IsSent pieces n st
      → Grows pieces n (partial_round dec format_time st)
  unfolding partial_round
  partial_round_lem pieces n st h =
      if_cases (Grows pieces n) (decoded_something (dec.result st.decoder))
        (λ _. same_lem pieces n st _ h refl refl) (λ _. same_lem pieces n st st h refl refl)

  pub round_at_lem :
      (state : DecodeState) (d : D) (pieces : List Bytes) (n : ℕ) (st : Bridge D)
      → IsSent pieces n st
      → Grows pieces n (round_at dec format_time state d st).0
  unfolding round_at
  round_at_lem end_feats d pieces n st h =
      finish_round_lem _ pieces n _ (move_lem pieces n st _ h refl refl)
  round_at_lem endpoint d pieces n st h =
      endpoint_round_lem _ pieces n _ (move_lem pieces n st _ h refl refl)
  round_at_lem end_batch d pieces n st h =
      partial_round_lem pieces n _ (move_lem pieces n st _ h refl refl)
  round_at_lem wait_feats d pieces n st h =
      partial_round_lem pieces n _ (move_lem pieces n st _ h refl refl)
