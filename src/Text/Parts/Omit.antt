-- ===== src/Text/Parts/Omit.antt =====
-- What `omit_empty_strings` leaves out.
use wenet_android.Prelude.{
  ℕ, zero, suc, ◌+◌, ◌<◌, ◌≡◌, refl, inl, inr, Bool, true, false, not, ◌&&◌, some, List, [], ◌∷◌,
  ◌++◌, arith, ◌==◌, if◌then◌else◌, length, take, drop, Option-cases, append-nil,
}
use wenet_android.Text.Utf8.{Bytes}
use wenet_android.Text.Parts.{
  find_first_of, push_piece, is_empty, split_loop, split_string_to_vector,
}

-- The parts that are not empty.
pub keep : List Bytes → List Bytes
keep [] = []
keep (p ∷ ps) = if is_empty p then keep ps else p ∷ keep ps

keep-append : (ps qs : List Bytes) → keep (ps ++ qs) ≡ keep ps ++ keep qs
unfolding keep
keep-append [] qs = refl
keep-append (p ∷ ps) qs = ground (arith, keep-append ps qs)

piece_test :
    (rest : Bytes) (k : ℕ)
    → k < length rest
    → (not (k == 0) && not (is_empty rest)) ≡ not (is_empty (take k rest))
unfolding is_empty
piece_test [] k h = absurd (omega arith)
piece_test (c ∷ rest) zero h = refl
piece_test (c ∷ rest) (suc k) h = ground arith

find_first_of-lt : (delim s : Bytes) (k : ℕ) → find_first_of delim s ≡ some k → k < length s
unfolding find_first_of
find_first_of-lt delim [] k h = cc
find_first_of-lt delim (c ∷ s) zero h = omega arith
find_first_of-lt delim (c ∷ s) (suc k) h = ground (arith, find_first_of-lt delim s k)

push_piece-keep :
    (found_ne_start start_ne_end : Bool) (piece : Bytes) (out : List Bytes)
    → (found_ne_start && start_ne_end) ≡ not (is_empty piece)
    → push_piece true found_ne_start start_ne_end piece (keep out)
      ≡ keep (push_piece false found_ne_start start_ne_end piece out)
unfolding push_piece
push_piece-keep a b piece out h =
    rw (keep-append out (piece ∷ [])) (unfold keep in ground (arith, append-nil (keep out)))

split_loop-omit :
    (fuel : ℕ) (delim rest : Bytes) (out : List Bytes)
    → split_loop fuel delim true rest (keep out) ≡ keep (split_loop fuel delim false rest out)
unfolding split_loop
split_loop-omit zero delim rest out = refl
split_loop-omit (suc fuel) delim rest out = elim (Option-cases (find_first_of delim rest)) [
  | inl e ↦ rw (e, split_loop) (push_piece-keep true (not (is_empty rest)) rest out refl)
  | inr (k, e) ↦
      rw (e, split_loop)
        (rw
          (push_piece-keep (not (k == 0)) (not (is_empty rest)) (take k rest) out
            (piece_test rest k (find_first_of-lt delim rest k e)))
          (split_loop-omit fuel delim (drop (k + 1) rest)
            (push_piece false (not (k == 0)) (not (is_empty rest)) (take k rest) out)))
]

-- With `omit_empty_strings` the parts are those of a plain split, less the empty ones, for every
-- set of delimiters.
pub split-omit :
    (full delim : Bytes)
    → split_string_to_vector full delim true ≡ keep (split_string_to_vector full delim false)
unfolding split_string_to_vector keep
split-omit full delim = split_loop-omit (length full + 1) delim full []
