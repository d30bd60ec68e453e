-- ===== src/Decoder/Stamps.antt =====
-- The time stamps of the word pieces.
use native.Mathlib.Nat.{add-mul, mul-le-mul_right}
use wenet_android.Prelude.{
  ℕ, ◌+◌, ◌-◌, ◌*◌, ◌/◌, ◌≤◌, ◌≡◌, ap, ◌∙◌, Option, none, some, List, [], ◌∷◌, arith, bind_inv,
  some_inj,
}
use wenet_android.Prelude.Int.{pos, ◌≤ℤ◌}
use wenet_android.Text.Utf8.{Bytes}
use wenet_android.Bridge.{WordPiece}
use wenet_android.Decoder.{start_of, end_of, pieces_from}

-- Each piece ends not before it starts, and the next one starts not before it ends.
abbrev pub IsOrderly : List WordPiece → Type 0
IsOrderly [] = Unit
IsOrderly (p ∷ []) = p.start ≤ℤ p.end
IsOrderly (p ∷ q ∷ pieces) = (p.start ≤ℤ p.end) × (p.end ≤ℤ q.start) × IsOrderly (q ∷ pieces)

-- The times do not fall, and the first is not before `previous`.
abbrev pub IsRising : Option ℕ → List ℕ → Type 0
IsRising previous [] = Unit
IsRising none (t ∷ times) = IsRising (some t) times
IsRising (some before) (t ∷ times) = (before ≤ t) × IsRising (some t) times

start_le :
    (shift : ℕ) (previous : Option ℕ) (t : ℕ) (times : List ℕ)
    → IsRising previous (t ∷ times)
    → start_of shift previous t ≤ t * shift
unfolding start_of
start_le shift none t times h = ground arith
start_le shift (some before) t times (le, h) =
    let half : (before + t) / 2 * shift ≤ t * shift = mul-le-mul_right shift (omega arith) in
    ground arith

le_end :
    (shift : ℕ) (t : ℕ) (times : List ℕ)
    → IsRising (some t) times
    → t * shift ≤ end_of shift t times
unfolding end_of
le_end shift t [] h = omega arith
le_end shift t (next ∷ times) (le, h) =
    let half : t * shift ≤ (next + t) / 2 * shift = mul-le-mul_right shift (omega arith) in
    ground arith

end_le :
    (shift : ℕ) (t next : ℕ) (times : List ℕ)
    → t ≤ next
    → end_of shift t (next ∷ times) ≤ start_of shift (some t) next
unfolding end_of start_of
end_le shift t next times le =
    let apart : next * shift ≡ t * shift + (next - t) * shift =
      ap (λ n. n * shift) split ∙ add-mul t (next - t) shift in
    let same : (next + t) / 2 ≡ (t + next) / 2 = omega arith in rw same (ground arith)
  where
    split : next ≡ t + (next - t)
    split = omega arith

IsRising-tail :
    (previous : Option ℕ) (t : ℕ) (times : List ℕ)
    → IsRising previous (t ∷ times)
    → IsRising (some t) times
IsRising-tail none t times h = h
IsRising-tail (some before) t times (_, h) = h

start_le_end :
    (offset shift : ℕ) (previous : Option ℕ) (t : ℕ) (times : List ℕ)
    → IsRising previous (t ∷ times)
    → pos (offset + start_of shift previous t) ≤ℤ pos (offset + end_of shift t times)
start_le_end offset shift previous t times h =
    let a = start_le shift previous t times h in
    let b = le_end shift t times (IsRising-tail previous t times h) in omega arith

-- Of units whose times do not fall, every word piece ends not before it starts, and the next one
-- starts not before it ends.
pub pieces-IsOrderly :
    (find : ℕ → Bytes) (offset shift : ℕ) (previous : Option ℕ) (input times : List ℕ)
    (pieces : List WordPiece)
    → IsRising previous times
    → pieces_from find offset shift previous input times ≡ some pieces
    → IsOrderly pieces
unfolding pieces_from
pieces-IsOrderly find offset shift previous [] [] pieces h e = rw (some_inj _ pieces e) tt
pieces-IsOrderly find offset shift previous [] (t ∷ times) pieces h e = cc
pieces-IsOrderly find offset shift previous (unit ∷ input) [] pieces h e = cc
pieces-IsOrderly find offset shift previous (unit ∷ []) (t ∷ []) pieces h e =
    rw (some_inj _ pieces e) (start_le_end offset shift previous t [] h)
pieces-IsOrderly find offset shift previous (unit ∷ []) (t ∷ next ∷ times) pieces h e = cc
pieces-IsOrderly find offset shift previous (unit ∷ u ∷ input) (t ∷ []) pieces h e = cc
pieces-IsOrderly find offset shift previous (unit ∷ u ∷ input) (t ∷ next ∷ times) pieces h e =
    let rising = IsRising-tail previous t (next ∷ times) h in
    let (rest, run, last) =
      bind_inv (pieces_from find offset shift (some t) (u ∷ input) (next ∷ times)) _ pieces e in
    let (rest', run', last') =
      bind_inv (pieces_from find offset shift (some next) input times) _ rest run in
    let orderly =
      pieces-IsOrderly find offset shift (some t) (u ∷ input) (next ∷ times) rest rising run in
    let meet = end_le shift t next times rising.0 in
    rw (some_inj _ pieces last, some_inj _ rest last')
      (
        start_le_end offset shift previous t (next ∷ times) h,
        omega arith,
        rw (some_inj _ rest last') at orderly,
      )
