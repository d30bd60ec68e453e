-- ===== src/Fft/Tests.antt =====
-- Transforms of four and of eight samples.
use wenet_android.Prelude.{ℕ, ◌<◌, ◌≡◌, refl, some, List, [], ◌∷◌, length, get_elem?}
use wenet_android.Prelude.Int.{ℤ, pos, negsuc}
use wenet_android.Prelude.Float.{whole}
use wenet_android.Fft.{make_bitrev, bitrev_loop, carry, reverse_loop, fft}
use wenet_android.Fft.Bits.{pow2, reversed}
use wenet_android.Fft.Reversal.{reversed_from, make_bitrev-reversed}
use wenet_android.Fft.Order.{reverse_loop-reversed}
use wenet_android.Fft.Whole.{fft-Long}

of_eight : make_bitrev 8 ≡ some (0 ∷ 4 ∷ 2 ∷ 6 ∷ 1 ∷ 5 ∷ 3 ∷ 7 ∷ [])
unfolding make_bitrev bitrev_loop carry
of_eight = refl

of_four : make_bitrev (pow2 2) ≡ some (0 ∷ 2 ∷ 1 ∷ 3 ∷ [])
unfolding make_bitrev bitrev_loop carry pow2
of_four = refl

make_bitrev-reversed_example : make_bitrev (pow2 3) ≡ some (reversed_from 3 (pow2 3) 0)
make_bitrev-reversed_example = make_bitrev-reversed 3

abbrev samples : List ℤ
samples = pos 7 ∷ pos 8 ∷ pos 9 ∷ negsuc 0 ∷ []

reverse_loop-reversed_example :
    (y : List ℤ) × (reverse_loop (0 ∷ 2 ∷ 1 ∷ 3 ∷ []) (pow2 2) 0 samples ≡ some y)
    × (length y ≡ pow2 2)
    × ((p : ℕ) → p < pow2 2 → get_elem? y p ≡ get_elem? samples (reversed 2 p))
unfolding pow2
reverse_loop-reversed_example = reverse_loop-reversed 2 (0 ∷ 2 ∷ 1 ∷ 3 ∷ []) samples of_four refl

abbrev sines : List ℤ
sines = pos 0 ∷ pos 1 ∷ pos 0 ∷ negsuc 0 ∷ pos 0 ∷ []

fft-Long_example :
    (out : List ℤ × List ℤ) × (fft whole (0 ∷ 2 ∷ 1 ∷ 3 ∷ []) sines (negsuc 3) (samples, samples)
      ≡ some out)
    × (length out.0 ≡ pow2 2)
    × (length out.1 ≡ pow2 2)
unfolding pow2
fft-Long_example =
    fft-Long whole 2 (negsuc 3) (0 ∷ 2 ∷ 1 ∷ 3 ∷ []) sines samples samples refl of_four refl refl
      refl
