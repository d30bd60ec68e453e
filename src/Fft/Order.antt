-- ===== src/Fft/Order.antt =====
-- fft.cc: the first stage puts the samples in the order of the reversed indices.
use wenet_android.Prelude.{
  ℕ, zero, suc, ◌+◌, ◌<◌, ◌≡◌, refl, sym, ap, subst, ◌∙◌, inl, inr, some, List, arith, ltb,
  get_elem?, length, Bool-cases, ltb→lt, some_inj,
}
use wenet_android.Fft.{make_bitrev, reverse_round, reverse_loop}
use wenet_android.Fft.Bits.{pow2, reversed, reversed-lt}
use wenet_android.Fft.Reversal.{reversed_from, get_elem?-reversed_from, make_bitrev-reversed}
use wenet_android.Fft.Exchanges.{
  source, swapped, exchange_lem, source_moved, source_kept, source_step, swapped-lt, source_stay,
}

module _ {ℓ} {A : Type ℓ} where
  -- After the rounds before `i`, of the samples `x`.
  record Reordered (b i : ℕ) (x y : List A) : Type ℓ where
    long : length y ≡ pow2 b
    ordered : (p : ℕ) → p < pow2 b → get_elem? y p ≡ get_elem? x (source b i p)

  round-Reordered :
      (b i : ℕ) (x y : List A)
      → i < pow2 b
      → Reordered b i x y
      → (z : List A) × (reverse_round (reversed_from b (pow2 b) 0) i y ≡ some z)
        × Reordered b (suc i) x z
  unfolding reverse_round
  round-Reordered b i x y h r =
      let from_0 : 0 + i ≡ i = omega arith in
      let entry : get_elem? (reversed_from b (pow2 b) 0) i ≡ some (reversed b i) =
        get_elem?-reversed_from b (pow2 b) 0 i h ∙ ap (λ (j : ℕ). some (reversed b j)) from_0 in
      elim (Bool-cases (ltb i (reversed b i))) [
        | inl e ↦
            let (z, done, same, moved) =
              exchange_lem i (reversed b i) y (omega (arith, r.long))
                (omega (arith, r.long, reversed-lt b i)) in
            (
              z,
              rw (entry, e) done,
              record {
                long = same ∙ r.long;
                ordered = λ p l.
                    moved p
                    ∙ r.ordered (swapped i (reversed b i) p) (swapped-lt b i p h l)
                    ∙ ap (get_elem? x) (source_step b i p (ltb→lt i (reversed b i) e) l h);
              },
            )
        | inr e ↦ (
          y,
          rw (entry, e),
          record {
            long = r.long;
            ordered =
                λ p l. r.ordered p l ∙ ap (get_elem? x) (source_stay b i p (ground arith) l h);
          },
        )
      ]

  loop-Reordered :
      (b rounds i : ℕ) (x y : List A)
      → i + rounds ≡ pow2 b
      → Reordered b i x y
      → (z : List A) × (reverse_loop (reversed_from b (pow2 b) 0) rounds i y ≡ some z)
        × Reordered b (pow2 b) x z
  unfolding reverse_loop
  loop-Reordered b zero i x y e r =
      let end : i ≡ pow2 b = omega arith in (y, refl, subst (λ (j : ℕ). Reordered b j x y) end r)
  loop-Reordered b (suc rounds) i x y e r =
      let (z, done, r') = round-Reordered b i x y (omega arith) r in
      let next : suc i ≡ i + 1 = omega arith in
      let (w, rest, r'') =
        loop-Reordered b rounds (i + 1) x z (omega arith)
          (subst (λ (j : ℕ). Reordered b j x z) next r') in
      (w, rw done rest, r'')

  -- On as many samples as the table has entries, a power of two, the first stage of `fft` makes no
  -- access out of range, and puts at each index the sample whose index has the same bits in
  -- the opposite order; the number of samples stays the same.
  pub reverse_loop-reversed :
      (b : ℕ) (table : List ℕ) (x : List A)
      → make_bitrev (pow2 b) ≡ some table
      → length x ≡ pow2 b
      → (y : List A) × (reverse_loop table (pow2 b) 0 x ≡ some y)
        × (length y ≡ pow2 b)
        × ((p : ℕ) → p < pow2 b → get_elem? y p ≡ get_elem? x (reversed b p))
  reverse_loop-reversed b table x made long =
      let from_start : Reordered b 0 x x = record {
        long = long;
        ordered = λ p l. ap (get_elem? x) (sym (source_kept b 0 p (omega arith) (omega arith)));
      } in
      let (y, done, r) = loop-Reordered b (pow2 b) 0 x x (omega arith) from_start in
      let is_table : table ≡ reversed_from b (pow2 b) 0 =
        some_inj _ _ (sym (make_bitrev-reversed b) ∙ made) in
      (
        y,
        rw is_table done,
        r.long,
        λ p l. r.ordered p l ∙ ap (get_elem? x) (source_moved b (pow2 b) p (inl l)),
      )
