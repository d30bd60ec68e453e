-- ===== src/PrefixBeam/Maps.antt =====
-- The maps and the sorting of the prefix beam search.
use wenet_android.Prelude.{
  append_assoc, append-nil, bind_inv, some_inj, ◌≡◌, refl, ◌∙◌, inl, inr, false, Option, some, [],
  ◌∷◌, ◌++◌, bytes_eq, bytes_eq_sound, bytes_eq_sym, All, All-map_of, Chain, Bool-cases,
  append_assoc, append-nil, bind_inv, some_inj, if_cases, Chain-append_last,
}
use wenet_android.Prelude.Float.{Float, IsOrdered}
use wenet_android.PrefixScore.{PrefixScore, fresh}
use wenet_android.PrefixBeam.{
  Prefix, Hyps, update, prefix_score_compare, insert, sort, assign, assign_all,
}
use wenet_android.TopK.Heap.{lt_asym, ge_trans}

module _ (f : Float) where
  -- No prefix occurs twice.
  abbrev pub IsApart : Hyps f → Type 0
  IsApart hyps = Chain (λ a b. bytes_eq b.0 a.0 ≡ false) hyps

module _ {f : Float} (P : Prefix → PrefixScore f → Type 0) where
  pub update-All :
      (prefix : Prefix) (g : PrefixScore f → Option (PrefixScore f)) (hyps : Hyps f)
      → P prefix fresh
      → ((p : PrefixScore f) → P prefix p → (p' : PrefixScore f) × (g p ≡ some p') × P prefix p')
      → All (λ h. P h.0 h.1) hyps
      → (hyps' : Hyps f) × (update prefix g hyps ≡ some hyps') × All (λ h. P h.0 h.1) hyps'
  unfolding update
  update-All prefix g [] new keeps _ =
      let (p', e, h) = keeps fresh new in ((prefix, p') ∷ [], rw e, (h, tt))
  update-All prefix g ((key, p) ∷ hyps) new keeps (h, hs) =
      elim (Bool-cases (bytes_eq prefix key)) [
        | inl same ↦
            let at_key = bytes_eq_sound prefix key same in
            let (p', e, h') = keeps p (rw at_key h) in
            ((key, p') ∷ hyps, rw (same, e), (rw⁻¹ at_key h', hs))
        | inr other ↦
            let (hyps', e, hs') = update-All prefix g hyps new keeps hs in
            ((key, p) ∷ hyps', rw (other, e), (h, hs'))
      ]

module _ {f : Float} where
  -- The keys of an updated map.
  module _ (Q : Prefix → Type 0) where
    update_keys :
        (prefix : Prefix) (g : PrefixScore f → Option (PrefixScore f)) (hyps hyps' : Hyps f)
        → update prefix g hyps ≡ some hyps'
        → Q prefix
        → All (λ h. Q h.0) hyps
        → All (λ h. Q h.0) hyps'
    unfolding update
    update_keys prefix g [] hyps' e q _ =
        let (p', _, last) = bind_inv (g fresh) _ hyps' e in rw (some_inj _ hyps' last) (q, tt)
    update_keys prefix g ((key, p) ∷ hyps) hyps' e q (h, hs) =
        elim (Bool-cases (bytes_eq prefix key)) [
          | inl same ↦
              let (p', _, last) =
                bind_inv (g p) (λ p'. some ((key, p') ∷ hyps)) hyps' (rw same at e) in
              rw (some_inj _ hyps' last) (h, hs)
          | inr other ↦
              let (later, run, last) =
                bind_inv (update prefix g hyps) (λ later. some ((key, p) ∷ later)) hyps'
                  (rw other at e) in
              rw (some_inj _ hyps' last) (h, update_keys prefix g hyps later run q hs)
        ]

  pub update-IsApart :
      (prefix : Prefix) (g : PrefixScore f → Option (PrefixScore f)) (hyps hyps' : Hyps f)
      → update prefix g hyps ≡ some hyps'
      → IsApart f hyps
      → IsApart f hyps'
  unfolding update
  update-IsApart prefix g [] hyps' e _ =
      let (p', _, last) = bind_inv (g fresh) _ hyps' e in rw (some_inj _ hyps' last) (tt, tt)
  update-IsApart prefix g ((key, p) ∷ hyps) hyps' e (first, h) =
      elim (Bool-cases (bytes_eq prefix key)) [
        | inl same ↦
            let (p', _, last) =
              bind_inv (g p) (λ p'. some ((key, p') ∷ hyps)) hyps' (rw same at e) in
            rw (some_inj _ hyps' last) (first, h)
        | inr other ↦
            let (later, run, last) =
              bind_inv (update prefix g hyps) (λ later. some ((key, p) ∷ later)) hyps'
                (rw other at e) in
            rw (some_inj _ hyps' last) (
              update_keys (λ k. bytes_eq k key ≡ false) prefix g hyps later run other first,
              update-IsApart prefix g hyps later run h,
            )
      ]

  assign_new :
      (item : Prefix × PrefixScore f) (hyps : Hyps f)
      → All (λ h. bytes_eq item.0 h.0 ≡ false) hyps
      → assign item hyps ≡ hyps ++ item ∷ []
  unfolding assign
  assign_new item [] _ = refl
  assign_new item (hyp ∷ hyps) (ne, h) = rw (ne, assign_new item hyps h)

  assign_all_onto :
      (hpys cur_hyps : Hyps f)
      → IsApart f (cur_hyps ++ hpys)
      → assign_all hpys cur_hyps ≡ cur_hyps ++ hpys
  unfolding assign_all
  assign_all_onto [] cur_hyps h = rw (append-nil cur_hyps)
  assign_all_onto (item ∷ hpys) cur_hyps h =
      rw
        (assign_new item cur_hyps
          (Chain-append_last (λ a b. bytes_eq b.0 a.0 ≡ false) cur_hyps hpys item h))
        (assign_all_onto hpys (cur_hyps ++ item ∷ [])
            (rw (append_assoc cur_hyps (item ∷ []) hpys) h)
          ∙ append_assoc cur_hyps (item ∷ []) hpys)

  -- A map is rebuilt from its entries.
  pub assign_all_lem : (hpys : Hyps f) → IsApart f hpys → assign_all hpys [] ≡ hpys
  assign_all_lem hpys h = assign_all_onto hpys [] h

  module _ (P : Prefix × PrefixScore f → Type 0) where
    pub insert-All :
        (a : Prefix × PrefixScore f) (arr : Hyps f) → P a → All P arr → All P (insert a arr)
    unfolding insert
    insert-All a [] p _ = (p, tt)
    insert-All a (b ∷ arr) p (q, h) =
        if_cases (All P) (prefix_score_compare b a) (λ _. (q, insert-All a arr p h))
          (λ _. (p, (q, h)))

    pub sort-All : (arr : Hyps f) → All P arr → All P (sort arr)
    unfolding sort
    sort-All [] _ = tt
    sort-All (a ∷ arr) (p, h) = insert-All a (sort arr) p (sort-All arr h)

  insert-IsApart :
      (a : Prefix × PrefixScore f) (arr : Hyps f)
      → All (λ b. bytes_eq b.0 a.0 ≡ false) arr
      → IsApart f arr
      → IsApart f (insert a arr)
  unfolding insert
  insert-IsApart a [] _ _ = (tt, tt)
  insert-IsApart a (b ∷ arr) (ne, new) (first, h) =
      if_cases (IsApart f) (prefix_score_compare b a)
        (λ _. (
          insert-All (λ c. bytes_eq c.0 b.0 ≡ false) a arr (bytes_eq_sym a.0 b.0 ∙ ne) first,
          insert-IsApart a arr new h,
        ))
        (λ _. ((ne, new), (first, h)))

  pub sort-IsApart : (arr : Hyps f) → IsApart f arr → IsApart f (sort arr)
  unfolding sort
  sort-IsApart [] _ = tt
  sort-IsApart (a ∷ arr) (first, h) =
      insert-IsApart a (sort arr) (sort-All (λ b. bytes_eq b.0 a.0 ≡ false) arr first)
        (sort-IsApart arr h)

-- No entry scores more than one before it.
module _ {f : Float} (o : IsOrdered f) where
  abbrev pub IsRanked : Hyps f → Type 0
  IsRanked arr = Chain (λ a b. prefix_score_compare b a ≡ false) arr

  insert-IsRanked :
      (a : Prefix × PrefixScore f) (arr : Hyps f) → IsRanked arr → IsRanked (insert a arr)
  unfolding insert prefix_score_compare
  insert-IsRanked a [] _ = (tt, tt)
  insert-IsRanked a (b ∷ arr) (first, h) =
      if_cases IsRanked (prefix_score_compare b a)
        (λ lt. (
          insert-All (λ c. prefix_score_compare c b ≡ false) a arr (lt_asym o _ _ lt) first,
          insert-IsRanked a arr h,
        ))
        (λ ge. ((ge, All-map_of (λ c k. ge_trans o _ _ _ ge k) arr first), (first, h)))

  pub sort-IsRanked : (arr : Hyps f) → IsRanked (sort arr)
  unfolding sort
  sort-IsRanked [] = tt
  sort-IsRanked (a ∷ arr) = insert-IsRanked a (sort arr) (sort-IsRanked arr)
