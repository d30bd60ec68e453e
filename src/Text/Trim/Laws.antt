-- ===== src/Text/Trim/Laws.antt =====
-- What trimming keeps and what it removes.
use native.Mathlib.Numerals.{add-one}
use wenet_android.Prelude.{
  ℕ, ◌≡◌, refl, ap, ◌∙◌, sym, inl, inr, false, Option, none, some, [], ◌∷◌, ◌++◌, arith,
  if◌then◌else◌, take, Bool-cases, subst,
}
use wenet_android.Text.Utf8.{Bytes}
use wenet_android.Text.Trim.{
  is_whitespace, find_first_not_ws, find_last_not_ws, ltrim, rtrim, trim, AllBlank, StartsBare,
  EndsBare,
}

ltrim_cons : (c : ℕ) (s : Bytes) → ltrim (c ∷ s) ≡ (if is_whitespace c then ltrim s else c ∷ s)
unfolding ltrim find_first_not_ws
ltrim_cons c s = ground arith

-- What `rtrim` keeps of `c ∷ s`, when it keeps `t` of `s`.
rtrim_cons :
    (c : ℕ) (s : Bytes)
    → rtrim (c ∷ s) ≡ elim (find_last_not_ws s) [
      | none ↦ if is_whitespace c then [] else c ∷ []
      | some i ↦ c ∷ rtrim s
    ]
unfolding rtrim find_last_not_ws
rtrim_cons c s = ground arith

ltrim_splits : (s : Bytes) → (l : Bytes) × (s ≡ l ++ ltrim s) × AllBlank l × StartsBare (ltrim s)
ltrim_splits [] = unfold ltrim find_first_not_ws in ([], refl, tt, tt)
ltrim_splits (c ∷ s) = elim (Bool-cases (is_whitespace c)) [
  | inl ws ↦
      let (l, e, blank, bare) = ltrim_splits s in
      rw (ltrim_cons c s, ws) (c ∷ l, ap (λ t. c ∷ t) e, (ws, blank), bare)
  | inr bare ↦ rw (ltrim_cons c s, bare) ([], refl, tt, bare)
]

rtrim-none : (s : Bytes) → find_last_not_ws s ≡ none → rtrim s ≡ []
unfolding rtrim
rtrim-none s e = ground arith

rtrim-some :
    (s : Bytes) (i : ℕ) → find_last_not_ws s ≡ some i → (c : ℕ) × (t : Bytes) × (rtrim s ≡ c ∷ t)
rtrim-some [] i e = unfold find_last_not_ws in cc
rtrim-some (c ∷ s) i e = (c, take i s, unfold rtrim in rw (e, rtrim, add-one))

EndsBare-cons : (c : ℕ) (s : Bytes) {d : ℕ} {t : Bytes} → s ≡ d ∷ t → EndsBare s → EndsBare (c ∷ s)
EndsBare-cons c [] e h = cc
EndsBare-cons c (x ∷ s) e h = h

rtrim_splits :
    (s : Bytes)
    → (r : Bytes) × (s ≡ rtrim s ++ r)
      × AllBlank r
      × EndsBare (rtrim s)
      × (StartsBare s → StartsBare (rtrim s))
rtrim_splits [] = unfold rtrim find_last_not_ws in ([], refl, tt, tt, λ h. h)
rtrim_splits (c ∷ s) =
    let (r, e, blank, bare, _) = rtrim_splits s in step (find_last_not_ws s) refl r e blank bare
  where
    Goal : Type 0
    Goal =
        (r : Bytes) × ((c ∷ s) ≡ rtrim (c ∷ s) ++ r)
        × AllBlank r
        × EndsBare (rtrim (c ∷ s))
        × (is_whitespace c ≡ false → StartsBare (rtrim (c ∷ s)))

    step :
        (o : Option ℕ)
        → find_last_not_ws s ≡ o
        → (r : Bytes) → s ≡ rtrim s ++ r
        → AllBlank r
        → EndsBare (rtrim s)
        → Goal
    step none o r e blank bare =
        let whole : s ≡ r = e ∙ ap (λ t. t ++ r) (rtrim-none s o) in
        let all_blank : AllBlank s = subst AllBlank (sym whole) blank in
        elim (Bool-cases (is_whitespace c)) [
          | inl ws ↦ rw (rtrim_cons c s, o, ws) (c ∷ s, refl, (ws, all_blank), tt, λ h. tt)
          | inr nows ↦ rw (rtrim_cons c s, o, nows) (s, refl, all_blank, nows, λ h. nows)
        ]
    step (some i) o r e blank bare =
        let (d, t, k) = rtrim-some s i o in
        rw (rtrim_cons c s, o)
          (r, ap (λ t. c ∷ t) e, blank, EndsBare-cons c (rtrim s) k bare, λ h. h)

-- `Trim` cuts white space off both ends, all of it, and nothing else.
pub trim_splits :
    (str : Bytes)
    → (l r : Bytes) × (str ≡ l ++ (trim str ++ r))
      × AllBlank l
      × AllBlank r
      × StartsBare (trim str)
      × EndsBare (trim str)
unfolding trim
trim_splits str =
    let (l, e, blank_l, starts) = ltrim_splits str in
    let (r, k, blank_r, ends, keep) = rtrim_splits (ltrim str) in
    (l, r, e ∙ ap (λ t. l ++ t) k, blank_l, blank_r, keep starts, ends)
