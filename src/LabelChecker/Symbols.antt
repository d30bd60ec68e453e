-- ===== src/LabelChecker/Symbols.antt =====
-- label_checker_main.cc: the symbol table of `MakeSymbolTableForFst`, and the machine built on it.
use wenet_android.Prelude.{
  bytes_eq_refl, ◌∙◌, ℕ, zero, suc, ◌+◌, ◌-◌, ◌≤◌, ◌<◌, ◌≡◌, ◌≢◌, refl, sym, true, false, some,
  List, [], ◌∷◌, arith, if◌then◌else◌, bytes_eq, bytes_eq_sound, length, All, Bool-cases, inl, inr,
  subst,
}
use wenet_android.Prelude.Int.{ℤ, pos, negsuc}
use wenet_android.Text.Utf8.{Bytes}
use native.Mathlib.Decide.{ℕ_discrete}
use wenet_android.LabelChecker.Machine.{Reads, Laws}
use wenet_android.LabelChecker.Spelt.{AcceptsSpelt, compile_ctc_fst-AcceptsSpelt}
use wenet_android.LabelChecker.{
  FstOps, compile_ctc_fst, SymbolOps, shift_symbols, make_symbol_table_for_fst, is_key, eps, blank,
  deletion, is_start, is_end,
}

-- A table as the list of its entries.
abbrev pub key_of : List (Bytes × ℕ) → Bytes → ℤ
key_of [] s = negsuc 0
key_of ((u, k) ∷ entries) s = if bytes_eq u s then pos k else key_of entries s

module _ (t : SymbolOps) where
  pub record Holds (table : t.Table) (entries : List (Bytes × ℕ)) : Type 0 where
    pub find_lem : (s : Bytes) → t.find table s ≡ key_of entries s
    pub num_symbols_lem : t.num_symbols table ≡ length entries

  -- `AddSymbol` of a new text under a new key, as openfst documents it.
  pub record TableLaws : Type 0 where
    pub empty_lem : Holds t.empty []
    pub add_symbol_lem :
        (table : t.Table) (entries : List (Bytes × ℕ)) (s : Bytes) (k : ℕ)
        → Holds table entries
        → key_of entries s ≡ negsuc 0
        → All (λ e. e.1 ≢ k) entries
        → Holds (t.add_symbol s k table) ((s, k) ∷ entries)

  -- A unit table of `n` symbols: they differ, and none is one that the new table adds.
  pub record IsUnitTable (isymbols : t.Table) (n : ℕ) : Type 0 where
    pub size : t.num_symbols isymbols ≡ suc n
    pub blank_first : t.find isymbols blank ≡ pos 0
    pub apart : (i j : ℕ) → 0 < i → i < j → j < suc n → t.symbol isymbols i ≢ t.symbol isymbols j
    pub reserved :
        (i : ℕ)
        → 0 < i
        → i < suc n
        → All (λ s. t.symbol isymbols i ≢ s) (eps ∷ blank ∷ deletion ∷ is_start ∷ is_end ∷ [])

pub ne_of_bytes_eq : (a b : Bytes) → bytes_eq a b ≡ false → a ≢ b
ne_of_bytes_eq a b differ e =
    let same : bytes_eq a b ≡ true =
      subst (λ (b : Bytes). bytes_eq a b ≡ true) e (bytes_eq_refl a) in
    cc

bytes_eq_ne : (a b : Bytes) → a ≢ b → bytes_eq a b ≡ false
bytes_eq_ne a b n = elim (Bool-cases (bytes_eq a b)) [
  | inl e ↦ absurd (n (bytes_eq_sound a b e))
  | inr e ↦ e
]

module _ (t : SymbolOps) (laws : TableLaws t) (isymbols : t.Table) (n : ℕ)
    (units : IsUnitTable t isymbols n) where
  -- The entries when the symbols up to `i` are in.
  abbrev entries : ℕ → List (Bytes × ℕ)
  entries zero = (blank, 1) ∷ (eps, 0) ∷ []
  entries (suc i) = (t.symbol isymbols (suc i), suc (suc i)) ∷ entries i

  entries_new :
      (i : ℕ) (s : Bytes)
      → s ≢ eps
      → s ≢ blank
      → ((j : ℕ) → 0 < j → j < suc i → t.symbol isymbols j ≢ s)
      → key_of (entries i) s ≡ negsuc 0
  entries_new zero s e b new =
      rw (bytes_eq_ne blank s (λ h. b (sym h)), bytes_eq_ne eps s (λ h. e (sym h)))
  entries_new (suc i) s e b new =
      rw (bytes_eq_ne (t.symbol isymbols (suc i)) s (new (suc i) (omega arith) (omega arith)))
        (entries_new i s e b (λ j p l. new j p (omega arith)))

  keys_below : (i k : ℕ) → suc i < k → All (λ e. e.1 ≢ k) (entries i)
  keys_below zero k l = (λ e. absurd (omega arith), (λ e. absurd (omega arith), tt))
  keys_below (suc i) k l = (λ e. absurd (omega arith), keys_below i k (omega arith))

  length-entries : (i : ℕ) → length (entries i) ≡ i + 2
  length-entries zero = refl
  length-entries (suc i) = omega (arith, length-entries i)

  shift_symbols_lem :
      (rounds i m : ℕ) (table : t.Table)
      → rounds + i ≡ m
      → m ≤ n
      → Holds t table (entries i)
      → Holds t (shift_symbols t isymbols rounds (suc i) table) (entries m)
  unfolding shift_symbols
  shift_symbols_lem zero i m table e l h =
      let same : i ≡ m = omega arith in subst (λ (j : ℕ). Holds t table (entries j)) same h
  shift_symbols_lem (suc rounds) i m table e l h =
      let key : suc (suc i) ≡ suc i + 1 = omega arith in
      let others = units.reserved (suc i) (omega arith) (omega arith) in
      let new =
        entries_new i (t.symbol isymbols (suc i)) others.0 others.1.0
          (λ j p q. units.apart j (suc i) p q (omega arith)) in
      let added =
        laws.add_symbol_lem table (entries i) (t.symbol isymbols (suc i)) (suc (suc i)) h new
          (keys_below i (suc (suc i)) (omega arith)) in
      shift_symbols_lem rounds (suc i) m _ (omega arith) l (
        subst
          (λ (k : ℕ). Holds t (t.add_symbol (t.symbol isymbols (suc i)) k table) (entries (suc i)))
          key added)

  abbrev made_entries : List (Bytes × ℕ)
  made_entries = (is_end, suc n + 3) ∷ (is_start, suc n + 2) ∷ (deletion, suc n + 1) ∷ entries n

  -- No symbol of the table is the text of a mark.
  mark_new :
      (s : Bytes)
      → s ≢ eps
      → s ≢ blank
      → ((j : ℕ) → 0 < j → j < suc n → t.symbol isymbols j ≢ s)
      → key_of (entries n) s ≡ negsuc 0
  mark_new s e b other = entries_new n s e b other

  made_lem :
      (made : t.Table) × (make_symbol_table_for_fst t (some isymbols) ≡ some made)
      × Holds t made made_entries
  unfolding make_symbol_table_for_fst is_key
  made_lem =
      let first = laws.add_symbol_lem t.empty [] eps 0 laws.empty_lem refl tt in
      let second = laws.add_symbol_lem _ _ blank 1 first refl (λ e. absurd (omega arith), tt) in
      let rounds : suc n - 1 + 0 ≡ n = omega arith in
      let shifted = shift_symbols_lem (suc n - 1) 0 n _ rounds (omega arith) second in
      let del =
        laws.add_symbol_lem _ _ deletion (suc n + 1) shifted
          (mark_new deletion (ne_of_bytes_eq deletion eps refl) (ne_of_bytes_eq deletion blank refl)
            (λ j p l. (units.reserved j p l).1.1.0))
          (keys_below n (suc n + 1) (omega arith)) in
      let start =
        laws.add_symbol_lem _ _ is_start (suc n + 2) del
          (mark_new is_start (ne_of_bytes_eq is_start eps refl) (ne_of_bytes_eq is_start blank refl)
            (λ j p l. (units.reserved j p l).1.1.1.0))
          (λ e. absurd (omega arith), keys_below n (suc n + 2) (omega arith)) in
      let end =
        laws.add_symbol_lem _ _ is_end (suc n + 3) start
          (mark_new is_end (ne_of_bytes_eq is_end eps refl) (ne_of_bytes_eq is_end blank refl)
            (λ j p l. (units.reserved j p l).1.1.1.1.0))
          (
            λ e. absurd (omega arith),
            (λ e. absurd (omega arith), keys_below n (suc n + 3) (omega arith)),
          ) in
      (_, rw (units.blank_first, units.size), end)

  entries_eps : (i : ℕ) → i < suc n → key_of (entries i) eps ≡ pos 0
  entries_eps zero l = refl
  entries_eps (suc i) l =
      rw (bytes_eq_ne (t.symbol isymbols (suc i)) eps (units.reserved (suc i) (omega arith) l).0)
        (entries_eps i (omega arith))

  entries_blank : (i : ℕ) → i < suc n → key_of (entries i) blank ≡ pos 1
  entries_blank zero l = refl
  entries_blank (suc i) l =
      rw
        (bytes_eq_ne (t.symbol isymbols (suc i)) blank (units.reserved (suc i) (omega arith) l).1.0)
        (entries_blank i (omega arith))

  entries_symbol :
      (m i : ℕ) → 0 < i → i ≤ m → m < suc n → key_of (entries m) (t.symbol isymbols i) ≡ pos (suc i)
  entries_symbol zero i p q l = absurd (omega arith)
  entries_symbol (suc m) i p q l = elim (ℕ_discrete i (suc m)) [
    | yes e ↦
        subst (λ (i : ℕ). key_of (entries (suc m)) (t.symbol isymbols i) ≡ pos (suc i)) (sym e)
          (rw (bytes_eq_refl (t.symbol isymbols (suc m))))
    | no ne ↦
        let earlier : i < suc m = omega (arith, ne) in
        rw
          (bytes_eq_ne (t.symbol isymbols (suc m)) (t.symbol isymbols i)
            (λ h. units.apart i (suc m) p earlier l (sym h)))
          (entries_symbol m i p (omega arith) (omega arith))
  ]

  made_symbol :
      (i : ℕ) → 0 < i → i < suc n → key_of made_entries (t.symbol isymbols i) ≡ pos (suc i)
  made_symbol i p l =
      let others = units.reserved i p l in
      rw
        (
          bytes_eq_ne is_end (t.symbol isymbols i) (λ h. others.1.1.1.1.0 (sym h)),
          bytes_eq_ne is_start (t.symbol isymbols i) (λ h. others.1.1.1.0 (sym h)),
          bytes_eq_ne deletion (t.symbol isymbols i) (λ h. others.1.1.0 (sym h)),
        )
        (entries_symbol n i p (omega arith) (omega arith))

  -- From a unit table with "<blank>" at 0 and `n` more symbols, fewer than 2^32, which differ from
  -- each other and from the texts that are added, `MakeSymbolTableForFst` makes a table in which each symbol
  -- stands one place higher, and which `CompileCtcFst` takes: its machine reads a sequence and
  -- writes another one exactly if, blanks aside, each label written stands for a run of one or
  -- more of itself, with the `n` symbols for labels.
  pub make_symbol_table-compile_ctc_fst :
      (o : FstOps) (r : Reads o) (fst_laws : Laws r) (m : o.Fst)
      → n < 4_294_967_296
      → (made : t.Table) × (make_symbol_table_for_fst t (some isymbols) ≡ some made)
        × ((i : ℕ) → 0 < i → i < suc n → t.find made (t.symbol isymbols i) ≡ pos (suc i))
        × (built : o.Fst) × (compile_ctc_fst o t made m ≡ some built)
        × AcceptsSpelt o r fst_laws n built
  make_symbol_table-compile_ctc_fst o r fst_laws m w =
      let (made, done, holds) = made_lem in
      let (built, compiled, accepts) =
        compile_ctc_fst-AcceptsSpelt o r fst_laws t made n m
          (holds.find_lem eps ∙ entries_eps n (omega arith))
          (holds.find_lem blank ∙ entries_blank n (omega arith))
          (holds.num_symbols_lem ∙ omega (arith, length-entries n)) w in
      (
        made,
        done,
        λ i p l. holds.find_lem (t.symbol isymbols i) ∙ made_symbol i p l,
        built,
        compiled,
        accepts,
      )
