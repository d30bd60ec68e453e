-- ===== src/LabelChecker/Tests.antt =====
-- The machines of a table with two labels, as lists of arcs.
use wenet_android.Prelude.{
  zero, false, ◌<◌, ◌≢◌, All, subst, ℕ, suc, ◌==◌, ◌≡◌, refl, ◌⊎◌, inl, inr, some, List, [], ◌∷◌,
  arith, length, bytes_eq, codes, if◌then◌else◌,
}
use wenet_android.Prelude.Int.{pos}
use wenet_android.Text.Utf8.{Bytes, split_utf8_string_to_chars, split_from, is_lead, lead_bytes}
use wenet_android.LabelChecker.{
  Arc, FstOps, SymbolOps, compile_ctc_fst, compile_align_fst, map_to_label,
  make_symbol_table_for_fst, eps, blank, shift_symbols, is_key, labels_of, label_of, keep_id,
}
use wenet_android.LabelChecker.Symbols.{
  key_of, TableLaws, IsUnitTable, ne_of_bytes_eq, make_symbol_table-compile_ctc_fst,
}
use wenet_android.LabelChecker.Machine.{Reads, Laws, Accepts}
use wenet_android.LabelChecker.Spelt.{AcceptsSpelt}
use wenet_android.LabelChecker.Alignment.Paths.{Aligned}
use wenet_android.LabelChecker.Alignment.Accepted.{
  compile_align_fst-Aligned, compile_align_fst_skips,
}

record Machine : Type 0 where
  count : ℕ
  arcs : List (ℕ × Arc ℕ)
  starts : List ℕ
  finals : List ℕ

abbrev fsts : FstOps
fsts = record {
  W = ℕ;
  Fst = Machine;
  of_double = λ n. n;
  one = 0;
  delete_states = λ m. record { count = 0; arcs = []; starts = []; finals = [] };
  add_state = λ m. (record m { count = suc m.count }, m.count);
  set_start = λ s m. record m { starts = s ∷ [] };
  add_arc = λ s a m. record m { arcs = (s, a) ∷ m.arcs };
  set_final = λ s w m. record m { finals = s ∷ m.finals };
  sort_ilabel = λ m. m;
  sort_olabel = λ m. m;
}

abbrev Leaves : List (ℕ × Arc ℕ) → ℕ → Arc ℕ → Type 0
Leaves [] t b = ⊥
Leaves ((s, a) ∷ arcs) t b = Leaves arcs t b ⊎ ((t ≡ s) × (b ≡ a))

abbrev Among : List ℕ → ℕ → Type 0
Among [] t = ⊥
Among (s ∷ states) t = Among states t ⊎ (t ≡ s)

abbrev reads : Reads fsts
reads = record {
  num_states = λ m. m.count;
  has_arc = λ m. Leaves m.arcs;
  is_first = λ m s. (x : ℕ) × (rest : List ℕ) × (m.starts ≡ x ∷ rest) × (s ≡ x);
  is_last = λ m. Among m.finals;
}

laws : Laws reads
laws = record {
  delete_states_lem = λ m. record {
    states = refl;
    arcs = λ s a. (λ h. h, λ h. h);
    first = λ s. (λ (x, rest, e, p). cc, λ h. absurd h);
    last = λ s. (λ h. h, λ h. h);
  };
  add_state_lem = λ m n A S F h. (
    record { states = omega (arith, h.states); arcs = h.arcs; first = h.first; last = h.last },
    h.states,
  );
  set_start_lem = λ m n A S F s h l. record {
    states = h.states;
    arcs = h.arcs;
    first = λ t. (λ (x, rest, e, p). cc, λ p. (s, [], refl, p));
    last = h.last;
  };
  add_arc_lem = λ m n A S F s a h l. record {
    states = h.states;
    arcs = λ t b. (
      λ x. elim x [ inl y ↦ inl ((h.arcs t b).0 y) | inr y ↦ inr y ],
      λ x. elim x [ inl y ↦ inl ((h.arcs t b).1 y) | inr y ↦ inr y ],
    );
    first = h.first;
    last = h.last;
  };
  set_final_lem = λ m n A S F s h l. record {
    states = h.states;
    arcs = h.arcs;
    first = h.first;
    last = λ t. (
      λ x. elim x [ inl y ↦ inl ((h.last t).0 y) | inr y ↦ inr y ],
      λ x. elim x [ inl y ↦ inl ((h.last t).1 y) | inr y ↦ inr y ],
    );
  };
  sort_ilabel_lem = λ m n A S F h. h;
  sort_olabel_lem = λ m n A S F h. h;
}

-- A table as a list: `add_symbol` puts an entry in front.
abbrev symbol : List (Bytes × ℕ) → ℕ → Bytes
symbol [] n = []
symbol ((u, k) ∷ table) n = if k == n then u else symbol table n

abbrev tables : SymbolOps
tables = record {
  Table = List (Bytes × ℕ);
  empty = [];
  add_symbol = λ s k table. (s, k) ∷ table;
  find = key_of;
  symbol = symbol;
  num_symbols = length;
}

-- "<blank>", "a", "b", and the table that is made of them.
abbrev units : List (Bytes × ℕ)
units = (blank, 0) ∷ (codes "a", 1) ∷ (codes "b", 2) ∷ []

abbrev made : List (Bytes × ℕ)
made =
    (codes "</is>", 6)
    ∷ (codes "<is>", 5)
    ∷ (codes "<del>", 4)
    ∷ (codes "b", 3)
    ∷ (codes "a", 2)
    ∷ (blank, 1)
    ∷ (eps, 0)
    ∷ []

table_made : make_symbol_table_for_fst tables (some units) ≡ some made
unfolding make_symbol_table_for_fst shift_symbols is_key
table_made = refl

tables-Laws : TableLaws tables
tables-Laws = record {
  empty_lem = record { find_lem = λ s. refl; num_symbols_lem = refl };
  add_symbol_lem = λ table entries s k h new keys. record {
    find_lem = λ u. rw (h.find_lem u);
    num_symbols_lem = omega (arith, h.num_symbols_lem);
  };
}

units-apart : (i j : ℕ) → 0 < i → i < j → j < 3 → symbol units i ≢ symbol units j
units-apart i j p q l =
    let one : 1 ≡ i = omega arith in
    let two : 2 ≡ j = omega arith in
    subst (λ (i : ℕ). symbol units i ≢ symbol units j) one
      (subst (λ (j : ℕ). symbol units 1 ≢ symbol units j) two
        (ne_of_bytes_eq (codes "a") (codes "b") refl))

differs :
    (s : Bytes)
    → bytes_eq s eps ≡ false
    → bytes_eq s blank ≡ false
    → bytes_eq s (codes "<del>") ≡ false
    → bytes_eq s (codes "<is>") ≡ false
    → bytes_eq s (codes "</is>") ≡ false
    → All (λ u. s ≢ u) (eps ∷ blank ∷ codes "<del>" ∷ codes "<is>" ∷ codes "</is>" ∷ [])
differs s a b c d e = (
  ne_of_bytes_eq s eps a,
  (
    ne_of_bytes_eq s blank b,
    (
      ne_of_bytes_eq s (codes "<del>") c,
      (ne_of_bytes_eq s (codes "<is>") d, (ne_of_bytes_eq s (codes "</is>") e, tt)),
    ),
  ),
)

units-reserved :
    (i : ℕ)
    → 0 < i
    → i < 3
    → All
        (λ s. symbol units i ≢ s)
        (eps ∷ blank ∷ codes "<del>" ∷ codes "<is>" ∷ codes "</is>" ∷ [])
units-reserved zero p l = absurd (omega arith)
units-reserved (suc zero) p l = differs (codes "a") refl refl refl refl refl
units-reserved (suc (suc zero)) p l = differs (codes "b") refl refl refl refl refl
units-reserved (suc (suc (suc i))) p l = absurd (omega arith)

units-IsUnitTable : IsUnitTable tables units 2
units-IsUnitTable = record {
  size = refl;
  blank_first = refl;
  apart = units-apart;
  reserved = units-reserved;
}

labels_mapped : map_to_label tables (codes "abcb") made ≡ some (pos 2 ∷ pos 3 ∷ pos 3 ∷ [])
unfolding map_to_label labels_of label_of keep_id split_utf8_string_to_chars split_from is_lead
    lead_bytes
labels_mapped = refl

abbrev no_states : Machine
no_states = record { count = 0; arcs = []; starts = []; finals = [] }

-- "a" read, "b" deleted, and "b" inserted between them.
compile_align_fst-Aligned_example :
    Accepts reads
      (compile_align_fst fsts tables 1 1 (pos 2 ∷ pos 3 ∷ []) made no_states)
      (pos 2 ∷ pos 3 ∷ [])
      (pos 2 ∷ pos 5 ∷ pos 3 ∷ pos 6 ∷ pos 4 ∷ [])
compile_align_fst-Aligned_example =
    compile_align_fst-Aligned fsts reads laws tables made 2 (pos 2 ∷ pos 3 ∷ []) _ _ 1 1 no_states
      refl (omega arith)
      (Aligned.correct (pos 2) (pos 3 ∷ []) _ _ (
        Aligned.inserted (pos 3) [] (pos 3 ∷ []) [] (pos 4 ∷ []) ((1, omega arith, refl), tt)
          (Aligned.deleted (pos 3) [] [] [] Aligned.ends)))

compile_align_fst_skips_example :
    Accepts reads
      (compile_align_fst fsts tables 1 1 (pos 2 ∷ pos 2 ∷ []) made no_states)
      (pos 3 ∷ [])
      (pos 5 ∷ pos 3 ∷ pos 6 ∷ [])
compile_align_fst_skips_example =
    compile_align_fst_skips fsts reads laws tables made 2 (pos 2 ∷ pos 2 ∷ []) (pos 3) [] 1 1
      no_states refl (omega arith) ((1, omega arith, refl), tt)

make_symbol_table-compile_ctc_fst_example :
    (table : List (Bytes × ℕ)) × (make_symbol_table_for_fst tables (some units) ≡ some table)
    × ((i : ℕ) → 0 < i → i < 3 → key_of table (symbol units i) ≡ pos (suc i))
    × (built : Machine) × (compile_ctc_fst fsts tables table no_states ≡ some built)
    × AcceptsSpelt fsts reads laws 2 built
make_symbol_table-compile_ctc_fst_example =
    make_symbol_table-compile_ctc_fst tables tables-Laws units 2 units-IsUnitTable fsts reads laws
      no_states (omega arith)
