-- ===== src/LabelChecker.antt =====
-- wenet/runtime/core/bin/label_checker_main.cc: the machines that a transcript is checked with, and
-- the symbol table that they share. The transducers and the table are openfst's, taken as records.
pub mod Machine
pub mod Ctc
pub mod Spelt
pub mod Alignment
pub mod Symbols
mod Tests
use wenet_android.Prelude.{
  ℕ, zero, suc, ◌+◌, ◌-◌, ◌%◌, Bool, true, false, Option, none, some, List, [], ◌∷◌, ◌++◌, arith,
  ◌==◌, if◌then◌else◌, ◌>>=◌, ◌>>◌, check, bytes_eq, codes,
}
use wenet_android.Prelude.Int.{ℤ, pos, negsuc}
use wenet_android.Text.Utf8.{Bytes, split_utf8_string_to_chars}
use wenet_android.Text.Blank.{space_symbol, space}

pub record Arc (W : Type 0) : Type 0 where
  pub ilabel : ℤ
  pub olabel : ℤ
  pub weight : W
  pub nextstate : ℕ

-- `fst::StdVectorFst`. The sorts of the arcs are by their input and their output labels.
pub record FstOps : Type 1 where
  pub W : Type 0
  pub Fst : Type 0
  pub of_double : ℕ → W
  pub one : W
  pub delete_states : Fst → Fst
  pub add_state : Fst → Fst × ℕ
  pub set_start : ℕ → Fst → Fst
  pub add_arc : ℕ → Arc W → Fst → Fst
  pub set_final : ℕ → W → Fst → Fst
  pub sort_ilabel : Fst → Fst
  pub sort_olabel : Fst → Fst

-- `fst::SymbolTable`: `find` is -1 at a text that has no key, `symbol` empty at a key that has none.
pub record SymbolOps : Type 1 where
  pub Table : Type 0
  pub empty : Table
  pub add_symbol : Bytes → ℕ → Table → Table
  pub find : Table → Bytes → ℤ
  pub symbol : Table → ℕ → Bytes
  pub num_symbols : Table → ℕ

abbrev pub deletion : Bytes
deletion = codes "<del>"

abbrev pub is_start : Bytes
is_start = codes "<is>"

abbrev pub is_end : Bytes
is_end = codes "</is>"

abbrev pub eps : Bytes
eps = codes "<eps>"

abbrev pub blank : Bytes
blank = codes "<blank>"

unfoldable pub is_key : ℕ → ℤ → Bool
is_key n (pos k) = k == n
is_key n (negsuc k) = false

-- `NumSymbols() - 3`, on a 64-bit `size_t`.
unfoldable pub label_bound : ℕ → ℕ
label_bound n = (n + 18_446_744_073_709_551_616 - 3) % 18_446_744_073_709_551_616

module _ (t : SymbolOps) where
  unfoldable pub label_of : Bytes → Bytes
  label_of c = if bytes_eq c (space ∷ []) then space_symbol else c

  unfoldable pub keep_id : ℤ → List ℤ → List ℤ
  keep_id (pos id) labels = pos id ∷ labels
  keep_id (negsuc zero) labels = labels
  keep_id (negsuc (suc n)) labels = negsuc (suc n) ∷ labels

  unfoldable pub labels_of : t.Table → List Bytes → List ℤ
  labels_of table [] = []
  labels_of table (c ∷ chars) = keep_id (t.find table (label_of c)) (labels_of table chars)

  unfoldable pub map_to_label : Bytes → t.Table → Option (List ℤ)
  map_to_label text table = do chars ← split_utf8_string_to_chars text; some (labels_of table chars)

  -- The loop over the symbols, with the rounds that are left and the next one.
  unfoldable pub shift_symbols : t.Table → ℕ → ℕ → t.Table → t.Table
  shift_symbols isymbols zero i table = table
  shift_symbols isymbols (suc rounds) i table =
      shift_symbols isymbols rounds (suc i) (t.add_symbol (t.symbol isymbols i) (i + 1) table)

  -- `none` is the null pointer.
  unfoldable pub make_symbol_table_for_fst : Option t.Table → Option t.Table
  make_symbol_table_for_fst isymbol_table = do
    isymbols ← isymbol_table
    check (is_key 0 (t.find isymbols blank))
    let n = t.num_symbols isymbols
    let shifted =
        shift_symbols isymbols (n - 1) 1 (t.add_symbol blank 1 (t.add_symbol eps 0 t.empty))
    some (
        t.add_symbol is_end (n + 3)
          (t.add_symbol is_start (n + 2) (t.add_symbol deletion (n + 1) shifted)))

module _ (o : FstOps) where
  abbrev pub free_arc : ℤ → ℤ → ℕ → Arc o.W
  free_arc i out next = record {
    ilabel = i;
    olabel = out;
    weight = o.of_double 0;
    nextstate = next;
  }

  -- The state of one label: it is entered by the label, stays there on it, and goes back for free.
  unfoldable pub label_arcs : ℕ → ℕ → o.Fst × ℕ → o.Fst
  label_arcs start i (ofst, s) =
      o.add_arc s (free_arc (pos 0) (pos 0) start) (
        o.add_arc s (free_arc (pos i) (pos 0) s)
          (o.add_arc start (free_arc (pos i) (pos i) s) ofst))

  unfoldable pub ctc_loop : ℕ → ℕ → ℕ → o.Fst → o.Fst
  ctc_loop start zero i ofst = ofst
  ctc_loop start (suc rounds) i ofst =
      ctc_loop start rounds (suc i) (label_arcs start i (o.add_state ofst))

  unfoldable pub ctc_arcs : ℕ → o.Fst × ℕ → o.Fst
  ctc_arcs bound (ofst, start) = o.sort_olabel (
      o.set_final start o.one (
        ctc_loop start (bound - 2) 2
          (o.add_arc start (free_arc (pos 1) (pos 0) start) (o.set_start start ofst))))

  unfoldable pub compile_ctc_fst : (t : SymbolOps) → t.Table → o.Fst → Option o.Fst
  compile_ctc_fst t table ofst = do
    check (is_key 0 (t.find table eps))
    check (is_key 1 (t.find table blank))
    some (ctc_arcs (label_bound (t.num_symbols table)) (o.add_state (o.delete_states ofst)))

-- The symbols and the penalties of an alignment, and the two states of its filler.
pub record Marks (W : Type 0) : Type 0 where
  pub del : ℤ
  pub ins_start : ℤ
  pub ins_end : ℤ
  pub is_penalty : W
  pub del_penalty : W
  pub filler_start : ℕ
  pub filler_end : ℕ

module _ (o : FstOps) where
  unfoldable pub filler_loop : Marks o.W → ℕ → ℕ → o.Fst → o.Fst
  filler_loop k zero i ofst = ofst
  filler_loop k (suc rounds) i ofst = filler_loop k rounds (suc i) (
      o.add_arc k.filler_start
        (record { ilabel = pos i; olabel = pos i; weight = k.is_penalty; nextstate = k.filler_end })
        ofst)

  -- From `prev` into the filler, and back.
  unfoldable pub insertion_arcs : Marks o.W → ℕ → o.Fst → o.Fst
  insertion_arcs k prev ofst =
      o.add_arc k.filler_end (free_arc o (pos 0) k.ins_end prev)
        (o.add_arc prev (free_arc o (pos 0) k.ins_start k.filler_start) ofst)

  unfoldable pub position_arcs : Marks o.W → ℤ → ℕ → o.Fst × ℕ → o.Fst
  position_arcs k label prev (ofst, cur) =
      o.add_arc prev
        (record { ilabel = pos 0; olabel = k.del; weight = k.del_penalty; nextstate = cur })
        (o.add_arc prev (free_arc o label label cur) (insertion_arcs k prev ofst))

  -- The loop over the labels, with the final filler behind it.
  unfoldable pub align_loop : Marks o.W → List ℤ → ℕ → o.Fst → o.Fst
  align_loop k [] prev ofst = o.set_final prev o.one (insertion_arcs k prev ofst)
  align_loop k (label ∷ labels) prev ofst =
      let (grown, cur) = o.add_state ofst in
      align_loop k labels cur (position_arcs k label prev (grown, cur))

  unfoldable pub compile_align_fst : (t : SymbolOps) → o.W → o.W → List ℤ → t.Table → o.Fst → o.Fst
  compile_align_fst t is_penalty del_penalty labels table ofst =
      let (ofst1, start) = o.add_state (o.delete_states ofst) in
      let (ofst2, filler_start) = o.add_state (o.set_start start ofst1) in
      let (ofst3, filler_end) = o.add_state ofst2 in
      let k : Marks o.W = record {
        del = t.find table deletion;
        ins_start = t.find table is_start;
        ins_end = t.find table is_end;
        is_penalty = is_penalty;
        del_penalty = del_penalty;
        filler_start = filler_start;
        filler_end = filler_end;
      } in
      let filled = filler_loop k (label_bound (t.num_symbols table) - 2) 2 ofst3 in
      let looped = o.add_arc filler_end (free_arc o (pos 0) (pos 0) filler_start) filled in
      o.sort_ilabel (align_loop k labels start looped)
