-- ===== src/Supervisor/Json.antt =====
-- daemon/pipewire/module-dsp-accel.cpp: whether what `dump_state` writes can be read as JSON.
use linux_opensource_univers.Prelude.{
  if◌then◌else◌, if_true, if_false, eq→==, ne→==_false, length, ◌>>=◌, ℕ, suc, ◌+◌, ◌-◌, ◌≡◌, refl,
  sym, ap, ◌∙◌, Bool, true, false, ◌||◌, Option, none, some, List, [], ◌∷◌, ◌++◌, arith,
}
use linux_opensource_univers.Shm.{SharedMemory}
use linux_opensource_univers.Supervisor.{ComputeNode}
use linux_opensource_univers.Supervisor.Monitor.{
  Entry, Piece, begin, item, comma, close, entry_of, entry_text, entries, dump_state, separator,
}

-- A reader of JSON: an array has a comma between two objects, and none before its end.
unfoldable pub read_rest : List Piece → Option (List Entry)
read_rest (close ∷ []) = some []
read_rest (comma ∷ item e ∷ ps) = do es ← read_rest ps; some (e ∷ es)
read_rest _ = none

unfoldable pub read_array : List Piece → Option (List Entry)
unfolding read_rest
read_array (close ∷ []) = some []
read_array (item e ∷ ps) = do es ← read_rest ps; some (e ∷ es)
read_array _ = none

unfoldable pub read_json : List Piece → Option (ℕ × List Entry)
unfolding read_array
read_json (begin t ∷ ps) = do es ← read_array ps; some (t, es)
read_json _ = none

abbrev pub if_readable : Bool → List Entry → Option (List Entry)
if_readable true es = some es
if_readable false es = none

abbrev pub is_nil : List Entry → Bool
is_nil [] = true
is_nil (e ∷ es) = false

-- The separators are where the number of workers says.
sep_last : (i count : ℕ) → count ≡ i + 1 → separator i count ≡ []
sep_last i count e = if_true _ _ (eq→== i (count - 1) (omega arith))

sep_more : (i count n : ℕ) → count ≡ i + 1 + suc n → separator i count ≡ comma ∷ []
sep_more i count n e = if_false _ _ (ne→==_false i (count - 1) (omega arith))

with_item :
    (e : Entry) (b : Bool) (es : List Entry)
    → (let o : Option (List Entry) = if_readable b es >>= λ x. some (e ∷ x) in o)
      ≡ if_readable b (e ∷ es)
with_item e true es = refl
with_item e false es = refl

timed :
    (t : ℕ) (b : Bool) (es : List Entry)
    → (let o : Option (ℕ × List Entry) = if_readable b es >>= λ x. some (t, x) in o)
      ≡ (if b then some (t, es) else none)
timed t true es = refl
timed t false es = refl

or_false : (b : Bool) → (b || false) ≡ b
or_false true = refl
or_false false = refl

module _ {F : Type 0} where
  -- The workers that have shared memory
  abbrev pub listed : ℕ → ComputeNode F → Option (SharedMemory F) → List Entry
  listed i n none = []
  listed i n (some shm) = entry_of i n shm ∷ []

  unfoldable pub all_listed : ℕ → List (ComputeNode F) → List Entry
  all_listed i [] = []
  all_listed i (n ∷ ns) = listed i n n.shm ++ all_listed (i + 1) ns

  abbrev pub is_mapped : Option (SharedMemory F) → Bool
  is_mapped none = false
  is_mapped (some shm) = true

  -- The last worker has shared memory; `b` where there is none.
  unfoldable pub last_mapped : Bool → List (ComputeNode F) → Bool
  last_mapped b [] = b
  last_mapped b (n ∷ ns) = last_mapped (is_mapped n.shm) ns

  abbrev finish :
      ℕ → ℕ → ComputeNode F → Option (SharedMemory F) → List (ComputeNode F) → List Piece
  finish i count n o ns = (entry_text i count n o ++ entries (i + 1) count ns) ++ close ∷ []

  -- Its end, after one object at least
  read_rest_lem :
      (o : Option (SharedMemory F)) (n : ComputeNode F) (ns : List (ComputeNode F)) (i count : ℕ)
      → count ≡ i + 1 + length ns
      → read_rest (comma ∷ finish i count n o ns)
        ≡ if_readable (last_mapped (is_mapped o) ns) (listed i n o ++ all_listed (i + 1) ns)
  unfolding read_rest entries all_listed last_mapped
  read_rest_lem none n [] i count e = refl
  read_rest_lem none n (m ∷ ms) i count e = read_rest_lem m.shm m ms (i + 1) count (omega arith)
  read_rest_lem (some shm) n [] i count e =
      ap
        (λ (sep : List Piece).
          read_rest (comma ∷ (((item (entry_of i n shm) ∷ sep) ++ []) ++ close ∷ [])))
        (sep_last i count (omega arith))
  read_rest_lem (some shm) n (m ∷ ms) i count e =
      ap
        (λ (sep : List Piece). read_rest (
          comma
          ∷ (((item (entry_of i n shm) ∷ sep) ++ entries (i + 1) count (m ∷ ms)) ++ close ∷ [])))
        (sep_more i count (length ms) (omega arith))
      ∙ ap (λ (r : Option (List Entry)). r >>= λ es. some (entry_of i n shm ∷ es))
          (read_rest_lem m.shm m ms (i + 1) count (omega arith))
      ∙ with_item (entry_of i n shm) (last_mapped (is_mapped m.shm) ms)
          (all_listed (i + 1) (m ∷ ms))

  array_lem :
      (o : Option (SharedMemory F)) (n : ComputeNode F) (ns : List (ComputeNode F)) (i count : ℕ)
      → count ≡ i + 1 + length ns
      → read_array (finish i count n o ns) ≡ (
          let es = listed i n o ++ all_listed (i + 1) ns in
          if_readable (last_mapped (is_mapped o) ns || is_nil es) es)
  unfolding read_array entries all_listed last_mapped
  array_lem none n [] i count e = refl
  array_lem none n (m ∷ ms) i count e = array_lem m.shm m ms (i + 1) count (omega arith)
  array_lem (some shm) n [] i count e =
      ap (λ (sep : List Piece). read_array (((item (entry_of i n shm) ∷ sep) ++ []) ++ close ∷ []))
        (sep_last i count (omega arith))
  array_lem (some shm) n (m ∷ ms) i count e =
      ap
        (λ (sep : List Piece).
          read_array
            (((item (entry_of i n shm) ∷ sep) ++ entries (i + 1) count (m ∷ ms)) ++ close ∷ []))
        (sep_more i count (length ms) (omega arith))
      ∙ ap (λ (r : Option (List Entry)). r >>= λ es. some (entry_of i n shm ∷ es))
          (read_rest_lem m.shm m ms (i + 1) count (omega arith))
      ∙ with_item (entry_of i n shm) (last_mapped (is_mapped m.shm) ms)
          (all_listed (i + 1) (m ∷ ms))
      ∙ ap (λ (b : Bool). if_readable b (entry_of i n shm ∷ all_listed (i + 1) (m ∷ ms)))
          (sym (or_false (last_mapped (is_mapped m.shm) ms)))

  all_lem :
      (ns : List (ComputeNode F))
      → read_array (entries 0 (length ns) ns ++ close ∷ [])
        ≡ if_readable (last_mapped true ns || is_nil (all_listed 0 ns)) (all_listed 0 ns)
  unfolding read_array entries all_listed last_mapped
  all_lem [] = refl
  all_lem (n ∷ ns) = array_lem n.shm n ns 0 (suc (length ns)) (omega arith)

  -- What `dump_state` writes is read back, as the time and the objects of the workers that have
  -- shared memory, in order, exactly when the last worker has it or none has. Else the last
  -- object is followed by a comma, and a reader of JSON refuses the text.
  pub dump_reads_back :
      (t : ℕ) (ns : List (ComputeNode F))
      → read_json (dump_state t ns) ≡ (
          if last_mapped true ns || is_nil (all_listed 0 ns)
          then some (t, all_listed 0 ns)
          else none)
  unfolding read_json dump_state
  dump_reads_back t ns =
      ap (λ (r : Option (List Entry)). r >>= λ es. some (t, es)) (all_lem ns)
      ∙ timed t (last_mapped true ns || is_nil (all_listed 0 ns)) (all_listed 0 ns)
