-- ===== src/Stimuli/Same.antt =====
-- The two readers of stimuli in src/serialize.c read the same instructions.
use trdb.Base.{
  ℕ, zero, suc, ◌+◌, ◌-◌, ◌*◌, ◌/◌, ◌%◌, ◌^◌, ◌<◌, ◌≤◌, ◌≡◌, ◌⊎◌, inl, inr, refl, sym, ap, ◌∙◌,
  Bool, true, false, if◌then◌else◌, leb, arith, Option, none, some, List, [], ◌∷◌, ◌++◌, length,
  set, take, replicate, map, length-append, take-all,
}
use mathlib.Core.Path.{subst}
use mathlib.Core.List.{append-nil, append_assoc, map-append}
use trdb.Errors.{value, failed, trdb_scan_file}
use trdb.Trace.{TrInstr, zero_instr}
use trdb.Stimuli.{
  StimuliFile, Vars, zero_vars, scan, sample_of, Listed, list_fail, list_scans,
  trdb_stimuli_to_trace_list, Sampled, array_fail, clear, array_scans, trdb_stimuli_to_trace,
}

-- The array holds the samples of the list, and elements behind them.
pub record Holds (a : Sampled) (l : Listed) : Type 0 where
  pub status : a.status ≡ l.status
  pub count : a.count ≡ l.count
  pub held :
      ((rest : List (Option TrInstr)) × (a.samples ≡ some (map some l.instrs ++ rest)))
      ⊎ ((a.samples ≡ none) × (l.instrs ≡ []))

both : {a b : Sampled} {l m : Listed} → a ≡ b → l ≡ m → Holds b m → Holds a l
both {a} {b} {l} {m} e h k = subst (λ x. Holds x l) (sym e) (subst (λ x. Holds b x) (sym h) k)

length-map_some : (l : List TrInstr) → length (map some l) ≡ length l
length-map_some [] = refl
length-map_some (x ∷ l) = ap suc (length-map_some l)

length-replicate : (n : ℕ) → length (replicate {A = Option TrInstr} n none) ≡ n
length-replicate zero = refl
length-replicate (suc n) = ap suc (length-replicate n)

-- A write behind a list.
set-behind :
    (xs : List (Option TrInstr)) (n : ℕ) (y : Option TrInstr) (rest : List (Option TrInstr))
    (v : Option TrInstr)
    → n ≡ length xs
    → set (xs ++ (y ∷ rest)) n v ≡ xs ++ (v ∷ rest)
set-behind [] zero y rest v e = refl
set-behind [] (suc n) y rest v e = absurd (omega (arith, e))
set-behind (x ∷ xs) zero y rest v e = absurd (omega (arith, e))
set-behind (x ∷ xs) (suc n) y rest v e =
    ap (λ l. x ∷ l) (set-behind xs n y rest v (omega (arith, e)))

-- Writes from the end of a list on leave it.
set-Holds :
    (xs rest : List (Option TrInstr)) (n : ℕ) (v : Option TrInstr)
    → length xs ≤ n
    → (more : List (Option TrInstr)) × (set (xs ++ rest) n v ≡ xs ++ more)
set-Holds [] rest n v h = (set rest n v, refl)
set-Holds (x ∷ xs) rest zero v h = absurd (omega (arith, h))
set-Holds (x ∷ xs) rest (suc n) v h =
    let (more, e) = set-Holds xs rest n v (omega (arith, h)) in (more, ap (λ l. x ∷ l) e)

clear-Holds :
    (count from : ℕ) (xs rest : List (Option TrInstr))
    → length xs ≤ from
    → (more : List (Option TrInstr)) × (clear count from (xs ++ rest) ≡ xs ++ more)
unfolding clear
clear-Holds zero from xs rest h = (rest, refl)
clear-Holds (suc n) from xs rest h =
    let (more, e) = set-Holds xs rest from (some zero_instr) h in
    let (last, k) = clear-Holds n (suc from) xs more (omega (arith, h)) in
    (last, ap (λ l. clear n (suc from) l) e ∙ k)

-- One more sample, at the end of those held.
set-next :
    (l : List TrInstr) (x : TrInstr) (k : ℕ)
    → set (map some l ++ replicate (suc k) none) (length l) (some x)
      ≡ map some (l ++ (x ∷ [])) ++ replicate k none
set-next l x k =
    set-behind (map some l) (length l) none (replicate k none) (some x) (sym (length-map_some l))
    ∙ sym (append_assoc (map some l) (some x ∷ []) (replicate k none))
    ∙ ap (λ y. y ++ replicate k none) (sym (map-append some l (x ∷ [])))

-- A full array that is doubled.
doubled :
    (l : List TrInstr) (size : ℕ)
    → size ≡ length l
    → take (2 * size) ((map some l ++ replicate 0 none) ++ replicate size none)
      ≡ map some l ++ replicate size none
doubled l size e =
    ap (λ y. take (2 * size) (y ++ replicate size none)) (append-nil (map some l))
    ∙ take-all (map some l ++ replicate size none) (2 * size) (
        omega (
          arith,
          e,
          length-append (map some l) (replicate size none),
          length-map_some l,
          length-replicate size,
        ))

module _ (lists arrays : ℕ → Bool) (lists_ok : (n : ℕ) → lists n ≡ true)
    (arrays_ok : (n : ℕ) → arrays n ≡ true) (width : ℕ) (ferror : Bool) where
  step-fits :
      (s : List ℕ) (rest : List (List ℕ)) (v : Vars) (scnt size : ℕ)
      (samples : List (Option TrInstr))
      → leb size scnt ≡ false
      → array_scans arrays width ferror (s ∷ rest) v scnt size samples
        ≡ array_scans arrays width ferror rest
            (scan 0 s v)
            ((scnt + 1) % 2 ^ 64)
            size
            (set samples scnt (some (sample_of (scan 0 s v))))
  unfolding array_scans
  step-fits s rest v scnt size samples e = rw (e, array_scans) refl

  step-full :
      (s : List ℕ) (rest : List (List ℕ)) (v : Vars) (scnt size : ℕ)
      (samples : List (Option TrInstr))
      → leb size scnt ≡ true
      → array_scans arrays width ferror (s ∷ rest) v scnt size samples
        ≡ array_scans arrays width ferror rest
            (scan 0 s v)
            ((scnt + 1) % 2 ^ 64)
            (2 * size % 2 ^ 64)
            (set
              (take (2 * size % 2 ^ 64) (samples ++ replicate size none))
              scnt
              (some (sample_of (scan 0 s v))))
  unfolding array_scans
  step-full s rest v scnt size samples e = rw (e, arrays_ok (2 * size % 2 ^ 64), array_scans) refl

  abbrev array_run : List (List ℕ) → Vars → List TrInstr → ℕ → Sampled
  array_run scans v l k =
      array_scans arrays width ferror scans v (length l) (length l + k)
        (map some l ++ replicate k none)

  same_run :
      (rest : List (List ℕ)) (v : Vars) (l : List TrInstr) (x : TrInstr) (k n size : ℕ)
      (samples : List (Option TrInstr))
      → n ≡ length l + 1
      → size ≡ length l + suc k
      → samples ≡ set (map some l ++ replicate (suc k) none) (length l) (some x)
      → array_scans arrays width ferror rest v n size samples ≡ array_run rest v (l ++ (x ∷ [])) k
  same_run rest v l x k n size samples a b c =
      let longer : length (l ++ (x ∷ [])) ≡ length l + 1 = length-append l (x ∷ []) in
      ap (λ y. array_scans arrays width ferror rest v n size y) (c ∙ set-next l x k)
      ∙ ap
          (λ y.
            array_scans arrays width ferror rest v n y
              (map some (l ++ (x ∷ [])) ++ replicate k none))
          (omega (arith, b, longer))
      ∙ ap
          (λ y.
            array_scans arrays width ferror rest v y (length (l ++ (x ∷ [])) + k)
              (map some (l ++ (x ∷ [])) ++ replicate k none))
          (omega (arith, a, longer))

  array_run-fits :
      (s : List ℕ) (rest : List (List ℕ)) (v : Vars) (l : List TrInstr) (k : ℕ)
      → length l + suc k < 2 ^ 63
      → array_run (s ∷ rest) v l (suc k)
        ≡ array_run rest (scan 0 s v) (l ++ (sample_of (scan 0 s v) ∷ [])) k
  array_run-fits s rest v l k few =
      step-fits s rest v (length l) (length l + suc k) _ (ground arith)
      ∙ same_run rest (scan 0 s v) l (sample_of (scan 0 s v)) k _ _ _ (omega arith) refl refl

  array_run-full :
      (s : List ℕ) (rest : List (List ℕ)) (v : Vars) (l : List TrInstr) (k : ℕ)
      → length l ≡ suc k
      → suc k < 2 ^ 62
      → array_run (s ∷ rest) v l 0
        ≡ array_run rest (scan 0 s v) (l ++ (sample_of (scan 0 s v) ∷ [])) k
  array_run-full s rest v l k e few =
      let size : ℕ = length l + 0 in
      let sum : size ≡ suc k = omega (arith, e) in
      let twice : 2 * size % 2 ^ 64 ≡ 2 * size = omega (arith, sum, few) in
      step-full s rest v (length l) size _ (ground arith)
      ∙ same_run rest (scan 0 s v) l (sample_of (scan 0 s v)) k _ _ _ (omega (arith, sum, few))
          (omega (arith, sum, twice, e))
          (ap (λ y. set y (length l) (some (sample_of (scan 0 s v))))
            (ap (λ y. take y ((map some l ++ replicate 0 none) ++ replicate size none)) twice
              ∙ doubled l size (omega arith)
              ∙ ap (λ y. map some l ++ replicate y none) sum))

  list_step :
      (s : List ℕ) (rest : List (List ℕ)) (v : Vars) (l : List TrInstr)
      → length l < 2 ^ 62
      → list_scans lists ferror (s ∷ rest) v (length l) l
        ≡ list_scans lists ferror rest
            (scan 0 s v)
            (length (l ++ (sample_of (scan 0 s v) ∷ [])))
            (l ++ (sample_of (scan 0 s v) ∷ []))
  unfolding list_scans
  list_step s rest v l few =
      let longer : length (l ++ (sample_of (scan 0 s v) ∷ [])) ≡ length l + 1 =
        length-append l (sample_of (scan 0 s v) ∷ []) in
      rw (lists_ok (length l), list_scans)
        (ap (λ y. list_scans lists ferror rest (scan 0 s v) y (l ++ (sample_of (scan 0 s v) ∷ [])))
          (omega (arith, longer, few)))

  end-Holds :
      (l : List TrInstr) (k n : ℕ) (b : Bool)
      → Holds
          (if b then array_fail (failed trdb_scan_file) else record {
            status = value 0;
            samples = some (clear n (length l) (map some l ++ replicate k none));
            count = length l;
          })
          (if b
            then list_fail (failed trdb_scan_file)
            else record { status = value 0; instrs = l; count = length l })
  end-Holds l k n true = record { status = refl; count = refl; held = inr (refl, refl) }
  end-Holds l k n false =
      let (more, e) =
        clear-Holds n (length l) (map some l) (replicate k none)
          (omega (arith, length-map_some l)) in
      record { status = refl; count = refl; held = inl (more, ap (λ x. some x) e) }

  array_scans-Holds :
      (scans : List (List ℕ)) (v : Vars) (l : List TrInstr) (k : ℕ)
      → 0 < length l + k
      → length l + k < 2 ^ 63
      → length l + length scans < 2 ^ 62
      → Holds (array_run scans v l k) (list_scans lists ferror scans v (length l) l)
  unfolding array_scans list_scans
  array_scans-Holds [] v l k any few all =
      end-Holds l k ((length l + k + 2 ^ 64 - length l) % 2 ^ 64 / width) ferror
  array_scans-Holds (s ∷ rest) v l zero any few all =
      let x : TrInstr = sample_of (scan 0 s v) in
      let longer = length-append l (x ∷ []) in
      let k : ℕ = length l - 1 in
      both (array_run-full s rest v l k (omega (arith, any)) (omega (arith, all)))
        (list_step s rest v l (omega (arith, all)))
        (array_scans-Holds rest (scan 0 s v) (l ++ (x ∷ [])) k (omega (arith, longer))
          (omega (arith, longer, all)) (omega (arith, longer, all)))
  array_scans-Holds (s ∷ rest) v l (suc k) any few all =
      let x : TrInstr = sample_of (scan 0 s v) in
      let longer = length-append l (x ∷ []) in
      both (array_run-fits s rest v l k few) (list_step s rest v l (omega (arith, all))) (
        array_scans-Holds rest (scan 0 s v) (l ++ (x ∷ [])) k (omega (arith, longer))
          (omega (arith, longer, few)) (omega (arith, longer, all)))

abbrev pub scan_count : Option StimuliFile → ℕ
scan_count none = 0
scan_count (some f) = length f.scans

-- When every allocation succeeds and the file has fewer than 2 ^ 62 scans, reading stimuli to an
-- array and to an empty list returns the same status and the same count, and the array starts
-- with the instructions of the list, in order; where the array is freed the list is empty.
pub trdb_stimuli_to_trace-Holds :
    (lists arrays : ℕ → Bool) (width : ℕ) (file : Option StimuliFile)
    → ((n : ℕ) → lists n ≡ true)
    → ((n : ℕ) → arrays n ≡ true)
    → scan_count file < 2 ^ 62
    → Holds (trdb_stimuli_to_trace arrays width file) (trdb_stimuli_to_trace_list lists file [])
unfolding trdb_stimuli_to_trace trdb_stimuli_to_trace_list
trdb_stimuli_to_trace-Holds lists arrays width none lists_ok arrays_ok few = record {
  status = refl;
  count = refl;
  held = inr (refl, refl);
}
trdb_stimuli_to_trace-Holds lists arrays width (some f) lists_ok arrays_ok few =
    rw (arrays_ok 128) (
      array_scans-Holds lists arrays lists_ok arrays_ok width f.ferror f.scans zero_vars [] 128
        (omega arith) (omega arith) (omega (arith, few)))
