-- ===== src/Decompress/Loops.antt =====
-- The loops of the decoder along whole paths.
use trdb.Base.{
  ℕ, zero, suc, ◌+◌, ◌-◌, ◌%◌, ◌^◌, ◌<◌, ◌≤◌, ◌≡◌, sym, ap, ◌∙◌, Bool, true, false, ◌&&◌,
  if◌then◌else◌, ◌==◌, List, [], ◌∷◌, ◌++◌, map, length, length-append, arith,
}
use mathlib.Core.List.{append-nil, append_assoc}
use trdb.Trace.{TrInstr}
use trdb.Context.{Decompress}
use trdb.Program.{Program, Section, Fetched, add_vma}
use trdb.Decompress.{RasResult}
use trdb.Decompress.Course.{Cpu, forks, effect, At, behind, Goes, Course, stay, move, fork}
use trdb.Decompress.Walk.{Run, going, Round, branch_round, branch_finished, walk}
use trdb.Decompress.Follow.{place_at, with_priv}
use trdb.Decompress.Segments.{map_at, walk-step, branch_round-Goes, branch_round-forks, branch-bit}

module _ (p : Program) (implicit_ret : Bool) (memory : p.allocated ≡ true) (address : ℕ)
    (d : Decompress) where
  -- A round with branches left, and with none.
  abbrev pub at_branches : Bool → List Bool → Cpu → List TrInstr → Bool → Bool → Round
  at_branches full bs c l ha hd = record {
    place = place_at d (map_at full bs) c l;
    hit_address = ha;
    hit_discontinuity = hd;
  }

  abbrev pub walk_branches : Bool → ℕ → Round → Run Round
  walk_branches checked = walk branch_finished (branch_round p implicit_ret checked address)

  pub one_more :
      (l : List TrInstr) (i : TrInstr) (is : List TrInstr)
      → (l ++ (with_priv d i ∷ [])) ++ map (with_priv d) is ≡ l ++ map (with_priv d) (i ∷ is)
  one_more l i is = append_assoc l (with_priv d i ∷ []) (map (with_priv d) is)

  -- While branches are left, the loop goes on, and no address is hit.
  unfinished :
      (full ha hd : Bool) (bs : List Bool) (c : Cpu) (l : List TrInstr)
      → 0 < length bs
      → branch_finished (at_branches full bs c l ha hd) ≡ false
  unfolding branch_finished
  unfinished full ha hd bs c l some = ground arith

  walk-Goes :
      {c : Cpu} {s : Section} {f : Fetched} {r : RasResult} {pc : ℕ} (checked full ha hd : Bool)
      (bs : List Bool) (l : List TrInstr) (fuel : ℕ)
      → At p c s f r
      → Goes p implicit_ret c f r pc
      → 0 < length bs
      → walk_branches checked (suc fuel) (at_branches full bs c l ha hd)
        ≡ walk_branches checked fuel
            (at_branches full bs (behind s r pc) (l ++ (with_priv d f.instr ∷ [])) ha hd)
  walk-Goes {c} {s} {f} {r} {pc} checked full ha hd bs l fuel at g some =
      let other : (length bs == 0) ≡ false = ground arith in
      walk-step branch_finished (branch_round p implicit_ret checked address) fuel _ _
        (unfinished full ha hd bs c l some)
        (rw other at (
          branch_round-Goes p implicit_ret memory address d l c s f r at (map_at full bs) pc checked
            ha hd g))

  pub walk-forks :
      {c : Cpu} {s : Section} {f : Fetched} {r : RasResult} (checked full ha hd : Bool) (b : Bool)
      (bs : List Bool) (l : List TrInstr) (fuel : ℕ)
      → At p c s f r
      → effect p implicit_ret f r ≡ forks
      → length bs < 31
      → walk_branches checked (suc fuel) (at_branches full (b ∷ bs) c l ha hd)
        ≡ walk_branches checked fuel (
            at_branches full bs
              (behind s r (if b then add_vma c.pc f.size else f.target))
              (l ++ (with_priv d f.instr ∷ []))
              (if length bs == 0
                  && ((if b then add_vma c.pc f.size else f.target) + 2 ^ 64 - f.size) % 2 ^ 64
                    == address
                then true
                else ha)
              hd)
  walk-forks {c} {s} {f} {r} checked full ha hd b bs l fuel at k few =
      let other : (suc (length bs) == 0) ≡ false = ground arith in
      walk-step branch_finished (branch_round p implicit_ret checked address) fuel _ _
        (unfinished full ha hd (b ∷ bs) c l (omega arith))
        (rw other at (
            branch_round-forks p implicit_ret memory address d l c s f r at (map_at full (b ∷ bs))
              checked ha hd k)
          ∙ ap (λ x. going x)
              (branch-bit p implicit_ret memory address d l c s f r at full b bs ha hd
                (omega arith)))

  pub walk-Course :
      {c e : Cpu} {bs : List Bool} {is : List TrInstr} (checked full ha hd : Bool) (b : Bool)
      (more : List Bool) (l : List TrInstr) (fuel total : ℕ)
      → Course p implicit_ret c bs is e
      → length (bs ++ (b ∷ more)) ≤ 31
      → total ≡ length is + fuel
      → walk_branches checked total (at_branches full (bs ++ (b ∷ more)) c l ha hd)
        ≡ walk_branches checked fuel
            (at_branches full (b ∷ more) e (l ++ map (with_priv d) is) ha hd)
  walk-Course checked full ha hd b more l fuel total (stay {c}) few e =
      ap (λ n. walk_branches checked n (at_branches full (b ∷ more) c l ha hd)) (omega (arith, e))
      ∙ ap (λ k. walk_branches checked fuel (at_branches full (b ∷ more) c k ha hd))
          (sym (append-nil l))
  walk-Course checked full ha hd b more l fuel zero (move at g rest) few e =
      absurd (omega (arith, e))
  walk-Course checked full ha hd b more l fuel (suc total)
        (move {c} {d = t} {f = f} {bs = bs} {is = is} at g rest) few e =
      walk-Goes checked full ha hd (bs ++ (b ∷ more)) l total at g
        (omega (arith, length-append bs (b ∷ more)))
      ∙ walk-Course checked full ha hd b more (l ++ (with_priv d f.instr ∷ [])) fuel total rest few
          (omega (arith, e))
      ∙ ap (λ k. walk_branches checked fuel (at_branches full (b ∷ more) t k ha hd))
          (one_more l f.instr is)
  walk-Course checked full ha hd b more l fuel zero (fork x at k rest) few e =
      absurd (omega (arith, e))
  walk-Course checked full ha hd b more l fuel (suc total)
        (fork {c} {d = t} {f = f} x {bs = bs} {is = is} at k rest) few e =
      let left = length-append bs (b ∷ more) in
      let other : (length (bs ++ (b ∷ more)) == 0) ≡ false = ground arith in
      rw other at (walk-forks checked full ha hd x (bs ++ (b ∷ more)) l total at k (omega arith))
      ∙ walk-Course checked full ha hd b more (l ++ (with_priv d f.instr ∷ [])) fuel total rest
          (omega (arith, few)) (omega (arith, e))
      ∙ ap (λ k. walk_branches checked fuel (at_branches full (b ∷ more) t k ha hd))
          (one_more l f.instr is)
