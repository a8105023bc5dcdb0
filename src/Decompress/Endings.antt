-- ===== src/Decompress/Endings.antt =====
-- The loops of the decoder along paths that end at the address of a packet.
use trdb.Base.{
  ℕ, zero, suc, ◌≤◌, ◌≡◌, ◌≢◌, refl, ap, ◌∙◌, Bool, true, false, if◌then◌else◌, ◌==◌, List, [], ◌∷◌,
  ◌++◌, map, length, arith,
}
use trdb.Trace.{TrInstr}
use trdb.Context.{Decompress, BranchMap}
use trdb.Program.{Program}
use trdb.Decompress.Course.{Cpu, Ends, leap, arrive, further}
use trdb.Decompress.Walk.{
  Run, going, Round, branch_round, address_round, branch_finished, address_finished, walk,
}
use trdb.Decompress.Follow.{place_at, with_priv}
use trdb.Decompress.Segments.{
  map_at, walk-step, walk-stop, branch_round-Goes, branch_round-leaps, address_round-Goes,
  address_round-leaps,
}
use trdb.Decompress.Loops.{at_branches, walk_branches, one_more}

module _ (p : Program) (implicit_ret : Bool) (memory : p.allocated ≡ true) (address : ℕ)
    (d : Decompress) where
  abbrev pub walk_address : ℕ → Round → Run Round
  walk_address = walk address_finished (address_round p implicit_ret address)

  differs : (a b : ℕ) → a ≢ b → (a == b) ≡ false
  differs a b h = ground (arith, h)

  agrees : (a b : ℕ) → a ≡ b → (a == b) ≡ true
  agrees a b h = ground (arith, h)

  -- With no branches left, the loop stops where the path does.
  pub walk_branches-Ends :
      {c e : Cpu} {is : List TrInstr} (checked full : Bool) (l : List TrInstr) (fuel : ℕ)
      → Ends p implicit_ret address c is e
      → length is ≤ fuel
      → (ha hd : Bool) × (walk_branches p implicit_ret memory address d checked fuel
            (at_branches p implicit_ret memory address d full [] c l false false)
          ≡ going (
              at_branches p implicit_ret memory address d full [] e
                (l ++ map (with_priv d) is)
                ha
                hd))
  unfolding branch_finished
  walk_branches-Ends checked full l zero (leap at k) few = absurd (omega (arith, few))
  walk_branches-Ends checked full l zero (arrive here at g) few = absurd (omega (arith, few))
  walk_branches-Ends checked full l zero (further other at g rest) few = absurd (omega (arith, few))
  walk_branches-Ends checked full l (suc fuel) (leap {c} {s} {f} {r} at k) few = (
    (if c.pc == address then true else false),
    true,
    walk-step branch_finished (branch_round p implicit_ret checked address) fuel _ _ refl (
          branch_round-leaps p implicit_ret memory address d l c s f r at (map_at full []) checked
            false false refl k)
        ∙ walk-stop branch_finished (branch_round p implicit_ret checked address) fuel _ refl,
  )
  walk_branches-Ends checked full l (suc fuel) (arrive {c} {s} {f} {r} {pc} here at g) few = (
    true,
    false,
    walk-step branch_finished (branch_round p implicit_ret checked address) fuel _ _ refl (
          rw (agrees c.pc address here) at (
            branch_round-Goes p implicit_ret memory address d l c s f r at (map_at full []) pc
              checked false false g))
        ∙ walk-stop branch_finished (branch_round p implicit_ret checked address) fuel _ refl,
  )
  walk_branches-Ends checked full l (suc fuel)
        (further {c} {d = e} {s} {f} {r} {pc} {is} other at g rest) few =
      let (ha, hd, done) =
        walk_branches-Ends checked full (l ++ (with_priv d f.instr ∷ [])) fuel rest
          (omega (arith, few)) in
      (
        ha,
        hd,
        walk-step branch_finished (branch_round p implicit_ret checked address) fuel _ _ refl (
              rw (differs c.pc address other) at (
                branch_round-Goes p implicit_ret memory address d l c s f r at (map_at full []) pc
                  checked false false g))
            ∙ done
            ∙ ap (λ k. going (at_branches p implicit_ret memory address d full [] e k ha hd))
                (one_more p implicit_ret memory address d l f.instr is),
      )

  abbrev pub at_address : BranchMap → Cpu → List TrInstr → Bool → Bool → Round
  at_address m c l ha hd = record {
    place = place_at d m c l;
    hit_address = ha;
    hit_discontinuity = hd;
  }

  -- The same for F_ADDR_ONLY, where the branch map does not matter.
  pub walk_address-Ends :
      {c e : Cpu} {is : List TrInstr} (m : BranchMap) (l : List TrInstr) (fuel : ℕ)
      → Ends p implicit_ret address c is e
      → length is ≤ fuel
      → (ha hd : Bool) × (walk_address fuel (at_address m c l false false)
          ≡ going (at_address m e (l ++ map (with_priv d) is) ha hd))
  unfolding address_finished
  walk_address-Ends m l zero (leap at k) few = absurd (omega (arith, few))
  walk_address-Ends m l zero (arrive here at g) few = absurd (omega (arith, few))
  walk_address-Ends m l zero (further other at g rest) few = absurd (omega (arith, few))
  walk_address-Ends m l (suc fuel) (leap {c} {s} {f} {r} at k) few = (
    (if c.pc == address then true else false),
    true,
    walk-step address_finished (address_round p implicit_ret address) fuel _ _ refl
          (address_round-leaps p implicit_ret memory address d l c s f r at m false false k)
        ∙ walk-stop address_finished (address_round p implicit_ret address) fuel _ (ground arith),
  )
  walk_address-Ends m l (suc fuel) (arrive {c} {s} {f} {r} {pc} here at g) few = (
    true,
    false,
    walk-step address_finished (address_round p implicit_ret address) fuel _ _ refl (
          rw (agrees c.pc address here) at
            (address_round-Goes p implicit_ret memory address d l c s f r at m pc false false g))
        ∙ walk-stop address_finished (address_round p implicit_ret address) fuel _ refl,
  )
  walk_address-Ends m l (suc fuel) (further {c} {d = e} {s} {f} {r} {pc} {is} other at g rest) few =
      let (ha, hd, done) =
        walk_address-Ends m (l ++ (with_priv d f.instr ∷ [])) fuel rest (omega (arith, few)) in
      (
        ha,
        hd,
        walk-step address_finished (address_round p implicit_ret address) fuel _ _ refl (
              rw (differs c.pc address other) at (
                address_round-Goes p implicit_ret memory address d l c s f r at m pc false false g))
            ∙ done
            ∙ ap (λ k. going (at_address m e k ha hd))
                (one_more p implicit_ret memory address d l f.instr is),
      )
