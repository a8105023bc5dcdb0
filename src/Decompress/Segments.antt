-- ===== src/Decompress/Segments.antt =====
-- Rounds and loops of the decoder along paths.
use trdb.Base.{
  ℕ, zero, suc, ◌+◌, ◌-◌, ◌*◌, ◌%◌, ◌^◌, ◌<◌, ◌≡◌, refl, ap, ◌∙◌, Bool, true, false, ◌&&◌,
  if◌then◌else◌, ◌==◌, List, [], ◌∷◌, ◌++◌, length, arith,
}
use trdb.Bits.{bit_and_low}
use trdb.Trace.{TrInstr, bit_value}
use trdb.Context.{Decompress, BranchMap}
use trdb.Program.{Program, Section, Fetched, add_vma}
use trdb.Decompress.{RasResult}
use trdb.Decompress.Course.{
  Cpu, forks, leaps, effect, At, behind, Goes, by_falling, by_going, bits_of,
}
use trdb.Decompress.Walk.{
  Place, Run, going, hide_status, Round, branch, branch_round, address_round, walk,
}
use trdb.Decompress.Follow.{
  place_at, with_priv, branch_round-At, address_round-At, dispatch-falls, dispatch-forks,
  dispatch-goes, dispatch_only-goes, dispatch-leaps, dispatch_only-leaps,
}

-- The map with these branches left.
abbrev pub map_at : Bool → List Bool → BranchMap
map_at full bs = record { full = full; bits = bits_of bs; cnt = length bs }

module _ (finished : Round → Bool) (round : Round → Run Round) where
  pub walk-step :
      (fuel : ℕ) (x y : Round)
      → finished x ≡ false
      → round x ≡ going y
      → walk finished round (suc fuel) x ≡ walk finished round fuel y
  unfolding walk
  walk-step fuel x y e k = rw (e, k, walk) refl

  pub walk-stop : (fuel : ℕ) (x : Round) → finished x ≡ true → walk finished round fuel x ≡ going x
  unfolding walk
  walk-stop zero x e = rw (e, walk) refl
  walk-stop (suc fuel) x e = rw (e, walk) refl

module _ (p : Program) (implicit_ret : Bool) (memory : p.allocated ≡ true) (address : ℕ)
    (d : Decompress) (l : List TrInstr) (c : Cpu) (s : Section) (f : Fetched) (r : RasResult)
    (at : At p c s f r) where
  abbrev pub longer_list : List TrInstr
  longer_list = l ++ (with_priv d f.instr ∷ [])

  abbrev ready : BranchMap → Place
  ready m = place_at d m (record c { section = s }) l

  pub branch_round-Goes :
      (m : BranchMap) (pc : ℕ) (checked ha hd : Bool)
      → Goes p implicit_ret c f r pc
      → branch_round p implicit_ret checked address
          (record { place = place_at d m c l; hit_address = ha; hit_discontinuity = hd })
        ≡ going (record {
          place = place_at d m (behind s r pc) longer_list;
          hit_address = if m.cnt == 0 && c.pc == address then true else ha;
          hit_discontinuity = hd;
        })
  branch_round-Goes m pc checked ha hd (by_falling e k) =
      branch_round-At p implicit_ret memory address d m l c s f r at checked ha hd
      ∙ dispatch-falls p implicit_ret f r address (ready m) _ _ _ e
      ∙ rw k refl
  branch_round-Goes m pc checked ha hd (by_going e) =
      branch_round-At p implicit_ret memory address d m l c s f r at checked ha hd
      ∙ dispatch-goes p implicit_ret f r address (ready m) _ _ pc e

  pub branch_round-forks :
      (m : BranchMap) (checked ha hd : Bool)
      → effect p implicit_ret f r ≡ forks
      → branch_round p implicit_ret checked address
          (record { place = place_at d m c l; hit_address = ha; hit_discontinuity = hd })
        ≡ going (
            branch address f (record {
              place = place_at d m (behind s r (add_vma c.pc f.size)) longer_list;
              hit_address = if m.cnt == 0 && c.pc == address then true else ha;
              hit_discontinuity = hd;
            }))
  branch_round-forks m checked ha hd e =
      branch_round-At p implicit_ret memory address d m l c s f r at checked ha hd
      ∙ dispatch-forks p implicit_ret f r address (ready m) _ _ _ e

  pub branch_round-leaps :
      (m : BranchMap) (checked ha hd : Bool)
      → m.cnt ≡ 0
      → effect p implicit_ret f r ≡ leaps
      → branch_round p implicit_ret checked address
          (record { place = place_at d m c l; hit_address = ha; hit_discontinuity = hd })
        ≡ going (record {
          place = place_at d m (behind s r address) longer_list;
          hit_address = if m.cnt == 0 && c.pc == address then true else ha;
          hit_discontinuity = true;
        })
  branch_round-leaps m checked ha hd z e =
      branch_round-At p implicit_ret memory address d m l c s f r at checked ha hd
      ∙ dispatch-leaps p implicit_ret f r address (ready m) _ _ z e

  -- A bit is used up.
  pub branch-bit :
      (full b : Bool) (bs : List Bool) (ha hd : Bool)
      → length bs < 2 ^ 31
      → branch address f (record {
        place = place_at d (map_at full (b ∷ bs)) (behind s r (add_vma c.pc f.size)) longer_list;
        hit_address = ha;
        hit_discontinuity = hd;
      })
        ≡ record {
          place =
              place_at d
                (map_at full bs)
                (behind s r (if b then add_vma c.pc f.size else f.target))
                longer_list;
          hit_address =
              if length bs == 0
                && ((if b then add_vma c.pc f.size else f.target) + 2 ^ 64 - f.size) % 2 ^ 64
                  == address
              then true
              else ha;
          hit_discontinuity = hd;
        }
  unfolding branch bits_of
  branch-bit full b bs ha hd few = ground (arith, bit_and_low 1 (bit_value b + 2 * bits_of bs))

  pub address_round-Goes :
      (m : BranchMap) (pc : ℕ) (ha hd : Bool)
      → Goes p implicit_ret c f r pc
      → address_round p implicit_ret address
          (record { place = place_at d m c l; hit_address = ha; hit_discontinuity = hd })
        ≡ going (record {
          place = place_at d m (behind s r pc) longer_list;
          hit_address = if c.pc == address then true else ha;
          hit_discontinuity = hd;
        })
  address_round-Goes m pc ha hd (by_falling e k) =
      address_round-At p implicit_ret memory address d m l c s f r at ha hd
      ∙ ap hide_status (dispatch-falls p implicit_ret f r address (ready m) _ _ _ e)
      ∙ rw k refl
  address_round-Goes m pc ha hd (by_going e) =
      address_round-At p implicit_ret memory address d m l c s f r at ha hd
      ∙ ap hide_status (dispatch_only-goes p implicit_ret f r address (ready m) _ _ pc e)

  pub address_round-leaps :
      (m : BranchMap) (ha hd : Bool)
      → effect p implicit_ret f r ≡ leaps
      → address_round p implicit_ret address
          (record { place = place_at d m c l; hit_address = ha; hit_discontinuity = hd })
        ≡ going (record {
          place = place_at d m (behind s r address) longer_list;
          hit_address = if c.pc == address then true else ha;
          hit_discontinuity = true;
        })
  address_round-leaps m ha hd e =
      address_round-At p implicit_ret memory address d m l c s f r at ha hd
      ∙ ap hide_status (dispatch_only-leaps p implicit_ret f r address (ready m) _ _ e)
