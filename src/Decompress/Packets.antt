-- ===== src/Decompress/Packets.antt =====
-- The decoder of src/trace_debugger.c on one packet finds the path that the packet stands for.
use trdb.Base.{
  ℕ, suc, ◌+◌, ◌-◌, ◌%◌, ◌^◌, ◌≤◌, ◌≡◌, inl, inr, refl, sym, ap, ◌∙◌, Bool, true, false,
  if◌then◌else◌, ◌==◌, List, [], ◌∷◌, ◌++◌, map, length, length-append, arith,
}
use mathlib.Core.List.{append-nil, append_assoc, map-append}
use trdb.Trace.{TrInstr, TrPacket}
use trdb.Context.{Decompress, BranchMap}
use trdb.Program.{Program}
use trdb.Decompress.{Resolved}
use trdb.Decompress.Course.{Cpu, behind, Ends}
use trdb.Decompress.Walk.{Place, going, branch_round, branch_finished}
use trdb.Decompress.Follow.{place_at, with_priv}
use trdb.Decompress.Segments.{map_at, walk-stop}
use trdb.Decompress.Loops.{at_branches, walk_branches, walk-forks, walk-Course}
use trdb.Decompress.Endings.{walk_branches-Ends, walk_address-Ends}
use trdb.Decompress.Tells.{Tail, full_map, at_branch, beyond, Covers, covers, Marks}
use trdb.Decompress.Trace.{open_map, count_map, decompress_branches, decompress_address}

module _ (p : Program) (implicit_ret : Bool) (memory : p.allocated ≡ true) (address : ℕ)
    (d : Decompress) where
  -- Behind the last branch the loop stops where the tail does.
  walk-Tail :
      {c e : Cpu} {is : List TrInstr} (checked full ha : Bool) (last : ℕ) (l : List TrInstr)
      (fuel : ℕ)
      → Tail p implicit_ret full address last c is e
      → ha ≡ (if last == address then true else false)
      → length is ≤ fuel
      → (ha' hd' : Bool) × (walk_branches p implicit_ret memory address d checked fuel
            (at_branches p implicit_ret memory address d full [] c l ha full)
          ≡ going (
              at_branches p implicit_ret memory address d full [] e
                (l ++ map (with_priv d) is)
                ha'
                hd'))
  unfolding branch_finished
  walk-Tail {c} checked full ha last l fuel (full_map k) h few = (
    ha,
    full,
    walk-stop branch_finished (branch_round p implicit_ret checked address) fuel _ (ground arith)
        ∙ ap (λ x. going (at_branches p implicit_ret memory address d full [] c x ha full))
            (sym (append-nil l)),
  )
  walk-Tail {c} checked full ha last l fuel (at_branch k) h few = (
    ha,
    full,
    walk-stop branch_finished (branch_round p implicit_ret checked address) fuel _ (ground arith)
        ∙ ap (λ x. going (at_branches p implicit_ret memory address d full [] c x ha full))
            (sym (append-nil l)),
  )
  walk-Tail {c} {e} {is} checked full ha last l fuel (beyond k other rest) h few =
      let missed : ha ≡ false = ground arith in
      let (ha', hd', done) =
        walk_branches-Ends p implicit_ret memory address d checked full l fuel rest few in
      (
        ha',
        hd',
        ap
              (λ x.
                walk_branches p implicit_ret memory address d checked fuel
                  (at_branches p implicit_ret memory address d full [] c l ha x))
              k
            ∙ ap
                (λ x.
                  walk_branches p implicit_ret memory address d checked fuel
                    (at_branches p implicit_ret memory address d full [] c l x false))
                missed
            ∙ done,
      )

  map_there :
      (l : List TrInstr) (before is : List TrInstr) (i : TrInstr)
      → ((l ++ map (with_priv d) before) ++ (with_priv d i ∷ [])) ++ map (with_priv d) is
        ≡ l ++ map (with_priv d) (before ++ (i ∷ is))
  map_there l before is i =
      append_assoc (l ++ map (with_priv d) before) (with_priv d i ∷ []) (map (with_priv d) is)
      ∙ append_assoc l (map (with_priv d) before) (with_priv d i ∷ map (with_priv d) is)
      ∙ ap (λ x. l ++ x) (sym (map-append (with_priv d) before (i ∷ is)))

  walk-Covers :
      {c e : Cpu} {bs : List Bool} {is : List TrInstr} (checked full : Bool) (l : List TrInstr)
      (fuel : ℕ)
      → Covers p implicit_ret full address c bs is e
      → length bs ≤ 31
      → length is ≤ fuel
      → (ha' hd' : Bool) × (walk_branches p implicit_ret memory address d checked fuel
            (at_branches p implicit_ret memory address d full bs c l false full)
          ≡ going (
              at_branches p implicit_ret memory address d full [] e
                (l ++ map (with_priv d) is)
                ha'
                hd'))
  walk-Covers {c} {e} checked full l fuel
        (covers {t = t} {s} {f} {r} b {bs} {before} {is} {pc} path at k target tail) few enough =
      let rest : ℕ = fuel - length before - 1 in
      let sizes : length (before ++ (f.instr ∷ is)) ≡ length before + suc (length is) =
        length-append before (f.instr ∷ is) in
      let total : fuel ≡ length before + suc rest = omega (arith, sizes, enough) in
      let less : length is ≤ rest = omega (arith, sizes, enough) in
      let hit : Bool = if (pc + 2 ^ 64 - f.size) % 2 ^ 64 == address then true else false in
      let list : List TrInstr = (l ++ map (with_priv d) before) ++ (with_priv d f.instr ∷ []) in
      let (ha', hd', done) = walk-Tail checked full hit _ list rest tail refl less in
      (
        ha',
        hd',
        walk-Course p implicit_ret memory address d checked full false full b [] l (suc rest) fuel
              path few total
            ∙ walk-forks p implicit_ret memory address d checked full false full b []
                (l ++ map (with_priv d) before) rest at k (omega arith)
            ∙ ap
                (λ n. walk_branches p implicit_ret memory address d checked rest (
                  at_branches p implicit_ret memory address d full [] (behind s r n) list
                    (if (n + 2 ^ 64 - f.size) % 2 ^ 64 == address then true else false) full))
                (sym target)
            ∙ done
            ∙ ap (λ x. going (at_branches p implicit_ret memory address d full [] e x ha' hd'))
                (map_there l before is f.instr),
      )

-- The map of the packet, once its count is filled in, is that of the branches.
module _ (q : TrPacket) (bs : List Bool) (marked : Marks q bs) where
  count_map-open_map : count_map (open_map q) ≡ map_at (length bs == 31) bs
  unfolding open_map
  count_map-open_map =
      let any = marked.any in
      elim marked.count [
        | inl h ↦ rw (marked.bits, h) (ground arith)
        | inr (h, k) ↦ rw (marked.bits, h, k) refl
      ]

  full-open_map : (open_map q).full ≡ (length bs == 31)
  unfolding open_map
  full-open_map =
      let any = marked.any in
      elim marked.count [ inl h ↦ rw h (ground arith) | inr (h, k) ↦ rw (h, k) refl ]

-- Behind a packet: its branch map, and the last address.
abbrev pub at_end : Decompress → ℕ → BranchMap → Cpu → List TrInstr → Place
at_end d last m e l = place_at (record d { last_packet_addr = last }) m e l

module _ (p : Program) (implicit_ret full_address : Bool) (memory : p.allocated ≡ true) (fuel : ℕ)
    (d : Decompress) (a : Resolved) where
  pub decompress_branches-Covers :
      (q : TrPacket) (checked : Bool) (bs : List Bool) (c e : Cpu) (l is : List TrInstr)
      → Marks q bs
      → Covers p implicit_ret (length bs == 31) a.absolute_addr c bs is e
      → length is ≤ fuel
      → decompress_branches p implicit_ret full_address fuel checked a (place_at d (open_map q) c l)
        ≡ going (
            at_end d a.last_packet_addr (map_at (length bs == 31) []) e (l ++ map (with_priv d) is))
  unfolding decompress_branches
  decompress_branches-Covers q checked bs c e l is marked path few =
      let after = record d { last_packet_addr = a.last_packet_addr } in
      let (ha, hd, done) =
        walk-Covers p implicit_ret memory a.absolute_addr after checked (length bs == 31) l fuel
          path marked.few few in
      rw (count_map-open_map q bs marked, full-open_map q bs marked, done, decompress_branches) refl

  pub decompress_address-Ends :
      (m : BranchMap) (c e : Cpu) (l is : List TrInstr)
      → Ends p implicit_ret a.absolute_addr c is e
      → length is ≤ fuel
      → decompress_address p implicit_ret full_address fuel a (place_at d m c l)
        ≡ going (at_end d a.last_packet_addr m e (l ++ map (with_priv d) is))
  unfolding decompress_address
  decompress_address-Ends m c e l is path few =
      let after = record d { last_packet_addr = a.last_packet_addr } in
      let (ha, hd, done) =
        walk_address-Ends p implicit_ret memory a.absolute_addr after m l fuel path few in
      rw (done, decompress_address) refl
