-- ===== src/Decompress/Follow.antt =====
-- The loops of the decoder follow paths.
use trdb.Base.{
  ℕ, ◌≡◌, refl, Bool, true, false, ◌&&◌, if◌then◌else◌, ◌==◌, some, List, [], ◌∷◌, ◌++◌, arith,
}
use trdb.Errors.{value}
use trdb.Trace.{TrInstr}
use trdb.Insn.Ras.{coret}
use trdb.Context.{Decompress, BranchMap}
use trdb.Program.{Program, Section, located, switch_section, Fetched, disassemble_at_pc, add_vma}
use trdb.Decompress.{RasResult, update_ras, ras_value}
use trdb.Decompress.Course.{Cpu, falls, forks, leaps, goes, jump_effect, effect, At, behind}
use trdb.Decompress.Walk.{
  Place, going, hide_status, locate, fetch, consult, advance, hint_of, Round, dispatch, jump,
  jump_only, branch, branch_round, address_round,
}

-- The decoder at a point of a path.
abbrev pub place_at : Decompress → BranchMap → Cpu → List TrInstr → Place
place_at d m c l = record {
  dec = record d { call_stack = c.stack; branch_map = m };
  pc = c.pc;
  section = c.section;
  instr_list = l;
}

abbrev pub with_priv : Decompress → TrInstr → TrInstr
with_priv d i = record i { priv = d.privilege }

module _ (p : Program) where
  pub locate-found :
      (here : Place) (s : Section)
      → switch_section p here.section here.pc ≡ located s
      → locate p here ≡ going (record here { section = s })
  unfolding locate
  locate-found here s e = rw (e, locate) refl

  pub fetch-found :
      (here : Place) (f : Fetched)
      → disassemble_at_pc p here.section here.pc ≡ some f
      → fetch p here ≡ going f
  unfolding fetch
  fetch-found here f e = rw (e, fetch) refl

  pub advance-found :
      (here : Place) (f : Fetched)
      → p.allocated ≡ true
      → advance p f here
        ≡ going (record here {
          pc = add_vma here.pc f.size;
          instr_list = here.instr_list ++ (with_priv here.dec f.instr ∷ []);
        })
  unfolding advance
  advance-found here f e = rw (e, advance) refl

consult-calm :
    (checked : Bool) (f : Fetched) (here : Place) (kind : ℕ) (r : RasResult)
    → update_ras f.instr.instr f.instr.iaddr here.dec.call_stack 0 ≡ r
    → r.status ≡ value kind
    → (kind == ras_value coret) ≡ false
    → consult checked f here ≡ going (hint_of r here)
unfolding consult
consult-calm checked f here kind r e k other = rw (e, consult) (ground arith)

module _ (p : Program) (implicit_ret : Bool) (memory : p.allocated ≡ true) (address : ℕ)
    (d : Decompress) (m : BranchMap) (l : List TrInstr) (c : Cpu) (s : Section) (f : Fetched)
    (r : RasResult) (at : At p c s f r) where
  abbrev ready : Place
  ready = place_at d m (record c { section = s }) l

  abbrev next : Place
  next = place_at d m (behind s r (add_vma c.pc f.size)) (l ++ (with_priv d f.instr ∷ []))

  pub branch_round-At :
      (checked ha hd : Bool)
      → branch_round p implicit_ret checked address
          (record { place = place_at d m c l; hit_address = ha; hit_discontinuity = hd })
        ≡ dispatch p implicit_ret f
            (jump p implicit_ret address f (hint_of r ready))
            (branch address f)
            (record {
              place = next;
              hit_address = if m.cnt == 0 && c.pc == address then true else ha;
              hit_discontinuity = hd;
            })
  unfolding branch_round
  branch_round-At checked ha hd =
      rw
        (
          locate-found p (place_at d m c l) s at.found,
          fetch-found p ready f at.fetched,
          consult-calm checked f ready at.kind r at.hint at.calm at.no_coret,
          advance-found p (hint_of r ready).place f memory,
        )
        refl

  pub address_round-At :
      (ha hd : Bool)
      → address_round p implicit_ret address
          (record { place = place_at d m c l; hit_address = ha; hit_discontinuity = hd })
        ≡ hide_status (
            dispatch p implicit_ret f
              (jump_only p implicit_ret address f (hint_of r ready))
              (λ x. x)
              (record {
                place = next;
                hit_address = if c.pc == address then true else ha;
                hit_discontinuity = hd;
              }))
  unfolding address_round
  address_round-At ha hd =
      rw
        (
          locate-found p (place_at d m c l) s at.found,
          fetch-found p ready f at.fetched,
          consult-calm false f ready at.kind r at.hint at.calm at.no_coret,
          advance-found p (hint_of r ready).place f memory,
        )
        refl

module _ (p : Program) (implicit_ret : Bool) (f : Fetched) (r : RasResult) (address : ℕ)
    (here : Place) (x : Round) where
  pub dispatch-falls :
      (jumps branches : Round → Round)
      → effect p implicit_ret f r ≡ falls
      → dispatch p implicit_ret f jumps branches x ≡ going x
  unfolding effect jump_effect dispatch
  dispatch-falls jumps branches e = ground arith

  pub dispatch-forks :
      (jumps branches : Round → Round)
      → effect p implicit_ret f r ≡ forks
      → dispatch p implicit_ret f jumps branches x ≡ going (branches x)
  unfolding effect jump_effect dispatch
  dispatch-forks jumps branches e = ground arith

  pub dispatch-goes :
      (branches : Round → Round) (a : ℕ)
      → effect p implicit_ret f r ≡ goes a
      → dispatch p implicit_ret f (jump p implicit_ret address f (hint_of r here)) branches x
        ≡ going (record x { place = record x.place { pc = a } })
  unfolding effect jump_effect dispatch jump
  dispatch-goes branches a e = ground arith

  pub dispatch_only-goes :
      (branches : Round → Round) (a : ℕ)
      → effect p implicit_ret f r ≡ goes a
      → dispatch p implicit_ret f (jump_only p implicit_ret address f (hint_of r here)) branches x
        ≡ going (record x { place = record x.place { pc = a } })
  unfolding effect jump_effect dispatch jump_only
  dispatch_only-goes branches a e = ground arith

  pub dispatch-leaps :
      (branches : Round → Round)
      → x.place.dec.branch_map.cnt ≡ 0
      → effect p implicit_ret f r ≡ leaps
      → dispatch p implicit_ret f (jump p implicit_ret address f (hint_of r here)) branches x
        ≡ going (record x { place = record x.place { pc = address }; hit_discontinuity = true })
  unfolding effect jump_effect dispatch jump
  dispatch-leaps branches none_left e = ground arith

  pub dispatch_only-leaps :
      (branches : Round → Round)
      → effect p implicit_ret f r ≡ leaps
      → dispatch p implicit_ret f (jump_only p implicit_ret address f (hint_of r here)) branches x
        ≡ going (record x { place = record x.place { pc = address }; hit_discontinuity = true })
  unfolding effect jump_effect dispatch jump_only
  dispatch_only-leaps branches e = ground arith
