-- ===== src/Decompress/Walk.antt =====
-- The walk through the program in trdb_decompress_trace: what one instruction does to the place of
-- the decoder, and the loops over instructions for one packet.
use trdb.Base.{
  none, some, ℕ, zero, suc, ◌+◌, ◌-◌, ◌/◌, ◌%◌, ◌^◌, Bool, true, false, not, ◌&&◌, ◌||◌,
  if◌then◌else◌, ltb, ◌==◌, bit_and, List, [], ◌∷◌, ◌++◌,
}
use trdb.Errors.{Status, value, failed, trdb_nomem, trdb_bad_instr}
use trdb.Trace.{TrInstr}
use trdb.Insn.{is_unpred_discontinuity}
use trdb.Insn.Ras.{coret}
use trdb.Context.{Decompress, BranchMap}
use trdb.Program.{
  Program, Section, located, lost, switch_section, Fetched, disassemble_at_pc, add_vma, dis_noninsn,
  dis_nonbranch, dis_branch, dis_condbranch, dis_jsr, dis_condjsr, dis_dref, dis_dref2,
}
use trdb.Decompress.{RasResult, says_ret, update_ras, ras_value}

-- Where the decoder is: its context, the pc, the loaded section, and the instructions so far.
pub record Place : Type 0 where
  pub dec : Decompress
  pub pc : ℕ
  pub section : Section
  pub instr_list : List TrInstr

-- A part of the code goes on, or leaves by `goto fail` with the status that is returned. A loop
-- may also run out of fuel.
pub data Run {ℓ} (A : Type ℓ) : Type ℓ where
  going : A → Run A
  ended : Status → Place → Run A
  out_of_fuel : Run A

infixl 5 ◌>>=◌
abbrev pub ◌>>=◌ {ℓ κ} : {A : Type ℓ} {B : Type κ} → Run A → (A → Run B) → Run B
going a >>= f = f a
ended s here >>= f = ended s here
out_of_fuel >>= f = out_of_fuel

-- Where an inner variable `status` hides the outer one, which is 0, a failure returns 0.
abbrev pub hide_status {ℓ} : {A : Type ℓ} → Run A → Run A
hide_status (going a) = going a
hide_status (ended s here) = ended (value 0) here
hide_status out_of_fuel = out_of_fuel

-- What the return address stack says of the instruction: whether it is a return, and `ret_addr`.
pub record Hint : Type 0 where
  pub is_ret : Bool
  pub ret_addr : ℕ
  pub place : Place

abbrev pub hint_of : RasResult → Place → Hint
hint_of r here = record {
  is_ret = says_ret r;
  ret_addr = r.ret_addr;
  place = record here { dec = record here.dec { call_stack = r.stack } };
}

-- A loop's state: the place and its two flags.
pub record Round : Type 0 where
  pub place : Place
  pub hit_address : Bool
  pub hit_discontinuity : Bool

-- The branch map of the place, and the place with another.
abbrev pub map_of : Place → BranchMap
map_of here = here.dec.branch_map

-- update_ras and the tests behind it. A bad stack ends the packets of F_BRANCH_FULL, where its
-- status is kept as an int; elsewhere it is kept as an enum, whose type has no values below 0. In
-- both cases and for a coroutine `status` is 0.
unfoldable pub consult : Bool → Fetched → Place → Run Hint
unfolding ras_value
consult checked f here =
    let r = update_ras f.instr.instr f.instr.iaddr here.dec.call_stack 0 in
    let h = hint_of r here in
    elim r.status [
      | failed e ↦ if checked then ended (value 0) h.place else going h
      | value n ↦ if n == ras_value coret then ended (value 0) h.place else going h
    ]

-- The case dis_condbranch of a packet with branches: a bit of the map is used up.
unfoldable pub branch : ℕ → Fetched → Round → Round
branch absolute_addr f r =
    let map = map_of r.place in
    let cnt = (map.cnt + 2 ^ 32 - 1) % 2 ^ 32 in
    let pc = if bit_and map.bits 1 == 0 then f.target else r.place.pc in
    record {
      place = record r.place {
        dec = record r.place.dec { branch_map = record map { bits = map.bits / 2; cnt = cnt } };
        pc = pc;
      };
      hit_address =
          if cnt == 0 && (pc + 2 ^ 64 - f.size) % 2 ^ 64 == absolute_addr
          then true
          else r.hit_address;
      hit_discontinuity = r.hit_discontinuity;
    }

-- The conditions of the loops, negated.
unfoldable pub branch_finished : Round → Bool
branch_finished r = (map_of r.place).cnt == 0 && (r.hit_discontinuity || r.hit_address)

unfoldable pub address_finished : Round → Bool
address_finished r = r.hit_address || r.hit_discontinuity

module _ (p : Program) where
  -- The section of the pc is loaded.
  unfoldable pub locate : Place → Run Place
  locate here = elim (switch_section p here.section here.pc) [
    | located s ↦ going (record here { section = s })
    | lost e ↦ ended (failed e) here
  ]

  unfoldable pub fetch : Place → Run Fetched
  fetch here = elim (disassemble_at_pc p here.section here.pc) [
    | some f ↦ going f
    | none ↦ ended (failed trdb_bad_instr) here
  ]

  -- add_trace of the instruction with the current privilege, and `pc += size`
  unfoldable pub advance : Fetched → Place → Run Place
  advance f here = elim p.allocated [
    | true ↦ going (record here {
      pc = add_vma here.pc f.size;
      instr_list = here.instr_list ++ (record f.instr { priv = here.dec.privilege } ∷ []);
    })
    | false ↦ ended (failed trdb_nomem) here
  ]

module _ (p : Program) (implicit_ret : Bool) where
  -- The cases dis_jsr and dis_branch of a packet with branches.
  unfoldable pub jump : ℕ → Fetched → Hint → Round → Round
  jump absolute_addr f h r =
      let cnt = (map_of r.place).cnt in
      let to = λ (a : ℕ). record r.place { pc = a } in
      if implicit_ret && h.is_ret
      then record r { place = to h.ret_addr }
      else if cnt == 1 && f.target == 0
      then record r { place = to absolute_addr; hit_discontinuity = true }
      else if ltb 0 cnt || not (f.target == 0)
      then record r { place = to f.target }
      else record r { place = to absolute_addr; hit_discontinuity = true }

  -- The switch on the type of the instruction, `jumps` and `branches` being the cases that differ.
  unfoldable pub dispatch : Fetched → (Round → Round) → (Round → Round) → Round → Run Round
  dispatch f jumps branches r = elim f.insn_type [
    | dis_nonbranch ↦
        going (if is_unpred_discontinuity f.instr.instr implicit_ret then jumps r else r)
    | dis_jsr ↦ going (jumps r)
    | dis_branch ↦ going (jumps r)
    | dis_condbranch ↦ going (branches r)
    | dis_dref ↦ going r
    | dis_dref2 ↦ ended (failed trdb_bad_instr) r.place
    | dis_condjsr ↦ ended (failed trdb_bad_instr) r.place
    | dis_noninsn ↦ ended (failed trdb_bad_instr) r.place
  ]

  -- A round of the loops of F_BRANCH_FULL and F_BRANCH_DIFF; the former checks the stack.
  unfoldable pub branch_round : Bool → ℕ → Round → Run Round
  unfolding locate fetch consult advance dispatch jump branch
  branch_round checked absolute_addr r = do
    here ← locate p r.place
    f ← fetch p here
    h ← consult checked f here
    there ← advance p f h.place
    dispatch f (jump absolute_addr f h) (branch absolute_addr f) (record r {
      place = there;
      hit_address =
          if (map_of here).cnt == 0 && here.pc == absolute_addr then true else r.hit_address;
    })

  -- The cases dis_jsr and dis_branch of F_ADDR_ONLY.
  unfoldable pub jump_only : ℕ → Fetched → Hint → Round → Round
  jump_only absolute_addr f h r =
      let to = λ (a : ℕ). record r.place { pc = a } in
      if implicit_ret && h.is_ret
      then record r { place = to h.ret_addr }
      else if f.target == 0
      then record r { place = to absolute_addr; hit_discontinuity = true }
      else record r { place = to f.target }

  -- A round of the loop of F_ADDR_ONLY, where a conditional branch falls through.
  unfoldable pub address_round : ℕ → Round → Run Round
  unfolding locate fetch consult advance dispatch jump_only
  address_round absolute_addr r = hide_status (do
    here ← locate p r.place
    f ← fetch p here
    h ← consult false f here
    there ← advance p f h.place
    dispatch f (jump_only absolute_addr f h) (λ x. x)
        (record r {
          place = there;
          hit_address = if here.pc == absolute_addr then true else r.hit_address;
        }))

-- while (!finished) round
unfoldable pub walk : (Round → Bool) → (Round → Run Round) → ℕ → Round → Run Round
walk finished round zero r = elim (finished r) [ true ↦ going r | false ↦ out_of_fuel ]
walk finished round (suc fuel) r = elim (finished r) [
  | true ↦ going r
  | false ↦ do next ← round r; walk finished round fuel next
]
