-- ===== src/Decompress/Trace.antt =====
-- trdb_decompress_trace of src/trace_debugger.c, packet by packet. The memory of the disassembler
-- and the messages are left out. `fuel` bounds the instructions of each packet.
use trdb.Base.{ℕ, Bool, true, false, ◌||◌, if◌then◌else◌, ◌==◌, Option, none, some, List, [], ◌∷◌}
use trdb.Errors.{Status, value, failed, trdb_bad_instr, trdb_bad_config, trdb_bad_vma}
use trdb.Trace.{
  TrInstr, TrPacket, branch_full, branch_diff, addr_only, sync, trace, software, timer, empty,
}
use trdb.Insn.{is_unpred_discontinuity}
use trdb.Context.{Ctx, Decompress, BranchMap}
use trdb.Program.{
  Program, Section, located, lost, load_section, trdb_get_section_for_vma, Fetched, dis_noninsn,
  dis_nonbranch, dis_branch, dis_condbranch, dis_jsr, dis_condjsr, dis_dref, dis_dref2,
}
use trdb.Decompress.{Resolved, resolve_branch_full, resolve_branch_diff, resolve_addr_only}
use trdb.Decompress.Walk.{
  Place, Run, going, ended, out_of_fuel, ◌>>=◌, hide_status, locate, fetch, advance, walk,
  branch_round, branch_finished, address_round, address_finished,
}

-- `branch_map` from a packet with branches.
unfoldable pub open_map : TrPacket → BranchMap
open_map q = record {
  full = q.branches == 31 || q.branches == 0;
  bits = q.branch_map;
  cnt = q.branches;
}

-- A full map without a count has 31 branches.
abbrev pub count_map : BranchMap → BranchMap
count_map m = if m.cnt == 0 then record m { cnt = 31 } else m

module _ (p : Program) (implicit_ret full_address : Bool) (fuel : ℕ) where
  -- The walk for a packet with branches, once its address is resolved.
  unfoldable pub decompress_branches : Bool → Resolved → Place → Run Place
  unfolding walk branch_round branch_finished
  decompress_branches checked a here = do
    let dec = here.dec
    r ← walk (branch_finished) (branch_round p implicit_ret checked a.absolute_addr) fuel (record {
      place = record here {
        dec = record dec {
          last_packet_addr = a.last_packet_addr;
          branch_map = count_map dec.branch_map;
        };
      };
      hit_address = false;
      hit_discontinuity = dec.branch_map.full;
    })
    going r.place

  -- F_ADDR_ONLY
  unfoldable pub decompress_address : Resolved → Place → Run Place
  unfolding walk address_round address_finished
  decompress_address a here = do
    r ← walk (address_finished) (address_round p implicit_ret a.absolute_addr) fuel (record {
      place = record here { dec = record here.dec { last_packet_addr = a.last_packet_addr } };
      hit_address = false;
      hit_discontinuity = false;
    })
    going r.place

  -- The switch of F_SYNC on the type of its instruction.
  unfoldable pub sync_jump : TrPacket → Fetched → Place → Run Place
  sync_jump q f here = elim f.insn_type [
    | dis_nonbranch ↦ going (
        if is_unpred_discontinuity f.instr.instr implicit_ret
        then record here { pc = f.target }
        else here)
    | dis_jsr ↦ going (record here { pc = f.target })
    | dis_branch ↦ going (record here { pc = f.target })
    | dis_condbranch ↦ going (if q.branch then here else record here { pc = f.target })
    | dis_dref ↦ going here
    | dis_dref2 ↦ ended (failed trdb_bad_instr) here
    | dis_condjsr ↦ ended (failed trdb_bad_instr) here
    | dis_noninsn ↦ ended (failed trdb_bad_instr) here
  ]

  -- F_SYNC; the status of what follows the section is an inner variable.
  unfoldable pub decompress_sync : TrPacket → Place → Run Place
  unfolding locate fetch advance sync_jump
  decompress_sync q here = do
    there ← locate p (record here {
      dec = record here.dec { privilege = q.privilege; last_packet_addr = q.address };
      pc = q.address;
    })
    hide_status (do f ← fetch p there; next ← advance p f there; sync_jump q f next)

  -- The part of the loop over packets behind the section, for each format.
  unfoldable pub decompress_format : TrPacket → Place → Run Place
  unfolding decompress_branches decompress_address decompress_sync open_map
  decompress_format q here =
      let dec = here.dec in
      let mapped = record here { dec = record dec { branch_map = open_map q } } in
      elim q.format [
        | branch_full ↦ decompress_branches true (resolve_branch_full dec.last_packet_addr q) mapped
        | branch_diff ↦
            if full_address
            then ended (failed trdb_bad_config) mapped
            else decompress_branches false (resolve_branch_diff dec.last_packet_addr q) mapped
        | addr_only ↦
            decompress_address (resolve_addr_only full_address dec.last_packet_addr q) here
        | sync ↦ decompress_sync q here
      ]

  unfoldable pub decompress_packet : TrPacket → Place → Run Place
  unfolding decompress_format locate
  decompress_packet q here = elim q.msg_type [
    | trace ↦ do there ← locate p here; decompress_format q there
    | software ↦ going here
    | timer ↦ going here
    | empty ↦ going here
  ]

  unfoldable pub decompress_packets : List TrPacket → Place → Run Place
  unfolding decompress_packet
  decompress_packets [] here = going here
  decompress_packets (q ∷ rest) here = do
    there ← decompress_packet q here
    decompress_packets rest there

-- The status, `*ctx->dec` and the list of instructions that the call leaves.
pub record Decompressed : Type 0 where
  pub status : Status
  pub dec : Decompress
  pub instr_list : List TrInstr

abbrev pub finished_run : Run Place → Option Decompressed
finished_run (going here) =
    some (record { status = value 0; dec = here.dec; instr_list = here.instr_list })
finished_run (ended s here) =
    some (record { status = s; dec = here.dec; instr_list = here.instr_list })
finished_run out_of_fuel = none

-- `none` is a call that runs out of fuel.
unfoldable pub trdb_decompress_trace :
    ℕ → Ctx → Program → List TrPacket → List TrInstr → Option Decompressed
unfolding decompress_packets
trdb_decompress_trace fuel c p packets instrs =
    let start : Section → Place =
      λ s. record { dec = c.dec; pc = p.start_address; section = s; instr_list = instrs } in
    let stopped : Status → Option Decompressed =
      λ s. some (record { status = s; dec = c.dec; instr_list = instrs }) in
    elim (trdb_get_section_for_vma p.sections p.start_address) [
      | none ↦ stopped (failed trdb_bad_vma)
      | some s ↦ elim (load_section p s) [
        | lost e ↦ stopped (failed e)
        | located t ↦ finished_run (
            decompress_packets p c.config.implicit_ret c.config.full_address fuel packets (start t))
      ]
    ]
