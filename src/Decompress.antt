-- ===== src/Decompress.antt =====
-- Parts of decompression in src/trace_debugger.c: the address that a packet stands for, the return
-- address stack, and the comparison of two instructions.
pub mod Walk
pub mod Trace
pub mod Course
pub mod Follow
pub mod Segments
pub mod Loops
pub mod Endings
pub mod Tells
pub mod Packets
pub mod Whole
pub mod Sound
pub mod Grows
pub mod Statuses
pub mod CallStack
use trdb.Base.{
  ℕ, ◌+◌, ◌-◌, ◌%◌, ◌^◌, Bool, true, false, ◌||◌, if◌then◌else◌, ◌==◌, not, List, [], ◌∷◌, bit_and,
}
use trdb.Errors.{Status, value, failed, trdb_bad_ras}
use trdb.Trace.{TrInstr, TrPacket, branch_full, branch_diff, addr_only, sync}
use trdb.Insn.Ras.{Ras, no_hint, ret, coret, call, get_instr_ras_type}

-- `absolute_addr`, and what is kept for the next differential address.
pub record Resolved : Type 0 where
  pub absolute_addr : ℕ
  pub last_packet_addr : ℕ

-- `last_packet_addr - packet->address` on addr_t
abbrev pub address_behind : ℕ → ℕ → ℕ
address_behind last address = (last + 2 ^ 32 - address) % 2 ^ 32

-- The starts of the cases of trdb_decompress_trace, up to the walk through the program. A packet
-- whose map is full may have no branch count, and then no address to keep.
abbrev pub resolve_branch_full : ℕ → TrPacket → Resolved
resolve_branch_full last p = record {
  absolute_addr = p.address;
  last_packet_addr = if p.branches == 0 then last else p.address;
}

abbrev pub resolve_branch_diff : ℕ → TrPacket → Resolved
resolve_branch_diff last p = record {
  absolute_addr = address_behind last p.address;
  last_packet_addr = if p.branches == 0 then last else address_behind last p.address;
}

abbrev pub resolve_sync : TrPacket → Resolved
resolve_sync p = record { absolute_addr = p.address; last_packet_addr = p.address }

abbrev pub resolve_addr_only : Bool → ℕ → TrPacket → Resolved
resolve_addr_only full_address last p =
    let absolute_addr = if full_address then p.address else address_behind last p.address in
    record { absolute_addr = absolute_addr; last_packet_addr = absolute_addr }

-- What the four formats resolve, together; trdb_decompress_trace has each in its own case.
unfoldable pub resolve_address : Bool → ℕ → TrPacket → Resolved
resolve_address full_address last p = elim p.format [
  | branch_full ↦ resolve_branch_full last p
  | branch_diff ↦ resolve_branch_diff last p
  | addr_only ↦ resolve_addr_only full_address last p
  | sync ↦ resolve_sync p
]

-- update_ras; the stack has its top first. What it leaves: its status, the stack and `*ret_addr`.
pub record RasResult : Type 0 where
  pub status : Status
  pub stack : List ℕ
  pub ret_addr : ℕ

-- The values of `enum trdb_ras`.
unfoldable pub ras_value : Ras → ℕ
ras_value no_hint = 0
ras_value ret = 1
ras_value call = 2
ras_value coret = 3

-- `ret` as a result of update_ras
unfoldable pub says_ret : RasResult → Bool
unfolding ras_value
says_ret r = elim r.status [ value n ↦ n == ras_value ret | failed e ↦ false ]

-- `addr + (compressed ? 2 : 4)`
abbrev pub after_call : ℕ → ℕ → ℕ
after_call instr addr = (addr + (if bit_and instr 0x3 == 0x3 then 4 else 2)) % 2 ^ 32

-- The switch on the hint; `link` is the address behind a call.
unfoldable pub apply_ras : Ras → ℕ → List ℕ → ℕ → RasResult
unfolding ras_value
apply_ras no_hint link stack ret_addr = record {
  status = value (ras_value no_hint);
  stack = stack;
  ret_addr = ret_addr;
}
apply_ras ret link [] ret_addr = record {
  status = failed trdb_bad_ras;
  stack = [];
  ret_addr = ret_addr;
}
apply_ras ret link (top ∷ rest) ret_addr = record {
  status = value (ras_value ret);
  stack = rest;
  ret_addr = top;
}
apply_ras coret link [] ret_addr = record {
  status = failed trdb_bad_ras;
  stack = [];
  ret_addr = ret_addr;
}
apply_ras coret link (top ∷ rest) ret_addr = record {
  status = value (ras_value coret);
  stack = link ∷ rest;
  ret_addr = top;
}
apply_ras call link stack ret_addr = record {
  status = value (ras_value call);
  stack = link ∷ stack;
  ret_addr = ret_addr;
}

unfoldable pub update_ras : ℕ → ℕ → List ℕ → ℕ → RasResult
unfolding apply_ras
update_ras instr addr stack ret_addr =
    apply_ras (get_instr_ras_type instr) (after_call instr addr) stack ret_addr

bool_eq : Bool → Bool → Bool
bool_eq true b = b
bool_eq false b = not b

-- trdb_compare_instr: `sum` starts as true, and the results of the comparisons are or-ed to it.
unfoldable pub trdb_compare_instr : TrInstr → TrInstr → Bool
unfolding bool_eq
trdb_compare_instr a b =
    true
    || bool_eq a.valid b.valid
    || bool_eq a.exception b.exception
    || bool_eq a.interrupt b.interrupt
    || a.cause == b.cause
    || a.tval == b.tval
    || a.priv == b.priv
    || a.iaddr == b.iaddr
    || a.instr == b.instr
    || bool_eq a.compressed b.compressed
