-- ===== src/Trace.antt =====
-- The data of include/trace_debugger.h: retired instructions and trace packets, for XLEN = 32.
-- A bit field of w bits is a number below 2 ^ w; `IsInstr` and `IsPacket` say so.
use trdb.Base.{ℕ, ◌^◌, ◌<◌, Bool, true, false, if◌then◌else◌, ◌==◌}

-- struct tr_instr
pub record TrInstr : Type 0 where
  pub valid : Bool
  pub exception : Bool
  pub interrupt : Bool
  pub cause : ℕ
  pub tval : ℕ
  pub priv : ℕ
  pub iaddr : ℕ
  pub instr : ℕ
  pub compressed : Bool

-- enum tr_packet_format
pub data Format : Type 0 where
  branch_full branch_diff addr_only sync : Format

-- enum tr_packet_subformat; the field has two bits, and its fourth value no name.
pub data Subformat : Type 0 where
  start exception context reserved : Subformat

-- enum tr_msg_type
pub data MsgType : Type 0 where
  empty timer trace software : MsgType

unfoldable pub format_value : Format → ℕ
format_value branch_full = 0
format_value branch_diff = 1
format_value addr_only = 2
format_value sync = 3

unfoldable pub subformat_value : Subformat → ℕ
subformat_value start = 0
subformat_value exception = 1
subformat_value context = 2
subformat_value reserved = 3

unfoldable pub msg_type_value : MsgType → ℕ
msg_type_value empty = 0
msg_type_value timer = 1
msg_type_value trace = 2
msg_type_value software = 3

-- What a field of two bits holds after an assignment of a number below 4.
unfoldable pub format_of : ℕ → Format
format_of n =
    if n == 0
    then branch_full
    else if n == 1
    then branch_diff
    else if n == 2
    then addr_only
    else sync

unfoldable pub subformat_of : ℕ → Subformat
subformat_of n =
    if n == 0 then start else if n == 1 then exception else if n == 2 then context else reserved

unfoldable pub msg_type_of : ℕ → MsgType
msg_type_of n =
    if n == 0 then empty else if n == 1 then timer else if n == 2 then trace else software

-- A bool as a number, and back.
abbrev pub bit_value : Bool → ℕ
bit_value true = 1
bit_value false = 0

-- struct tr_packet
pub record TrPacket : Type 0 where
  pub length : ℕ
  pub msg_type : MsgType
  pub userdata : ℕ
  pub time : ℕ
  pub format : Format
  pub branches : ℕ
  pub branch_map : ℕ
  pub subformat : Subformat
  pub context : ℕ
  pub privilege : ℕ
  pub branch : Bool
  pub address : ℕ
  pub ecause : ℕ
  pub interrupt : Bool
  pub tval : ℕ

-- `(struct tr_instr){0}` and `(struct tr_packet){0}`
abbrev pub zero_instr : TrInstr
zero_instr = record {
  valid = false;
  exception = false;
  interrupt = false;
  cause = 0;
  tval = 0;
  priv = 0;
  iaddr = 0;
  instr = 0;
  compressed = false;
}

abbrev pub zero_packet : TrPacket
zero_packet = record {
  length = 0;
  msg_type = empty;
  userdata = 0;
  time = 0;
  format = branch_full;
  branches = 0;
  branch_map = 0;
  subformat = start;
  context = 0;
  privilege = 0;
  branch = false;
  address = 0;
  ecause = 0;
  interrupt = false;
  tval = 0;
}

pub record IsInstr (i : TrInstr) : Type 0 where
  pub cause_fits : i.cause < 2 ^ 5
  pub tval_fits : i.tval < 2 ^ 32
  pub priv_fits : i.priv < 2 ^ 3
  pub iaddr_fits : i.iaddr < 2 ^ 32
  pub instr_fits : i.instr < 2 ^ 32

pub record IsPacket (p : TrPacket) : Type 0 where
  pub length_fits : p.length < 2 ^ 7
  pub userdata_fits : p.userdata < 2 ^ 32
  pub time_fits : p.time < 2 ^ 64
  pub branches_fits : p.branches < 2 ^ 5
  pub branch_map_fits : p.branch_map < 2 ^ 32
  pub context_fits : p.context < 2 ^ 32
  pub privilege_fits : p.privilege < 2 ^ 3
  pub address_fits : p.address < 2 ^ 32
  pub ecause_fits : p.ecause < 2 ^ 5
  pub tval_fits : p.tval < 2 ^ 32
