-- ===== src/Decompress/Tells.antt =====
-- What a packet says of the path of the program, apart from how the decoder of
-- src/trace_debugger.c finds it out.
use trdb.Errors.{value}
use trdb.Base.{
  some, ℕ, ◌+◌, ◌-◌, ◌%◌, ◌^◌, ◌<◌, ◌≤◌, ◌≡◌, ◌≢◌, ◌⊎◌, Bool, true, false, if◌then◌else◌, ◌==◌,
  List, [], ◌∷◌, ◌++◌, map, length,
}
use trdb.Trace.{TrInstr, TrPacket, trace, branch_full, branch_diff, addr_only, sync}
use trdb.Program.{Program, Section, located, switch_section, Fetched, disassemble_at_pc, add_vma}
use trdb.Decompress.{RasResult, address_behind}
use trdb.Decompress.Course.{Cpu, falls, forks, effect, At, behind, Course, Ends, bits_of}

-- What is known between two packets.
pub record Known : Type 0 where
  pub privilege : ℕ
  pub last_packet_addr : ℕ
  pub cpu : Cpu

-- The instructions behind the last branch of a map: a full map has none, and neither has one whose
-- address is that of `last`, the instruction before.
pub data Tail (p : Program) (implicit_ret full : Bool) (address last : ℕ)
    : Cpu → List TrInstr → Cpu → Type 0 where
  full_map : {c : Cpu} → full ≡ true → Tail p implicit_ret full address last c [] c
  at_branch : {c : Cpu} → last ≡ address → Tail p implicit_ret full address last c [] c
  beyond :
      {c e : Cpu} {is : List TrInstr}
      → full ≡ false
      → last ≢ address
      → Ends p implicit_ret address c is e
      → Tail p implicit_ret full address last c is e

-- A path that a branch map and an address stand for. The last branch counts as the instruction in
-- front of its destination, as long as itself.
pub data Covers (p : Program) (implicit_ret full : Bool) (address : ℕ)
    : Cpu → List Bool → List TrInstr → Cpu → Type 0 where
  covers :
      {c t e : Cpu} {s : Section} {f : Fetched} {r : RasResult} (b : Bool) {bs : List Bool}
      {before is : List TrInstr} {pc : ℕ}
      → Course p implicit_ret c bs before t
      → At p t s f r
      → effect p implicit_ret f r ≡ forks
      → pc ≡ (if b then add_vma t.pc f.size else f.target)
      → Tail p implicit_ret full address ((pc + 2 ^ 64 - f.size) % 2 ^ 64) (behind s r pc) is e
      → Covers p implicit_ret full address c (bs ++ (b ∷ [])) (before ++ (f.instr ∷ is)) e

-- The branches of a packet. A full map may come without a count.
pub record Marks (q : TrPacket) (bs : List Bool) : Type 0 where
  pub bits : q.branch_map ≡ bits_of bs
  pub few : length bs ≤ 31
  pub any : 0 < length bs
  pub count : (q.branches ≡ length bs) ⊎ ((q.branches ≡ 0) × (length bs ≡ 31))

-- `last_packet_addr` behind a packet with branches
abbrev pub kept : TrPacket → ℕ → ℕ → ℕ
kept q last address = if q.branches == 0 then last else address

-- The address of F_ADDR_ONLY.
abbrev pub target_of : Bool → ℕ → TrPacket → ℕ
target_of full_address last q = if full_address then q.address else address_behind last q.address

-- The processor behind the instruction of a sync packet. The return address stack takes no part.
abbrev pub at_sync : Cpu → Section → ℕ → Cpu
at_sync c s pc = record c { section = s; pc = pc }

-- What a packet tells: the instructions, their privilege aside, and what is known behind it.
pub data Tells (p : Program) (implicit_ret full_address : Bool)
    : Known → TrPacket → List TrInstr → Known → Type 0 where
  by_full :
      {k : Known} {q : TrPacket} {s : Section} {bs : List Bool} {is : List TrInstr} {e : Cpu}
      → q.msg_type ≡ trace
      → q.format ≡ branch_full
      → switch_section p k.cpu.section k.cpu.pc ≡ located s
      → Marks q bs
      → Covers p implicit_ret (length bs == 31) q.address (record k.cpu { section = s }) bs is e
      → Tells p implicit_ret full_address k q is
          (record k { last_packet_addr = kept q k.last_packet_addr q.address; cpu = e })
  by_diff :
      {k : Known} {q : TrPacket} {s : Section} {bs : List Bool} {is : List TrInstr} {e : Cpu}
      → q.msg_type ≡ trace
      → q.format ≡ branch_diff
      → full_address ≡ false
      → switch_section p k.cpu.section k.cpu.pc ≡ located s
      → Marks q bs
      → Covers p implicit_ret
          (length bs == 31)
          (address_behind k.last_packet_addr q.address)
          (record k.cpu { section = s })
          bs
          is
          e
      → Tells p implicit_ret full_address k q is (record k {
        last_packet_addr = kept q k.last_packet_addr (address_behind k.last_packet_addr q.address);
        cpu = e;
      })
  by_address :
      {k : Known} {q : TrPacket} {s : Section} {is : List TrInstr} {e : Cpu}
      → q.msg_type ≡ trace
      → q.format ≡ addr_only
      → switch_section p k.cpu.section k.cpu.pc ≡ located s
      → Ends p implicit_ret
          (target_of full_address k.last_packet_addr q)
          (record k.cpu { section = s })
          is
          e
      → Tells p implicit_ret full_address k q is
          (record k { last_packet_addr = target_of full_address k.last_packet_addr q; cpu = e })
  by_sync :
      {k : Known} {q : TrPacket} {s t : Section} {f : Fetched} {r : RasResult}
      → q.msg_type ≡ trace
      → q.format ≡ sync
      → switch_section p k.cpu.section k.cpu.pc ≡ located s
      → switch_section p s q.address ≡ located t
      → disassemble_at_pc p t q.address ≡ some f
      → r ≡ record { status = value 0; stack = k.cpu.stack; ret_addr = 0 }
      → effect p implicit_ret f r ≡ falls
      → Tells p implicit_ret full_address k q (f.instr ∷ []) (record {
        privilege = q.privilege;
        last_packet_addr = q.address;
        cpu = at_sync k.cpu t (add_vma q.address f.size);
      })
  skipped :
      {k : Known} {q : TrPacket} → q.msg_type ≢ trace → Tells p implicit_ret full_address k q [] k

abbrev pub at_privilege : ℕ → TrInstr → TrInstr
at_privilege n i = record i { priv = n }

-- What the packets of a list tell, one after another, each instruction with its privilege.
-- `most` bounds the instructions of each packet.
pub data TellsAll (p : Program) (implicit_ret full_address : Bool) (most : ℕ)
    : Known → List TrPacket → List TrInstr → Known → Type 0 where
  nothing : {k : Known} → TellsAll p implicit_ret full_address most k [] [] k
  next_packet :
      {k l m : Known} {q : TrPacket} {rest : List TrPacket} {is js : List TrInstr}
      → Tells p implicit_ret full_address k q is l
      → length is ≤ most
      → TellsAll p implicit_ret full_address most l rest js m
      → TellsAll p implicit_ret full_address most k
          (q ∷ rest)
          (map (at_privilege l.privilege) is ++ js)
          m
