-- ===== src/Agreement/Archived.antt =====
-- A trace that ends with a trap: compressed, written to a file, read from it and decompressed.
use trdb.Base.{
  Every, ℕ, ◌*◌, ◌^◌, ◌<◌, ◌≤◌, ◌≡◌, ap, ◌∙◌, true, false, some, List, [], ◌∷◌, ◌++◌, map, length,
  done, Returns, Returns-mono, Returns-both,
}
use trdb.Errors.{value}
use trdb.Trace.{TrInstr, TrPacket, IsInstr, zero_packet}
use trdb.Context.{Ctx, Config, Decompress, fresh_compress}
use trdb.Serialize.File.{write_binary, trdb_pulp_read_all_packets}
use trdb.Compress.Step.{AddResult}
use trdb.Compress.Safety.{IsReady}
use trdb.Compress.Delivered.{received}
use trdb.Compress.Archive.{IsArchived, compress_trace-IsArchived}
use trdb.Compress.Run.{compress_trace, ample}
use trdb.Program.{
  Program, Section, located, load_section, trdb_get_section_for_vma, Fetched, add_vma,
}
use trdb.Decompress.Course.{Cpu, Ends}
use trdb.Decompress.Tells.{at_sync, at_privilege}
use trdb.Decompress.Trace.{trdb_decompress_trace}
use trdb.Decompress.Whole.{at_start, dec_of, trdb_decompress_trace-TellsAll}
use trdb.Agreement.{Plain}
use trdb.Agreement.Trap.{Traps}
use trdb.Agreement.Fetches.{IsRead}
use trdb.Agreement.Synced.{IsSynced}
use trdb.Agreement.Complete.{Branched}
use trdb.Agreement.Kept.{TellsAll-received}
use trdb.Agreement.Reported.{last_in, IsReported, fresh-IsReported}

-- The packets are written to an empty file, of which the decoder reads them, and they give back
-- all that was compressed.
pub record IsReplayed (fuel room : ℕ) (c : Ctx) (p : Program) (instrs executed : List TrInstr)
    (r : AddResult) : Type 0 where
  pub no_error : r.status ≡ value 0
  pub packets : List TrPacket
  pub written :
      Returns
        (λ w.
          (w.status ≡ value 0)
          × (trdb_pulp_read_all_packets true r.ctx
                (record { ahead = w.output.contents; faulty = false })
                zero_packet
                []
              ≡ done (some (record { status = value 0; packet_list = packets }))))
        (write_binary r.ctx r.packet_list (record { contents = []; room = room }))
  pub dec : Decompress
  pub decompressed :
      trdb_decompress_trace fuel c p packets instrs
      ≡ some (record { status = value 0; dec = dec; instr_list = instrs ++ executed })

module _ (p : Program) (read : IsRead p) (memory : p.allocated ≡ true) (c : Ctx)
    (full : c.config.full_address ≡ true) (plain_maps : c.config.compress_full_branch_map ≡ false)
    (fuel room : ℕ) (instrs : List TrInstr) (s : Section)
    (start : trdb_get_section_for_vma p.sections p.start_address ≡ some s)
    (loaded : load_section p s ≡ located s) (v : ℕ) (fits : v < 2 ^ 3) where
  replayed :
      (address : ℕ) (is : List TrInstr) (r : AddResult)
      → IsReported p c.config.implicit_ret address fuel v (at_start c p s) is r
      → IsArchived room r
      → IsReplayed fuel room c p instrs (map (at_privilege v) is) r
  replayed address is r h archived =
      let t = h.telling in
      let (m, result) =
        trdb_decompress_trace-TellsAll c p fuel (map received r.packet_list) instrs
          (map (at_privilege v) is) s t.behind_all memory start loaded
          (TellsAll-received p c.config.implicit_ret c.config.full_address fuel (at_start c p s)
            t.behind_all r.packet_list (map (at_privilege v) is) h.kept (rw full t.telling)) in
      record {
        no_error = h.no_error;
        packets = map received r.packet_list;
        written = archived.archived;
        dec = dec_of t.behind_all m;
        decompressed = result;
      }

  -- Let the disassembler of a program call the instructions conditional branches that is_branch
  -- does, with sizes of 2 or 4, no branch going to the instruction behind it; let memory be
  -- available, the start address lie in a section that loads, addresses be absolute, and full
  -- maps not be compressed. From a fresh state of the compression that is ready, with the
  -- configuration of the decoder, take a trace at one privilege below 8, shorter than the
  -- interval of resynchronisation and than the fuel, of instructions that are valid, supported,
  -- without traps and without jumps that have to be reported, and then one that traps, all with
  -- fields that fit; which starts with an instruction that falls through, follows stretches of
  -- the program that end with a branch each, and then instructions without branches up to the
  -- first at the address of the last one, where no branch goes to where an instruction as long as
  -- the branch, at that address, would end. When the device of an empty file takes 16 bytes for
  -- each instruction of the trace, the trace is compressed without an error, write_binary writes
  -- the packets to the file and returns 0, trdb_pulp_read_all_packets reads packets from that
  -- file and returns 0, and trdb_decompress_trace on the packets that were read returns 0 and
  -- appends to its list exactly the instructions in front of the trap, in order.
  pub compress_trace-IsReplayed :
      (e : Ctx) (a : ℕ) (t : Section) (f : Fetched) (address : ℕ) (js : List TrInstr) (i : TrInstr)
      (is : List TrInstr) (d z : Cpu) (x : TrInstr)
      → e.cmp ≡ fresh_compress
      → IsReady e
      → e.config ≡ c.config
      → IsSynced p c.config.implicit_ret (at_start c p s).cpu a t f
      → Branched p c.config.implicit_ret address
          (at_sync (at_start c p s).cpu t (add_vma a f.size))
          js
          d
      → Ends p c.config.implicit_ret address d (i ∷ is) z
      → (last_in v (i ∷ is)).iaddr ≡ address
      → Every (Plain c.config.implicit_ret v) (map (at_privilege v) (f.instr ∷ (js ++ (i ∷ is))))
      → Traps x
      → Every IsInstr (map (at_privilege v) (f.instr ∷ (js ++ (i ∷ is))) ++ (x ∷ []))
      → length (js ++ (i ∷ is)) < c.config.resync_max
      → c.config.resync_max < 2 ^ 64
      → length (js ++ (i ∷ is)) < fuel
      → 16 * length (map (at_privilege v) (f.instr ∷ (js ++ (i ∷ is))) ++ (x ∷ [])) ≤ room
      → Returns
          (IsReplayed fuel room c p instrs (map (at_privilege v) (f.instr ∷ (js ++ (i ∷ is)))))
          (compress_trace ample e []
            (map (at_privilege v) (f.instr ∷ (js ++ (i ∷ is))) ++ (x ∷ [])))
  compress_trace-IsReplayed e a t f address js i is d z x fresh ready same synced path ends here
        plain trap valid short high bound space =
      let executed : List TrInstr = f.instr ∷ (js ++ (i ∷ is)) in
      let reported = IsReported p c.config.implicit_ret address fuel v (at_start c p s) executed in
      Returns-mono (λ r. reported r × IsArchived room r)
        (IsReplayed fuel room c p instrs (map (at_privilege v) executed)) _
        (Returns-both reported (IsArchived room) _
          (fresh-IsReported p read fuel c.config v (at_start c p s) a t f synced fits address e js i
            is d z x fresh same full path ends here plain trap short high bound)
          (compress_trace-IsArchived ample e (map (at_privilege v) executed ++ (x ∷ [])) room
            (ap (λ (k : Config). k.full_address) same ∙ full)
            (ap (λ (k : Config). k.compress_full_branch_map) same ∙ plain_maps) ready valid space))
        λ r (h, archived). replayed address executed r h archived
