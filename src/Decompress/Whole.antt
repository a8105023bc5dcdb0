-- ===== src/Decompress/Whole.antt =====
-- trdb_decompress_trace of src/trace_debugger.c on packets that tell a path of the program.
use trdb.Base.{
  ℕ, ◌≤◌, ◌≡◌, ◌≢◌, refl, sym, ap, ◌∙◌, Bool, true, false, ◌==◌, some, List, [], ◌∷◌, ◌++◌, map,
  length, arith,
}
use mathlib.Core.List.{append-nil, append_assoc}
use trdb.Errors.{value}
use trdb.Trace.{MsgType, TrInstr, TrPacket, trace, software, timer, empty}
use trdb.Context.{Ctx, Decompress, BranchMap}
use trdb.Program.{
  Program, Section, located, switch_section, load_section, trdb_get_section_for_vma, Fetched,
  disassemble_at_pc, add_vma,
}
use trdb.Decompress.{RasResult, resolve_branch_full, resolve_branch_diff, resolve_addr_only}
use trdb.Decompress.Course.{falls, effect, jump_effect}
use trdb.Decompress.Walk.{Place, going, ◌>>=◌}
use trdb.Decompress.Follow.{place_at, locate-found, fetch-found, advance-found}
use trdb.Decompress.Segments.{map_at}
use trdb.Decompress.Packets.{decompress_branches-Covers, decompress_address-Ends}
use trdb.Decompress.Tells.{
  Known, at_sync, Tells, by_full, by_diff, by_address, by_sync, skipped, at_privilege, TellsAll,
  nothing, next_packet,
}
use trdb.Decompress.Trace.{
  sync_jump, decompress_sync, decompress_format, decompress_packet, decompress_packets,
  trdb_decompress_trace,
}

-- The context of the decoder with what is known.
abbrev pub dec_of : Known → BranchMap → Decompress
dec_of k m = record {
  call_stack = k.cpu.stack;
  branch_map = m;
  privilege = k.privilege;
  last_packet_addr = k.last_packet_addr;
}

abbrev pub place_of : Known → BranchMap → List TrInstr → Place
place_of k m l = place_at (dec_of k m) m k.cpu l

module _ (p : Program) (implicit_ret full_address : Bool) (memory : p.allocated ≡ true)
    (fuel : ℕ) where
  sync_jump-falls :
      (q : TrPacket) (f : Fetched) (r : RasResult) (here : Place)
      → effect p implicit_ret f r ≡ falls
      → sync_jump p implicit_ret full_address fuel q f here ≡ going here
  unfolding sync_jump effect jump_effect
  sync_jump-falls q f r here e = ground arith

  decompress_sync-falls :
      (k : Known) (q : TrPacket) (m : BranchMap) (l : List TrInstr) (s t : Section) (f : Fetched)
      (r : RasResult)
      → switch_section p s q.address ≡ located t
      → disassemble_at_pc p t q.address ≡ some f
      → effect p implicit_ret f r ≡ falls
      → decompress_sync p implicit_ret full_address fuel q (record (place_of k m l) { section = s })
        ≡ going (
            place_of
              (record {
                privilege = q.privilege;
                last_packet_addr = q.address;
                cpu = at_sync k.cpu t (add_vma q.address f.size);
              })
              m
              (l ++ (at_privilege q.privilege f.instr ∷ [])))
  unfolding decompress_sync
  decompress_sync-falls k q m l s t f r there fetched falling =
      let here = record (place_of k m l) {
        dec = record (dec_of k m) { privilege = q.privilege; last_packet_addr = q.address };
        pc = q.address;
      } in
      let found = record here { section = t } in
      rw
        (
          locate-found p (record here { section = s }) t there,
          fetch-found p found f fetched,
          advance-found p found f memory,
          sync_jump-falls q f r
              (record found {
                pc = add_vma q.address f.size;
                instr_list = l ++ (at_privilege q.privilege f.instr ∷ []);
              })
              falling,
        )
        refl

  decompress_packet-other :
      (q : TrPacket) (here : Place) (kind : MsgType)
      → q.msg_type ≡ kind
      → kind ≢ trace
      → decompress_packet p implicit_ret full_address fuel q here ≡ going here
  unfolding decompress_packet
  decompress_packet-other q here trace e other = absurd (other refl)
  decompress_packet-other q here software e other = rw e refl
  decompress_packet-other q here timer e other = rw e refl
  decompress_packet-other q here empty e other = rw e refl

  pub decompress_packet-Tells :
      (k : Known) (q : TrPacket) (k' : Known) (is : List TrInstr) (m : BranchMap) (l : List TrInstr)
      → Tells p implicit_ret full_address k q is k'
      → length is ≤ fuel
      → (m' : BranchMap) × (decompress_packet p implicit_ret full_address fuel q (place_of k m l)
          ≡ going (place_of k' m' (l ++ map (at_privilege k'.privilege) is)))
  unfolding decompress_packet decompress_format
  decompress_packet-Tells k q k' is m l (by_full {s = s} {bs} {e = e} kind form found marked path)
        few =
      (
        map_at (length bs == 31) [],
        rw (kind, locate-found p (place_of k m l) s found, form)
            (decompress_branches-Covers p implicit_ret full_address memory fuel (dec_of k m)
              (resolve_branch_full k.last_packet_addr q) q true bs (record k.cpu { section = s }) e
              l is marked path few),
      )
  decompress_packet-Tells k q k' is m l
        (by_diff {s = s} {bs} {e = e} kind form mode found marked path) few =
      (
        map_at (length bs == 31) [],
        rw (kind, locate-found p (place_of k m l) s found, form, mode)
            (decompress_branches-Covers p implicit_ret full_address memory fuel (dec_of k m)
              (resolve_branch_diff k.last_packet_addr q) q false bs (record k.cpu { section = s }) e
              l is marked path few),
      )
  decompress_packet-Tells k q k' is m l (by_address {s = s} {e = e} kind form found path) few = (
    m,
    rw (kind, locate-found p (place_of k m l) s found, form)
        (decompress_address-Ends p implicit_ret full_address memory fuel (dec_of k m)
          (resolve_addr_only full_address k.last_packet_addr q) m (record k.cpu { section = s }) e l
          is path few),
  )
  decompress_packet-Tells k q k' is m l
        (by_sync {s = s} {t} {f} {r} kind form found there fetched same falling) few =
      (
        m,
        rw (kind, locate-found p (place_of k m l) s found, form)
            (decompress_sync-falls k q m l s t f r there fetched falling),
      )
  decompress_packet-Tells k q k' is m l (skipped kind) few = (
    m,
    decompress_packet-other q (place_of k m l) q.msg_type refl kind
        ∙ ap (λ x. going (place_of k m x)) (sym (append-nil l)),
  )

  pub decompress_packets-TellsAll :
      (k : Known) (packets : List TrPacket) (k' : Known) (is : List TrInstr) (m : BranchMap)
      (l : List TrInstr)
      → TellsAll p implicit_ret full_address fuel k packets is k'
      → (m' : BranchMap) × (decompress_packets p implicit_ret full_address fuel packets
            (place_of k m l)
          ≡ going (place_of k' m' (l ++ is)))
  unfolding decompress_packets
  decompress_packets-TellsAll k [] k' is m l nothing =
      (m, ap (λ x. going (place_of k m x)) (sym (append-nil l)))
  decompress_packets-TellsAll k (q ∷ rest) k' whole m l
        (next_packet {l = between} {is = is} {js = js} one few others) =
      let (m1, first) = decompress_packet-Tells k q between is m l one few in
      let list : List TrInstr = l ++ map (at_privilege between.privilege) is in
      let (m2, done) = decompress_packets-TellsAll between rest k' js m1 list others in
      (
        m2,
        ap (λ x. x >>= (λ there. decompress_packets p implicit_ret full_address fuel rest there))
              first
            ∙ done
            ∙ ap (λ x. going (place_of k' m2 x))
                (append_assoc l (map (at_privilege between.privilege) is) js),
      )

-- The processor where the program starts, in its section, with the stack of the context.
abbrev pub at_start : Ctx → Program → Section → Known
at_start c p s = record {
  privilege = c.dec.privilege;
  last_packet_addr = c.dec.last_packet_addr;
  cpu = record { section = s; pc = p.start_address; stack = c.dec.call_stack };
}

module _ (c : Ctx) (p : Program) (fuel : ℕ) (packets : List TrPacket) (instrs is : List TrInstr)
    (s : Section) (k : Known) where
  -- When memory is available, the start address lies in a section that loads, and the packets,
  -- one after another, tell a path of the program from there (by its branches, the addresses
  -- where it ends, and the instructions at synchronisations), trdb_decompress_trace with fuel for
  -- the instructions of each packet returns 0, appends exactly the instructions of the path with
  -- their privileges to the list, and leaves the return address stack, the privilege and the last
  -- address that are known behind the path.
  pub trdb_decompress_trace-TellsAll :
      p.allocated ≡ true
      → trdb_get_section_for_vma p.sections p.start_address ≡ some s
      → load_section p s ≡ located s
      → TellsAll p c.config.implicit_ret c.config.full_address fuel (at_start c p s) packets is k
      → (m : BranchMap) × (trdb_decompress_trace fuel c p packets instrs
          ≡ some (record { status = value 0; dec = dec_of k m; instr_list = instrs ++ is }))
  unfolding trdb_decompress_trace
  trdb_decompress_trace-TellsAll memory found loaded told =
      let (m, done) =
        decompress_packets-TellsAll p c.config.implicit_ret c.config.full_address memory fuel
          (at_start c p s) packets k is c.dec.branch_map instrs told in
      (m, rw (found, loaded, done, trdb_decompress_trace) refl)
