-- ===== src/Decompress/Statuses.antt =====
-- The results of trdb_decompress_trace of src/trace_debugger.c on every input.
use trdb.Base.{
  ℕ, ◌≡◌, refl, Bool, true, false, if◌then◌else◌, Option, none, some, List, [], ◌∷◌, arith,
}
use mathlib.Core.Path.{subst}
use mathlib.Core.Option.{some-injective}
use trdb.Errors.{Status, value}
use trdb.Trace.{
  TrInstr, TrPacket, MsgType, Format, trace, software, timer, empty, branch_full, branch_diff,
  addr_only, sync,
}
use trdb.Context.{Ctx}
use trdb.Insn.{is_unpred_discontinuity}
use trdb.Program.{
  Program, Section, Located, located, lost, load_section, trdb_get_section_for_vma, Fetched,
  InsnType, dis_noninsn, dis_nonbranch, dis_branch, dis_condbranch, dis_jsr, dis_condjsr, dis_dref,
  dis_dref2,
}
use trdb.Decompress.{Resolved}
use trdb.Decompress.Walk.{Place, Run, going, ended, out_of_fuel}
use trdb.Decompress.Trace.{
  open_map, decompress_branches, decompress_address, decompress_sync, sync_jump, decompress_format,
  decompress_packet, decompress_packets, Decompressed, finished_run, trdb_decompress_trace,
}
use trdb.Decompress.Sound.{
  DecodeStatus, success, no_section, no_instruction, full_addresses, Grown, Grown-refl, moved,
  Sound, sound_going, sound_ended, sound_fuel, Sound-bind, Sound-hide_status, Sound-if,
}
use trdb.Decompress.Grows.{
  load_section-DecodeStatus, locate-Sound, fetch-Sound, advance-Sound, round_list,
  branch_round-Sound, address_round-Sound, walk-Sound,
}

abbrev place_list : Place → List TrInstr
place_list x = x.instr_list

module _ (p : Program) (implicit_ret full_address : Bool) (fuel : ℕ) where
  decompress_branches-Sound :
      (checked : Bool) (a : Resolved) (here : Place)
      → Sound place_list here.instr_list
          (decompress_branches p implicit_ret full_address fuel checked a here)
  unfolding decompress_branches
  decompress_branches-Sound checked a here =
      Sound-bind round_list place_list _ _ _
        (walk-Sound _ _ (branch_round-Sound p implicit_ret checked a.absolute_addr) fuel _)
        (λ r. sound_going (Grown-refl _))

  decompress_address-Sound :
      (a : Resolved) (here : Place)
      → Sound place_list here.instr_list
          (decompress_address p implicit_ret full_address fuel a here)
  unfolding decompress_address
  decompress_address-Sound a here =
      Sound-bind round_list place_list _ _ _
        (walk-Sound _ _ (address_round-Sound p implicit_ret a.absolute_addr) fuel _)
        (λ r. sound_going (Grown-refl _))

  list-if :
      (c : Bool) (x y : Place)
      → place_list x ≡ place_list y
      → place_list (if c then x else y) ≡ place_list y
  list-if true x y e = e
  list-if false x y e = refl

  sync_jump-Sound :
      (q : TrPacket) (f : Fetched) (here : Place)
      → Sound place_list here.instr_list (sync_jump p implicit_ret full_address fuel q f here)
  unfolding sync_jump
  sync_jump-Sound q f here = by_type f.insn_type refl
    where
      by_type :
          (t : InsnType)
          → f.insn_type ≡ t
          → Sound place_list here.instr_list (sync_jump p implicit_ret full_address fuel q f here)
      by_type dis_nonbranch e =
          rw (e, sync_jump)
            (sound_going (
              moved (
                list-if (is_unpred_discontinuity f.instr.instr implicit_ret)
                  (record here { pc = f.target }) here refl)))
      by_type dis_jsr e = rw (e, sync_jump) (sound_going (Grown-refl _))
      by_type dis_branch e = rw (e, sync_jump) (sound_going (Grown-refl _))
      by_type dis_condbranch e =
          rw (e, sync_jump)
            (sound_going (moved (list-if q.branch here (record here { pc = f.target }) refl)))
      by_type dis_dref e = rw (e, sync_jump) (sound_going (Grown-refl _))
      by_type dis_dref2 e = rw (e, sync_jump) (sound_ended no_instruction (Grown-refl _))
      by_type dis_condjsr e = rw (e, sync_jump) (sound_ended no_instruction (Grown-refl _))
      by_type dis_noninsn e = rw (e, sync_jump) (sound_ended no_instruction (Grown-refl _))

  decompress_sync-Sound :
      (q : TrPacket) (here : Place)
      → Sound place_list here.instr_list (decompress_sync p implicit_ret full_address fuel q here)
  unfolding decompress_sync
  decompress_sync-Sound q here = Sound-bind place_list place_list _ _ _ (locate-Sound p _) (λ there.
      Sound-hide_status place_list place_list _ _ (
        Sound-bind (λ f. there.instr_list) place_list _ _ _ (fetch-Sound p there)
          (λ f.
            Sound-bind place_list place_list _ _ _ (advance-Sound p f there)
              (sync_jump-Sound q f))))

  decompress_format-Sound :
      (q : TrPacket) (here : Place) (format : Format)
      → q.format ≡ format
      → Sound place_list here.instr_list (decompress_format p implicit_ret full_address fuel q here)
  unfolding decompress_format
  decompress_format-Sound q here branch_full e = rw e (
      decompress_branches-Sound true _ (record here {
        dec = record here.dec { branch_map = open_map (record q { format = branch_full }) };
      }))
  decompress_format-Sound q here branch_diff e = rw e (
      Sound-if _ _ full_address (sound_ended full_addresses (Grown-refl _)) (
        decompress_branches-Sound false _ (record here {
          dec = record here.dec { branch_map = open_map (record q { format = branch_diff }) };
        })))
  decompress_format-Sound q here addr_only e = rw e (decompress_address-Sound _ here)
  decompress_format-Sound q here sync e = rw e (search decompress_sync-Sound)

  decompress_packet-Sound :
      (q : TrPacket) (here : Place) (kind : MsgType)
      → q.msg_type ≡ kind
      → Sound place_list here.instr_list (decompress_packet p implicit_ret full_address fuel q here)
  unfolding decompress_packet
  decompress_packet-Sound q here trace e = rw e (
      Sound-bind place_list place_list _ _ _ (locate-Sound p here)
        (λ x. decompress_format-Sound (record q { msg_type = trace }) x _ refl))
  decompress_packet-Sound q here software e = rw e (sound_going (Grown-refl _))
  decompress_packet-Sound q here timer e = rw e (sound_going (Grown-refl _))
  decompress_packet-Sound q here empty e = rw e (sound_going (Grown-refl _))

  decompress_packets-Sound :
      (packets : List TrPacket) (here : Place)
      → Sound place_list here.instr_list
          (decompress_packets p implicit_ret full_address fuel packets here)
  unfolding decompress_packets
  decompress_packets-Sound [] here = sound_going (Grown-refl _)
  decompress_packets-Sound (q ∷ rest) here =
      Sound-bind place_list place_list _ _ _ (decompress_packet-Sound q here _ refl)
        (decompress_packets-Sound rest)

  finished_run-DecodeStatus :
      (l : List TrInstr) (run : Run Place) (r : Decompressed)
      → Sound place_list l run
      → finished_run run ≡ some r
      → DecodeStatus r.status × Grown l r.instr_list
  finished_run-DecodeStatus l (going here) r (sound_going g) e = kept_by g (some-injective _ _ e)
    where
      kept_by :
          Grown l here.instr_list
          → record { status = value 0; dec = here.dec; instr_list = here.instr_list } ≡ r
          → DecodeStatus r.status × Grown l r.instr_list
      kept_by g e = subst (λ x. DecodeStatus x.status × Grown l x.instr_list) e (success, g)
  finished_run-DecodeStatus l (ended s here) r (sound_ended k g) e =
      subst (λ x. DecodeStatus x.status × Grown l x.instr_list) (some-injective _ _ e) (k, g)
  finished_run-DecodeStatus l out_of_fuel r sound_fuel e = absurd (grind (arith, e))

-- When trdb_decompress_trace returns, on any packets and any program, its status is 0 or the
-- error for memory, an empty section, an address in no section, a bad instruction or a bad
-- configuration, and the list of instructions starts with those it had before.
pub trdb_decompress_trace-DecodeStatus :
    (fuel : ℕ) (c : Ctx) (p : Program) (packets : List TrPacket) (instrs : List TrInstr)
    (r : Decompressed)
    → trdb_decompress_trace fuel c p packets instrs ≡ some r
    → DecodeStatus r.status × Grown instrs r.instr_list
unfolding trdb_decompress_trace
trdb_decompress_trace-DecodeStatus fuel c p packets instrs r e =
    by_section (trdb_get_section_for_vma p.sections p.start_address) refl
  where
    stopped :
        (s : Status)
        → DecodeStatus s
        → some (record { status = s; dec = c.dec; instr_list = instrs }) ≡ some r
        → DecodeStatus r.status × Grown instrs r.instr_list
    stopped s k h =
        subst (λ x. DecodeStatus x.status × Grown instrs x.instr_list) (some-injective _ _ h)
          (k, Grown-refl instrs)

    by_section :
        (o : Option Section)
        → trdb_get_section_for_vma p.sections p.start_address ≡ o
        → DecodeStatus r.status × Grown instrs r.instr_list
    by_section none h = stopped _ no_section (rw (h, trdb_decompress_trace) at e)
    by_section (some s) h = by_contents (load_section p s) refl
      where
        by_contents :
            (l : Located) → load_section p s ≡ l → DecodeStatus r.status × Grown instrs r.instr_list
        by_contents (lost x) k =
            stopped _ (load_section-DecodeStatus p s x k) (rw (h, k, trdb_decompress_trace) at e)
        by_contents (located t) k =
            finished_run-DecodeStatus p c.config.implicit_ret c.config.full_address fuel instrs _ r
              (decompress_packets-Sound p c.config.implicit_ret c.config.full_address fuel packets
                _)
              (rw (h, k, trdb_decompress_trace) at e)
