-- ===== src/Decompress/Grows.antt =====
-- What the decoder of src/trace_debugger.c leaves on every input: its list of instructions only
-- grows, and its errors are a few.
use trdb.Base.{
  ℕ, zero, suc, ◌≡◌, ◌⊎◌, inl, inr, refl, sym, Bool, true, false, if◌then◌else◌, ◌==◌, Option, none,
  some, List, [], ◌∷◌, arith,
}
use mathlib.Core.Path.{subst}
use trdb.Errors.{Status, ErrorCode, value, failed, trdb_bad_vma, trdb_nomem, trdb_section_empty}
use trdb.Trace.{TrInstr}
use trdb.Insn.Ras.{coret}
use trdb.Program.{
  Program, Section, Located, located, lost, load_section, alloc_section_for_debugging, is_outside,
  switch_section, Fetched, disassemble_at_pc, InsnType, dis_noninsn, dis_nonbranch, dis_branch,
  dis_condbranch, dis_jsr, dis_condjsr, dis_dref, dis_dref2,
}
use trdb.Decompress.{update_ras, ras_value}
use trdb.Decompress.Walk.{
  Place, Run, Round, walk, locate, fetch, consult, Hint, advance, dispatch, jump, jump_only, branch,
  branch_round, address_round,
}
use trdb.Decompress.Sound.{
  DecodeStatus, success, no_memory, empty_section, no_section, no_instruction, Grown-refl, moved,
  Sound, sound_going, sound_ended, sound_fuel, Sound-bind, Sound-hide_status, Sound-if,
}

module _ (p : Program) where
  load_section-errors :
      (s : Section) (e : ErrorCode)
      → load_section p s ≡ lost e
      → (e ≡ trdb_nomem) ⊎ (e ≡ trdb_section_empty)
  unfolding load_section alloc_section_for_debugging
  load_section-errors s e h = ground (arith, h)

  switch_section-errors :
      (s : Section) (pc : ℕ) (e : ErrorCode)
      → switch_section p s pc ≡ lost e
      → (e ≡ trdb_bad_vma) ⊎ ((e ≡ trdb_nomem) ⊎ (e ≡ trdb_section_empty))
  unfolding switch_section is_outside load_section alloc_section_for_debugging
  switch_section-errors s pc e h = ground (arith, h)

  pub load_section-DecodeStatus :
      (s : Section) (e : ErrorCode) → load_section p s ≡ lost e → DecodeStatus (failed e)
  load_section-DecodeStatus s e h = elim (load_section-errors s e h) [
    | inl k ↦ subst (λ x. DecodeStatus (failed x)) (sym k) no_memory
    | inr k ↦ subst (λ x. DecodeStatus (failed x)) (sym k) empty_section
  ]

  switch_section-DecodeStatus :
      (s : Section) (pc : ℕ) (e : ErrorCode)
      → switch_section p s pc ≡ lost e
      → DecodeStatus (failed e)
  switch_section-DecodeStatus s pc e h = elim (switch_section-errors s pc e h) [
    | inl k ↦ subst (λ x. DecodeStatus (failed x)) (sym k) no_section
    | inr (inl k) ↦ subst (λ x. DecodeStatus (failed x)) (sym k) no_memory
    | inr (inr k) ↦ subst (λ x. DecodeStatus (failed x)) (sym k) empty_section
  ]

  pub locate-Sound : (here : Place) → Sound (λ x. x.instr_list) here.instr_list (locate p here)
  unfolding locate
  locate-Sound here = by_result (switch_section p here.section here.pc) refl
    where
      by_result :
          (x : Located)
          → switch_section p here.section here.pc ≡ x
          → Sound (λ y. y.instr_list) here.instr_list (locate p here)
      by_result (located s) e = rw (e, locate) (sound_going (Grown-refl _))
      by_result (lost x) e =
          rw (e, locate) (sound_ended (switch_section-DecodeStatus _ _ x e) (Grown-refl _))

  -- What is fetched leaves the list as it is.
  pub fetch-Sound : (here : Place) → Sound (λ f. here.instr_list) here.instr_list (fetch p here)
  unfolding fetch
  fetch-Sound here = by_result (disassemble_at_pc p here.section here.pc) refl
    where
      by_result :
          (x : Option Fetched)
          → disassemble_at_pc p here.section here.pc ≡ x
          → Sound (λ y. here.instr_list) here.instr_list (fetch p here)
      by_result (some f) e = rw (e, fetch) (sound_going (Grown-refl _))
      by_result none e = rw (e, fetch) (sound_ended no_instruction (Grown-refl _))

  pub advance-Sound :
      (f : Fetched) (here : Place) → Sound (λ x. x.instr_list) here.instr_list (advance p f here)
  unfolding advance
  advance-Sound f here = by_memory p.allocated refl
    where
      by_memory :
          (b : Bool)
          → p.allocated ≡ b
          → Sound (λ x. x.instr_list) here.instr_list (advance p f here)
      by_memory true e = rw (e, advance) (sound_going (record { more = _ ∷ []; same = refl }))
      by_memory false e = rw (e, advance) (sound_ended no_memory (Grown-refl _))

consult-Sound :
    (checked : Bool) (f : Fetched) (here : Place)
    → Sound (λ h. h.place.instr_list) here.instr_list (consult checked f here)
unfolding consult
consult-Sound checked f here =
    by_status (update_ras f.instr.instr f.instr.iaddr here.dec.call_stack 0).status refl
  where
    by_status :
        (x : Status)
        → (update_ras f.instr.instr f.instr.iaddr here.dec.call_stack 0).status ≡ x
        → Sound (λ h. h.place.instr_list) here.instr_list (consult checked f here)
    by_status (failed x) e =
        rw (e, consult)
          (Sound-if _ _ checked (sound_ended success (Grown-refl _)) (sound_going (Grown-refl _)))
    by_status (value n) e =
        rw (e, consult)
          (Sound-if _ _ (n == ras_value coret) (sound_ended success (Grown-refl _))
            (sound_going (Grown-refl _)))

abbrev pub round_list : Round → List TrInstr
round_list r = r.place.instr_list

module _ (p : Program) (implicit_ret : Bool) where
  list-if :
      (c : Bool) (x y : Round)
      → round_list x ≡ round_list y
      → round_list (if c then x else y) ≡ round_list y
  list-if true x y e = e
  list-if false x y e = refl

  dispatch-Sound :
      (f : Fetched) (jumps branches : Round → Round) (r : Round)
      → ((x : Round) → round_list (jumps x) ≡ round_list x)
      → ((x : Round) → round_list (branches x) ≡ round_list x)
      → Sound round_list (round_list r) (dispatch p implicit_ret f jumps branches r)
  unfolding dispatch
  dispatch-Sound f jumps branches r j b = by_type f.insn_type refl
    where
      by_type :
          (t : InsnType)
          → f.insn_type ≡ t
          → Sound round_list (round_list r) (dispatch p implicit_ret f jumps branches r)
      by_type dis_nonbranch e = rw (e, dispatch) (sound_going (moved (list-if _ (jumps r) r (j r))))
      by_type dis_jsr e = rw (e, dispatch) (sound_going (moved (j r)))
      by_type dis_branch e = rw (e, dispatch) (sound_going (moved (j r)))
      by_type dis_condbranch e = rw (e, dispatch) (sound_going (moved (b r)))
      by_type dis_dref e = rw (e, dispatch) (sound_going (Grown-refl _))
      by_type dis_dref2 e = rw (e, dispatch) (sound_ended no_instruction (Grown-refl _))
      by_type dis_condjsr e = rw (e, dispatch) (sound_ended no_instruction (Grown-refl _))
      by_type dis_noninsn e = rw (e, dispatch) (sound_ended no_instruction (Grown-refl _))

  jump-list :
      (address : ℕ) (f : Fetched) (h : Hint) (r : Round)
      → round_list (jump p implicit_ret address f h r) ≡ round_list r
  unfolding jump
  jump-list address f h r = ground arith

  jump_only-list :
      (address : ℕ) (f : Fetched) (h : Hint) (r : Round)
      → round_list (jump_only p implicit_ret address f h r) ≡ round_list r
  unfolding jump_only
  jump_only-list address f h r = ground arith

  branch-list :
      (address : ℕ) (f : Fetched) (r : Round) → round_list (branch address f r) ≡ round_list r
  unfolding branch
  branch-list address f r = refl

  pub branch_round-Sound :
      (checked : Bool) (address : ℕ) (r : Round)
      → Sound round_list (round_list r) (branch_round p implicit_ret checked address r)
  unfolding branch_round
  branch_round-Sound checked address r =
      Sound-bind (λ x. x.instr_list) round_list _ _ _ (locate-Sound p r.place)
        (λ here.
          Sound-bind (λ f. here.instr_list) round_list _ _ _ (fetch-Sound p here)
            (λ f.
              Sound-bind (λ h. h.place.instr_list) round_list _ _ _ (consult-Sound checked f here)
                (λ h.
                  Sound-bind (λ x. x.instr_list) round_list _ _ _ (advance-Sound p f h.place)
                    (λ there.
                      dispatch-Sound f (jump p implicit_ret address f h) (branch address f) _
                        (jump-list address f h) (branch-list address f)))))

  pub address_round-Sound :
      (address : ℕ) (r : Round)
      → Sound round_list (round_list r) (address_round p implicit_ret address r)
  unfolding address_round
  address_round-Sound address r = Sound-hide_status round_list round_list _ _ (
      Sound-bind (λ x. x.instr_list) round_list _ _ _ (locate-Sound p r.place)
        (λ here.
          Sound-bind (λ f. here.instr_list) round_list _ _ _ (fetch-Sound p here)
            (λ f.
              Sound-bind (λ h. h.place.instr_list) round_list _ _ _ (consult-Sound false f here)
                (λ h.
                  Sound-bind (λ x. x.instr_list) round_list _ _ _ (advance-Sound p f h.place)
                    (λ there.
                      dispatch-Sound f (jump_only p implicit_ret address f h) (λ x. x) _
                        (jump_only-list address f h) (λ x. refl))))))

pub walk-Sound :
    (finished : Round → Bool) (round : Round → Run Round)
    → ((r : Round) → Sound round_list (round_list r) (round r))
    → (fuel : ℕ) (r : Round) → Sound round_list (round_list r) (walk finished round fuel r)
unfolding walk
walk-Sound finished round sound zero r = by_end (finished r) refl
  where
    by_end : (b : Bool) → finished r ≡ b → Sound round_list (round_list r) (walk finished round 0 r)
    by_end true e = rw (e, walk) (sound_going (Grown-refl _))
    by_end false e = rw (e, walk) sound_fuel
walk-Sound finished round sound (suc fuel) r =
    by_end (walk-Sound finished round sound fuel) (finished r) refl
  where
    by_end :
        ((x : Round) → Sound round_list (round_list x) (walk finished round fuel x))
        → (b : Bool) → finished r ≡ b
        → Sound round_list (round_list r) (walk finished round (suc fuel) r)
    by_end later true e = rw (e, walk) (sound_going (Grown-refl _))
    by_end later false e = rw (e, walk) (Sound-bind round_list round_list _ _ _ (sound r) later)
