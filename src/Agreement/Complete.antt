-- ===== src/Agreement/Complete.antt =====
-- The packets of a trace that ends with a trap tell all of its path.
use mathlib.Core.Path.{subst}
use mathlib.Core.List.{append-nil, append_assoc, map-append}
use trdb.Base.{
  ℕ, ◌+◌, ◌-◌, ◌%◌, ◌^◌, ◌<◌, ◌≤◌, ◌≡◌, ◌≢◌, refl, sym, ap, ◌∙◌, inl, Bool, true, List, [], ◌∷◌,
  ◌++◌, map, length, length-append, if◌then◌else◌, arith,
}
use trdb.Trace.{TrInstr, TrPacket}
use trdb.Program.{Program, Section, Fetched, located, switch_section, add_vma}
use trdb.Decompress.{RasResult}
use trdb.Decompress.Course.{
  Cpu, At, behind, effect, forks, Course, stay, fork, Ends, leap, arrive, further,
}
use trdb.Decompress.Tells.{
  Known, Tells, by_full, by_address, covers, beyond, at_privilege, TellsAll, nothing, next_packet,
  kept,
}
use trdb.Agreement.Trap.{flush_packet, branches_packet, flush_packet-append}
use trdb.Agreement.Paths.{Course-append, Course-IsLoaded, At-loaded, Goes-loaded}
use trdb.Agreement.Told.{known}

module _ (p : Program) (implicit_ret : Bool) (address : ℕ) where
  -- A path of stretches without branches that end with a branch each. No branch goes to the
  -- instruction behind the address, where the decoder would take the branch for the end.
  pub data Branched : Cpu → List TrInstr → Cpu → Type 0 where
    no_more : {c : Cpu} → Branched c [] c
    stretch :
        {c t d : Cpu} {s : Section} {f : Fetched} {r : RasResult} {is js : List TrInstr} (b : Bool)
        → Course p implicit_ret c [] is t
        → At p t s f r
        → effect p implicit_ret f r ≡ forks
        → ((if b then add_vma t.pc f.size else f.target) + 2 ^ 64 - f.size) % 2 ^ 64 ≢ address
        → Branched (behind s r (if b then add_vma t.pc f.size else f.target)) js d
        → Branched c (is ++ (f.instr ∷ js)) d

  -- The path that is not told yet: nothing, or one that ends with a branch.
  pub data Pending : Cpu → List Bool → List TrInstr → Cpu → Type 0 where
    none_pending : {c : Cpu} → Pending c [] [] c
    some_pending :
        {c t : Cpu} {s : Section} {f : Fetched} {r : RasResult} {bs : List Bool} {is : List TrInstr}
        (b : Bool)
        → Course p implicit_ret c bs is t
        → At p t s f r
        → effect p implicit_ret f r ≡ forks
        → ((if b then add_vma t.pc f.size else f.target) + 2 ^ 64 - f.size) % 2 ^ 64 ≢ address
        → Pending c
            (bs ++ (b ∷ []))
            (is ++ (f.instr ∷ []))
            (behind s r (if b then add_vma t.pc f.size else f.target))

  pub Pending-Course :
      (c t : Cpu) (bs : List Bool) (is : List TrInstr)
      → Pending c bs is t
      → Course p implicit_ret c bs is t
  Pending-Course c t bs is none_pending = stay
  Pending-Course c t bs is (some_pending b course at e apart) =
      Course-append p implicit_ret course (fork b at e stay)

  -- The end from the section that is loaded where it begins.
  record EndsLoaded (c e : Cpu) (is : List TrInstr) : Type 0 where
    first : Section
    found : switch_section p c.section c.pc ≡ located first
    ends : Ends p implicit_ret address (record c { section = first }) is e

  Ends-EndsLoaded :
      (c e : Cpu) (is : List TrInstr) → Ends p implicit_ret address c is e → EndsLoaded c e is
  Ends-EndsLoaded c e is (leap {s = s} {f = f} {r = r} at k) = record {
    first = s;
    found = at.found;
    ends = leap (At-loaded p c s f r at) k;
  }
  Ends-EndsLoaded c e is (arrive {s = s} {f = f} {r = r} {pc = pc} here at g) = record {
    first = s;
    found = at.found;
    ends = arrive here (At-loaded p c s f r at) (Goes-loaded p implicit_ret c s f r pc g);
  }
  Ends-EndsLoaded c e is (further {s = s} {f = f} {r = r} {pc = pc} other at g rest) = record {
    first = s;
    found = at.found;
    ends = further other (At-loaded p c s f r at) (Goes-loaded p implicit_ret c s f r pc g) rest;
  }

  module _ (most v : ℕ) where
    -- The packets tell the instructions.
    pub record IsWhole (k : Known) (packets : List TrPacket) (is : List TrInstr) : Type 0 where
      pub behind_all : Known
      pub telling : TellsAll p implicit_ret true most k packets (map (at_privilege v) is) behind_all

    pub IsWhole-next :
        (k l : Known) (q : TrPacket) (packets : List TrPacket) (is js : List TrInstr)
        → l.privilege ≡ v
        → Tells p implicit_ret true k q is l
        → length is ≤ most
        → IsWhole l packets js
        → IsWhole k (q ∷ packets) (is ++ js)
    IsWhole-next k l q packets is js same one few h = record {
      behind_all = h.behind_all;
      telling =
          subst (λ x. TellsAll p implicit_ret true most k (q ∷ packets) x h.behind_all)
            (ap (λ n. map (at_privilege n) is ++ map (at_privilege v) js) same
              ∙ sym (map-append (at_privilege v) is js))
            (next_packet one few h.telling);
    }

    IsWhole-single :
        (k l : Known) (q : TrPacket) (is : List TrInstr)
        → l.privilege ≡ v
        → Tells p implicit_ret true k q is l
        → length is ≤ most
        → IsWhole k (q ∷ []) is
    IsWhole-single k l q is same one few =
        subst (λ x. IsWhole k (q ∷ []) x) (append-nil is)
          (IsWhole-next k l q [] is [] same one few (record { behind_all = l; telling = nothing }))

    -- The flush tells what is pending, and the end.
    pub flush_packet-IsWhole :
        (last : ℕ) (c t e : Cpu) (bs : List Bool) (before is : List TrInstr) (i : TrInstr)
        → Pending c bs before t
        → length bs < 31
        → Ends p implicit_ret address t is e
        → i.iaddr ≡ address
        → length (before ++ is) ≤ most
        → IsWhole (known v last c) (flush_packet bs i ∷ []) (before ++ is)
    flush_packet-IsWhole last c t e bs before is i none_pending few ends here bound =
        let h = Ends-EndsLoaded c e is ends in
        IsWhole-single (known v last c) (known v i.iaddr e) _ _ refl
          (by_address refl refl h.found (
            subst (λ a. Ends p implicit_ret a (record c { section = h.first }) is e) (sym here)
              h.ends))
          bound
    flush_packet-IsWhole last c t e bs before is i
          (some_pending {t = u} {s = s} {f = f} {r = r} {bs = cs} {is = js} b course at k apart) few
          ends here bound =
        let h = Course-IsLoaded p implicit_ret c u cs js s f r course at in
        let q = branches_packet (cs ++ (b ∷ [])) i in
        let sizes = length-append cs (b ∷ []) in
        let to : ℕ = if b then add_vma u.pc f.size else f.target in
        let regrouped = append_assoc js (f.instr ∷ []) is in
        let told : Tells p implicit_ret true (known v last c) q (js ++ (f.instr ∷ is))
            (known v (kept q last i.iaddr) e) =
          by_full refl refl h.found
            (record {
              bits = refl;
              few = omega (arith, few);
              any = omega (arith, sizes);
              count = inl (omega (arith, few));
            })
            (covers b h.course h.at k
              (ap (λ pc. if b then add_vma pc f.size else f.target) (sym h.same_pc))
              (beyond (ground (arith, few))
                (subst (λ a. (to + 2 ^ 64 - f.size) % 2 ^ 64 ≢ a) (sym here) apart)
                (subst (λ a. Ends p implicit_ret a (behind s r to) is e) (sym here) ends))) in
        subst (λ x. IsWhole (known v last c) (x ∷ []) ((js ++ (f.instr ∷ [])) ++ is))
          (sym (flush_packet-append cs b i))
          (subst (λ x. IsWhole (known v last c) (q ∷ []) x) (sym regrouped)
            (IsWhole-single (known v last c) (known v (kept q last i.iaddr) e) q
              (js ++ (f.instr ∷ is)) refl told (rw regrouped at bound)))
