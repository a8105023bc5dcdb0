-- ===== src/Agreement/Told.antt =====
-- The packets of full maps tell the path whose branches they have.
use mathlib.Core.List.{append-nil, append_assoc, map-append}
use mathlib.Core.Path.{subst}
use trdb.Base.{
  ℕ, ◌%◌, ◌^◌, ◌<◌, ◌≤◌, ◌≡◌, refl, ap, ◌∙◌, sym, inl, inr, Bool, ◌==◌, List, [], ◌∷◌, ◌++◌, map,
  length, length-append, if◌then◌else◌, Bool-cases, arith,
}
use trdb.Trace.{TrInstr, TrPacket}
use trdb.Context.{Config}
use trdb.Program.{Program, Section, Fetched, add_vma}
use trdb.Decompress.{RasResult}
use trdb.Decompress.Course.{Cpu, At, behind, effect, forks, Course, stay, move, fork}
use trdb.Decompress.Tells.{
  Known, full_map, covers, Tells, by_full, at_privilege, TellsAll, nothing, next_packet,
}
use trdb.Agreement.{outcome, full_packet, full_maps}
use trdb.Agreement.Traces.{full_maps-full, full_maps-open}
use trdb.Agreement.Fetches.{IsRead, outcome-Goes, outcome-forks}
use trdb.Agreement.Paths.{Course-append, Course-IsLoaded, first_of, rest_of, first_of-iaddr}

abbrev pub known : ℕ → ℕ → Cpu → Known
known v last cpu = record { privilege = v; last_packet_addr = last; cpu = cpu }

module _ (p : Program) (implicit_ret full_address : Bool) (most v : ℕ) where
  -- The packets tell the beginning of a path, and the rest has fewer than 31 branches.
  pub record IsTold (k : Known) (packets : List TrPacket) (is : List TrInstr) : Type 0 where
    pub told : List TrInstr
    pub left : List TrInstr
    pub behind_told : Known
    pub end : Cpu
    pub bs : List Bool
    pub telling :
        TellsAll p implicit_ret full_address most k packets (map (at_privilege v) told) behind_told
    pub whole : is ≡ told ++ left
    pub rest : Course p implicit_ret behind_told.cpu bs left end
    pub few : length bs < 31

  pub IsTold-along :
      (k : Known) (packets packets' : List TrPacket) (is is' : List TrInstr)
      → packets ≡ packets'
      → is ≡ is'
      → IsTold k packets' is'
      → IsTold k packets is
  IsTold-along k packets packets' is is' e i h =
      subst (λ x. IsTold k x is) (sym e) (subst (λ x. IsTold k packets' x) (sym i) h)

  pub IsTold-next :
      (k : Known) (d : Cpu) (last : ℕ) (q : TrPacket) (packets : List TrPacket)
      (is js : List TrInstr)
      → Tells p implicit_ret full_address k q is (known v last d)
      → length is ≤ most
      → IsTold (known v last d) packets js
      → IsTold k (q ∷ packets) (is ++ js)
  IsTold-next k d last q packets is js one few h = record {
    told = is ++ h.told;
    left = h.left;
    behind_told = h.behind_told;
    end = h.end;
    bs = h.bs;
    telling =
        subst (λ l. TellsAll p implicit_ret full_address most k (q ∷ packets) l h.behind_told)
          (sym (map-append (at_privilege v) is h.told)) (next_packet one few h.telling);
    whole = ap (λ l. is ++ l) h.whole ∙ sym (append_assoc is h.told h.left);
    rest = h.rest;
    few = h.few;
  }

module _ (p : Program) (read : IsRead p) (implicit_ret full_address : Bool) (most : ℕ)
    (config : Config) (v : ℕ) where
  pub full_packet-Tells :
      (c t : Cpu) (last : ℕ) (bs : List Bool) (is : List TrInstr) (s : Section) (f : Fetched)
      (r : RasResult) (b : Bool)
      → Course p implicit_ret c bs is t
      → At p t s f r
      → effect p implicit_ret f r ≡ forks
      → length (bs ++ (b ∷ [])) ≡ 31
      → Tells p implicit_ret full_address
          (known v last c)
          (full_packet config (bs ++ (b ∷ [])))
          (is ++ (f.instr ∷ []))
          (known v last (behind s r (if b then add_vma t.pc f.size else f.target)))
  full_packet-Tells c t last bs is s f r b course at e size =
      let h = Course-IsLoaded p implicit_ret c t bs is s f r course at in
      by_full refl refl h.found
        (record {
          bits = refl;
          few = omega (arith, size);
          any = omega (arith, size);
          count = inr (refl, size);
        })
        (covers b h.course h.at e
          (ap (λ pc. if b then add_vma pc f.size else f.target) (sym h.same_pc))
          (full_map (ground (arith, size))))

  -- From a point with pending branches.
  pub full_maps-IsTold :
      (k_last : ℕ) (c t d : Cpu) (bs bs' : List Bool) (before is : List TrInstr) (last : TrInstr)
      → Course p implicit_ret c bs before t
      → length bs < 31
      → Course p implicit_ret t bs' is d
      → last.iaddr ≡ d.pc % 2 ^ 32
      → length (before ++ is) ≤ most
      → IsTold p implicit_ret full_address most v
          (known v k_last c)
          (full_maps config bs (first_of v is last) (rest_of v is last))
          (before ++ is)
  unfolding full_maps
  full_maps-IsTold k_last c t d bs bs' before is last past few stay there bound = record {
    told = [];
    left = before;
    behind_told = known v k_last c;
    end = t;
    bs = bs;
    telling = nothing;
    whole = append-nil before;
    rest = past;
    few = few;
  }
  full_maps-IsTold k_last c t d bs bs' before is last past few
        (move {s = s} {f = f} {r = r} {pc = pc} {bs = more} {is = js} at g rest) there bound =
      let j = first_of v js last in
      let here : outcome (at_privilege v f.instr) j ≡ [] =
        outcome-Goes p read implicit_ret v t s f r at j pc g in
      let pending : bs ++ outcome (at_privilege v f.instr) j ≡ bs =
        ap (λ o. bs ++ o) here ∙ append-nil bs in
      let regrouped = append_assoc before (f.instr ∷ []) js in
      IsTold-along p implicit_ret full_address most v (known v k_last c) _ _ _ _
        (full_maps-open config bs (at_privilege v f.instr) j (rest_of v js last)
            (rw pending (ground arith))
          ∙ ap (λ o. full_maps config (bs ++ o) j (rest_of v js last)) here)
        (sym regrouped)
        (full_maps-IsTold k_last c (behind s r pc) d (bs ++ []) more (before ++ (f.instr ∷ [])) js
          last (Course-append p implicit_ret past (move at g stay)) (rw (append-nil bs) few) rest
          there (rw regrouped bound))
  full_maps-IsTold k_last c t d bs bs' before is last past few
        (fork {s = s} {f = f} {r = r} b {bs = more} {is = js} at e rest) there bound =
      let j = first_of v js last in
      let to = if b then add_vma t.pc f.size else f.target in
      let here : outcome (at_privilege v f.instr) j ≡ b ∷ [] =
        outcome-forks p read implicit_ret v t s f r at j b e
          (first_of-iaddr p implicit_ret v (behind s r to) d more js last rest there) in
      let size : length (bs ++ outcome (at_privilege v f.instr) j) ≡ length (bs ++ (b ∷ [])) =
        ap (λ o. length (bs ++ o)) here in
      let regrouped = append_assoc before (f.instr ∷ []) js in
      let sizes = length-append before (f.instr ∷ js) in
      elim (Bool-cases (length (bs ++ (b ∷ [])) == 31)) [
        | inl full ↦
            IsTold-along p implicit_ret full_address most v (known v k_last c) _ _ _ _
              (full_maps-full config bs (at_privilege v f.instr) j (rest_of v js last)
                  (rw size full)
                ∙ ap (λ o. full_packet config (bs ++ o) ∷ full_maps config [] j (rest_of v js last))
                    here)
              (sym regrouped)
              (IsTold-next p implicit_ret full_address most v (known v k_last c) (behind s r to)
                k_last _ _ (before ++ (f.instr ∷ [])) js
                (full_packet-Tells c t k_last bs before s f r b past at e (ground (arith, full)))
                (omega (arith, bound, sizes, length-append before (f.instr ∷ [])))
                (full_maps-IsTold k_last (behind s r to) (behind s r to) d [] more [] js last stay
                  (omega arith) rest there (omega (arith, bound, sizes))))
        | inr open_map ↦
            IsTold-along p implicit_ret full_address most v (known v k_last c) _ _ _ _
              (full_maps-open config bs (at_privilege v f.instr) j (rest_of v js last)
                  (rw size open_map)
                ∙ ap (λ o. full_maps config (bs ++ o) j (rest_of v js last)) here)
              (sym regrouped)
              (full_maps-IsTold k_last c (behind s r to) d (bs ++ (b ∷ [])) more
                (before ++ (f.instr ∷ [])) js last
                (Course-append p implicit_ret past (fork b at e stay))
                (ground (arith, open_map, length-append bs (b ∷ []))) rest there
                (rw regrouped bound))
      ]
