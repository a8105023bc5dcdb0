-- ===== src/Agreement/Ended.antt =====
-- A trace that ends with a trap is told by its packets, stretch by stretch.
use mathlib.Core.Path.{subst}
use mathlib.Core.List.{append-nil, append_assoc}
use trdb.Base.{
  ℕ, ◌<◌, ◌≤◌, ◌≡◌, refl, sym, ap, ◌∙◌, inl, inr, Bool, true, ◌==◌, List, [], ◌∷◌, ◌++◌, map,
  length, length-append, if◌then◌else◌, Bool-cases, arith,
}
use trdb.Trace.{TrInstr, TrPacket}
use trdb.Context.{Config}
use trdb.Program.{Program, add_vma}
use trdb.Decompress.Course.{Cpu, behind, Course, Ends}
use trdb.Decompress.Tells.{at_privilege}
use trdb.Agreement.Reports.{last_of}
use trdb.Agreement.Fetches.{IsRead}
use trdb.Agreement.Paths.{Course-append}
use trdb.Agreement.Told.{known, full_packet-Tells}
use trdb.Agreement.Straight.{
  reports_of, Starts, At-Starts, Ends-Starts, Course-Starts, reports-Course, reports-Ends,
  reports-fork_full, reports-fork_open,
}
use trdb.Agreement.Complete.{
  Branched, no_more, stretch, Pending, none_pending, some_pending, Pending-Course, IsWhole,
  IsWhole-next, flush_packet-IsWhole,
}

regroup :
    (before is js ends : List TrInstr) (i : TrInstr)
    → ((before ++ is) ++ (i ∷ [])) ++ (js ++ ends) ≡ before ++ ((is ++ (i ∷ js)) ++ ends)
regroup before is js ends i =
    append_assoc (before ++ is) (i ∷ []) (js ++ ends)
    ∙ append_assoc before is (i ∷ (js ++ ends))
    ∙ ap (λ l. before ++ l) (sym (append_assoc is (i ∷ js) ends))

module _ (p : Program) (read : IsRead p) (implicit_ret : Bool) (address most v : ℕ)
    (config : Config) where
  pub Branched-Starts :
      (c d : Cpu) (is js : List TrInstr)
      → Branched p implicit_ret address c is d
      → Starts d.pc js
      → Starts c.pc (is ++ js)
  Branched-Starts c d is js no_more s = s
  Branched-Starts c d is js
        (stretch {t = t} {s = u} {f = f} {r = r} {is = ks} {js = ls} b course at e apart rest) s =
      subst (λ l. Starts c.pc l) (sym (append_assoc ks (f.instr ∷ ls) js))
        (Course-Starts p read implicit_ret config v c t [] ks (f.instr ∷ (ls ++ js)) course
          (At-Starts p read implicit_ret config v t u f r (ls ++ js) at))

  pub reports-IsWhole :
      (last : ℕ) (c t d e : Cpu) (bs : List Bool) (before js : List TrInstr) (k : TrInstr)
      (ks : List TrInstr)
      → Pending p implicit_ret address c bs before t
      → length bs < 31
      → Branched p implicit_ret address t js d
      → Ends p implicit_ret address d (k ∷ ks) e
      → (last_of (at_privilege v k) (map (at_privilege v) ks)).iaddr ≡ address
      → length (before ++ (js ++ (k ∷ ks))) ≤ most
      → IsWhole p implicit_ret address most v
          (known v last c)
          (reports_of config v bs (js ++ (k ∷ ks)))
          (before ++ (js ++ (k ∷ ks)))
  reports-IsWhole last c t d e bs before js k ks past few no_more ends here bound =
      subst (λ q. IsWhole p implicit_ret address most v (known v last c) q (before ++ (k ∷ ks)))
        (sym (reports-Ends p read implicit_ret config v bs address t e k ks few ends))
        (flush_packet-IsWhole p implicit_ret address most v last c t e bs before (k ∷ ks) _ past few
          ends here bound)
  reports-IsWhole last c t d e bs before js k ks past few
        (stretch {t = u} {s = s} {f = f} {r = r} {is = is} {js = ls} b course at forks apart rest)
        ends here bound =
      let to : ℕ = if b then add_vma u.pc f.size else f.target in
      let more : List TrInstr = ls ++ (k ∷ ks) in
      let begins : Starts to more =
        Branched-Starts (behind s r to) d ls (k ∷ ks) rest
          (Ends-Starts p read implicit_ret config v address d e (k ∷ ks) ends) in
      let along : reports_of config v bs ((is ++ (f.instr ∷ ls)) ++ (k ∷ ks))
          ≡ reports_of config v bs (f.instr ∷ more) =
        ap (λ l. reports_of config v bs l) (append_assoc is (f.instr ∷ ls) (k ∷ ks))
        ∙ reports-Course p read implicit_ret config v bs t u is (f.instr ∷ more) few course
            (At-Starts p read implicit_ret config v u s f r more at) in
      let so_far : Course p implicit_ret c bs (before ++ is) u =
        subst (λ x. Course p implicit_ret c x (before ++ is) u) (append-nil bs)
          (Course-append p implicit_ret (Pending-Course p implicit_ret address c t bs before past)
            course) in
      let taken : List TrInstr = (before ++ is) ++ (f.instr ∷ []) in
      let same : taken ++ more ≡ before ++ ((is ++ (f.instr ∷ ls)) ++ (k ∷ ks)) =
        regroup before is ls (k ∷ ks) f.instr in
      let whole : (q : List TrPacket)
          → reports_of config v bs (f.instr ∷ more) ≡ q
          → IsWhole p implicit_ret address most v (known v last c) q (taken ++ more)
          → IsWhole p implicit_ret address most v (known v last c)
              (reports_of config v bs ((is ++ (f.instr ∷ ls)) ++ (k ∷ ks)))
              (before ++ ((is ++ (f.instr ∷ ls)) ++ (k ∷ ks))) =
        λ q found h.
          subst
            (λ x.
              IsWhole p implicit_ret address most v (known v last c) x
                (before ++ ((is ++ (f.instr ∷ ls)) ++ (k ∷ ks))))
            (sym (along ∙ found))
            (subst (λ l. IsWhole p implicit_ret address most v (known v last c) q l) same h) in
      let room : length (taken ++ more) ≤ most = rw same bound in
      elim (Bool-cases (length (bs ++ (b ∷ [])) == 31)) [
        | inl full ↦
            whole _
              (reports-fork_full p read implicit_ret config v bs u s f r at b forks more begins
                full)
              (IsWhole-next p implicit_ret address most v (known v last c)
                (known v last (behind s r to)) _ _ taken more refl
                (full_packet-Tells p read implicit_ret true most config v c u last bs (before ++ is)
                  s f r b so_far at forks (ground (arith, full)))
                (omega (arith, room, length-append taken more))
                (reports-IsWhole last (behind s r to) (behind s r to) d e [] [] ls k ks none_pending
                  (omega arith) rest ends here (omega (arith, room, length-append taken more))))
        | inr open_map ↦
            whole _
              (reports-fork_open p read implicit_ret config v bs u s f r at b forks more begins
                open_map)
              (reports-IsWhole last c (behind s r to) d e (bs ++ (b ∷ [])) taken ls k ks
                (some_pending b so_far at forks apart)
                (ground (arith, open_map, length-append bs (b ∷ []))) rest ends here room)
      ]
