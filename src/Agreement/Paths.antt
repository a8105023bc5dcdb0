-- ===== src/Agreement/Paths.antt =====
-- Paths put together, and moved to the section that is loaded where they begin.
use trdb.Base.{
  ℕ, suc, length, ◌%◌, ◌^◌, ◌≡◌, refl, ap, Bool, List, [], ◌∷◌, ◌++◌, map, Option-cases, inl, inr,
  arith,
}
use trdb.Trace.{TrInstr}
use trdb.Program.{
  Program, Section, located, load_section, trdb_get_section_for_vma, switch_section, Fetched,
}
use trdb.Decompress.{RasResult}
use trdb.Decompress.Course.{Cpu, At, Goes, by_falling, by_going, Course, stay, move, fork}
use trdb.Decompress.Tells.{at_privilege}
use trdb.Agreement.Fetches.{disassemble_at_pc-IsFetched}

module _ (p : Program) where
  load_section-same : (s t : Section) → load_section p s ≡ located t → s ≡ t
  unfolding load_section
  load_section-same s t e = ground arith

  -- A section that was loaded for the pc is not loaded again.
  switch_section-again :
      (s t : Section) (pc : ℕ)
      → switch_section p s pc ≡ located t
      → switch_section p t pc ≡ located t
  unfolding switch_section
  switch_section-again s t pc e = elim (Option-cases (trdb_get_section_for_vma p.sections pc)) [
    | inl missing ↦ ground (arith, e, missing)
    | inr (u, found) ↦ ground (arith, e, found, load_section-same u t)
  ]

  pub At-loaded :
      (c : Cpu) (s : Section) (f : Fetched) (r : RasResult)
      → At p c s f r
      → At p (record c { section = s }) s f r
  At-loaded c s f r at = record {
    found = switch_section-again c.section s c.pc at.found;
    fetched = at.fetched;
    hint = at.hint;
    kind = at.kind;
    calm = at.calm;
    no_coret = at.no_coret;
  }

  module _ (implicit_ret : Bool) where
    pub Goes-loaded :
        (c : Cpu) (s : Section) (f : Fetched) (r : RasResult) (pc : ℕ)
        → Goes p implicit_ret c f r pc
        → Goes p implicit_ret (record c { section = s }) f r pc
    Goes-loaded c s f r pc (by_falling e k) = by_falling e k
    Goes-loaded c s f r pc (by_going e) = by_going e

    pub Course-append :
        {c t d : Cpu} {bs bs' : List Bool} {is is' : List TrInstr}
        → Course p implicit_ret c bs is t
        → Course p implicit_ret t bs' is' d
        → Course p implicit_ret c (bs ++ bs') (is ++ is') d
    Course-append stay further = further
    Course-append (move at g rest) further = move at g (Course-append rest further)
    Course-append (fork b at e rest) further = fork b at e (Course-append rest further)

    -- A path up to an instruction, from the section that is loaded where it begins.
    pub record IsLoaded (c : Cpu) (bs : List Bool) (is : List TrInstr) (t : Cpu) (s : Section)
        (f : Fetched) (r : RasResult) : Type 0 where
      pub first : Section
      pub found : switch_section p c.section c.pc ≡ located first
      pub there : Cpu
      pub course : Course p implicit_ret (record c { section = first }) bs is there
      pub at : At p there s f r
      pub same_pc : there.pc ≡ t.pc

    pub Course-IsLoaded :
        (c t : Cpu) (bs : List Bool) (is : List TrInstr) (s : Section) (f : Fetched) (r : RasResult)
        → Course p implicit_ret c bs is t
        → At p t s f r
        → IsLoaded c bs is t s f r
    Course-IsLoaded c t bs is s f r stay at = record {
      first = s;
      found = at.found;
      there = record c { section = s };
      course = stay;
      at = At-loaded c s f r at;
      same_pc = refl;
    }
    Course-IsLoaded c t bs is s f r (move {s = s0} {f = g} {r = q} {pc = pc} here goes rest) at =
        record {
          first = s0;
          found = here.found;
          there = t;
          course = move (At-loaded c s0 g q here) (Goes-loaded c s0 g q pc goes) rest;
          at = at;
          same_pc = refl;
        }
    Course-IsLoaded c t bs is s f r (fork {s = s0} {f = g} {r = q} b here forks rest) at = record {
      first = s0;
      found = here.found;
      there = t;
      course = fork b (At-loaded c s0 g q here) forks rest;
      at = at;
      same_pc = refl;
    }

-- The instructions of a path with their privilege and one more: the first, and the others.
abbrev pub first_of : ℕ → List TrInstr → TrInstr → TrInstr
first_of v [] last = last
first_of v (i ∷ is) last = at_privilege v i

abbrev pub rest_of : ℕ → List TrInstr → TrInstr → List TrInstr
rest_of v [] last = []
rest_of v (i ∷ is) last = first_of v is last ∷ rest_of v is last

pub first_rest_lem :
    (v : ℕ) (is : List TrInstr) (last : TrInstr)
    → map (at_privilege v) is ++ (last ∷ []) ≡ first_of v is last ∷ rest_of v is last
first_rest_lem v [] last = refl
first_rest_lem v (i ∷ is) last = ap (λ l. at_privilege v i ∷ l) (first_rest_lem v is last)

pub length-rest_of :
    (v : ℕ) (is : List TrInstr) (last : TrInstr) → length (rest_of v is last) ≡ length is
length-rest_of v [] last = refl
length-rest_of v (i ∷ is) last = ap suc (length-rest_of v is last)

-- The first is at the pc.
pub first_of-iaddr :
    (p : Program) (implicit_ret : Bool) (v : ℕ) (c d : Cpu) (bs : List Bool) (is : List TrInstr)
    (last : TrInstr)
    → Course p implicit_ret c bs is d
    → last.iaddr ≡ d.pc % 2 ^ 32
    → (first_of v is last).iaddr ≡ c.pc % 2 ^ 32
first_of-iaddr p implicit_ret v c d bs is last stay e = e
first_of-iaddr p implicit_ret v c d bs is last (move {s = s} {f = f} at g rest) e =
    (disassemble_at_pc-IsFetched p s c.pc f at.fetched).iaddr
first_of-iaddr p implicit_ret v c d bs is last (fork {s = s} {f = f} b at k rest) e =
    (disassemble_at_pc-IsFetched p s c.pc f at.fetched).iaddr
