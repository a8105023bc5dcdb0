-- ===== src/Decompress/CallStack.antt =====
-- The return address stack across calls, returns and coroutine jumps, as update_ras keeps it.
use mathlib.Core.List.{append-nil, append_assoc}
use trdb.Base.{
  ℕ, ◌+◌, ◌%◌, ◌^◌, ◌≡◌, refl, ap, ◌∙◌, sym, ◌||◌, if◌then◌else◌, ◌==◌, Option, none, some, List,
  [], ◌∷◌, ◌++◌,
}
use trdb.Bits.{bit_and_low}
use trdb.Errors.{value, failed}
use trdb.Insn.Ras.{no_hint, ret, coret, call, get_instr_ras_type}
use trdb.Decompress.{RasResult, update_ras, after_call, ras_value}

-- Where an instruction at an address ends: its two low bits are set if it has 4 bytes.
abbrev pub end_of : ℕ → ℕ → ℕ
end_of instr addr = (addr + (if instr % 4 == 3 then 4 else 2)) % 2 ^ 32

-- Instructions at their addresses, executed while the link on top of the stack is `from`: they
-- leave the link `to`, and go to the addresses `targets` in order. A call is followed by what its
-- function executes and by its return.
pub data Frame : ℕ → List (ℕ × ℕ) → ℕ → List ℕ → Type 0 where
  idle : {from : ℕ} → Frame from [] from []
  passes :
      {from to : ℕ} {is : List (ℕ × ℕ)} {targets : List ℕ} (instr addr : ℕ)
      → get_instr_ras_type instr ≡ no_hint
      → Frame from is to targets
      → Frame from ((instr, addr) ∷ is) to targets
  switches :
      {from to : ℕ} {is : List (ℕ × ℕ)} {targets : List ℕ} (instr addr : ℕ)
      → get_instr_ras_type instr ≡ coret
      → Frame (end_of instr addr) is to targets
      → Frame from ((instr, addr) ∷ is) to (from ∷ targets)
  nests :
      {from to link : ℕ} {inner is : List (ℕ × ℕ)} {ts targets : List ℕ}
      (caller addr returner at : ℕ)
      → get_instr_ras_type caller ≡ call
      → get_instr_ras_type returner ≡ ret
      → Frame (end_of caller addr) inner link ts
      → Frame from is to targets
      → Frame from ((caller, addr) ∷ (inner ++ ((returner, at) ∷ is))) to (ts ++ (link ∷ targets))

-- The address that update_ras found, if its status says that it did.
abbrev landed : ℕ → ℕ → List ℕ
landed status ret_addr =
    if status == ras_value ret || status == ras_value coret then ret_addr ∷ [] else []

abbrev prepend : List ℕ → Option (List ℕ × List ℕ) → Option (List ℕ × List ℕ)
prepend xs none = none
prepend xs (some (ys, stack)) = some (xs ++ ys, stack)

-- Calls of update_ras one after the other: the addresses that are found, and the stack at the end.
unfoldable pub follow : List (ℕ × ℕ) → List ℕ → ℕ → Option (List ℕ × List ℕ)
follow [] stack ret_addr = some ([], stack)
follow ((instr, addr) ∷ is) stack ret_addr =
    let r = update_ras instr addr stack ret_addr in
    elim r.status [
      | failed e ↦ none
      | value n ↦ prepend (landed n r.ret_addr) (follow is r.stack r.ret_addr)
    ]

prepend-nil : (m : Option (List ℕ × List ℕ)) → prepend [] m ≡ m
prepend-nil none = refl
prepend-nil (some (ys, stack)) = refl

prepend-append :
    (xs ys : List ℕ) (m : Option (List ℕ × List ℕ))
    → prepend xs (prepend ys m) ≡ prepend (xs ++ ys) m
prepend-append xs ys none = refl
prepend-append xs ys (some (zs, stack)) = ap (λ l. some (l, stack)) (sym (append_assoc xs ys zs))

after_call-end_of : (instr addr : ℕ) → after_call instr addr ≡ end_of instr addr
after_call-end_of instr addr = rw (bit_and_low 2 instr) refl

-- What follows a call of update_ras.
abbrev resumed : List (ℕ × ℕ) → RasResult → Option (List ℕ × List ℕ)
resumed is r = elim r.status [
  | failed e ↦ none
  | value n ↦ prepend (landed n r.ret_addr) (follow is r.stack r.ret_addr)
]

module _ (instr addr : ℕ) (stack : List ℕ) (ret_addr : ℕ) where
  update_ras-pass :
      get_instr_ras_type instr ≡ no_hint
      → update_ras instr addr stack ret_addr
        ≡ record { status = value 0; stack = stack; ret_addr = ret_addr }
  unfolding update_ras ras_value
  update_ras-pass e = rw e refl

  update_ras-call :
      get_instr_ras_type instr ≡ call
      → update_ras instr addr stack ret_addr
        ≡ record { status = value 2; stack = end_of instr addr ∷ stack; ret_addr = ret_addr }
  unfolding update_ras ras_value
  update_ras-call e = rw (e, after_call-end_of instr addr) refl

  update_ras-ret :
      (top : ℕ)
      → get_instr_ras_type instr ≡ ret
      → update_ras instr addr (top ∷ stack) ret_addr
        ≡ record { status = value 1; stack = stack; ret_addr = top }
  unfolding update_ras ras_value
  update_ras-ret top e = rw e refl

  update_ras-coret :
      (top : ℕ)
      → get_instr_ras_type instr ≡ coret
      → update_ras instr addr (top ∷ stack) ret_addr
        ≡ record { status = value 3; stack = end_of instr addr ∷ stack; ret_addr = top }
  unfolding update_ras ras_value
  update_ras-coret top e = rw (e, after_call-end_of instr addr) refl

  module _ (is : List (ℕ × ℕ)) where
    follow-pass :
        get_instr_ras_type instr ≡ no_hint
        → follow ((instr, addr) ∷ is) stack ret_addr ≡ follow is stack ret_addr
    unfolding follow ras_value
    follow-pass e = ap (resumed is) (update_ras-pass e) ∙ prepend-nil (follow is stack ret_addr)

    follow-call :
        get_instr_ras_type instr ≡ call
        → follow ((instr, addr) ∷ is) stack ret_addr
          ≡ follow is (end_of instr addr ∷ stack) ret_addr
    unfolding follow ras_value
    follow-call e =
        ap (resumed is) (update_ras-call e)
        ∙ prepend-nil (follow is (end_of instr addr ∷ stack) ret_addr)

    follow-ret :
        (top : ℕ)
        → get_instr_ras_type instr ≡ ret
        → follow ((instr, addr) ∷ is) (top ∷ stack) ret_addr
          ≡ prepend (top ∷ []) (follow is stack top)
    unfolding follow ras_value
    follow-ret top e = ap (resumed is) (update_ras-ret top e)

    follow-coret :
        (top : ℕ)
        → get_instr_ras_type instr ≡ coret
        → follow ((instr, addr) ∷ is) (top ∷ stack) ret_addr
          ≡ prepend (top ∷ []) (follow is (end_of instr addr ∷ stack) top)
    unfolding follow ras_value
    follow-coret top e = ap (resumed is) (update_ras-coret top e)

-- What a frame leaves for the instructions behind it.
update_ras-Frame-then :
    {from to : ℕ} {is : List (ℕ × ℕ)} {targets : List ℕ}
    → Frame from is to targets
    → (more : List (ℕ × ℕ)) (stack : List ℕ) (ret_addr : ℕ)
    → (last : ℕ) × (follow (is ++ more) (from ∷ stack) ret_addr
        ≡ prepend targets (follow more (to ∷ stack) last))
update_ras-Frame-then idle more stack ret_addr = (ret_addr, sym (prepend-nil _))
update_ras-Frame-then (passes instr addr e f) more stack ret_addr =
    let (last, h) = update_ras-Frame-then f more stack ret_addr in
    (last, follow-pass instr addr _ _ _ e ∙ h)
update_ras-Frame-then (switches {from} instr addr e f) more stack ret_addr =
    let (last, h) = update_ras-Frame-then f more stack from in
    (
      last,
      follow-coret instr addr stack ret_addr _ from e
          ∙ ap (prepend (from ∷ [])) h
          ∙ prepend-append (from ∷ []) _ _,
    )
update_ras-Frame-then
      (nests {from} {to} {link} {inner} {is} {ts} {targets} caller addr returner at e k f g) more
      stack ret_addr =
    let (inner_last, h) =
      update_ras-Frame-then f ((returner, at) ∷ (is ++ more)) (from ∷ stack) ret_addr in
    let (last, m) = update_ras-Frame-then g more stack link in
    (
      last,
      ap (λ l. follow ((caller, addr) ∷ l) (from ∷ stack) ret_addr)
            (append_assoc inner ((returner, at) ∷ is) more)
          ∙ follow-call caller addr (from ∷ stack) ret_addr _ e
          ∙ h
          ∙ ap (prepend ts) (
              follow-ret returner at (from ∷ stack) inner_last _ link k
              ∙ ap (prepend (link ∷ [])) m
              ∙ prepend-append (link ∷ []) targets _)
          ∙ prepend-append ts (link ∷ targets) _,
    )

-- Take a sequence of instructions in which each call, by its hint, is followed by such a sequence
-- and by its return, coroutine jumps may stand anywhere, and all others have no hint, on a return
-- address stack that is not empty: update_ras, called for one after the other, never fails; each
-- return and each coroutine jump finds the address behind the call or coroutine jump that it goes
-- back to, 2 or 4 bytes further by its low two bits, or the top of the stack at the start; and
-- the stack is as before at the end, but for its top, which is the address behind the last
-- coroutine jump outside of the calls, if there is one.
pub update_ras-Frame :
    (from : ℕ) (is : List (ℕ × ℕ)) (to : ℕ) (targets : List ℕ)
    → Frame from is to targets
    → (stack : List ℕ) (ret_addr : ℕ)
    → follow is (from ∷ stack) ret_addr ≡ some (targets, to ∷ stack)
update_ras-Frame from is to targets f stack ret_addr =
    let (last, h) = update_ras-Frame-then f [] stack ret_addr in
    ap (λ l. follow l (from ∷ stack) ret_addr) (sym (append-nil is))
    ∙ h
    ∙ unfold follow in ap (λ l. some (l, to ∷ stack)) (append-nil targets)
