-- ===== src/Compress/Run.antt =====
-- A whole trace: the loop of compress_trace in src/trdb.c, call after call of
-- trdb_compress_trace_step_add.
use trdb.Base.{
  ℕ, suc, Bool, true, false, Every, and_rest, Every-append, ◌≡◌, refl, ◌⊎◌, inl, inr, List, [], ◌∷◌,
  Option, none, some, Outcome, done, Returns, Returns-bind, ◌>>=◌,
}
use trdb.Errors.{Status, value, failed, trdb_bad_instr, trdb_nomem}
use trdb.Trace.{TrInstr, TrPacket, IsInstr, IsPacket, zero_packet}
use trdb.Context.{Ctx}
use trdb.Compress.Step.{AddResult, trdb_compress_trace_step, trdb_compress_trace_step_add}
use trdb.Compress.Safety.{IsReady, IsStepped, trdb_compress_trace_step-IsStepped}

-- EXIT_SUCCESS and EXIT_FAILURE of stdlib.h
abbrev pub exit_success : Status
exit_success = value 0

abbrev pub exit_failure : Status
exit_failure = value 1

-- What malloc returns for a packet, by whether it succeeds.
abbrev pub allocated : Bool → Option TrPacket
allocated true = some zero_packet
allocated false = none

-- Every allocation succeeds.
abbrev pub ample : ℕ → Bool
ample n = true

-- The instructions are compressed in order, until a call fails. `memory n` says whether the n-th
-- call of malloc from here succeeds.
unfoldable pub compress_trace : (ℕ → Bool) → Ctx → List TrPacket → List TrInstr → Outcome AddResult
compress_trace memory ctx packet_list [] =
    done (record { status = exit_success; ctx = ctx; packet_list = packet_list })
compress_trace memory ctx packet_list (i ∷ rest) = do
  r ← trdb_compress_trace_step_add ctx packet_list i (allocated (memory 0))
  elim r.status [
    | failed e ↦ done (record r { status = exit_failure })
    | value n ↦ compress_trace (λ k. memory (suc k)) r.ctx r.packet_list rest
  ]

pub record IsTraced (r : AddResult) : Type 0 where
  pub outcome : (r.status ≡ exit_success) ⊎ (r.status ≡ exit_failure)
  pub ready : IsReady r.ctx
  pub fit : Every IsPacket r.packet_list

-- The statuses of one call: of the step, or that there is no memory.
abbrev pub AddStatus : Status → Type 0
AddStatus s = (s ≡ value 0) ⊎ (s ≡ value 1) ⊎ (s ≡ failed trdb_bad_instr) ⊎ (s ≡ failed trdb_nomem)

pub step-AddStatus :
    (s : Status) → (s ≡ value 0) ⊎ (s ≡ value 1) ⊎ (s ≡ failed trdb_bad_instr) → AddStatus s
step-AddStatus s (inl e) = inl e
step-AddStatus s (inr (inl e)) = inr (inl e)
step-AddStatus s (inr (inr e)) = inr (inr (inl e))

record IsAdded (r : AddResult) : Type 0 where
  outcome : AddStatus r.status
  ready : IsReady r.ctx
  fit : Every IsPacket r.packet_list

step_add-IsAdded :
    (ctx : Ctx) (ps : List TrPacket) (i : TrInstr) (memory : Option TrPacket)
    → IsReady ctx
    → Every IsPacket ps
    → IsInstr i
    → Returns IsAdded (trdb_compress_trace_step_add ctx ps i memory)
unfolding trdb_compress_trace_step_add
step_add-IsAdded ctx ps i none h fit valid = record {
  outcome = inr (inr (inr refl));
  ready = h;
  fit = fit;
}
step_add-IsAdded ctx ps i (some memory) h fit valid =
    Returns-bind IsStepped IsAdded (trdb_compress_trace_step ctx memory i) _
      (trdb_compress_trace_step-IsStepped ctx memory i h valid)
      λ r s. record {
        outcome = step-AddStatus r.status s.outcome;
        ready = s.ready;
        fit = elim s.outcome [
          | inl e ↦ rw e fit
          | inr (inl e) ↦ rw e (Every-append IsPacket ps r.packet fit (s.packet_fits e))
          | inr (inr e) ↦ rw e fit
        ];
      }

-- From a context that is ready, with packets in the list whose fields fit, the compression of a
-- trace of any length, whose instructions have fields that fit, returns, whichever allocations
-- fail, without a failed assertion or undefined behaviour; its status is EXIT_SUCCESS or
-- EXIT_FAILURE, the context is ready again, and the fields of every packet in the list fit their
-- widths.
pub compress_trace-IsTraced :
    (memory : ℕ → Bool) (ctx : Ctx) (ps : List TrPacket) (instrs : List TrInstr)
    → IsReady ctx
    → Every IsPacket ps
    → Every IsInstr instrs
    → Returns IsTraced (compress_trace memory ctx ps instrs)
unfolding compress_trace
compress_trace-IsTraced memory ctx ps [] h fit valid = record {
  outcome = inl refl;
  ready = h;
  fit = fit;
}
compress_trace-IsTraced memory ctx ps (i ∷ rest) h fit (and_rest v valid) =
    Returns-bind IsAdded IsTraced (trdb_compress_trace_step_add ctx ps i (allocated (memory 0))) _
      (step_add-IsAdded ctx ps i (allocated (memory 0)) h fit v)
      λ r t.
        let further =
          compress_trace-IsTraced (λ k. memory (suc k)) r.ctx r.packet_list rest t.ready t.fit
            valid in
        elim t.outcome [
          | inl e ↦ rw e further
          | inr (inl e) ↦ rw e further
          | inr (inr (inl e)) ↦ rw e (record { outcome = inr refl; ready = t.ready; fit = t.fit })
          | inr (inr (inr e)) ↦ rw e (record { outcome = inr refl; ready = t.ready; fit = t.fit })
        ]
