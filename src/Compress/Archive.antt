-- ===== src/Compress/Archive.antt =====
-- A trace compressed, its packets written to a file, and the file read.
use trdb.Base.{
  ℕ, suc, ◌+◌, ◌*◌, ◌≤◌, ◌≡◌, refl, ap, ◌∙◌, inl, inr, Bool, true, false, Option, none, some, List,
  [], ◌∷◌, map, length, length-append, Every, none_left, and_rest, Every-append, Every-map, done,
  Returns, Returns-bind, Returns-both, Returns-mono, Returns-value, arith,
}
use trdb.Errors.{value}
use trdb.Trace.{TrInstr, TrPacket, IsInstr, IsPacket, zero_packet}
use trdb.Context.{Ctx, Config}
use trdb.Serialize.{announced_bytes, Serialized, serialized, rejected, trdb_pulp_serialize_packet}
use trdb.Serialize.Size.{IsSized, trdb_pulp_serialize_packet-IsSized}
use trdb.Serialize.Roundtrip.{write_then_read}
use trdb.Serialize.File.{write_binary, trdb_pulp_read_all_packets}
use trdb.Serialize.Stream.{IsReadAs, trdb_pulp_read_all_packets-write_binary}
use trdb.Compress.Step.{AddResult, trdb_compress_trace_step, trdb_compress_trace_step_add}
use trdb.Compress.Safety.{IsReady, IsStepped, trdb_compress_trace_step-IsStepped}
use trdb.Compress.Form.{HasForm}
use trdb.Compress.Delivered.{received, write_then_read-HasForm, IsSent, step-IsSent}
use trdb.Compress.Run.{compress_trace, exit_failure, allocated, AddStatus, step-AddStatus}

abbrev pub IsSendable : TrPacket → Type 0
IsSendable p = IsPacket p × HasForm p

module _ (c : Ctx) (full : c.config.full_address ≡ true)
    (plain : c.config.compress_full_branch_map ≡ false) where
  sendable-read :
      (p : TrPacket) (w : Serialized)
      → IsSendable p
      → trdb_pulp_serialize_packet c p 0 ≡ done w
      → IsSized w
      → IsReadAs c p (received p)
  unfolding write_then_read
  sendable-read p (serialized k bin) (fits, form) e (size, low, high) = record {
    bitcnt = k;
    bin = bin;
    written = e;
    size = size;
    some_bytes = low;
    short = high;
    read = λ rest faulty memory bytes. (
      announced_bytes p,
      rw e at (write_then_read-HasForm c full plain rest faulty memory bytes p fits form),
    );
  }
  sendable-read p (rejected r) (fits, form) e sized =
      absurd
        (ground (arith, rw e at (write_then_read-HasForm c full plain [] false p 0 p fits form)))

  pub sendable-IsReadAs : (p : TrPacket) → IsSendable p → IsReadAs c p (received p)
  sendable-IsReadAs p (fits, form) =
      let (w, e, sized) =
        Returns-value IsSized (trdb_pulp_serialize_packet c p 0)
          (trdb_pulp_serialize_packet-IsSized c p fits) in
      sendable-read p w (fits, form) e sized

-- What is collected in a list of k packets or fewer under a configuration.
record IsCollected (config : Config) (k : ℕ) (r : AddResult) : Type 0 where
  outcome : AddStatus r.status
  ready : IsReady r.ctx
  same_config : r.ctx.config ≡ config
  sendable : Every IsSendable r.packet_list
  few : length r.packet_list ≤ k

IsCollected-widen :
    (config : Config) (j k : ℕ) (r : AddResult)
    → j ≤ k
    → IsCollected config j r
    → IsCollected config k r
IsCollected-widen config j k r h t = record {
  outcome = t.outcome;
  ready = t.ready;
  same_config = t.same_config;
  sendable = t.sendable;
  few = omega (arith, t.few);
}

IsCollected-fail :
    (config : Config) (k : ℕ) (r : AddResult)
    → IsCollected config k r
    → IsCollected config k (record r { status = exit_failure })
IsCollected-fail config k r t = record {
  outcome = inr (inl refl);
  ready = t.ready;
  same_config = t.same_config;
  sendable = t.sendable;
  few = t.few;
}

module _ (config : Config) (full : config.full_address ≡ true)
    (plain : config.compress_full_branch_map ≡ false) where
  step_add-IsCollected :
      (ctx : Ctx) (ps : List TrPacket) (i : TrInstr) (memory : Option TrPacket)
      → ctx.config ≡ config
      → IsReady ctx
      → Every IsSendable ps
      → IsInstr i
      → Returns (IsCollected config (length ps + 1)) (trdb_compress_trace_step_add ctx ps i memory)
  unfolding trdb_compress_trace_step_add
  step_add-IsCollected ctx ps i none same h sent valid = record {
    outcome = inr (inr (inr refl));
    ready = h;
    same_config = same;
    sendable = sent;
    few = omega arith;
  }
  step_add-IsCollected ctx ps i (some memory) same h sent valid =
      Returns-bind (λ r. IsStepped r × IsSent ctx.config r) (IsCollected config (length ps + 1))
        (trdb_compress_trace_step ctx memory i) _
        (Returns-both IsStepped (IsSent ctx.config) _
          (trdb_compress_trace_step-IsStepped ctx memory i h valid)
          (step-IsSent ctx (ap (λ (k : Config). k.full_address) same ∙ full)
            (ap (λ (k : Config). k.compress_full_branch_map) same ∙ plain) memory i h valid))
        λ r (t, s). record {
          outcome = step-AddStatus r.status t.outcome;
          ready = t.ready;
          same_config = s.same_config ∙ same;
          sendable = elim s.outcome [
            | inl e ↦ rw e sent
            | inr (inl e) ↦ rw e sent
            | inr (inr (e, fits, form)) ↦
                rw e (Every-append IsSendable ps r.packet sent (fits, form))
          ];
          few = elim s.outcome [
            | inl e ↦ rw e (omega arith)
            | inr (inl e) ↦ rw e (omega arith)
            | inr (inr (e, fits, form)) ↦ rw e (omega (arith, length-append ps (r.packet ∷ [])))
          ];
        }

  compress_trace-IsCollected :
      (memory : ℕ → Bool) (ctx : Ctx) (ps : List TrPacket) (instrs : List TrInstr)
      → ctx.config ≡ config
      → IsReady ctx
      → Every IsSendable ps
      → Every IsInstr instrs
      → Returns
          (IsCollected config (length ps + length instrs))
          (compress_trace memory ctx ps instrs)
  unfolding compress_trace
  compress_trace-IsCollected memory ctx ps [] same h sent valid = record {
    outcome = inl refl;
    ready = h;
    same_config = same;
    sendable = sent;
    few = omega arith;
  }
  compress_trace-IsCollected memory ctx ps (i ∷ rest) same h sent (and_rest v valid) =
      Returns-bind (IsCollected config (length ps + 1))
        (IsCollected config (length ps + suc (length rest)))
        (trdb_compress_trace_step_add ctx ps i (allocated (memory 0))) _
        (step_add-IsCollected ctx ps i (allocated (memory 0)) same h sent v)
        λ r t.
          let further =
            Returns-mono (IsCollected config (length r.packet_list + length rest))
              (IsCollected config (length ps + suc (length rest)))
              (compress_trace (λ k. memory (suc k)) r.ctx r.packet_list rest)
              (compress_trace-IsCollected (λ k. memory (suc k)) r.ctx r.packet_list rest
                t.same_config t.ready t.sendable valid)
              λ q u. IsCollected-widen config _ _ q (omega (arith, t.few)) u in
          elim t.outcome [
            | inl e ↦ rw e further
            | inr (inl e) ↦ rw e further
            | inr (inr (inl e)) ↦ rw e (
                IsCollected-widen config _ _ (record r { status = exit_failure }) (omega arith)
                  (IsCollected-fail config _ r t))
            | inr (inr (inr e)) ↦ rw e (
                IsCollected-widen config _ _ (record r { status = exit_failure }) (omega arith)
                  (IsCollected-fail config _ r t))
          ]

-- The packets of a compression, written to an empty file whose device takes `room` bytes, and all
-- packets of that file read.
pub record IsArchived (room : ℕ) (r : AddResult) : Type 0 where
  pub archived :
      Returns
        (λ w.
          (w.status ≡ value 0)
          × (trdb_pulp_read_all_packets true r.ctx
                (record { ahead = w.output.contents; faulty = false })
                zero_packet
                []
              ≡ done
                  (some (record { status = value 0; packet_list = map received r.packet_list }))))
        (write_binary r.ctx r.packet_list (record { contents = []; room = room }))

-- With absolute addresses and full maps that are not compressed, from a context that is ready:
-- the compression of a trace of instructions whose fields fit returns, whichever allocations fail
-- for its packets, the packets that it leaves are written to an empty file without an error, when
-- its device takes 16 bytes for each instruction, and reading all packets of that file, with
-- memory available and without running out of fuel, returns 0 and the list of the same packets in
-- order, each as it is read.
pub compress_trace-IsArchived :
    (memory : ℕ → Bool) (ctx : Ctx) (instrs : List TrInstr) (room : ℕ)
    → ctx.config.full_address ≡ true
    → ctx.config.compress_full_branch_map ≡ false
    → IsReady ctx
    → Every IsInstr instrs
    → 16 * length instrs ≤ room
    → Returns (IsArchived room) (compress_trace memory ctx [] instrs)
compress_trace-IsArchived memory ctx instrs room full plain h valid fit =
    Returns-mono (IsCollected ctx.config (0 + length instrs)) (IsArchived room)
      (compress_trace memory ctx [] instrs)
      (compress_trace-IsCollected ctx.config full plain memory ctx [] instrs refl h none_left valid)
      λ r t. record {
        archived =
            trdb_pulp_read_all_packets-write_binary r.ctx received r.packet_list
              (Every-map IsSendable (λ p. IsReadAs r.ctx p (received p)) r.packet_list t.sendable
                (sendable-IsReadAs r.ctx (ap (λ (k : Config). k.full_address) t.same_config ∙ full)
                  (ap (λ (k : Config). k.compress_full_branch_map) t.same_config ∙ plain)))
              room (omega (arith, t.few)) false zero_packet;
      }
