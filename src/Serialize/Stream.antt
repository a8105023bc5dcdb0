-- ===== src/Serialize/Stream.antt =====
-- Files of several packets, written and read.
use mathlib.Core.List.{append-nil, append_assoc}
use trdb.Base.{
  Every, and_rest, take-all, map, ℕ, zero, suc, ◌+◌, ◌-◌, ◌*◌, ◌≤◌, ◌<◌, ◌≡◌, refl, sym, ap, ◌∙◌,
  Bool, true, List, [], ◌∷◌, ◌++◌, length, length-append, take, some, done, Returns, Returns-mono,
  arith,
}
use trdb.Errors.{value}
use trdb.Trace.{TrPacket}
use trdb.Context.{Ctx}
use trdb.Serialize.{bytes_for, trdb_pulp_serialize_packet, serialized}
use trdb.Serialize.Roundtrip.{read_back}
use trdb.Serialize.Read.{trdb_pulp_read_single_packet}
use trdb.Serialize.File.{
  Output, fwrite, trdb_pulp_write_single_packet, write_binary, read_packets,
  trdb_pulp_read_all_packets,
}

-- A packet that is read back as q, whatever follows it.
pub record IsReadAs (c : Ctx) (p q : TrPacket) : Type 0 where
  pub bitcnt : ℕ
  pub bin : List ℕ
  pub written : trdb_pulp_serialize_packet c p 0 ≡ done (serialized bitcnt bin)
  pub size : length bin ≡ bytes_for bitcnt
  pub some_bytes : 1 ≤ length bin
  pub short : length bin ≤ 16
  pub read :
      (rest : List ℕ) (faulty : Bool) (memory : TrPacket) (bytes : ℕ)
      → (n : ℕ) × (trdb_pulp_read_single_packet c
            (record { ahead = bin ++ rest; faulty = faulty })
            memory
            bytes
          ≡ done (read_back q n rest faulty))

module _ (c : Ctx) (f : TrPacket → TrPacket) where
  -- The bytes of a list of packets.
  bins : (ps : List TrPacket) → Every (λ p. IsReadAs c p (f p)) ps → List ℕ
  bins [] h = []
  bins (p ∷ ps) (and_rest r h) = r.bin ++ bins ps h

  length-bins :
      (ps : List TrPacket) (h : Every (λ p. IsReadAs c p (f p)) ps)
      → (length ps ≤ length (bins ps h)) × (length (bins ps h) ≤ 16 * length ps)
  unfolding bins
  length-bins [] h = (omega arith, omega arith)
  length-bins (p ∷ ps) (and_rest r h) =
      let (low, high) = length-bins ps h in
      let joined = length-append r.bin (bins ps h) in
      (omega (arith, r.some_bytes), omega (arith, r.short))

  write_binary-bins :
      (ps : List TrPacket) (h : Every (λ p. IsReadAs c p (f p)) ps) (out : Output)
      → 16 * length ps ≤ out.room
      → Returns
          (λ w. (w.status ≡ value 0) × (w.output.contents ≡ out.contents ++ bins ps h))
          (write_binary c ps out)
  unfolding write_binary bins trdb_pulp_write_single_packet fwrite
  write_binary-bins [] h out fit = (refl, sym (append-nil out.contents))
  write_binary-bins (p ∷ ps) (and_rest r h) out fit =
      let whole : take (bytes_for r.bitcnt) r.bin ≡ r.bin =
        take-all r.bin _ (omega (arith, r.size)) in
      let single : trdb_pulp_write_single_packet c p out
          ≡ done (record {
            status = value 0;
            output = record { contents = out.contents ++ r.bin; room = out.room - length r.bin };
          }) =
        ground (arith, r.written, whole, r.short, take-all r.bin out.room) in
      rw single (
        Returns-mono
          (λ w. (w.status ≡ value 0) × (w.output.contents ≡ (out.contents ++ r.bin) ++ bins ps h))
          (λ w. (w.status ≡ value 0) × (w.output.contents ≡ out.contents ++ (r.bin ++ bins ps h)))
          (write_binary c ps _) (write_binary-bins ps h _ (omega (arith, r.short)))
          λ w (e, k). (e, k ∙ append_assoc out.contents r.bin (bins ps h)))

  read_packets-bins :
      (ps : List TrPacket) (h : Every (λ p. IsReadAs c p (f p)) ps) (fuel : ℕ) (faulty : Bool)
      (tmp : TrPacket) (bytes : ℕ) (before : List TrPacket)
      → length ps < fuel
      → read_packets true fuel c (record { ahead = bins ps h; faulty = faulty }) tmp bytes before
        ≡ done (some (record { status = value 0; packet_list = before ++ map f ps }))
  unfolding read_packets bins
  read_packets-bins ps h zero faulty tmp bytes before less = absurd (omega arith)
  read_packets-bins [] h (suc fuel) faulty tmp bytes before less =
      unfold trdb_pulp_read_single_packet in ground (arith, append-nil before)
  read_packets-bins (p ∷ ps) (and_rest r h) (suc fuel) faulty tmp bytes before less =
      let (n, e) = r.read (bins ps h) faulty tmp bytes in
      rw e (
        read_packets-bins ps h fuel faulty (f p) (n + 1) (before ++ (f p ∷ [])) (omega arith)
        ∙ ap (λ l. done (some (record { status = value 0; packet_list = l })))
            (append_assoc before (f p ∷ []) (map f ps)))

  pub trdb_pulp_read_all_packets-write_binary :
      (ps : List TrPacket)
      → Every (λ p. IsReadAs c p (f p)) ps
      → (room : ℕ) → 16 * length ps ≤ room
      → (faulty : Bool) (tmp : TrPacket)
      → Returns
          (λ w.
            (w.status ≡ value 0)
            × (trdb_pulp_read_all_packets true c
                  (record { ahead = w.output.contents; faulty = faulty })
                  tmp
                  []
                ≡ done (some (record { status = value 0; packet_list = map f ps }))))
          (write_binary c ps (record { contents = []; room = room }))
  unfolding trdb_pulp_read_all_packets
  trdb_pulp_read_all_packets-write_binary ps h room fit faulty tmp =
      Returns-mono (λ w. (w.status ≡ value 0) × (w.output.contents ≡ bins ps h)) _
        (write_binary c ps (record { contents = []; room = room }))
        (write_binary-bins ps h (record { contents = []; room = room }) fit)
        λ w (e, k). (
          e,
          ap
                (λ (l : List ℕ).
                  trdb_pulp_read_all_packets true c (record { ahead = l; faulty = faulty }) tmp [])
                k
              ∙ read_packets-bins ps h (suc (length (bins ps h))) faulty tmp 0 []
                  (omega (arith, (length-bins ps h).0)),
        )
