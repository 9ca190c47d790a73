-- ===== src/Files/Transfer/Delivery.antt =====
-- What the arrival of a chunk comes to, under the invariant of a transfer
-- (crates/mouser-files/src/sender.rs and receiver.rs).
use mouser.Prelude.{
  ℕ, ◌+◌, ◌≤◌, ◌<◌, ◌≡◌, refl, sym, ◌∙◌, Bool, true, false, not, ◌&&◌, Bool-cases, inl, inr, List,
  [], ◌∷◌, ◌++◌, map, Option, none, some, ok, ltb, ◌==◌, length, get_elem?, get_elem?-some,
  get_elem?-lt, set, set-get_elem?, All, All-set, All-get_elem?, All-append, length-take, some-inj,
  arith,
}
use mouser.Prelude.Sat.{u64_max}
use mouser.Files.Types.{Hash, FileChunk, FileAck, FileDone, max_chunk_size}
use mouser.Files.Path.{PathLib}
use mouser.Files.Sink.{mem_source, mem_sink, mem_write_at}
use mouser.Files.Sender.{Track}
use mouser.Files.Receiver.{
  Outbound, Slot, Receiver, finalize_slots, all_complete, finalize_completed_files, on_chunk,
  chunk_for, write_chunk, written,
}
use mouser.Files.Transfer.{Transfer}
use mouser.Files.Transfer.Outcome.{Inv, IsSettled, IsChunkOf, IsReplyOf}
use mouser.Files.Transfer.Flight.{Flight-le, FileInv, FilesInv, FilesInv-track, FilesInv-update}
use mouser.Files.Transfer.Receipt.{answer, Flight-this, received_other, received_this}
use mouser.Files.Transfer.Settle.{settle, FilesInv-settle, finalize_slots_lem}

module _ (lib : PathLib) (sha256 : List ℕ → Hash) where
  abbrev pub receiving :
      Transfer lib sha256
      → List FileChunk
      → Receiver lib (mem_sink sha256)
      → List Outbound
      → Transfer lib sha256
  receiving x cs r' out = record x { chunks = cs; receiver = r'; responses = x.responses ++ out }

  -- A file that is not whole stays what it is, and the others are finalized.
  IsSettled-settle :
      (p : Slot lib (mem_sink sha256))
      → (p.complete ≡ true → p.size ≤ p.acked)
      → IsSettled lib sha256 (settle lib sha256 p)
  IsSettled-settle p h = ground (arith, h)

  -- A file counts as complete only when it has its size.
  abbrev pub IsHonest : Slot lib (mem_sink sha256) → Type 0
  IsHonest p = p.complete ≡ true → p.size ≤ p.acked

  pub All-settle :
      (ps : List (Slot lib (mem_sink sha256)))
      → All IsHonest ps
      → All (IsSettled lib sha256) (map (settle lib sha256) ps)
  All-settle [] h = tt
  All-settle (p ∷ ps) (h, hs) = (IsSettled-settle p h, All-settle ps hs)

  settled-IsHonest :
      (ps : List (Slot lib (mem_sink sha256))) → All (IsSettled lib sha256) ps → All IsHonest ps
  settled-IsHonest [] h = tt
  settled-IsHonest (p ∷ ps) (h, hs) = (λ e. ground (arith, h, e), settled-IsHonest ps hs)

  pub finalized :
      (r : Receiver lib (mem_sink sha256)) (qs : List (Slot lib (mem_sink sha256)))
      → finalize_slots lib (mem_sink sha256) r.slots ≡ (qs, true)
      → (f : Option FileDone) × (d : Bool) × (finalize_completed_files lib (mem_sink sha256) r
          ≡ (record r { slots = qs; done_emitted = d }, f))
        × ((e : FileDone) → f ≡ some e → (e.transfer_id ≡ r.transfer_id) × (e.is_ok ≡ true))
  unfolding finalize_completed_files
  finalized r qs e =
      elim (Bool-cases (not r.done_emitted && all_complete lib (mem_sink sha256) qs)) [
        | inl t ↦ (
          some (record { transfer_id = r.transfer_id; is_ok = true }),
          true,
          rw (e, t) refl,
          λ d q. (rw (sym (some-inj q)) refl, rw (sym (some-inj q)) refl),
        )
        | inr t ↦ (none, r.done_emitted, rw (e, t) refl, λ d q. cc)
      ]

  -- A chunk that follows what the slot holds is written.
  on_chunk_lem :
      (r : Receiver lib (mem_sink sha256)) (c : FileChunk) (p : Slot lib (mem_sink sha256))
      → c.transfer_id ≡ r.transfer_id
      → r.aborted ≡ false
      → length c.bytes ≤ max_chunk_size
      → get_elem? r.slots c.file_index ≡ some p
      → p.complete ≡ false
      → c.offset ≡ p.acked
      → c.offset + length c.bytes ≤ p.size
      → p.size ≤ u64_max
      → length p.snk ≡ p.acked
      → on_chunk lib (mem_sink sha256) r c ≡ (
        (written lib (mem_sink sha256) r c p (p.snk ++ c.bytes, ok tt)).0,
        ok (written lib (mem_sink sha256) r c p (p.snk ++ c.bytes, ok tt)).1,
      )
  unfolding on_chunk chunk_for write_chunk mem_write_at
  on_chunk_lem r c p id lives small found open_ at fits machine held =
      let t1 : (c.transfer_id == r.transfer_id) ≡ true = ground (arith, id) in
      let t2 : ltb max_chunk_size (length c.bytes) ≡ false = ground (arith, small) in
      let t3 : ltb u64_max (c.offset + length c.bytes) ≡ false = ground (arith, fits, machine) in
      let t4 : ltb p.size (c.offset + length c.bytes) ≡ false = ground (arith, fits) in
      let t5 : (c.offset == p.acked) ≡ true = ground (arith, at) in
      let t6 : (p.acked == length p.snk) ≡ true = ground (arith, held) in
      rw (t1, lives, t2, found, open_, t3, t4, t5, t6) refl

  pub zero_add : (k : ℕ) → k ≡ 0 + k
  zero_add k = omega arith

  pub from_zero :
      (k : ℕ) (t : Track mem_source) (p : Slot lib (mem_sink sha256)) (cs : List FileChunk)
      (os : List Outbound)
      → FileInv lib sha256 (0 + k) t p cs os
      → FileInv lib sha256 k t p cs os
  from_zero k t p cs os h = rw (zero_add k) h

  length-held :
      (x : Transfer lib sha256) (k : ℕ) (t : Track mem_source) (p : Slot lib (mem_sink sha256))
      → FileInv lib sha256 k t p x.chunks x.responses
      → length p.snk ≡ p.acked
  length-held x k t p h =
      let le : p.acked ≤ t.sent = Flight-le k t.src p.acked x.chunks t.sent h.flight in
      rw (h.held) (omega (arith, length-take p.acked t.src, le, h.within, h.size))

  abbrev ack_of : Receiver lib (mem_sink sha256) → FileChunk → FileAck
  ack_of r c = record {
    transfer_id = r.transfer_id;
    file_index = c.file_index;
    acked_through = c.offset + length c.bytes;
  }

  -- The slots behind the write of a chunk.
  abbrev wrote :
      List (Slot lib (mem_sink sha256))
      → FileChunk
      → Slot lib (mem_sink sha256)
      → List (Slot lib (mem_sink sha256))
  wrote ps c p =
      set ps c.file_index (record p { snk = p.snk ++ c.bytes; acked = c.offset + length c.bytes })

  wrote_files :
      (x : Transfer lib sha256) (c : FileChunk) (cs : List FileChunk) (t : Track mem_source)
      (p : Slot lib (mem_sink sha256)) (f : Option FileDone)
      → Inv lib sha256 x
      → x.chunks ≡ c ∷ cs
      → get_elem? x.sender.tracks c.file_index ≡ some t
      → FileInv lib sha256 c.file_index t p (c ∷ cs) x.responses
      → FilesInv lib sha256 0 x.sender.tracks
          (wrote x.receiver.slots c p)
          cs
          (x.responses ++ answer lib sha256 (ack_of x.receiver c) f)
  wrote_files x c cs t p f h q found inv =
      rw (sym (set-get_elem? x.sender.tracks c.file_index t found)) (
        FilesInv-update lib sha256 0 c.file_index x.sender.tracks x.receiver.slots (c ∷ cs) cs
          x.responses _ t _ (rw (q) at h.files)
          (λ i u v ne g.
            received_other lib sha256 i u v c cs x.responses (ack_of x.receiver c) f
              (λ e. ne (sym e ∙ zero_add c.file_index)) refl g)
          (rw (sym (zero_add c.file_index)) (
            received_this lib sha256 c.file_index t p c cs x.responses (ack_of x.receiver c) f refl
              refl refl inv)))

  answered :
      (id files : ℕ) (a : FileAck) (f : Option FileDone)
      → a.transfer_id ≡ id
      → a.file_index < files
      → ((e : FileDone) → f ≡ some e → (e.transfer_id ≡ id) × (e.is_ok ≡ true))
      → All (IsReplyOf id files) (answer lib sha256 a f)
  answered id files a none e lt h = ((e, lt), tt)
  answered id files a (some d) e lt h = ((e, lt), (h d refl, tt))

  length-answer : (a : FileAck) (f : Option FileDone) → length (answer lib sha256 a f) ≤ 2
  length-answer a none = omega arith
  length-answer a (some d) = omega arith

  receive_Inv :
      (x : Transfer lib sha256) (c : FileChunk) (cs : List FileChunk) (t : Track mem_source)
      (p : Slot lib (mem_sink sha256)) (f : Option FileDone) (emitted : Bool)
      → Inv lib sha256 x
      → x.chunks ≡ c ∷ cs
      → get_elem? x.sender.tracks c.file_index ≡ some t
      → FileInv lib sha256 c.file_index t p (c ∷ cs) x.responses
      → p.complete ≡ false
      → ((e : FileDone) → f ≡ some e → (e.transfer_id ≡ x.receiver.transfer_id) × (e.is_ok ≡ true))
      → Inv lib sha256 (
          receiving x cs
            (record x.receiver {
              slots = map (settle lib sha256) (wrote x.receiver.slots c p);
              done_emitted = emitted;
            })
            (answer lib sha256 (ack_of x.receiver c) f))
  receive_Inv x c cs t p f emitted h q found inv fresh good =
      let replies =
        answered x.sender.transfer_id (length x.sender.tracks) (ack_of x.receiver c) f h.transfer_id
          (get_elem?-lt x.sender.tracks c.file_index found)
          (λ e r. ((good e r).0 ∙ h.transfer_id, (good e r).1)) in
      let chunks : All (IsChunkOf x.sender.transfer_id (length x.sender.tracks)) (c ∷ cs) =
        rw (q) at h.chunks in
      record {
        transfer_id = h.transfer_id;
        accepted = h.accepted;
        sender_lives = h.sender_lives;
        receiver_lives = h.receiver_lives;
        some_bytes = h.some_bytes;
        small = h.small;
        some_files = h.some_files;
        few = h.few;
        files =
            FilesInv-settle lib sha256 0 x.sender.tracks _ cs _
              (wrote_files x c cs t p f h q found inv);
        settled = All-settle _ (
            All-set IsHonest x.receiver.slots c.file_index _
              (settled-IsHonest x.receiver.slots h.settled) (λ e. cc));
        chunks = chunks.1;
        responses =
            All-append (IsReplyOf x.sender.transfer_id (length x.sender.tracks)) x.responses _
              h.responses replies;
      }

  -- A chunk that arrives is taken without an error, and at most two messages answer it.
  pub receive_outcome :
      (x : Transfer lib sha256) (c : FileChunk) (cs : List FileChunk)
      → Inv lib sha256 x
      → x.chunks ≡ c ∷ cs
      → (r' : Receiver lib (mem_sink sha256)) × (out : List Outbound) × (on_chunk lib
            (mem_sink sha256)
            x.receiver
            c
          ≡ (r', ok out))
        × Inv lib sha256 (receiving x cs r' out)
        × (length out ≤ 2)
  unfolding written
  receive_outcome x c cs h q =
      let chunks : All (IsChunkOf x.sender.transfer_id (length x.sender.tracks)) (c ∷ cs) =
        rw (q) at h.chunks in
      let files : FilesInv lib sha256 0 x.sender.tracks x.receiver.slots (c ∷ cs) x.responses =
        rw (q) at h.files in
      let (t, found) = get_elem?-some x.sender.tracks c.file_index chunks.0.1 in
      let (p, slot, inv0) =
        FilesInv-track lib sha256 0 c.file_index x.sender.tracks x.receiver.slots (c ∷ cs)
          x.responses t files found in
      let inv : FileInv lib sha256 c.file_index t p (c ∷ cs) x.responses =
        from_zero c.file_index t p (c ∷ cs) x.responses inv0 in
      let (next, rest) =
        Flight-this lib sha256 c.file_index t.src p.acked c cs t.sent refl inv.flight in
      let settled : IsSettled lib sha256 p =
        All-get_elem? (IsSettled lib sha256) x.receiver.slots c.file_index h.settled slot in
      let size : p.size ≡ length t.src = inv.same_size ∙ inv.size in
      let fresh : p.complete ≡ false = ground (arith, settled, size, next.fits, next.some_bytes) in
      let held : length p.snk ≡ p.acked =
        length-held (record x { chunks = c ∷ cs }) c.file_index t p inv in
      let finish =
        finalize_slots_lem lib sha256 0 x.sender.tracks (wrote x.receiver.slots c p) cs _
          (wrote_files x c cs t p none h q found inv) in
      let (f, emitted, fin, good) =
        finalized (record x.receiver { slots = wrote x.receiver.slots c p }) _ finish in
      (
        record x.receiver {
          slots = map (settle lib sha256) (wrote x.receiver.slots c p);
          done_emitted = emitted;
        },
        answer lib sha256 (ack_of x.receiver c) f,
        on_chunk_lem x.receiver c p (chunks.0.0 ∙ sym h.transfer_id) h.receiver_lives next.small
              slot fresh next.at (omega (arith, size, next.at, next.fits))
              (omega (arith, inv.same_size, inv.machine)) held
            ∙ rw (fin) refl,
        receive_Inv x c cs t p f emitted h q found inv fresh good,
        length-answer (ack_of x.receiver c) f,
      )
