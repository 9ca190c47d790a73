-- ===== src/Files/Receiver/Commit.antt =====
-- Whatever chunks come, a file that the receiver holds is a prefix of the offered size, and one that
-- counts as complete is whole and has the expected digest (crates/mouser-files/src/receiver.rs).
use mouser.Prelude.{
  ℕ, ◌+◌, ◌≤◌, ◌≡◌, refl, sym, ap, true, false, not, ◌&&◌, ◌||◌, List, [], ◌∷◌, ◌++◌, inl, inr,
  Bool-cases, Option, none, some, Result, ok, err, ltb, ◌==◌, length, length-append, get_elem?, All,
  All-set, All-get_elem?, if_split, if_cases, arith,
}
use mouser.Prelude.Sat.{u32_max, u64_max}
use mouser.Files.Types.{
  max_chunk_size, Hash, FileError, FileEntry, FileAccept, ResumePoint, SinkError, FileChunk,
  FileOffer,
}
use mouser.Files.Path.{returns, PathLib}
use mouser.Files.Sink.{mem_sink, mem_write_at}
use mouser.Files.Receiver.Open.{
  Opening, failed, refused, opened, add_slot, open_case, new_slot, open_sinks, new_receiver,
  accept_offer,
}
use mouser.Files.Receiver.Admit.{accept_offer-accept}
use mouser.Files.Receiver.Terms.{validate-AllPlanned}
use mouser.Files.Receiver.Offered.{
  AllOffered, open_sinks-AllOffered, finalize_completed_files-AllOffered, on_chunk-AllOffered,
}
use mouser.Files.Receiver.{
  ReceiverConfig, accept, Outbound, Slot, Receiver, abort, finalize_slots, finalize_completed_files,
  written, write_chunk, chunk_for, on_chunk, is_ok_digest,
}

module _ (lib : PathLib) (sha256 : List ℕ → Hash) where
  pub record IsSound (s : Slot lib (mem_sink sha256)) : Type 0 where
    pub held : length s.snk ≡ s.acked
    pub bounded : s.acked ≤ s.size
    pub whole : s.complete ≡ true → s.acked ≡ s.size
    pub verified : (h : Hash) → s.complete ≡ true → s.expected ≡ some h → sha256 s.snk ≡ h

  abbrev pub AllSound : Receiver lib (mem_sink sha256) → Type 0
  AllSound r = All IsSound r.slots

  -- The digest of the bytes is the expected one, where one is expected.
  verified_lem :
      (expected : Option Hash) (bytes : List ℕ) (h : Hash)
      → is_ok_digest lib (mem_sink sha256) expected (ok (sha256 bytes)) ≡ true
      → expected ≡ some h
      → sha256 bytes ≡ h
  verified_lem none bytes h t e = cc
  verified_lem (some g) bytes h t e = ground (arith, t, e)

  finish-IsSound :
      (s : Slot lib (mem_sink sha256))
      → IsSound s
      → ltb s.acked s.size ≡ false
      → is_ok_digest lib (mem_sink sha256) s.expected (ok (sha256 s.snk)) ≡ true
      → IsSound (record s { snk = s.snk; complete = true })
  finish-IsSound s h e t = record {
    held = h.held;
    bounded = h.bounded;
    whole = λ _. ground (arith, h.bounded, e);
    verified = λ g _ q. verified_lem s.expected s.snk g t q;
  }

  finalize_slots-IsSound :
      (slots : List (Slot lib (mem_sink sha256)))
      → All IsSound slots
      → All IsSound (finalize_slots lib (mem_sink sha256) slots).0
  unfolding finalize_slots
  finalize_slots-IsSound [] h = tt
  finalize_slots-IsSound (s ∷ slots) (hs, hrest) =
      elim (Bool-cases (s.complete || ltb s.acked s.size)) [
        | inl e ↦ rw e (hs, finalize_slots-IsSound slots hrest)
        | inr e ↦
            elim (Bool-cases (is_ok_digest lib (mem_sink sha256) s.expected (ok (sha256 s.snk)))) [
              | inl t ↦
                  rw (e, t)
                    (finish-IsSound s hs (ground (arith, e)) t, finalize_slots-IsSound slots hrest)
              | inr t ↦ rw (e, t) (hs, hrest)
            ]
      ]

  -- What happens to the files in `finalize_completed_files`.
  slots-finalize :
      (r : Receiver lib (mem_sink sha256))
      → (finalize_completed_files lib (mem_sink sha256) r).0.slots
        ≡ (finalize_slots lib (mem_sink sha256) r.slots).0
  unfolding finalize_completed_files abort
  slots-finalize r = ground arith

  finalize_completed_files-AllSound :
      (r : Receiver lib (mem_sink sha256))
      → AllSound r
      → AllSound (finalize_completed_files lib (mem_sink sha256) r).0
  finalize_completed_files-AllSound r h = rw (slots-finalize r) (finalize_slots-IsSound r.slots h)

  write-IsSound :
      (s : Slot lib (mem_sink sha256)) (end : ℕ) (bytes : List ℕ)
      → IsSound s
      → s.complete ≡ false
      → end ≡ s.acked + length bytes
      → end ≤ s.size
      → IsSound (record s { snk = s.snk ++ bytes; acked = end })
  write-IsSound s end bytes h c e le = record {
    held = omega (arith, length-append s.snk bytes, h.held, e);
    bounded = le;
    whole = λ t. cc;
    verified = λ g t. cc;
  }

  -- A write at the length that the sink has.
  mem_write_at_end :
      (s : Slot lib (mem_sink sha256)) (bytes : List ℕ)
      → IsSound s
      → (mem_sink sha256).write_at s.snk s.acked bytes ≡ (s.snk ++ bytes, ok tt)
  unfolding mem_write_at
  mem_write_at_end s bytes h = ground (arith, h.held)

  write_chunk-AllSound :
      (r : Receiver lib (mem_sink sha256)) (chunk : FileChunk) (s : Slot lib (mem_sink sha256))
      → AllSound r
      → IsSound s
      → s.complete ≡ false
      → chunk.offset ≡ s.acked
      → chunk.offset + length chunk.bytes ≤ s.size
      → AllSound (write_chunk lib (mem_sink sha256) r chunk s).0
  unfolding write_chunk written
  write_chunk-AllSound r chunk s h hs c e le = rw (mem_write_at_end s chunk.bytes hs) (
      finalize_completed_files-AllSound _ (
        All-set IsSound r.slots chunk.file_index _ h
          (write-IsSound s _ chunk.bytes hs c (omega (arith, e)) le)))

  abbrev StaysSound : Receiver lib (mem_sink sha256) × Result (List Outbound) FileError → Type 0
  StaysSound m = AllSound m.0

  chunk_for-AllSound :
      (r : Receiver lib (mem_sink sha256)) (chunk : FileChunk)
      (o : Option (Slot lib (mem_sink sha256)))
      → AllSound r
      → ((s : Slot lib (mem_sink sha256)) → o ≡ some s → IsSound s)
      → AllSound (chunk_for lib (mem_sink sha256) r chunk o).0
  unfolding chunk_for
  chunk_for-AllSound r chunk none h hs = h
  chunk_for-AllSound r chunk (some s) h hs =
      if_split StaysSound s.complete (λ _. h)
        (λ c.
          if_split StaysSound
            (ltb u64_max (chunk.offset + length chunk.bytes)
              || ltb s.size (chunk.offset + length chunk.bytes))
            (λ _. h)
            (λ e.
              if_split StaysSound (not (chunk.offset == s.acked)) (λ _. h)
                (λ d.
                  write_chunk-AllSound r chunk s h (hs s refl) c (ground (arith, d))
                    (ground (arith, e)))))

  -- Whatever chunk comes, each file that the receiver holds stays sound.
  on_chunk-AllSound :
      (r : Receiver lib (mem_sink sha256)) (chunk : FileChunk)
      → AllSound r
      → AllSound (on_chunk lib (mem_sink sha256) r chunk).0
  unfolding on_chunk
  on_chunk-AllSound r chunk h = if_cases StaysSound (not (chunk.transfer_id == r.transfer_id)) h (
      if_cases StaysSound r.aborted h (
        if_cases StaysSound (ltb max_chunk_size (length chunk.bytes)) h (
          chunk_for-AllSound r chunk (get_elem? r.slots chunk.file_index) h
            (λ s e. All-get_elem? IsSound r.slots chunk.file_index h e))))

  -- The chunks of a stream, one after the other, whatever their answers.
  abbrev pub receive_all :
      Receiver lib (mem_sink sha256) → List FileChunk → Receiver lib (mem_sink sha256)
  receive_all r [] = r
  receive_all r (c ∷ cs) = receive_all (on_chunk lib (mem_sink sha256) r c).0 cs

  receive_all-AllSound :
      (r : Receiver lib (mem_sink sha256)) (cs : List FileChunk)
      → AllSound r
      → AllSound (receive_all r cs)
  receive_all-AllSound r [] h = h
  receive_all-AllSound r (c ∷ cs) h =
      receive_all-AllSound (on_chunk lib (mem_sink sha256) r c).0 cs (on_chunk-AllSound r c h)

  receive_all-AllOffered :
      (config : ReceiverConfig lib) (files : List FileEntry) (r : Receiver lib (mem_sink sha256))
      (cs : List FileChunk)
      → AllOffered lib config (mem_sink sha256) 0 files r.slots
      → AllOffered lib config (mem_sink sha256) 0 files (receive_all r cs).slots
  receive_all-AllOffered config files r [] h = h
  receive_all-AllOffered config files r (c ∷ cs) h =
      receive_all-AllOffered config files (on_chunk lib (mem_sink sha256) r c).0 cs
        (on_chunk-AllOffered lib config (mem_sink sha256) files r c h)

  new_slot-IsSound :
      (entry : FileEntry) (expected : Option Hash) (snk : List ℕ)
      → ltb entry.size (length snk) ≡ false
      → IsSound (new_slot lib (mem_sink sha256) entry expected snk)
  new_slot-IsSound entry expected snk h = record {
    held = refl;
    bounded = ground (arith, h);
    whole = λ e. cc;
    verified = λ g e. cc;
  }

  module _ {W : Type 0} (make_sink : W → ℕ → lib.PathBuf → W × Result (List ℕ) SinkError) where
    add_slot-IsSound :
        (i : ℕ) (slot : Slot lib (mem_sink sha256)) (rest : W × Opening lib (mem_sink sha256))
        (w' : W) (slots : List (Slot lib (mem_sink sha256))) (resume : List ResumePoint)
        → IsSound slot
        → ((ss : List (Slot lib (mem_sink sha256))) (rs : List ResumePoint)
            → rest.1 ≡ opened ss rs
            → All IsSound ss)
        → add_slot lib (mem_sink sha256) i slot rest ≡ (w', opened slots resume)
        → All IsSound slots
    unfolding add_slot
    add_slot-IsSound i slot (w, failed e) w' slots resume hs f h = cc
    add_slot-IsSound i slot (w, refused q) w' slots resume hs f h = cc
    add_slot-IsSound i slot (w, opened ss rs) w' slots resume hs f h =
        let e : slot ∷ ss ≡ slots = cc in rw (sym e) (hs, f ss rs refl)

    open_case-IsSound :
        (i : ℕ) (entry : FileEntry) (expected : Option Hash) (made : W × Result (List ℕ) SinkError)
        (rest : W × Opening lib (mem_sink sha256)) (w' : W)
        (slots : List (Slot lib (mem_sink sha256))) (resume : List ResumePoint)
        → ((ss : List (Slot lib (mem_sink sha256))) (rs : List ResumePoint)
            → rest.1 ≡ opened ss rs
            → All IsSound ss)
        → open_case lib (mem_sink sha256) i entry expected made rest ≡ (w', opened slots resume)
        → All IsSound slots
    unfolding open_case
    open_case-IsSound i entry expected (w, err e) rest w' slots resume f h = cc
    open_case-IsSound i entry expected (w, ok snk) rest w' slots resume f h =
        elim (Bool-cases (ltb entry.size (length snk))) [
          | inl e ↦ ground (arith, rw (e) at h)
          | inr e ↦ elim (Bool-cases (ltb 0 (length snk) && ltb u32_max i)) [
            | inl q ↦ ground (arith, rw (e, q) at h)
            | inr q ↦
                add_slot-IsSound i _ rest w' slots resume (new_slot-IsSound entry expected snk e) f
                  (rw (e, q) at h)
          ]
        ]

    open_sinks-IsSound :
        (i : ℕ) (files : List FileEntry) (plans : List (lib.PathBuf × Option Hash)) (w w' : W)
        (slots : List (Slot lib (mem_sink sha256))) (resume : List ResumePoint)
        → open_sinks lib (mem_sink sha256) make_sink i files plans w ≡ (w', opened slots resume)
        → All IsSound slots
    unfolding open_sinks
    open_sinks-IsSound i files [] w w' slots resume h = let e : [] ≡ slots = cc in rw (sym e) tt
    open_sinks-IsSound i [] (plan ∷ plans) w w' slots resume h = cc
    open_sinks-IsSound i (entry ∷ files) (plan ∷ plans) w w' slots resume h =
        let rest =
          open_sinks lib (mem_sink sha256) make_sink (i + 1) files plans (make_sink w i plan.0).0 in
        open_case-IsSound i entry plan.1 (make_sink w i plan.0) rest w' slots resume
          (λ ss rs e.
            open_sinks-IsSound (i + 1) files plans (make_sink w i plan.0).0 rest.0 ss rs
              (ap (λ x. (rest.0, x)) e))
          h

    -- Whatever chunks come after an accepted offer, whoever sends them: the receiver holds one file
    -- for each file of the offer, of the size that was offered, and with the digest of the offer and of
    -- the configuration, where they give one, as the expected one. Each file held is no longer than its
    -- size, and one that counts as complete has its size and, where a digest is expected, that digest.
    -- This is so from the start, also for files that a partial file on the disk goes on with.
    pub accept_offer-AllSound :
        (offer : FileOffer) (config : ReceiverConfig lib) (w w' : W)
        (r : Receiver lib (mem_sink sha256)) (a : FileAccept) (out : List Outbound)
        (cs : List FileChunk)
        → accept_offer lib (mem_sink sha256) make_sink offer config w
          ≡ returns (w', ok (r, accept a ∷ out))
        → AllSound (receive_all r cs)
          × AllOffered lib config (mem_sink sha256) 0 offer.files (receive_all r cs).slots
    unfolding new_receiver
    accept_offer-AllSound offer config w w' r a out cs h =
        let m = accept_offer-accept lib (mem_sink sha256) make_sink offer config w w' r a out h in
        let planned = validate-AllPlanned lib config 0 offer.files m.plans m.validated in
        (
          receive_all-AllSound r cs (
              rw (m.receiver) (
                finalize_completed_files-AllSound _
                  (open_sinks-IsSound 0 offer.files m.plans w w' m.slots a.resume m.loop))),
          receive_all-AllOffered config offer.files r cs (
              rw (m.receiver) (
                finalize_completed_files-AllOffered lib config (mem_sink sha256) offer.files _ (
                  open_sinks-AllOffered lib config (mem_sink sha256) make_sink 0 offer.files m.plans
                    w w' m.slots a.resume planned m.loop))),
        )
