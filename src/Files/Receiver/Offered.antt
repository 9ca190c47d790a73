-- ===== src/Files/Receiver/Offered.antt =====
-- The size and the digest that a receiver holds a file to are those of the offer and of its
-- configuration, from the start and whatever chunks come (crates/mouser-files/src/receiver.rs).
use mouser.Prelude.{
  ℕ, ◌+◌, ◌≡◌, refl, sym, ap, ◌∙◌, Bool, not, ◌&&◌, ◌||◌, List, [], ◌∷◌, inl, inr, Bool-cases,
  Option, none, some, some-inj, Result, ok, err, ltb, ◌==◌, length, get_elem?, set, if_cases, arith,
  zero, suc,
}
use mouser.Prelude.Sat.{u32_max, u64_max}
use mouser.Files.Types.{
  max_chunk_size, Hash, FileError, FileEntry, ResumePoint, SinkError, FileChunk,
}
use mouser.Files.Path.{PathLib}
use mouser.Files.Sink.{FileSink}
use mouser.Files.Receiver.{
  ReceiverConfig, Outbound, Slot, Receiver, abort, is_ok_digest, finalize_slots,
  finalize_completed_files, written, write_chunk, chunk_for, on_chunk,
}
use mouser.Files.Receiver.Open.{
  Opening, failed, refused, opened, new_slot, add_slot, open_case, open_sinks,
}
use mouser.Files.Receiver.Terms.{IsExpected, AllPlanned}

module _ (lib : PathLib) (config : ReceiverConfig lib) where
  module _ (fs : FileSink) where
    -- A slot for each file from index `i` on, with the size that was offered and the expected digest.
    unfoldable pub AllOffered : ℕ → List FileEntry → List (Slot lib fs) → Type 0
    AllOffered i [] [] = Unit {0}
    AllOffered i [] (s ∷ slots) = ⊥
    AllOffered i (entry ∷ files) [] = ⊥
    AllOffered i (entry ∷ files) (s ∷ slots) =
        (s.size ≡ entry.size)
        × IsExpected lib config i entry s.expected
        × AllOffered (i + 1) files slots

    module _ {W : Type 0} (make_sink : W → ℕ → lib.PathBuf → W × Result fs.Snk SinkError) where
      add_slot-AllOffered :
          (i : ℕ) (entry : FileEntry) (files : List FileEntry) (slot : Slot lib fs)
          (rest : W × Opening lib fs) (w' : W) (slots : List (Slot lib fs))
          (resume : List ResumePoint)
          → slot.size ≡ entry.size
          → IsExpected lib config i entry slot.expected
          → ((ss : List (Slot lib fs)) (rs : List ResumePoint)
              → rest.1 ≡ opened ss rs
              → AllOffered (i + 1) files ss)
          → add_slot lib fs i slot rest ≡ (w', opened slots resume)
          → AllOffered i (entry ∷ files) slots
      unfolding add_slot AllOffered
      add_slot-AllOffered i entry files slot (w, failed e) w' slots resume z x f h = cc
      add_slot-AllOffered i entry files slot (w, refused q) w' slots resume z x f h = cc
      add_slot-AllOffered i entry files slot (w, opened ss rs) w' slots resume z x f h =
          let e : slot ∷ ss ≡ slots = cc in rw (sym e) (z, x, f ss rs refl)

      open_case-AllOffered :
          (i : ℕ) (entry : FileEntry) (files : List FileEntry) (expected : Option Hash)
          (made : W × Result fs.Snk SinkError) (rest : W × Opening lib fs) (w' : W)
          (slots : List (Slot lib fs)) (resume : List ResumePoint)
          → IsExpected lib config i entry expected
          → ((ss : List (Slot lib fs)) (rs : List ResumePoint)
              → rest.1 ≡ opened ss rs
              → AllOffered (i + 1) files ss)
          → open_case lib fs i entry expected made rest ≡ (w', opened slots resume)
          → AllOffered i (entry ∷ files) slots
      unfolding open_case
      open_case-AllOffered i entry files expected (w, err e) rest w' slots resume x f h = cc
      open_case-AllOffered i entry files expected (w, ok snk) rest w' slots resume x f h =
          elim (Bool-cases (ltb entry.size (fs.existing_len snk))) [
            | inl e ↦ ground (arith, rw (e) at h)
            | inr e ↦ elim (Bool-cases (ltb 0 (fs.existing_len snk) && ltb u32_max i)) [
              | inl q ↦ ground (arith, rw (e, q) at h)
              | inr q ↦
                  add_slot-AllOffered i entry files (new_slot lib fs entry expected snk) rest w'
                    slots resume refl x f (rw (e, q) at h)
            ]
          ]

      pub open_sinks-AllOffered :
          (i : ℕ) (files : List FileEntry) (plans : List (lib.PathBuf × Option Hash)) (w w' : W)
          (slots : List (Slot lib fs)) (resume : List ResumePoint)
          → AllPlanned lib config i files plans
          → open_sinks lib fs make_sink i files plans w ≡ (w', opened slots resume)
          → AllOffered i files slots
      unfolding open_sinks AllPlanned AllOffered
      open_sinks-AllOffered i [] [] w w' slots resume p h = let e : [] ≡ slots = cc in rw (sym e) tt
      open_sinks-AllOffered i [] (plan ∷ plans) w w' slots resume p h = elim p [ ]
      open_sinks-AllOffered i (entry ∷ files) [] w w' slots resume p h = elim p [ ]
      open_sinks-AllOffered i (entry ∷ files) (plan ∷ plans) w w' slots resume (x, ps) h =
          let rest = open_sinks lib fs make_sink (i + 1) files plans (make_sink w i plan.0).0 in
          open_case-AllOffered i entry files plan.1 (make_sink w i plan.0) rest w' slots resume x
            (λ ss rs e.
              open_sinks-AllOffered (i + 1) files plans (make_sink w i plan.0).0 rest.0 ss rs ps
                (ap (λ x. (rest.0, x)) e))
            h

    -- A slot may be replaced by one with the same size and digest.
    set-AllOffered :
        (i j : ℕ) (files : List FileEntry) (slots : List (Slot lib fs)) (s s' : Slot lib fs)
        → get_elem? slots j ≡ some s
        → s'.size ≡ s.size
        → s'.expected ≡ s.expected
        → AllOffered i files slots
        → AllOffered i files (set slots j s')
    unfolding AllOffered
    set-AllOffered i j [] [] s s' e z x h = tt
    set-AllOffered i j [] (t ∷ slots) s s' e z x h = elim h [ ]
    set-AllOffered i j (entry ∷ files) [] s s' e z x h = elim h [ ]
    set-AllOffered i zero (entry ∷ files) (t ∷ slots) s s' e z x (same, d, h) =
        let q = some-inj e in
        (z ∙ ap (λ (y : Slot lib fs). y.size) (sym q) ∙ same, rw (x, sym q) d, h)
    set-AllOffered i (suc j) (entry ∷ files) (t ∷ slots) s s' e z x (same, d, h) =
        (same, d, set-AllOffered (i + 1) j files slots s s' e z x h)

    finalize_slots-AllOffered :
        (i : ℕ) (files : List FileEntry) (slots : List (Slot lib fs))
        → AllOffered i files slots
        → AllOffered i files (finalize_slots lib fs slots).0
    unfolding finalize_slots AllOffered
    finalize_slots-AllOffered i [] [] h = tt
    finalize_slots-AllOffered i [] (s ∷ slots) h = elim h [ ]
    finalize_slots-AllOffered i (entry ∷ files) [] h = elim h [ ]
    finalize_slots-AllOffered i (entry ∷ files) (s ∷ slots) (same, d, h) =
        let keep : List (Slot lib fs) × Bool → Type 0 = (λ m. AllOffered i (entry ∷ files) m.0) in
        if_cases keep (s.complete || ltb s.acked s.size)
          (same, d, finalize_slots-AllOffered (i + 1) files slots h)
          (if_cases keep (is_ok_digest lib fs s.expected (fs.finish s.snk).1)
            (same, d, finalize_slots-AllOffered (i + 1) files slots h) (same, d, h))

    slots-finalize :
        (r : Receiver lib fs)
        → (finalize_completed_files lib fs r).0.slots ≡ (finalize_slots lib fs r.slots).0
    unfolding finalize_completed_files abort
    slots-finalize r = ground arith

    pub finalize_completed_files-AllOffered :
        (files : List FileEntry) (r : Receiver lib fs)
        → AllOffered 0 files r.slots
        → AllOffered 0 files (finalize_completed_files lib fs r).0.slots
    finalize_completed_files-AllOffered files r h =
        rw (slots-finalize r) (finalize_slots-AllOffered 0 files r.slots h)

    written-AllOffered :
        (files : List FileEntry) (r : Receiver lib fs) (chunk : FileChunk) (s : Slot lib fs)
        (m : fs.Snk × Result (Unit {0}) SinkError)
        → get_elem? r.slots chunk.file_index ≡ some s
        → AllOffered 0 files r.slots
        → AllOffered 0 files (written lib fs r chunk s m).0.slots
    unfolding written abort
    written-AllOffered files r chunk s (snk, err e) q h =
        set-AllOffered 0 chunk.file_index files r.slots s _ q refl refl h
    written-AllOffered files r chunk s (snk, ok _) q h =
        finalize_completed_files-AllOffered files _
          (set-AllOffered 0 chunk.file_index files r.slots s _ q refl refl h)

    chunk_for-AllOffered :
        (files : List FileEntry) (r : Receiver lib fs) (chunk : FileChunk)
        (o : Option (Slot lib fs))
        → get_elem? r.slots chunk.file_index ≡ o
        → AllOffered 0 files r.slots
        → AllOffered 0 files (chunk_for lib fs r chunk o).0.slots
    unfolding chunk_for write_chunk
    chunk_for-AllOffered files r chunk none q h = h
    chunk_for-AllOffered files r chunk (some s) q h =
        let keep : Receiver lib fs × Result (List Outbound) FileError → Type 0 =
          (λ m. AllOffered 0 files m.0.slots) in
        if_cases keep s.complete h (
          if_cases keep
            (ltb u64_max (chunk.offset + length chunk.bytes)
              || ltb s.size (chunk.offset + length chunk.bytes))
            h
            (if_cases keep (not (chunk.offset == s.acked)) h
              (written-AllOffered files r chunk s (fs.write_at s.snk s.acked chunk.bytes) q h)))

    -- Whatever chunk comes, the terms stay.
    pub on_chunk-AllOffered :
        (files : List FileEntry) (r : Receiver lib fs) (chunk : FileChunk)
        → AllOffered 0 files r.slots
        → AllOffered 0 files (on_chunk lib fs r chunk).0.slots
    unfolding on_chunk
    on_chunk-AllOffered files r chunk h =
        let keep : Receiver lib fs × Result (List Outbound) FileError → Type 0 =
          (λ m. AllOffered 0 files m.0.slots) in
        if_cases keep (not (chunk.transfer_id == r.transfer_id)) h (
          if_cases keep r.aborted h (
            if_cases keep (ltb max_chunk_size (length chunk.bytes)) h
              (chunk_for-AllOffered files r chunk (get_elem? r.slots chunk.file_index) refl h)))
