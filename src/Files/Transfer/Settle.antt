-- ===== src/Files/Transfer/Settle.antt =====
-- What becomes of the files when those that have their size are finalized
-- (crates/mouser-files/src/sender.rs and receiver.rs).
use mouser.Prelude.{
  ℕ, suc, ◌≤◌, ◌≡◌, refl, ◌∙◌, true, ◌||◌, Bool-cases, if_cases, inl, inr, List, [], ◌∷◌, map, ok,
  ltb, if◌then◌else◌, take_all, arith,
}
use mouser.Files.Types.{Hash, FileChunk}
use mouser.Files.Path.{PathLib}
use mouser.Files.Sink.{mem_source, mem_sink}
use mouser.Files.Sender.{Track}
use mouser.Files.Receiver.{Outbound, Slot, is_ok_digest, finalize_slots}
use mouser.Files.Transfer.Flight.{FileInv, FilesInv}

module _ (lib : PathLib) (sha256 : List ℕ → Hash) where
  -- What `finalize_completed_files` does with a file that is ok.
  abbrev pub settle : Slot lib (mem_sink sha256) → Slot lib (mem_sink sha256)
  settle p = if p.complete || ltb p.acked p.size then p else record p { complete = true }

  settled_file :
      (i : ℕ) (t : Track mem_source) (p : Slot lib (mem_sink sha256)) (cs : List FileChunk)
      (os : List Outbound)
      → FileInv lib sha256 i t p cs os
      → FileInv lib sha256 i t (settle p) cs os
  settled_file i t p cs os h =
      if_cases (λ x. FileInv lib sha256 i t x cs os) (p.complete || ltb p.acked p.size) h
        (record {
          size = h.size;
          same_size = h.same_size;
          machine = h.machine;
          within = h.within;
          held = h.held;
          expected = h.expected;
          flight = h.flight;
          acks = h.acks;
        })

  pub FilesInv-settle :
      (b : ℕ) (ts : List (Track mem_source)) (ps : List (Slot lib (mem_sink sha256)))
      (cs : List FileChunk) (os : List Outbound)
      → FilesInv lib sha256 b ts ps cs os
      → FilesInv lib sha256 b ts (map settle ps) cs os
  unfolding FilesInv
  FilesInv-settle b [] [] cs os h = tt
  FilesInv-settle b [] (p ∷ ps) cs os h = absurd h
  FilesInv-settle b (t ∷ ts) [] cs os h = absurd h
  FilesInv-settle b (t ∷ ts) (p ∷ ps) cs os (h, hs) =
      (settled_file b t p cs os h, FilesInv-settle (suc b) ts ps cs os hs)

  -- A file that has its size holds the source.
  pub whole_file :
      (i : ℕ) (t : Track mem_source) (p : Slot lib (mem_sink sha256)) (cs : List FileChunk)
      (os : List Outbound)
      → FileInv lib sha256 i t p cs os
      → p.size ≤ p.acked
      → p.snk ≡ t.src
  whole_file i t p cs os h le =
      h.held ∙ take_all p.acked t.src (omega (arith, le, h.same_size, h.size))

  pub finalize_slots_lem :
      (b : ℕ) (ts : List (Track mem_source)) (ps : List (Slot lib (mem_sink sha256)))
      (cs : List FileChunk) (os : List Outbound)
      → FilesInv lib sha256 b ts ps cs os
      → finalize_slots lib (mem_sink sha256) ps ≡ (map settle ps, true)
  unfolding FilesInv finalize_slots
  finalize_slots_lem b [] [] cs os h = refl
  finalize_slots_lem b [] (p ∷ ps) cs os h = absurd h
  finalize_slots_lem b (t ∷ ts) [] cs os h = absurd h
  finalize_slots_lem b (t ∷ ts) (p ∷ ps) cs os (h, hs) =
      let rest = finalize_slots_lem (suc b) ts ps cs os hs in
      elim (Bool-cases (p.complete || ltb p.acked p.size)) [
        | inl e ↦ rw (e, rest) refl
        | inr e ↦
            (let is_ok : is_ok_digest lib (mem_sink sha256) p.expected (ok (sha256 p.snk)) ≡ true =
                rw (whole_file b t p cs os h (ground (arith, e))) h.expected in
              rw (e, is_ok, rest) refl)
      ]
