-- ===== src/Files/Transfer/Start.antt =====
-- The start of a transfer: an offer that is accepted (crates/mouser-files/src/sender.rs and
-- receiver.rs).
use mouser.Prelude.{
  ℕ, ◌≤◌, ◌<◌, ◌≡◌, refl, ap, ◌∙◌, Bool, true, false, List, [], ◌∷◌, map, Option, none, some,
  Result, ok, ◌==◌, length, length-map, All, arith,
}
use mouser.Prelude.Sat.{u32_max}
use mouser.Files.Types.{
  Hash, Name, FileAccept, FileDone, ResumePoint, SinkError, default_chunk_size,
}
use mouser.Files.Path.{returns, PathLib}
use mouser.Files.Sink.{mem_source, mem_sink}
use mouser.Files.Sender.{
  Sender, Track, new_track, new_with_hashes, offer, on_accept, check_resume, apply_resume,
  accepted_with,
}
use mouser.Files.Receiver.{Outbound, accept, done, ReceiverConfig, Slot, Receiver, done_list}
use mouser.Files.Receiver.Open.{new_receiver, accept_offer}
use mouser.Files.Receiver.Admit.{accept_offer-accept}
use mouser.Files.Transfer.Flight.{Acks, FilesInv, FilesInv-all}
use mouser.Files.Transfer.Settle
use mouser.Files.Transfer.Settle.{finalize_slots_lem, FilesInv-settle}
use mouser.Files.Transfer.Outcome.{Inv, IsReplyOf, unsent}
use mouser.Files.Transfer.Delivery.{finalized, All-settle, IsHonest}
use mouser.Files.Transfer.Fresh.{
  IsSendable, open_fresh, total, unsent_lem, length-done_list, sources_lem,
}

module _ (lib : PathLib) (sha256 : List ℕ → Hash) where
  -- The sender that a list of files gives.
  abbrev new_sender : ℕ → List (Name × List ℕ × Option Hash) → Sender mem_source
  new_sender id fs = record {
    transfer_id = id;
    tracks = map (new_track mem_source) fs;
    chunk_size = default_chunk_size;
    accepted = false;
    aborted = false;
  }

  new_with_hashes_lem :
      (id : ℕ) (fs : List (Name × List ℕ × Option Hash)) (s : Sender mem_source)
      → new_with_hashes mem_source id fs ≡ ok s
      → (s ≡ new_sender id fs) × (0 < length fs) × (length fs ≤ u32_max)
  unfolding new_with_hashes
  new_with_hashes_lem id fs s h = ground (arith, h)

  no_resume :
      (ts : List (Track mem_source)) (r : List ResumePoint)
      → r ≡ []
      → (check_resume mem_source ts [] r ≡ ok tt) × (apply_resume mem_source ts r ≡ (ts, ok tt))
  unfolding check_resume apply_resume
  no_resume ts [] e = (refl, refl)
  no_resume ts (p ∷ r) e = cc

  on_accept_fresh :
      (s : Sender mem_source) (a : FileAccept)
      → a.transfer_id ≡ s.transfer_id
      → s.accepted ≡ false
      → a.resume ≡ []
      → on_accept mem_source s a ≡ (record s { accepted = true }, ok tt)
  unfolding on_accept accepted_with
  on_accept_fresh s a e1 e2 e3 =
      let t : (a.transfer_id == s.transfer_id) ≡ true = ground (arith, e1) in
      let (c, d) = no_resume s.tracks a.resume e3 in rw (t, e2, c, d) refl

  replies_done :
      (id n : ℕ) (f : Option FileDone)
      → ((e : FileDone) → f ≡ some e → (e.transfer_id ≡ id) × (e.is_ok ≡ true))
      → All (IsReplyOf id n) (done_list lib (mem_sink sha256) f)
  replies_done id n none h = tt
  replies_done id n (some d) h = (h d refl, tt)

  Acks-start :
      (b : ℕ) (ts : List (Track mem_source)) (ps : List (Slot lib (mem_sink sha256)))
      (f : Option FileDone)
      → FilesInv lib sha256 b ts ps [] []
      → FilesInv lib sha256 b ts ps [] (done_list lib (mem_sink sha256) f)
  unfolding Acks
  Acks-start b ts ps none h = h
  Acks-start b ts ps (some d) h =
      FilesInv-all lib sha256 b ts ps [] [] [] (done d ∷ []) h (λ i u q _ g. record {
        size = g.size;
        same_size = g.same_size;
        machine = g.machine;
        within = g.within;
        held = g.held;
        expected = g.expected;
        flight = g.flight;
        acks = g.acks;
      })

  abbrev accepted_sender : ℕ → List (Name × List ℕ × Option Hash) → Sender mem_source
  accepted_sender id fs = record (new_sender id fs) { accepted = true }

  start_Inv :
      (id : ℕ) (fs : List (Name × List ℕ × Option Hash)) (quarantine : lib.PathBuf)
      (slots : List (Slot lib (mem_sink sha256))) (f : Option FileDone) (emitted : Bool)
      → 0 < length fs
      → length fs ≤ u32_max
      → FilesInv lib sha256 0 (map (new_track mem_source) fs) slots [] []
      → All (IsHonest lib sha256) slots
      → ((e : FileDone) → f ≡ some e → (e.transfer_id ≡ id) × (e.is_ok ≡ true))
      → Inv lib sha256 (record {
        sender = accepted_sender id fs;
        chunks = [];
        receiver = record {
          transfer_id = id;
          quarantine = quarantine;
          slots = map (Settle.settle lib sha256) slots;
          done_emitted = emitted;
          aborted = false;
        };
        responses = done_list lib (mem_sink sha256) f;
      })
  start_Inv id fs quarantine slots f emitted some_files few files honest good = record {
    transfer_id = refl;
    accepted = refl;
    sender_lives = refl;
    receiver_lives = refl;
    some_bytes = omega arith;
    small = omega arith;
    some_files = rw (length-map (new_track mem_source) fs) some_files;
    few = rw (length-map (new_track mem_source) fs) few;
    files = Acks-start 0 _ _ f (FilesInv-settle lib sha256 0 _ slots [] [] files);
    settled = All-settle lib sha256 slots honest;
    chunks = tt;
    responses = replies_done id _ f good;
  }

  module _ {W : Type 0} (make_sink : W → ℕ → lib.PathBuf → W × Result (List ℕ) SinkError)
      (fresh : (w : W) (i : ℕ) (path : lib.PathBuf) → (make_sink w i path).1 ≡ ok [])
      (config : ReceiverConfig lib) (no_hashes : config.expected_hashes ≡ []) where
    start_new :
        (id : ℕ) (fs : List (Name × List ℕ × Option Hash)) (w w' : W)
        (r : Receiver lib (mem_sink sha256)) (a : FileAccept) (out : List Outbound)
        → 0 < length fs
        → length fs ≤ u32_max
        → All (IsSendable lib sha256) fs
        → accept_offer lib
            (mem_sink sha256)
            make_sink
            (offer mem_source (new_sender id fs))
            config
            w
          ≡ returns (w', ok (r, accept a ∷ out))
        → (on_accept mem_source (new_sender id fs) a ≡ (accepted_sender id fs, ok tt))
          × Inv lib sha256 (record {
            sender = accepted_sender id fs;
            chunks = [];
            receiver = r;
            responses = out;
          })
          × (length out ≤ 1)
    unfolding offer new_receiver
    start_new id fs w w' r a out some_files few sendable h =
        let m =
          accept_offer-accept lib (mem_sink sha256) make_sink (offer mem_source (new_sender id fs))
            config w w' r a out h in
        let (files, honest, nothing) =
          open_fresh lib sha256 make_sink fresh config no_hashes 0 fs m.plans w w' m.slots a.resume
            sendable m.validated m.loop in
        let (f, emitted, fin, good) =
          finalized lib sha256
            (new_receiver lib (mem_sink sha256) make_sink (offer mem_source (new_sender id fs))
              config.quarantine m.slots)
            _
            (finalize_slots_lem lib sha256 0 (map (new_track mem_source) fs) m.slots [] [] files) in
        (
          on_accept_fresh (new_sender id fs) a m.transfer_id refl nothing,
          rw
              (
                m.receiver ∙ ap (λ x. x.0) fin,
                m.rest ∙ ap (λ x. done_list lib (mem_sink sha256) x.1) fin,
              )
              (start_Inv id fs config.quarantine m.slots f emitted some_files few files honest
                good),
          rw (m.rest) (length-done_list lib sha256 _),
        )

    -- An accepted offer of new files starts a transfer.
    pub start :
        (id : ℕ) (fs : List (Name × List ℕ × Option Hash)) (s : Sender mem_source) (w w' : W)
        (r : Receiver lib (mem_sink sha256)) (a : FileAccept) (out : List Outbound)
        → All (IsSendable lib sha256) fs
        → new_with_hashes mem_source id fs ≡ ok s
        → accept_offer lib (mem_sink sha256) make_sink (offer mem_source s) config w
          ≡ returns (w', ok (r, accept a ∷ out))
        → (on_accept mem_source s a ≡ (record s { accepted = true }, ok tt))
          × Inv lib sha256 (record {
            sender = record s { accepted = true };
            chunks = [];
            receiver = r;
            responses = out;
          })
          × (map (λ (t : Track mem_source). t.src) s.tracks ≡ map (λ f. f.1) fs)
          × (unsent lib sha256 s.tracks ≡ total lib sha256 fs)
          × (length out ≤ 1)
    start id fs s w w' r a out sendable new h =
        let (es, some_files, few) = new_with_hashes_lem id fs s new in
        let (taken, inv, one) =
          start_new id fs w w' r a out some_files few sendable (rw (es) at h) in
        rw (es) (taken, inv, sources_lem lib sha256 fs, unsent_lem lib sha256 fs, one)
