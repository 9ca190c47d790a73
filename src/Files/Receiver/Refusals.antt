-- ===== src/Files/Receiver/Refusals.antt =====
-- Every way in which an offer is answered, and what it leaves behind
-- (crates/mouser-files/src/receiver.rs).
use mouser.Prelude.{ℕ, ◌<◌, ◌≡◌, true, List, [], ◌∷◌, ◌⊎◌, Result, ok, err}
use mouser.Files.Types.{
  FileError, sink, protocol, no_files, file_index_overflow, FileOffer, FileReject, SinkError,
  Reason, existing_exceeds,
}
use mouser.Files.Path.{PathLib}
use mouser.Files.Sink.{FileSink}
use mouser.Files.Receiver.{Outbound, accept, reject, ack, done, Receiver}

module _ (lib : PathLib) (fs : FileSink) {W : Type 0}
    (make_sink : W → ℕ → lib.PathBuf → W × Result fs.Snk SinkError) where
  -- The reasons that the loop over the files gives.
  abbrev pub IsTooLong : Reason → Type 0
  IsTooLong reason =
      (i : ℕ) × (existing : ℕ) × (size : ℕ) × (reason ≡ existing_exceeds i existing size)
      × (size < existing)

  -- What a refusal leaves behind.
  pub record Refusal (offer : FileOffer) (w w' : W) (r : Receiver lib fs) (j : FileReject)
      (out : List Outbound) : Type 0 where
    pub aborted : r.aborted ≡ true
    pub no_slots : r.slots ≡ []
    pub alone : out ≡ []
    pub transfer_id : j.transfer_id ≡ offer.transfer_id
    pub untouched : (w' ≡ w) ⊎ IsTooLong j.reason

  -- A sink that `make_sink` could not open, or an index that does not fit.
  abbrev pub IsOpenError : FileError → Type 0
  IsOpenError e =
      ((q : SinkError) × (v : W) × (i : ℕ) × (path : lib.PathBuf) × (e ≡ sink q)
        × ((make_sink v i path).1 ≡ err q))
      ⊎ (e ≡ protocol file_index_overflow)

  -- Why an offer ends in an error, of which the peer gets no message: it lists no file, or its files
  -- could not be opened.
  abbrev pub Failure : FileOffer → W → W → FileError → Type 0
  Failure offer w w' e = ((e ≡ protocol no_files) × (offer.files ≡ []) × (w' ≡ w)) ⊎ IsOpenError e

  -- What each way in which `accept_offer` comes back leaves behind.
  abbrev pub Verdict :
      FileOffer → W → W × Result (Receiver lib fs × List Outbound) FileError → Type 0
  Verdict offer w (w', err e) = Failure offer w w' e
  Verdict offer w (w', ok (r, [])) = ⊥
  Verdict offer w (w', ok (r, accept a ∷ out)) =
      (a.transfer_id ≡ offer.transfer_id) × (r.transfer_id ≡ offer.transfer_id)
  Verdict offer w (w', ok (r, reject j ∷ out)) = Refusal offer w w' r j out
  Verdict offer w (w', ok (r, ack _ ∷ out)) = ⊥
  Verdict offer w (w', ok (r, done _ ∷ out)) = ⊥
