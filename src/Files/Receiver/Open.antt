-- ===== src/Files/Receiver/Open.antt =====
-- crates/mouser-files/src/receiver.rs: `accept_offer`. `make_sink` opens the file of an index at a
-- path. It may change the disk `W`, whose state it takes and gives back.
use mouser.Prelude.{
  ℕ, ◌+◌, ◌&&◌, false, List, [], ◌∷◌, Option, none, some, Result, ok, err, ltb, ◌==◌, if◌then◌else◌,
  length,
}
use mouser.Prelude.Sat.{u32_max}
use mouser.Files.Types.{
  Hash, FileError, unknown_file_index, protocol, sink, no_files, file_index_overflow, Reason,
  existing_exceeds, SinkError, FileEntry, FileOffer, ResumePoint,
}
use mouser.Files.Path.{Outcome, returns, panics, PathLib}
use mouser.Files.Sink.{FileSink}
use mouser.Files.Sender.{index_u32}
use mouser.Files.Receiver.{
  Outbound, accept, reject, ReceiverConfig, check_limits, validate, Slot, Receiver, new_aborted,
  finalize_completed_files, done_list,
}

module _ (lib : PathLib) (fs : FileSink) where
  -- How the loop over the files ends.
  pub data Opening : Type 0 where
    failed : FileError → Opening
    refused : Reason → Opening
    opened : List (Slot lib fs) → List ResumePoint → Opening

  abbrev pub resume_point : ℕ → ℕ → List ResumePoint → List ResumePoint
  resume_point i existing resume =
      if ltb 0 existing then record { file_index = i; offset = existing } ∷ resume else resume

  abbrev pub new_slot : FileEntry → Option Hash → fs.Snk → Slot lib fs
  new_slot entry expected snk = record {
    size = entry.size;
    acked = fs.existing_len snk;
    complete = false;
    snk = snk;
    expected = expected;
  }

  unfoldable pub add_slot : {W : Type 0} → ℕ → Slot lib fs → W × Opening → W × Opening
  add_slot i slot (w, failed e) = (w, failed e)
  add_slot i slot (w, refused reason) = (w, refused reason)
  add_slot i slot (w, opened slots resume) =
      (w, opened (slot ∷ slots) (resume_point i slot.acked resume))

  -- One turn of the loop, from what `make_sink` gave and from how the later turns end.
  unfoldable pub open_case :
      {W : Type 0}
      → ℕ
      → FileEntry
      → Option Hash
      → W × Result fs.Snk SinkError
      → W × Opening
      → W × Opening
  open_case i entry expected (w, err e) rest = (w, failed (sink e))
  open_case i entry expected (w, ok snk) rest =
      if ltb entry.size (fs.existing_len snk)
      then (w, refused (existing_exceeds i (fs.existing_len snk) entry.size))
      else (if ltb 0 (fs.existing_len snk) && ltb u32_max i
          then (w, failed (protocol file_index_overflow))
          else add_slot i (new_slot entry expected snk) rest)

  module _ {W : Type 0} (make_sink : W → ℕ → lib.PathBuf → W × Result fs.Snk SinkError) where
    -- The loop of `accept_offer` over the validated files, from index `i` on.
    unfoldable pub open_sinks :
        ℕ → List FileEntry → List (lib.PathBuf × Option Hash) → W → W × Opening
    open_sinks i files [] w = (w, opened [] [])
    open_sinks i [] (plan ∷ plans) w = (w, failed (unknown_file_index (index_u32 i)))
    open_sinks i (entry ∷ files) ((path, expected) ∷ plans) w =
        let made = make_sink w i path in
        let rest = open_sinks (i + 1) files plans made.0 in open_case i entry expected made rest

    unfoldable pub rejected : FileOffer → lib.PathBuf → Reason → Receiver lib fs × List Outbound
    rejected offer quarantine reason = (
      new_aborted lib fs offer.transfer_id quarantine,
      reject (record { transfer_id = offer.transfer_id; reason = reason }) ∷ [],
    )

    unfoldable pub new_receiver : FileOffer → lib.PathBuf → List (Slot lib fs) → Receiver lib fs
    new_receiver offer quarantine slots = record {
      transfer_id = offer.transfer_id;
      quarantine = quarantine;
      slots = slots;
      done_emitted = false;
      aborted = false;
    }

    -- The end of `accept_offer`, behind the loop.
    unfoldable pub opened_case :
        FileOffer
        → lib.PathBuf
        → W × Opening
        → W × Result (Receiver lib fs × List Outbound) FileError
    opened_case offer quarantine (w, failed e) = (w, err e)
    opened_case offer quarantine (w, refused reason) = (w, ok (rejected offer quarantine reason))
    opened_case offer quarantine (w, opened slots resume) =
        let (r, finished) = finalize_completed_files lib fs (new_receiver offer quarantine slots) in
        (
          w,
          ok (
            r,
            accept (record { transfer_id = offer.transfer_id; resume = resume })
                ∷ done_list lib fs finished,
          ),
        )

    unfoldable pub planned :
        FileOffer
        → lib.PathBuf
        → W
        → Outcome (Result (List (lib.PathBuf × Option Hash)) Reason)
        → Outcome (W × Result (Receiver lib fs × List Outbound) FileError)
    planned offer quarantine w panics = panics
    planned offer quarantine w (returns (err reason)) =
        returns (w, ok (rejected offer quarantine reason))
    planned offer quarantine w (returns (ok plans)) =
        returns (opened_case offer quarantine (open_sinks 0 offer.files plans w))

    unfoldable pub accept_offer :
        FileOffer
        → ReceiverConfig lib
        → W
        → Outcome (W × Result (Receiver lib fs × List Outbound) FileError)
    accept_offer offer config w =
        if length offer.files == 0
        then returns (w, err (protocol no_files))
        else elim (check_limits lib offer config) [
          | some reason ↦ returns (w, ok (rejected offer config.quarantine reason))
          | none ↦ planned offer config.quarantine w (validate lib 0 offer.files config)
        ]
