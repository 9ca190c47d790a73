-- ===== src/Files/Receiver.antt =====
-- crates/mouser-files/src/receiver.rs: the receiving half of one transfer. The paths and the sinks
-- are parameters. `make_sink` may change the disk, whose state it takes and gives back.
pub mod Open
pub mod Terms
pub mod Offered
pub mod Commit
pub mod Admit
pub mod Refusals
use mouser.Prelude.{
  ℕ, zero, suc, ◌+◌, ◌-◌, Bool, true, false, not, ◌&&◌, ◌||◌, List, [], ◌∷◌, ◌++◌, map, Option,
  none, some, Result, ok, err, ltb, leb, ◌==◌, if◌then◌else◌, length, get_elem?, set,
}
use mouser.Prelude.Sat.{u32_max, u64_max, saturating_add}
use mouser.Core.DeviceId.{to_id}
use mouser.Files.Types.{
  Hash, Name, max_chunk_size, default_max_file_size, default_max_files, default_max_total_bytes,
  FileError, unknown_transfer, unknown_file_index, chunk_too_large, offset_out_of_range, protocol,
  sink, no_files, file_index_overflow, Reason, over_max_files, over_max_file_size, over_max_total,
  unsafe_name, malformed_hash, hash_disagrees, existing_exceeds, PathError, SinkError, FileEntry,
  FileOffer, ResumePoint, FileAccept, FileReject, FileChunk, FileAck, FileDone,
}
use mouser.Files.Path.{Outcome, returns, panics, and_then, PathLib, resolve_in_quarantine}
use mouser.Files.Sink.{FileSink}

pub data Outbound : Type 0 where
  accept : FileAccept → Outbound
  reject : FileReject → Outbound
  ack : FileAck → Outbound
  done : FileDone → Outbound

-- A snapshot of the progress of a file.
pub record FileState : Type 0 where
  pub size : ℕ
  pub acked : ℕ
  pub complete : Bool

-- The check of an upper bound that may be absent.
abbrev pub exceeds : ℕ → Option ℕ → Option ℕ
exceeds n none = none
exceeds n (some most) = if ltb most n then some most else none

module _ (lib : PathLib) where
  pub record ReceiverConfig : Type 0 where
    pub quarantine : lib.PathBuf
    pub expected_hashes : List (Option Hash)
    pub max_file_size : Option ℕ
    pub max_files : Option ℕ
    pub max_total_bytes : Option ℕ

  unfoldable pub new_config : lib.PathBuf → ReceiverConfig
  new_config quarantine = record {
    quarantine = quarantine;
    expected_hashes = [];
    max_file_size = some default_max_file_size;
    max_files = some default_max_files;
    max_total_bytes = some default_max_total_bytes;
  }

  unfoldable pub with_expected_hashes : ReceiverConfig → List (Option Hash) → ReceiverConfig
  with_expected_hashes config hashes = record config { expected_hashes = hashes }

  unfoldable pub with_limits : ReceiverConfig → Option ℕ → Option ℕ → Option ℕ → ReceiverConfig
  with_limits config max_file_size max_files max_total_bytes = record config {
    max_file_size = max_file_size;
    max_files = max_files;
    max_total_bytes = max_total_bytes;
  }

  -- The loop of `check_limits` over the files from index `i` on: the first file that is too large, or
  -- the total.
  unfoldable pub check_sizes : Option ℕ → ℕ → ℕ → List FileEntry → Result ℕ Reason
  check_sizes most i total [] = ok total
  check_sizes most i total (entry ∷ files) =
      let rest = check_sizes most (i + 1) (saturating_add u64_max total entry.size) files in
      elim (exceeds entry.size most) [
        | some m ↦ err (over_max_file_size i entry.size m)
        | none ↦ rest
      ]

  unfoldable pub check_limits : FileOffer → ReceiverConfig → Option Reason
  check_limits offer config = elim (exceeds (length offer.files) config.max_files) [
    | some most ↦ some (over_max_files (length offer.files) most)
    | none ↦ elim (check_sizes config.max_file_size 0 0 offer.files) [
      | err reason ↦ some reason
      | ok total ↦ elim (exceeds total config.max_total_bytes) [
        | some most ↦ some (over_max_total total most)
        | none ↦ none
      ]
    ]
  ]

  abbrev pub flatten : Option (Option Hash) → Option Hash
  flatten none = none
  flatten (some h) = h

  -- The digest that the offer carries.
  unfoldable pub in_band : ℕ → Option (List ℕ) → Result (Option Hash) Reason
  in_band i none = ok none
  in_band i (some bytes) = elim (to_id bytes) [
    | none ↦ err (malformed_hash i)
    | some h ↦ ok (some h)
  ]

  -- The digest to verify, from the one that the configuration gives and the one of the offer.
  unfoldable pub settle : ℕ → Option Hash → Option Hash → Result (Option Hash) Reason
  settle i none offered = ok offered
  settle i (some a) none = ok (some a)
  settle i (some a) (some b) = if a == b then ok (some a) else err (hash_disagrees i)

  unfoldable pub with_hash :
      ℕ
      → FileEntry
      → ReceiverConfig
      → Result lib.PathBuf PathError
      → Result (lib.PathBuf × Option Hash) Reason
  with_hash i entry config (err e) = err (unsafe_name e)
  with_hash i entry config (ok path) = elim (in_band i entry.sha256) [
    | err e ↦ err e
    | ok offered ↦ elim (settle i (flatten (get_elem? config.expected_hashes i)) offered) [
      | err e ↦ err e
      | ok expected ↦ ok (path, expected)
    ]
  ]

  unfoldable pub validate_entry :
      ℕ → FileEntry → ReceiverConfig → Outcome (Result (lib.PathBuf × Option Hash) Reason)
  validate_entry i entry config =
      and_then (resolve_in_quarantine lib config.quarantine entry.name)
        (λ r. returns (with_hash i entry config r))

  -- A plan in front of the others, up to the first entry that is refused.
  unfoldable pub add_plan :
      Result (lib.PathBuf × Option Hash) Reason
      → Outcome (Result (List (lib.PathBuf × Option Hash)) Reason)
      → Outcome (Result (List (lib.PathBuf × Option Hash)) Reason)
  add_plan (err reason) rest = returns (err reason)
  add_plan (ok plan) panics = panics
  add_plan (ok plan) (returns (err reason)) = returns (err reason)
  add_plan (ok plan) (returns (ok plans)) = returns (ok (plan ∷ plans))

  unfoldable pub validate :
      ℕ
      → List FileEntry
      → ReceiverConfig
      → Outcome (Result (List (lib.PathBuf × Option Hash)) Reason)
  validate i [] config = returns (ok [])
  validate i (entry ∷ files) config =
      let rest = validate (i + 1) files config in
      and_then (validate_entry i entry config) (λ plan. add_plan plan rest)

  module _ (fs : FileSink) where
    pub record Slot : Type 0 where
      pub size : ℕ
      pub acked : ℕ
      pub complete : Bool
      pub snk : fs.Snk
      pub expected : Option Hash

    pub record Receiver : Type 0 where
      pub transfer_id : ℕ
      pub quarantine : lib.PathBuf
      pub slots : List Slot
      pub done_emitted : Bool
      pub aborted : Bool

    unfoldable pub new_aborted : ℕ → lib.PathBuf → Receiver
    new_aborted transfer_id quarantine = record {
      transfer_id = transfer_id;
      quarantine = quarantine;
      slots = [];
      done_emitted = true;
      aborted = true;
    }

    -- `abort`: the receiver, and the message for the peer.
    unfoldable pub abort : Receiver → Receiver × FileDone
    abort r = (
      record r { aborted = true; done_emitted = true },
      record { transfer_id = r.transfer_id; is_ok = false },
    )

    abbrev pub is_ok_digest : Option Hash → Result Hash SinkError → Bool
    is_ok_digest expected (err e) = false
    is_ok_digest none (ok digest) = true
    is_ok_digest (some h) (ok digest) = digest == h

    -- The loop of `finalize_completed_files`: false if a file that has its size is not ok.
    unfoldable pub finalize_slots : List Slot → List Slot × Bool
    finalize_slots [] = ([], true)
    finalize_slots (slot ∷ slots) =
        let (rest, all_ok) = finalize_slots slots in
        if slot.complete || ltb slot.acked slot.size
        then (slot ∷ rest, all_ok)
        else (let (snk, digest) = fs.finish slot.snk in
            if is_ok_digest slot.expected digest
            then (record slot { snk = snk; complete = true } ∷ rest, all_ok)
            else (record slot { snk = snk } ∷ slots, false))

    unfoldable pub all_complete : List Slot → Bool
    all_complete [] = true
    all_complete (slot ∷ slots) = slot.complete && all_complete slots

    unfoldable pub finalize_completed_files : Receiver → Receiver × Option FileDone
    finalize_completed_files r =
        let (slots, all_ok) = finalize_slots r.slots in
        let r' = record r { slots = slots } in
        if not all_ok
        then (let (aborted, failed) = abort r' in (aborted, some failed))
        else (if not r'.done_emitted && all_complete slots
            then (
              record r' { done_emitted = true },
              some (record { transfer_id = r.transfer_id; is_ok = true }),
            )
            else (r', none))

    abbrev pub done_list : Option FileDone → List Outbound
    done_list none = []
    done_list (some d) = done d ∷ []

    -- `on_chunk` behind the write at the end of what the slot holds.
    unfoldable pub written :
        Receiver
        → FileChunk
        → Slot
        → fs.Snk × Result (Unit {0}) SinkError
        → Receiver × List Outbound
    written r chunk slot (snk, err _) =
        let (aborted, failed) =
          abort (record r { slots = set r.slots chunk.file_index (record slot { snk = snk }) }) in
        (aborted, done failed ∷ [])
    written r chunk slot (snk, ok _) =
        let end = chunk.offset + length chunk.bytes in
        let (r', finished) = finalize_completed_files (record r {
          slots = set r.slots chunk.file_index (record slot { snk = snk; acked = end });
        }) in
        (
          r',
          ack (record {
            transfer_id = r.transfer_id;
            file_index = chunk.file_index;
            acked_through = end;
          })
              ∷ done_list finished,
        )

    -- A chunk that may be written: `on_chunk` behind its checks.
    unfoldable pub write_chunk : Receiver → FileChunk → Slot → Receiver × List Outbound
    write_chunk r chunk slot = written r chunk slot (fs.write_at slot.snk slot.acked chunk.bytes)

    abbrev pub re_ack : Receiver → FileChunk → Slot → List Outbound
    re_ack r chunk slot =
        ack (record {
          transfer_id = r.transfer_id;
          file_index = chunk.file_index;
          acked_through = slot.acked;
        })
        ∷ []

    -- `on_chunk` on the slot that the chunk names.
    unfoldable pub chunk_for :
        Receiver → FileChunk → Option Slot → Receiver × Result (List Outbound) FileError
    chunk_for r chunk none = (r, err (unknown_file_index chunk.file_index))
    chunk_for r chunk (some slot) =
        if slot.complete
        then (r, ok (re_ack r chunk slot))
        else (if ltb u64_max (chunk.offset + length chunk.bytes)
              || ltb slot.size (chunk.offset + length chunk.bytes)
            then (r, err (offset_out_of_range chunk.file_index chunk.offset))
            else (if not (chunk.offset == slot.acked)
                then (r, ok (re_ack r chunk slot))
                else (let (r', out) = write_chunk r chunk slot in (r', ok out))))

    unfoldable pub on_chunk : Receiver → FileChunk → Receiver × Result (List Outbound) FileError
    on_chunk r chunk =
        if not (chunk.transfer_id == r.transfer_id)
        then (r, err (unknown_transfer chunk.transfer_id))
        else (if r.aborted
            then (r, ok [])
            else (if ltb max_chunk_size (length chunk.bytes)
                then (r, err (chunk_too_large (length chunk.bytes)))
                else chunk_for r chunk (get_elem? r.slots chunk.file_index)))

    unfoldable pub is_complete : Receiver → Bool
    is_complete r = not r.aborted && not (length r.slots == 0) && all_complete r.slots

    abbrev pub is_terminal : Receiver → Bool
    is_terminal r = is_complete r || r.aborted

    unfoldable pub states : Receiver → List FileState
    states r =
        map
          (λ (slot : Slot). record {
            size = slot.size;
            acked = slot.acked;
            complete = slot.complete;
          })
          r.slots
