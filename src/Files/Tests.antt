-- ===== src/Files/Tests.antt =====
-- File transfers on concrete files, paths and digests.
use mouser.Prelude.{
  ℕ, suc, ◌+◌, ◌≤◌, ◌≡◌, refl, false, List, [], ◌∷◌, ◌++◌, map, Option, none, some, Result, ok,
  if◌then◌else◌, All, length, length-take, drop, min, ◌-◌, some-inj, arith,
}
use mouser.Files.Types.{Hash, Name, FileAccept, FileReject, FileChunk, SinkError, over_max_files}
use mouser.Files.Path.{
  Outcome, returns, panics, PathLib, Component, normal, name_eq, sanitize_name,
  resolve_in_quarantine,
}
use mouser.Files.Path.Safety.{IsSafeName, resolve_in_quarantine_lem, sanitize_name-panics}
use mouser.Files.Sink.{mem_source, mem_sink, mem_read_at}
use mouser.Files.Sender
use mouser.Files.Sender.{Sender, Track, poll_chunk, new_with_hashes, offer, on_accept}
use mouser.Files.Receiver
use mouser.Files.Receiver.{Outbound, accept, ReceiverConfig, ack, done, on_chunk, Receiver, Slot}
use mouser.Files.Receiver.Open.{accept_offer}
use mouser.Files.Path
use mouser.Prelude.Sat.{u64_max}
use mouser.Files.Receiver.Commit.{AllSound, receive_all, accept_offer-AllSound}
use mouser.Files.Receiver.Offered.{AllOffered}
use mouser.Files.Sender.Window.{
  AllWindowed, called_all, accepts, acks, polls, new_with_hashes-AllWindowed, Accepting,
  on_accept-Accepting,
}
use mouser.Core.DeviceId.{be_bytes, be_value, to_id, to_vec}
use mouser.Files.Transfer.Fresh.{IsSendable}

-- Paths as lists of names.
unfoldable pub strip : List Name → List Name → Option (List Name)
strip xs [] = some xs
strip [] (q ∷ qs) = none
strip (x ∷ xs) (q ∷ qs) = let rest = strip xs qs in if name_eq x q then rest else none

abbrev pub list_paths : PathLib
list_paths = record {
  PathBuf = List Name;
  join = λ p n. p ++ n ∷ [];
  strip_prefix = strip;
  components = λ p. map normal p;
}

-- A stand-in for the digest.
unfoldable pub sum_of : List ℕ → Hash
sum_of [] = 0
sum_of (b ∷ bs) = b + sum_of bs

-- The disk counts the files that were opened.
abbrev pub open_empty : ℕ → ℕ → List Name → ℕ × Result (List ℕ) SinkError
open_empty w i path = (suc w, ok [])

abbrev pub name_a : Name
name_a = b'a' ∷ []

abbrev name_b : Name
name_b = b'b' ∷ []

abbrev pub one_file : List (Name × List ℕ × Option Hash)
one_file = (name_a, 1 ∷ 2 ∷ 3 ∷ [], some 6) ∷ []

abbrev pub config : ReceiverConfig list_paths
config = record {
  quarantine = (b'q' ∷ []) ∷ [];
  expected_hashes = [];
  max_file_size = some 100;
  max_files = some 2;
  max_total_bytes = none;
}

abbrev pub track_of : Name × List ℕ × Option Hash → Track mem_source
track_of (n, bytes, h) = record {
  name = n;
  src = bytes;
  size = length bytes;
  sha256 = h;
  sent = 0;
  acked = 0;
  resumed = false;
}

abbrev pub sender : Sender mem_source
sender = record {
  transfer_id = 7;
  tracks = map track_of one_file;
  chunk_size = 262144;
  accepted = false;
  aborted = false;
}

abbrev pub slot_of : Name × List ℕ × Option Hash → Slot list_paths (mem_sink sum_of)
slot_of (n, bytes, h) = record {
  size = length bytes;
  acked = 0;
  complete = false;
  snk = [];
  expected = h;
}

abbrev pub receiver : Receiver list_paths (mem_sink sum_of)
receiver = record {
  transfer_id = 7;
  quarantine = (b'q' ∷ []) ∷ [];
  slots = map slot_of one_file;
  done_emitted = false;
  aborted = false;
}

abbrev pub accepted : FileAccept
accepted = record { transfer_id = 7; resume = [] }

pub one_file-IsSendable : All (IsSendable list_paths sum_of) one_file
unfolding sum_of
one_file-IsSendable = (
  record { machine = omega arith; own_hash = λ h e. (some-inj e, omega (arith, some-inj e)) },
  tt,
)

pub new_one_file : new_with_hashes mem_source 7 one_file ≡ ok sender
unfolding new_with_hashes Sender.new_track
new_one_file = refl

pub admitted :
    accept_offer list_paths (mem_sink sum_of) open_empty (offer mem_source sender) config 0
    ≡ returns (1, ok (receiver, accept accepted ∷ []))
unfolding accept_offer offer Receiver.check_limits Receiver.check_sizes Receiver.Open.planned
    Receiver.validate Receiver.validate_entry resolve_in_quarantine sanitize_name
    Path.is_empty_or_dotted Path.contains Path.is_bidi_control Path.ends_with
    Path.is_reserved_device_name Receiver.add_plan Receiver.with_hash Path.resolve_safe be_bytes
    be_value to_id to_vec Path.any Path.byte_len Path.confine Path.eq_ignore_ascii_case
    Path.is_fixed_device Path.is_single name_eq Path.split_at Path.stem Receiver.Open.add_slot
    Receiver.Open.new_receiver Receiver.Open.open_case Receiver.Open.open_sinks
    Receiver.Open.opened_case Receiver.abort Receiver.all_complete Receiver.finalize_completed_files
    Receiver.finalize_slots Receiver.in_band Receiver.settle strip
admitted = refl

abbrev pub the_chunk : FileChunk
the_chunk = record { transfer_id = 7; file_index = 0; offset = 0; bytes = 1 ∷ 2 ∷ 3 ∷ [] }

accept_offer-AllSound_example :
    AllSound list_paths sum_of (receive_all list_paths sum_of receiver (the_chunk ∷ []))
    × AllOffered list_paths config
        (mem_sink sum_of)
        0
        (offer mem_source sender).files
        (receive_all list_paths sum_of receiver (the_chunk ∷ [])).slots
accept_offer-AllSound_example =
    accept_offer-AllSound list_paths sum_of open_empty (offer mem_source sender) config 0 1 receiver
      accepted [] (the_chunk ∷ []) admitted

-- An offer of one file where none is allowed.
abbrev no_files_config : ReceiverConfig list_paths
no_files_config = record config { max_files = some 0 }

abbrev refusal : FileReject
refusal = record { transfer_id = 7; reason = over_max_files 1 0 }

mem_read_at_bounded :
    (src : List ℕ) (offset n : ℕ) (bytes : List ℕ)
    → mem_read_at src offset n ≡ ok bytes
    → length bytes ≤ n
unfolding mem_read_at
mem_read_at_bounded src offset n bytes h =
    ground (
      arith,
      h,
      length-take (min (min (offset + n) u64_max) (length src) - offset) (drop offset src),
    )

new_with_hashes-AllWindowed_example : AllWindowed mem_source (
    called_all mem_source mem_read_at_bounded sender (
      accepts accepted
      ∷ polls
      ∷ acks (record { transfer_id = 7; file_index = 0; acked_through = 2 })
      ∷ []))
new_with_hashes-AllWindowed_example =
    new_with_hashes-AllWindowed mem_source mem_read_at_bounded 7 one_file sender
      (accepts accepted
        ∷ polls
        ∷ acks (record { transfer_id = 7; file_index = 0; acked_through = 2 })
        ∷ [])
      new_one_file

on_accept-Accepting_example :
    Accepting mem_source sender accepted (on_accept mem_source sender accepted)
on_accept-Accepting_example =
    on_accept-Accepting mem_source sender accepted
      (record { acked = omega arith; sent = omega arith; window = omega arith }, tt)

resolves :
    resolve_in_quarantine list_paths config.quarantine name_a
    ≡ returns (ok (config.quarantine ++ name_a ∷ []))
unfolding resolve_in_quarantine sanitize_name Path.is_empty_or_dotted Path.contains
    Path.is_bidi_control Path.ends_with Path.is_reserved_device_name Path.resolve_safe Path.any
    Path.byte_len Path.confine Path.eq_ignore_ascii_case Path.is_fixed_device Path.is_single name_eq
    Path.split_at Path.stem strip
resolves = refl

resolve_in_quarantine_lem_example :
    ((config.quarantine ++ name_a ∷ []) ≡ config.quarantine ++ name_a ∷ [])
    × IsSafeName name_a
    × ((rest : List Name) × (strip (config.quarantine ++ name_a ∷ []) config.quarantine ≡ some rest)
        × (map normal rest ≡ normal name_a ∷ []))
resolve_in_quarantine_lem_example =
    resolve_in_quarantine_lem list_paths config.quarantine (config.quarantine ++ name_a ∷ []) name_a
      resolves

sanitize_name-panics_example : sanitize_name (b'a' ∷ b'b' ∷ 0xE9 ∷ []) ≡ panics
sanitize_name-panics_example =
    sanitize_name-panics b'a' b'b' 0xE9
      (omega arith, omega arith, λ e. omega (arith, e), λ e. omega (arith, e))
      (omega arith, omega arith, λ e. omega (arith, e), λ e. omega (arith, e)) (omega arith)
      (omega arith)
