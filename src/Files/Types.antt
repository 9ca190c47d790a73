-- ===== src/Files/Types.antt =====
-- crates/mouser-files/src/lib.rs, path.rs and crates/mouser-protocol/src/messages.rs: constants,
-- errors and messages of a file transfer. A name is the list of its code points. A text that the
-- source formats is a constructor with the values that it shows.
use mouser.Prelude.{ℕ, ◌*◌, Bool, List, Option}
use Prim.Native.String.{String}

abbrev pub max_in_flight_per_file : ℕ
max_in_flight_per_file = 8 * 1024 * 1024

abbrev pub default_chunk_size : ℕ
default_chunk_size = 256 * 1024

abbrev pub max_chunk_size : ℕ
max_chunk_size = 1024 * 1024

abbrev pub default_max_file_size : ℕ
default_max_file_size = 64 * 1024 * 1024 * 1024

abbrev pub default_max_files : ℕ
default_max_files = 10_000

abbrev pub default_max_total_bytes : ℕ
default_max_total_bytes = 256 * 1024 * 1024 * 1024

-- A `[u8; 32]`, as the number that its bytes write.
abbrev pub Hash : Type 0
Hash = ℕ

abbrev pub Name : Type 0
Name = List ℕ

pub data PathError : Type 0 where
  empty_or_dotted contains_separator contains_nul reserved_device_name : PathError
  trailing_dot_or_space bidi_control escapes_quarantine : PathError

pub data SinkError : Type 0 where
  message : String → SinkError
  non_contiguous : (offset held : ℕ) → SinkError

pub data ProtocolError : Type 0 where
  nothing_to_send too_many_files chunk_size_out_of_range duplicate_accept : ProtocolError
  duplicate_resume : (file_index : ℕ) → ProtocolError
  ack_before_accept no_files file_index_overflow : ProtocolError

pub data FileError : Type 0 where
  unknown_transfer unknown_file_index chunk_too_large : ℕ → FileError
  offset_out_of_range : (file_index offset : ℕ) → FileError
  protocol : ProtocolError → FileError
  path : PathError → FileError
  sink : SinkError → FileError

-- Why a receiver turns an offer down.
pub data Reason : Type 0 where
  over_max_files : (files max : ℕ) → Reason
  over_max_file_size : (file size max : ℕ) → Reason
  over_max_total : (total max : ℕ) → Reason
  unsafe_name : PathError → Reason
  malformed_hash hash_disagrees : (file : ℕ) → Reason
  existing_exceeds : (file existing size : ℕ) → Reason

pub record FileEntry : Type 0 where
  pub name : Name
  pub size : ℕ
  pub sha256 : Option (List ℕ)

pub record FileOffer : Type 0 where
  pub transfer_id : ℕ
  pub files : List FileEntry

pub record ResumePoint : Type 0 where
  pub file_index : ℕ
  pub offset : ℕ

pub record FileAccept : Type 0 where
  pub transfer_id : ℕ
  pub resume : List ResumePoint

pub record FileReject : Type 0 where
  pub transfer_id : ℕ
  pub reason : Reason

pub record FileChunk : Type 0 where
  pub transfer_id : ℕ
  pub file_index : ℕ
  pub offset : ℕ
  pub bytes : List ℕ

pub record FileAck : Type 0 where
  pub transfer_id : ℕ
  pub file_index : ℕ
  pub acked_through : ℕ

pub record FileDone : Type 0 where
  pub transfer_id : ℕ
  pub is_ok : Bool
