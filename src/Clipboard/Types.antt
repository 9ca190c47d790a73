-- ===== src/Clipboard/Types.antt =====
-- crates/mouser-clipboard/src/lib.rs: the errors, and the identity of a representation.
use Prim.Native.String.{String}
use mouser.Prelude.{ℕ, ◌*◌, Bool, ◌&&◌, ◌==◌}
use mouser.Core.DeviceId.{DeviceId}

-- A `[u8; 32]`, as the number that its bytes write.
abbrev pub Hash : Type 0
Hash = ℕ

-- A `ClipFormat` by its discriminant, by which it is compared and hashed.
abbrev pub ClipFormat : Type 0
ClipFormat = ℕ

abbrev pub max_data_chunk : ℕ
max_data_chunk = 1024 * 1024

pub data ClipboardError : Type 0 where
  chunk_too_large : ℕ → ClipboardError
  offset_out_of_range : (expected got : ℕ) → ClipboardError
  hash_mismatch unknown_hash : ClipboardError
  protocol : String → ClipboardError

-- `PullKey` of tracking.rs.
pub record PullKey : Type 0 where
  pub origin : DeviceId
  pub format : ClipFormat
  pub hash : Hash

-- `PullKey::new`.
abbrev pub pull_key : DeviceId → ClipFormat → Hash → PullKey
pull_key origin format hash = record { origin = origin; format = format; hash = hash }

abbrev pub key_eq : PullKey → PullKey → Bool
key_eq a b = a.origin == b.origin && a.format == b.format && a.hash == b.hash
