-- ===== src/Protocol/Framing.antt =====
-- crates/mouser-protocol/src/framing.rs: frames of the control stream. A `usize` has 64 bits.
pub mod RoundTrip
use mouser.Prelude.{
  ℕ, ◌+◌, ◌-◌, ◌*◌, Bool, ◌||◌, List, [], ◌∷◌, ◌++◌, Option, some, none, Result, ok, err, ◌>>=◌,
  ◌>>◌, guard, or_fail, ltb, leb, not, if◌then◌else◌, length,
}
use mouser.Prelude.Sat.{u64_max}
use mouser.Prelude.Bytes.{le_bytes, le_value, slice}

abbrev pub max_control_frame : ℕ
max_control_frame = 256 * 1024

abbrev pub max_bulk_frame : ℕ
max_bulk_frame = 2 * 1024 * 1024

abbrev pub header : ℕ
header = 8

pub record Frame : Type 0 where
  pub msg_type : ℕ
  pub flags : ℕ
  pub payload : List ℕ

pub data FrameError : Type 0 where
  truncated too_large : FrameError

-- `a.checked_add(b)` on `usize`.
abbrev pub checked_add : ℕ → ℕ → Option ℕ
checked_add a b = if leb (a + b) u64_max then some (a + b) else none

unfoldable pub encode_frame_capped : ℕ → ℕ → List ℕ → ℕ → Result (List ℕ) FrameError
encode_frame_capped msg_type flags payload max = do
  len ← or_fail (checked_add (header - 4) (length payload)) too_large
  guard (leb len max) too_large
  ok (le_bytes 4 len ++ (le_bytes 2 msg_type ++ (le_bytes 2 flags ++ payload)))

unfoldable pub encode_frame : ℕ → ℕ → List ℕ → Result (List ℕ) FrameError
unfolding encode_frame_capped
encode_frame msg_type flags payload = encode_frame_capped msg_type flags payload max_control_frame

unfoldable pub encode_bulk_frame : ℕ → ℕ → List ℕ → Result (List ℕ) FrameError
unfolding encode_frame_capped
encode_bulk_frame msg_type flags payload = encode_frame_capped msg_type flags payload max_bulk_frame

-- The frame at the front of the buffer, and the number of bytes that it takes.
unfoldable pub decode_frame : List ℕ → Result (Frame × ℕ) FrameError
decode_frame buf = do
  len_bytes ← or_fail (slice buf 0 4) truncated
  let len = le_value len_bytes
  guard (not (ltb len (header - 4) || ltb max_control_frame len)) too_large
  total ← or_fail (checked_add 4 len) too_large
  frame ← or_fail (slice buf 0 total) truncated
  type_bytes ← or_fail (slice frame 4 6) truncated
  flag_bytes ← or_fail (slice frame 6 8) truncated
  payload ← or_fail (slice frame header total) truncated
  ok (
    record { msg_type = le_value type_bytes; flags = le_value flag_bytes; payload = payload },
    total,
  )
