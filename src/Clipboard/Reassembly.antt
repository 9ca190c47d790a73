-- ===== src/Clipboard/Reassembly.antt =====
-- crates/mouser-clipboard/src/reassembly.rs: the ordered chunks of one pulled representation. The
-- SHA-256 of a byte string, which another crate computes, is a parameter.
pub mod Complete
use mouser.Prelude.{
  ℕ, ◌+◌, Bool, true, false, not, List, [], ◌∷◌, ◌++◌, Option, none, some, Result, ok, err, ltb,
  leb, ◌==◌, if◌then◌else◌, length,
}
use mouser.Prelude.Sat.{u64_max}
use mouser.Clipboard.Types.{
  Hash, ClipFormat, max_data_chunk, ClipboardError, chunk_too_large, offset_out_of_range,
  hash_mismatch, protocol,
}

pub record Progress : Type 0 where
  pub received_bytes : ℕ
  pub size : ℕ

unfoldable pub is_complete : Progress → Bool
is_complete p = leb p.size p.received_bytes

pub record Reassembly : Type 0 where
  pub format : ClipFormat
  pub hash : Hash
  pub size : ℕ
  pub buf : List ℕ
  pub done : Bool

unfoldable pub new : ClipFormat → Hash → ℕ → Reassembly
new format hash size = record { format = format; hash = hash; size = size; buf = []; done = false }

unfoldable pub progress : Reassembly → Progress
progress r = record { received_bytes = length r.buf; size = r.size }

module _ (sha256 : List ℕ → Hash) where
  -- The end of `push` for the last chunk, once the buffer holds it.
  unfoldable pub finish : Reassembly → Reassembly × Result (Option (List ℕ)) ClipboardError
  finish r =
      if not (length r.buf == r.size)
      then (r, err (offset_out_of_range r.size (length r.buf)))
      else (if not (sha256 r.buf == r.hash)
          then (r, err hash_mismatch)
          else (record r { buf = [] }, ok (some r.buf)))

  -- The part of `push` behind its checks.
  unfoldable pub commit :
      Reassembly → List ℕ → Bool → Reassembly × Result (Option (List ℕ)) ClipboardError
  commit r bytes last =
      let r' = record r { buf = r.buf ++ bytes } in
      if not last then (r', ok none) else finish (record r' { done = true })

  unfoldable pub push :
      Reassembly → ℕ → List ℕ → Bool → Reassembly × Result (Option (List ℕ)) ClipboardError
  push r offset bytes last =
      if r.done
      then (r, err (protocol "chunk after last"))
      else (if ltb max_data_chunk (length bytes)
          then (r, err (chunk_too_large (length bytes)))
          else (if not (offset == length r.buf)
              then (r, err (offset_out_of_range (length r.buf) offset))
              else (if ltb u64_max (offset + length bytes)
                  then (r, err (offset_out_of_range (length r.buf) offset))
                  else (if ltb r.size (offset + length bytes)
                      then (r, err (offset_out_of_range r.size (offset + length bytes)))
                      else commit r bytes last))))
