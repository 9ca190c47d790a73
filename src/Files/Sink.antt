-- ===== src/Files/Sink.antt =====
-- crates/mouser-files/src/sink.rs: the two interfaces to the bytes of files, and their
-- implementations in memory. A sink's method that changes it returns the new sink.
use mouser.Prelude.{
  ℕ, ◌-◌, not, List, [], ◌++◌, Result, ok, err, leb, ◌==◌, if◌then◌else◌, length, take, drop, min,
}
use mouser.Prelude.Sat.{u64_max, saturating_add}
use mouser.Files.Types.{Hash, SinkError, non_contiguous}

-- `read_at` gives the bytes that it puts into a buffer of the given length.
pub record FileSource : Type 1 where
  pub Src : Type 0
  pub len : Src → ℕ
  pub read_at : Src → (offset buf_len : ℕ) → Result (List ℕ) SinkError

pub record FileSink : Type 1 where
  pub Snk : Type 0
  pub existing_len : Snk → ℕ
  pub write_at : Snk → ℕ → List ℕ → Snk × Result (Unit {0}) SinkError
  pub finish : Snk → Snk × Result Hash SinkError

unfoldable pub mem_read_at : List ℕ → ℕ → ℕ → Result (List ℕ) SinkError
mem_read_at bytes offset buf_len =
    if leb (length bytes) offset
    then ok []
    else ok (
        take (min (saturating_add u64_max offset buf_len) (length bytes) - offset)
          (drop offset bytes))

-- `MemSource`.
abbrev pub mem_source : FileSource
mem_source = record { Src = List ℕ; len = length; read_at = mem_read_at }

unfoldable pub mem_write_at : List ℕ → ℕ → List ℕ → List ℕ × Result (Unit {0}) SinkError
mem_write_at held offset bytes =
    if not (offset == length held)
    then (held, err (non_contiguous offset (length held)))
    else (held ++ bytes, ok tt)

-- `MemSink`; the SHA-256, which another crate computes, is a parameter.
abbrev pub mem_sink : (List ℕ → Hash) → FileSink
mem_sink sha256 = record {
  Snk = List ℕ;
  existing_len = length;
  write_at = mem_write_at;
  finish = λ held. (held, ok (sha256 held));
}
