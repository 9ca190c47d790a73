-- ===== src/Clipboard/Engine/Serve.antt =====
-- crates/mouser-clipboard/src/engine.rs: the answer to a pull, in chunks, and that the device that
-- pulls gets the contents out of them.
use mouser.Prelude.{
  ℕ, zero, suc, ◌+◌, ◌-◌, ◌*◌, ◌≤◌, ◌<◌, ◌≡◌, refl, sym, ap, ◌∙◌, Bool, true, false, not, ◌&&◌,
  ◌||◌, ◌==◌, List, [], ◌∷◌, ◌++◌, map, Option, none, some, Result, ok, err, leb, ltb,
  if◌then◌else◌, Bool-cases, inl, inr, length, take, drop, take_all, take-add, length-append,
  length-take, length-drop, min, arith,
}
use mouser.Prelude.Sat.{u64_max, saturating_add}
use mouser.Core.DeviceId.{to_vec}
use mouser.Clipboard.Types.{Hash, ClipFormat, ClipboardError, max_data_chunk}
use mouser.Clipboard.Settings.{can_offer, format_enabled, utf8_text, html, rtf, uri_list}
use mouser.Clipboard.Reassembly.{Reassembly, new}
use mouser.Clipboard.Reassembly.Complete.{Chunk, receive, push_on, push_last}
use mouser.Clipboard.Engine.{ClipboardEngine, ClipboardPull, ClipboardData, parse_hash}

abbrev pub control_text_cap : ℕ
control_text_cap = 64 * 1024

unfoldable pub is_text_format : ClipFormat → Bool
is_text_format format = format == utf8_text || format == html || format == rtf || format == uri_list

pub data Transport : Type 0 where
  control bulk : Transport

unfoldable pub transport_for : ClipFormat → ℕ → Transport
transport_for format canonical_size =
    if is_text_format format && leb canonical_size control_text_cap then control else bulk

abbrev pub one_chunk : Hash → ClipFormat → List ℕ → ClipboardData
one_chunk hash format bytes = record {
  hash = to_vec hash;
  format = format;
  offset = 0;
  bytes = bytes;
  last = true;
}

-- The loop of `chunk_data` from an offset on; every turn moves the offset, so that as many turns as
-- bytes are enough.
unfoldable pub chunk_loop : Hash → ClipFormat → List ℕ → ℕ → ℕ → List ClipboardData
chunk_loop hash format bytes zero offset = []
chunk_loop hash format bytes (suc fuel) offset =
    let end = min (saturating_add u64_max offset max_data_chunk) (length bytes) in
    let rest = chunk_loop hash format bytes fuel end in
    if ltb offset (length bytes)
    then record {
      hash = to_vec hash;
      format = format;
      offset = offset;
      bytes = take (end - offset) (drop offset bytes);
      last = end == length bytes;
    }
      ∷ rest
    else []

unfoldable pub chunk_bulk : Hash → ClipFormat → List ℕ → List ClipboardData
chunk_bulk hash format bytes =
    if length bytes == 0
    then one_chunk hash format [] ∷ []
    else chunk_loop hash format bytes (length bytes) 0

abbrev pub by_transport : Hash → ClipFormat → List ℕ → Transport → List ClipboardData
by_transport hash format bytes control = one_chunk hash format bytes ∷ []
by_transport hash format bytes bulk = chunk_bulk hash format bytes

unfoldable pub chunk_data : Hash → ClipFormat → List ℕ → List ClipboardData
chunk_data hash format bytes = by_transport hash format bytes (transport_for format (length bytes))

abbrev pub served : ClipFormat → (ClipFormat → Hash → Option (List ℕ)) → Hash → List ClipboardData
served format source hash = elim (source format hash) [
  | none ↦ []
  | some bytes ↦ chunk_data hash format bytes
]

abbrev pub serve :
    ClipFormat
    → (ClipFormat → Hash → Option (List ℕ))
    → Result Hash ClipboardError
    → Result (List ClipboardData) ClipboardError
serve format source (err e) = err e
serve format source (ok hash) = ok (served format source hash)

-- `on_pull`; the source gives the canonical bytes of what was offered.
unfoldable pub on_pull :
    ClipboardEngine
    → ClipboardPull
    → (ClipFormat → Hash → Option (List ℕ))
    → Result (List ClipboardData) ClipboardError
on_pull e pull source =
    if not (can_offer e.settings)
    then ok []
    else (if not (format_enabled e.settings pull.format)
        then ok []
        else serve pull.format source (parse_hash pull.hash))

-- A chunk as the accumulator of the receiver sees it.
abbrev pub chunk_of : ClipboardData → Chunk
chunk_of d = record { offset = d.offset; bytes = d.bytes; last = d.last }

-- Where the chunk at an offset ends, and its bytes.
abbrev chunk_end : List ℕ → ℕ → ℕ
chunk_end bytes offset = min (saturating_add u64_max offset max_data_chunk) (length bytes)

abbrev slice : List ℕ → ℕ → List ℕ
slice bytes offset = take (chunk_end bytes offset - offset) (drop offset bytes)

length-slice :
    (bytes buf : List ℕ)
    → length buf < length bytes
    → length bytes ≤ u64_max
    → length (slice bytes (length buf)) ≡ chunk_end bytes (length buf) - length buf
length-slice bytes buf h small = omega (
  arith,
  length-take (chunk_end bytes (length buf) - length buf) (drop (length buf) bytes),
  length-drop (length buf) bytes,
  h,
)

slice_lem :
    (bytes buf : List ℕ)
    → buf ≡ take (length buf) bytes
    → length buf < length bytes
    → length bytes ≤ u64_max
    → buf ++ slice bytes (length buf) ≡ take (chunk_end bytes (length buf)) bytes
slice_lem bytes buf e h small =
    let sum : length buf + (chunk_end bytes (length buf) - length buf)
        ≡ chunk_end bytes (length buf) =
      omega (arith, h, small) in
    ap (λ x. x ++ slice bytes (length buf)) e
    ∙ take-add (length buf) (chunk_end bytes (length buf) - length buf) bytes
    ∙ ap (λ n. take n bytes) sum

module _ (sha256 : List ℕ → Hash) where
  receive-chunk_loop :
      (hash : Hash) (format : ClipFormat) (bytes : List ℕ) (fuel : ℕ) (r : Reassembly)
      → r.done ≡ false
      → r.size ≡ length bytes
      → r.hash ≡ sha256 bytes
      → length bytes ≤ u64_max
      → r.buf ≡ take (length r.buf) bytes
      → length r.buf < length bytes
      → length bytes ≤ length r.buf + fuel
      → receive sha256 r (map chunk_of (chunk_loop hash format bytes fuel (length r.buf)))
        ≡ some bytes
  unfolding receive chunk_loop
  receive-chunk_loop hash format bytes zero r d size digest small buf more enough =
      absurd (omega (arith, more, enough))
  receive-chunk_loop hash format bytes (suc fuel) r d size digest small buf more enough =
      let inside : ltb (length r.buf) (length bytes) ≡ true = ground (arith, more) in
      let whole = slice_lem bytes r.buf buf more small in
      let len = length-slice bytes r.buf more small in
      let total : length (r.buf ++ slice bytes (length r.buf)) ≡ chunk_end bytes (length r.buf) =
        omega (arith, length-append r.buf (slice bytes (length r.buf)), len) in
      elim (Bool-cases (chunk_end bytes (length r.buf) == length bytes)) [
        | inl last ↦
            (let all : r.buf ++ slice bytes (length r.buf) ≡ bytes =
                whole ∙ take_all (chunk_end bytes (length r.buf)) bytes (ground (arith, last)) in
              let run =
                push_last sha256 r (slice bytes (length r.buf)) d (omega (arith, len))
                  (ground (arith, last, len, size)) (omega (arith, size, small))
                  (ap sha256 all ∙ sym digest) in
              rw (inside, last, run) (ap some all))
        | inr last ↦
            (let run =
                push_on sha256 r (slice bytes (length r.buf)) d (omega (arith, len))
                  (omega (arith, len, size)) (omega (arith, size, small)) in
              let more' : chunk_end bytes (length r.buf) < length bytes = ground (arith, last) in
              let rest =
                receive-chunk_loop hash format bytes fuel
                  (record r { buf = r.buf ++ slice bytes (length r.buf) }) d size digest small
                  (rw (total) whole) (rw (total) more') (omega (arith, total, enough, more')) in
              rw (inside, last, run) (rw (total) at rest))
      ]

  receive-empty :
      (hash : Hash) (format : ClipFormat) (bytes : List ℕ)
      → length bytes ≡ 0
      → receive sha256
          (new format (sha256 bytes) (length bytes))
          (chunk_of (one_chunk hash format []) ∷ [])
        ≡ some bytes
  unfolding receive new
  receive-empty hash format [] h =
      rw (push_last sha256 (new format (sha256 []) 0) [] refl (omega arith) refl (omega arith) refl)
        refl
  receive-empty hash format (b ∷ bytes) h = absurd (omega (arith, h))

  -- A content that is answered to a pull, in one message or in chunks, is put together again by the
  -- device that pulls, if it awaits its size and hash and the size is a 64-bit number.
  pub receive-chunk_data :
      (hash : Hash) (format : ClipFormat) (bytes : List ℕ)
      → length bytes ≤ u64_max
      → receive sha256
          (new format (sha256 bytes) (length bytes))
          (map chunk_of (chunk_data hash format bytes))
        ≡ some bytes
  unfolding chunk_data transport_for chunk_bulk new receive
  receive-chunk_data hash format bytes small =
      elim (Bool-cases (is_text_format format && leb (length bytes) control_text_cap)) [
        | inl text ↦
            (let run =
                push_last sha256 (new format (sha256 bytes) (length bytes)) bytes refl
                  (ground (arith, text)) (omega arith) small refl in
              rw (text, run) refl)
        | inr binary ↦ elim (Bool-cases (length bytes == 0)) [
          | inl empty ↦ rw (binary, empty) (receive-empty hash format bytes (ground (arith, empty)))
          | inr nonempty ↦
              (let run =
                  receive-chunk_loop hash format bytes (length bytes)
                    (new format (sha256 bytes) (length bytes)) refl refl refl small refl
                    (ground (arith, nonempty)) (omega arith) in
                rw (binary, nonempty) run)
        ]
      ]
