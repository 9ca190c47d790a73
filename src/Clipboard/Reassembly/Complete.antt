-- ===== src/Clipboard/Reassembly/Complete.antt =====
-- What comes out of the reassembly of chunks, and that it comes out
-- (crates/mouser-clipboard/src/reassembly.rs).
use mouser.Prelude.{
  ℕ, ◌+◌, ◌≤◌, ◌≡◌, refl, sym, ap, Bool, true, false, List, [], ◌∷◌, ◌++◌, append_assoc, append-nil,
  Option, none, some, Result, ok, err, if◌then◌else◌, length, length-append, All, arith,
}
use mouser.Prelude.Sat.{u64_max}
use mouser.Clipboard.Types.{Hash, max_data_chunk, ClipboardError}
use mouser.Clipboard.Reassembly.{Reassembly, finish, commit, push}

-- A chunk as it arrives.
pub record Chunk : Type 0 where
  pub offset : ℕ
  pub bytes : List ℕ
  pub last : Bool

-- What one push and the rest of the chunks give.
abbrev pub receive_case :
    Result (Option (List ℕ)) ClipboardError → Option (List ℕ) → Option (List ℕ)
receive_case (err _) rest = none
receive_case (ok none) rest = rest
receive_case (ok (some bytes)) rest = some bytes

module _ (sha256 : List ℕ → Hash) where
  -- The chunks are pushed in order up to the first error or the bytes of the whole.
  unfoldable pub receive : Reassembly → List Chunk → Option (List ℕ)
  receive r [] = none
  receive r (c ∷ cs) =
      let (r', result) = push sha256 r c.offset c.bytes c.last in
      receive_case result (receive r' cs)

  -- The canonical bytes in pieces, as a sender streams them.
  unfoldable pub stream : ℕ → List ℕ → List (List ℕ) → List Chunk
  stream offset p [] = record { offset = offset; bytes = p; last = true } ∷ []
  stream offset p (q ∷ ps) =
      record { offset = offset; bytes = p; last = false } ∷ stream (offset + length p) q ps

  unfoldable pub joined : List (List ℕ) → List ℕ
  joined [] = []
  joined (p ∷ ps) = p ++ joined ps

  -- The bytes of the chunks up to the first that is marked as the last.
  unfoldable pub content : List Chunk → List ℕ
  content [] = []
  content (c ∷ cs) = if c.last then c.bytes else c.bytes ++ content cs

  push_sound :
      (r r' : Reassembly) (o : ℕ) (d bytes : List ℕ) (l : Bool)
      → push sha256 r o d l ≡ (r', ok (some bytes))
      → (bytes ≡ r.buf ++ d) × (length bytes ≡ r.size) × (sha256 bytes ≡ r.hash) × (l ≡ true)
  unfolding push commit finish
  push_sound r r' o d bytes l h = ground arith

  pub push_on :
      (r : Reassembly) (d : List ℕ)
      → r.done ≡ false
      → length d ≤ max_data_chunk
      → length r.buf + length d ≤ r.size
      → r.size ≤ u64_max
      → push sha256 r (length r.buf) d false ≡ (record r { buf = r.buf ++ d }, ok none)
  unfolding push commit
  push_on r d h small fits le = ground arith

  pub push_last :
      (r : Reassembly) (d : List ℕ)
      → r.done ≡ false
      → length d ≤ max_data_chunk
      → length r.buf + length d ≡ r.size
      → r.size ≤ u64_max
      → sha256 (r.buf ++ d) ≡ r.hash
      → (push sha256 r (length r.buf) d true).1 ≡ ok (some (r.buf ++ d))
  unfolding push commit finish
  push_last r d h small fits le sha = ground (arith, length-append r.buf d)

  push_more :
      (r r' : Reassembly) (o : ℕ) (d : List ℕ) (l : Bool)
      → push sha256 r o d l ≡ (r', ok none)
      → (r' ≡ record r { buf = r.buf ++ d }) × (l ≡ false)
  unfolding push commit finish
  push_more r r' o d l h = ground arith

  -- Whatever chunks arrive, in whatever order and with whatever contents: if the accumulator gives
  -- bytes back, they are the bytes of the chunks up to the last one, in order and without a gap, they
  -- are as many as were offered, and they hash to the offered hash.
  receive_sound :
      (r : Reassembly) (cs : List Chunk) (bytes : List ℕ)
      → receive r cs ≡ some bytes
      → (bytes ≡ r.buf ++ content cs) × (length bytes ≡ r.size) × (sha256 bytes ≡ r.hash)
  unfolding receive content
  receive_sound r [] bytes h = cc
  receive_sound r (c ∷ cs) bytes h =
      go (push sha256 r c.offset c.bytes c.last) refl h (λ r' q. receive_sound r' cs bytes q)
    where
      go :
          (m : Reassembly × Result (Option (List ℕ)) ClipboardError)
          → push sha256 r c.offset c.bytes c.last ≡ m
          → receive_case m.1 (receive m.0 cs) ≡ some bytes
          → ((r' : Reassembly)
              → receive r' cs ≡ some bytes
              → (bytes ≡ r'.buf ++ content cs)
                × (length bytes ≡ r'.size)
                × (sha256 bytes ≡ r'.hash))
          → (bytes ≡ r.buf ++ content (c ∷ cs)) × (length bytes ≡ r.size) × (sha256 bytes ≡ r.hash)
      go (r', err _) e q ih = cc
      go (r', ok none) e q ih = ground (
        arith,
        push_more r r' c.offset c.bytes c.last e,
        ih r' q,
        append_assoc r.buf c.bytes (content cs),
      )
      go (r', ok (some bytes')) e q ih =
          ground (arith, push_sound r r' c.offset c.bytes bytes' c.last e, q)

  -- A representation that is streamed in one or more pieces of at most 1 MiB is reassembled, if the
  -- offered size and hash are its own and the size is a 64-bit number.
  receive-stream :
      (r : Reassembly) (p : List ℕ) (ps : List (List ℕ))
      → r.done ≡ false
      → All (λ d. length d ≤ max_data_chunk) (p ∷ ps)
      → length r.buf + length (joined (p ∷ ps)) ≡ r.size
      → r.size ≤ u64_max
      → sha256 (r.buf ++ joined (p ∷ ps)) ≡ r.hash
      → receive r (stream (length r.buf) p ps) ≡ some (r.buf ++ joined (p ∷ ps))
  unfolding receive stream joined
  receive-stream r p [] d small fits le sha = rw (append-nil p) (
      ap (λ m. receive_case m none)
        (push_last r p d small.0 (rw (append-nil p) at fits) le (rw (append-nil p) at sha)))
  receive-stream r p (q ∷ ps) d small fits le sha =
      rw (push_on r p d small.0 (omega (arith, fits, length-append p (joined (q ∷ ps)))) le) (
        rw (sym (append_assoc r.buf p (joined (q ∷ ps))), sym (length-append r.buf p))
          (receive-stream (record r { buf = r.buf ++ p }) q ps d small.1
            (omega (arith, fits, length-append p (joined (q ∷ ps)), length-append r.buf p)) le
            (rw (sym (append_assoc r.buf p (joined (q ∷ ps)))) at sha)))
