-- ===== src/Files/Transfer/Outcome.antt =====
-- The invariant of a transfer, and what each of the three steps comes to under it
-- (crates/mouser-files/src/sender.rs and receiver.rs).
use mouser.Prelude.{
  ℕ, zero, suc, ◌+◌, ◌-◌, ◌≤◌, ◌<◌, ◌≡◌, refl, sym, ◌∙◌, true, false, ◌⊎◌, inl, inr, List, [], ◌∷◌,
  ◌++◌, map, none, some, ok, leb, length, length-set, get_elem?, get_elem?-lt, set, set-get_elem?,
  map-set, All, All-get_elem?, All-append, some-inj, arith,
}
use mouser.Prelude.Sat.{u32_max}
use mouser.Files.Types.{Hash, FileChunk, max_chunk_size}
use mouser.Files.Path.{PathLib}
use mouser.Files.Sink.{mem_source, mem_sink}
use mouser.Files.Sender.{Track, Sender, poll_chunk, is_sendable}
use mouser.Files.Receiver.{Outbound, accept, reject, ack, done, Slot}
use mouser.Files.Transfer.{Transfer}
use mouser.Files.Transfer.Poll.{IsReadable, Emitted, poll_tracks_lem}
use mouser.Files.Transfer.Flight.{FilesInv, FilesInv-track, FilesInv-update}
use mouser.Files.Transfer.Receipt.{sent_other, sent_this}

-- A chunk or a response belongs to the transfer and names one of its files.
abbrev pub IsChunkOf : ℕ → ℕ → FileChunk → Type 0
IsChunkOf id files c = (c.transfer_id ≡ id) × (c.file_index < files)

abbrev pub IsReplyOf : ℕ → ℕ → Outbound → Type 0
IsReplyOf id files (accept m) = ⊥
IsReplyOf id files (reject m) = ⊥
IsReplyOf id files (ack a) = (a.transfer_id ≡ id) × (a.file_index < files)
IsReplyOf id files (done d) = (d.transfer_id ≡ id) × (d.is_ok ≡ true)

module _ (lib : PathLib) (sha256 : List ℕ → Hash) where
  abbrev pub IsSettled : Slot lib (mem_sink sha256) → Type 0
  IsSettled p = p.complete ≡ leb p.size p.acked

  pub record Inv (x : Transfer lib sha256) : Type 0 where
    pub transfer_id : x.receiver.transfer_id ≡ x.sender.transfer_id
    pub accepted : x.sender.accepted ≡ true
    pub sender_lives : x.sender.aborted ≡ false
    pub receiver_lives : x.receiver.aborted ≡ false
    pub some_bytes : 0 < x.sender.chunk_size
    pub small : x.sender.chunk_size ≤ max_chunk_size
    pub some_files : 0 < length x.sender.tracks
    pub few : length x.sender.tracks ≤ u32_max
    pub files : FilesInv lib sha256 0 x.sender.tracks x.receiver.slots x.chunks x.responses
    pub settled : All IsSettled x.receiver.slots
    pub chunks : All (IsChunkOf x.sender.transfer_id (length x.sender.tracks)) x.chunks
    pub responses : All (IsReplyOf x.sender.transfer_id (length x.sender.tracks)) x.responses

  readable :
      (b : ℕ) (ts : List (Track mem_source)) (ps : List (Slot lib (mem_sink sha256)))
      (cs : List FileChunk) (os : List Outbound)
      → FilesInv lib sha256 b ts ps cs os
      → All IsReadable ts
  unfolding FilesInv
  readable b [] ps cs os h = tt
  readable b (t ∷ ts) [] cs os h = absurd h
  readable b (t ∷ ts) (p ∷ ps) cs os (h, hs) = (
    record { size = h.size; within = h.within; machine = h.machine },
    readable (suc b) ts ps cs os hs,
  )

  poll_chunk_lem :
      (x : Transfer lib sha256)
      → Inv x
      → ((poll_chunk mem_source x.sender ≡ (x.sender, ok none))
          × All (λ t. is_sendable mem_source t ≡ false) x.sender.tracks)
        ⊎ ((ts' : List (Track mem_source)) × (c : FileChunk) × (poll_chunk mem_source x.sender
              ≡ (record x.sender { tracks = ts' }, ok (some c)))
            × Emitted 0 x.sender.transfer_id x.sender.tracks ts' c)
  unfolding poll_chunk
  poll_chunk_lem x h =
      elim (poll_tracks_lem x.sender.transfer_id x.sender.chunk_size 0 x.sender.tracks
        (readable 0 x.sender.tracks x.receiver.slots x.chunks x.responses h.files)
        (omega (arith, h.few)) h.some_bytes h.small) [
          | inl (e, q) ↦ inl (rw (h.accepted, h.sender_lives, e) refl, q)
          | inr (ts', c, e, m) ↦ inr (ts', c, rw (h.accepted, h.sender_lives, e) refl, m)
        ]

  abbrev pub sources : Transfer lib sha256 → List (List ℕ)
  sources x = map (λ (t : Track mem_source). t.src) x.sender.tracks

  -- The bytes that have not been put on the wire.
  abbrev pub unsent : List (Track mem_source) → ℕ
  unsent [] = 0
  unsent (t ∷ ts) = (t.size - t.sent) + unsent ts

  unsent-set :
      (ts : List (Track mem_source)) (k n : ℕ) (t : Track mem_source)
      → get_elem? ts k ≡ some t
      → t.sent + n ≤ t.size
      → unsent (set ts k (record t { sent = t.sent + n })) + n ≡ unsent ts
  unsent-set [] k n t e le = cc
  unsent-set (u ∷ ts) zero n t e le = rw (some-inj e) (omega (arith, le))
  unsent-set (u ∷ ts) (suc k) n t e le = omega (arith, unsent-set ts k n t e le)

  abbrev pub sending :
      (x : Transfer lib sha256) → Sender mem_source → FileChunk → Transfer lib sha256
  sending x s' c = record x { sender = s'; chunks = x.chunks ++ c ∷ [] }

  sent_files :
      (x : Transfer lib sha256) (ts' : List (Track mem_source)) (c : FileChunk)
      → Inv x
      → Emitted 0 x.sender.transfer_id x.sender.tracks ts' c
      → FilesInv lib sha256 0 ts' x.receiver.slots (x.chunks ++ c ∷ []) x.responses
  sent_files x ts' c h m =
      let (p, found, inv) =
        FilesInv-track lib sha256 0 m.k x.sender.tracks x.receiver.slots x.chunks x.responses m.t
          h.files m.found in
      rw (m.tracks) (
        rw (sym (set-get_elem? x.receiver.slots m.k p found)) (
          FilesInv-update lib sha256 0 m.k x.sender.tracks x.receiver.slots x.chunks
            (x.chunks ++ c ∷ []) x.responses x.responses _ p h.files
            (λ i t q ne f.
              sent_other lib sha256 i t q x.chunks x.responses c (λ e. ne (sym e ∙ m.index)) f)
            (sent_this lib sha256 (0 + m.k) m.t p x.chunks x.responses c m.index m.next inv)))

  send_Inv :
      (x : Transfer lib sha256) (ts' : List (Track mem_source)) (c : FileChunk)
      → Inv x
      → Emitted 0 x.sender.transfer_id x.sender.tracks ts' c
      → Inv (sending x (record x.sender { tracks = ts' }) c)
  send_Inv x ts' c h m =
      let same : length ts' ≡ length x.sender.tracks =
        rw (m.tracks) (length-set x.sender.tracks m.k _) in
      record {
        transfer_id = h.transfer_id;
        accepted = h.accepted;
        sender_lives = h.sender_lives;
        receiver_lives = h.receiver_lives;
        some_bytes = h.some_bytes;
        small = h.small;
        some_files = rw (same) h.some_files;
        few = rw (same) h.few;
        files = sent_files x ts' c h m;
        settled = h.settled;
        chunks = rw (same) (
            All-append (IsChunkOf x.sender.transfer_id (length x.sender.tracks)) x.chunks (c ∷ [])
              h.chunks
              ((m.transfer, omega (arith, m.index, get_elem?-lt x.sender.tracks m.k m.found)), tt));
        responses = rw (same) h.responses;
      }

  IsReadable-at :
      (x : Transfer lib sha256) {ts' : List (Track mem_source)} {c : FileChunk}
      → Inv x
      → (m : Emitted 0 x.sender.transfer_id x.sender.tracks ts' c) → IsReadable m.t
  IsReadable-at x h m =
      All-get_elem? IsReadable x.sender.tracks m.k
        (readable 0 x.sender.tracks x.receiver.slots x.chunks x.responses h.files) m.found

  -- A poll finds nothing to send, or one chunk is put on the wire.
  pub send_outcome :
      (x : Transfer lib sha256)
      → Inv x
      → ((poll_chunk mem_source x.sender ≡ (x.sender, ok none))
          × All (λ t. is_sendable mem_source t ≡ false) x.sender.tracks)
        ⊎ ((s' : Sender mem_source) × (c : FileChunk) × (poll_chunk mem_source x.sender
              ≡ (s', ok (some c)))
            × Inv (sending x s' c)
            × (suc (unsent s'.tracks) ≤ unsent x.sender.tracks)
            × (sources (sending x s' c) ≡ sources x))
  send_outcome x h = elim (poll_chunk_lem x h) [
    | inl r ↦ inl r
    | inr (ts', c, e, m) ↦
        (let fits : m.t.sent + length c.bytes ≤ m.t.size =
            omega (arith, m.next.fits, (IsReadable-at x h m).size) in
          inr (
            record x.sender { tracks = ts' },
            c,
            e,
            send_Inv x ts' c h m,
            rw (m.tracks) (
                omega (
                  arith,
                  unsent-set x.sender.tracks m.k (length c.bytes) m.t m.found fits,
                  m.next.some_bytes,
                )),
            rw (m.tracks) (map-set (λ t. t.src) x.sender.tracks m.k _ m.t m.found refl),
          ))
  ]
