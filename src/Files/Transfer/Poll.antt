-- ===== src/Files/Transfer/Poll.antt =====
-- Which chunk the sender sends next from sources in memory (crates/mouser-files/src/sender.rs).
use mouser.Prelude.{
  ℕ, suc, ◌+◌, ◌-◌, ◌≤◌, ◌<◌, ◌≡◌, refl, ap, true, false, Bool-cases, ◌⊎◌, inl, inr, List, [], ◌∷◌,
  none, some, ok, leb, ◌==◌, length, length-take, length-drop, get_elem?, set, take, drop, min, All,
  arith,
}
use mouser.Prelude.Sat.{u32_max, u64_max, saturating_add}
use mouser.Files.Types.{FileChunk, max_chunk_size}
use mouser.Files.Sink.{mem_source, mem_read_at}
use mouser.Files.Sender.{Track, index_u32, want, is_sendable, emit, poll_tracks}

-- The chunk holds the bytes of the source that follow the first `pos`.
pub record IsNext (src : List ℕ) (pos : ℕ) (c : FileChunk) : Type 0 where
  pub at : c.offset ≡ pos
  pub content : c.bytes ≡ take (length c.bytes) (drop pos src)
  pub some_bytes : 0 < length c.bytes
  pub fits : pos + length c.bytes ≤ length src
  pub small : length c.bytes ≤ max_chunk_size

pub record IsReadable (t : Track mem_source) : Type 0 where
  pub size : t.size ≡ length t.src
  pub within : t.sent ≤ t.size
  pub machine : t.size ≤ u64_max

-- What a poll that gives a chunk did: it took the chunk from the track at `k`.
pub record Emitted (b id : ℕ) (ts ts' : List (Track mem_source)) (c : FileChunk) : Type 0 where
  pub k : ℕ
  pub t : Track mem_source
  pub found : get_elem? ts k ≡ some t
  pub tracks : ts' ≡ set ts k (record t { sent = t.sent + length c.bytes })
  pub index : c.file_index ≡ b + k
  pub transfer : c.transfer_id ≡ id
  pub next : IsNext t.src t.sent c

mem_read_at_lem :
    (src : List ℕ) (pos n : ℕ)
    → pos + n ≤ length src
    → 0 < n
    → length src ≤ u64_max
    → mem_read_at src pos n ≡ ok (take n (drop pos src))
unfolding mem_read_at
mem_read_at_lem src pos n h p le =
    let inside : leb (length src) pos ≡ false = ground (arith, h, p) in
    let amount : min (saturating_add u64_max pos n) (length src) - pos ≡ n = omega (arith, h, le) in
    rw (inside, amount) refl

length-slice :
    (src : List ℕ) (pos n : ℕ) → pos + n ≤ length src → length (take n (drop pos src)) ≡ n
length-slice src pos n h = omega (arith, length-take n (drop pos src), length-drop pos src, h)

want_lem :
    (chunk_size : ℕ) (t : Track mem_source)
    → IsReadable t
    → is_sendable mem_source t ≡ true
    → 0 < chunk_size
    → (0 < want mem_source chunk_size t)
      × (t.sent + want mem_source chunk_size t ≤ length t.src)
      × (want mem_source chunk_size t ≤ chunk_size)
want_lem n t h e p = ground (arith, h.size, h.within)

emit_lem :
    (id i n : ℕ) (t : Track mem_source)
    → IsReadable t
    → i ≤ u32_max
    → 0 < n
    → t.sent + n ≤ length t.src
    → n ≤ max_chunk_size
    → (c : FileChunk) × (emit mem_source id i t (mem_read_at t.src t.sent n)
        ≡ (record t { sent = t.sent + length c.bytes }, ok (some c)))
      × (c.file_index ≡ i)
      × (c.transfer_id ≡ id)
      × IsNext t.src t.sent c
unfolding emit
emit_lem id i n t h hi p fits small =
    let len : length (take n (drop t.sent t.src)) ≡ n = length-slice t.src t.sent n fits in
    let c : FileChunk = record {
      transfer_id = id;
      file_index = i;
      offset = t.sent;
      bytes = take n (drop t.sent t.src);
    } in
    let index : index_u32 i ≡ i = omega (arith, hi) in
    let nonzero : (length (take n (drop t.sent t.src)) == 0) ≡ false = ground (arith, len, p) in
    (
      c,
      rw (mem_read_at_lem t.src t.sent n fits p (omega (arith, h.size, h.machine)), nonzero, index)
          refl,
      refl,
      refl,
      record {
        at = refl;
        content = rw len refl;
        some_bytes = omega (arith, len, p);
        fits = omega (arith, len, fits);
        small = omega (arith, len, small);
      },
    )

-- A poll gives no chunk, changes nothing and finds no track to send from, or it gives the bytes that
-- follow those sent from one track.
pub poll_tracks_lem :
    (id chunk_size b : ℕ) (ts : List (Track mem_source))
    → All IsReadable ts
    → b + length ts ≤ u32_max
    → 0 < chunk_size
    → chunk_size ≤ max_chunk_size
    → ((poll_tracks mem_source id chunk_size b ts ≡ (ts, ok none))
        × All (λ t. is_sendable mem_source t ≡ false) ts)
      ⊎ ((ts' : List (Track mem_source)) × (c : FileChunk) × (poll_tracks mem_source id chunk_size b
              ts
            ≡ (ts', ok (some c)))
          × Emitted b id ts ts' c)
unfolding poll_tracks
poll_tracks_lem id n b [] h le p small = inl (refl, tt)
poll_tracks_lem id n b (t ∷ ts) (ht, h) le p small = elim (Bool-cases (is_sendable mem_source t)) [
  | inl e ↦
      (let (w, fits, max) = want_lem n t ht e p in
        let (c, q, i, d, next) =
          emit_lem id b (want mem_source n t) t ht (omega (arith, le)) w fits
            (omega (arith, max, small)) in
        inr (
          record t { sent = t.sent + length c.bytes } ∷ ts,
          c,
          rw (e, q) refl,
          record {
            k = 0;
            t = t;
            found = refl;
            tracks = refl;
            index = omega (arith, i);
            transfer = d;
            next = next;
          },
        ))
  | inr e ↦ elim (poll_tracks_lem id n (b + 1) ts h (omega (arith, le)) p small) [
    | inl (q, r) ↦ inl (rw (e, q) refl, (e, r))
    | inr (ts', c, q, m) ↦ inr (
      t ∷ ts',
      c,
      rw (e, q) refl,
      record {
        k = suc m.k;
        t = m.t;
        found = m.found;
        tracks = ap (◌∷◌ t) m.tracks;
        index = omega (arith, m.index);
        transfer = m.transfer;
        next = m.next;
      },
    )
  ]
]
