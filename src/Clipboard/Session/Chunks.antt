-- ===== src/Clipboard/Session/Chunks.antt =====
-- How the answer to a pull travels: one message on the control stream or chunks on the bulk plane
-- (crates/mouser-engine/src/daemon/clipboard.rs).
use mouser.Prelude.{
  ℕ, zero, suc, ◌-◌, ◌^◌, ◌<◌, ◌≡◌, refl, sym, Bool, true, false, ◌==◌, List, [], ◌∷◌, ok, ltb,
  Bool-cases, take_all, inl, inr, length, take, drop, min, All, arith, if_split,
}
use mouser.Prelude.Sat.{u64_max, saturating_add}
use mouser.Core.DeviceId.{to_vec, to_id-to_vec}
use mouser.Protocol.Codec.{IsLawful, from_cbor-to_cbor}
use mouser.Clipboard.Types.{Hash, ClipFormat, max_data_chunk}
use mouser.Clipboard.Engine.{ClipboardData, parse_hash}
use mouser.Clipboard.Engine.Serve.{
  Transport, control, bulk, transport_for, one_chunk, chunk_loop, chunk_bulk, by_transport,
  chunk_data,
}
use mouser.Clipboard.Session.{
  Codecs, frame, encode, is_control_data, bulk_of, route, route_clipboard_data, type_clipboard_data,
}
use mouser.Clipboard.Session.Feed.{IsChunk}

-- Serializers that write each message whole and read it back.
pub record AreLawful (cs : Codecs) : Type 0 where
  pub offer : IsLawful cs.offer
  pub pull : IsLawful cs.pull
  pub content : IsLawful cs.content

pub parse_hash-to_vec : (hash : Hash) → hash < 256 ^ 32 → parse_hash (to_vec hash) ≡ ok hash
unfolding parse_hash
parse_hash-to_vec hash h = rw (to_id-to_vec hash h, parse_hash) refl

chunk_loop-IsChunk :
    (hash : Hash) (format : ClipFormat) (bytes : List ℕ) (fuel offset : ℕ)
    → hash < 256 ^ 32
    → All (IsChunk format hash) (chunk_loop hash format bytes fuel offset)
unfolding chunk_loop
chunk_loop-IsChunk hash format bytes zero offset h = tt
chunk_loop-IsChunk hash format bytes (suc fuel) offset h =
    if_split (All (IsChunk format hash)) (ltb offset (length bytes))
      (λ _. (
        (parse_hash-to_vec hash h, refl),
        chunk_loop-IsChunk hash format bytes fuel
            (min (saturating_add u64_max offset max_data_chunk) (length bytes)) h,
      ))
      (λ _. tt)

pub chunk_data-IsChunk :
    (hash : Hash) (format : ClipFormat) (bytes : List ℕ)
    → hash < 256 ^ 32
    → All (IsChunk format hash) (chunk_data hash format bytes)
unfolding chunk_data chunk_bulk
chunk_data-IsChunk hash format bytes h = go (transport_for format (length bytes))
  where
    go : (t : Transport) → All (IsChunk format hash) (by_transport hash format bytes t)
    go control = ((parse_hash-to_vec hash h, refl), tt)
    go bulk =
        if_split (All (IsChunk format hash)) (length bytes == 0)
          (λ _. ((parse_hash-to_vec hash h, refl), tt))
          (λ _. chunk_loop-IsChunk hash format bytes (length bytes) 0 h)

-- Not a message for the control stream.
abbrev pub IsBulk : ClipboardData → Type 0
IsBulk d = is_control_data d ≡ false

slice-IsBulk :
    (hash : List ℕ) (format : ClipFormat) (bytes : List ℕ) (offset end : ℕ)
    → transport_for format (length bytes) ≡ bulk
    → IsBulk (record {
      hash = hash;
      format = format;
      offset = offset;
      bytes = take (end - offset) (drop offset bytes);
      last = end == length bytes;
    })
unfolding is_control_data
slice-IsBulk hash format bytes zero end large = elim (Bool-cases (end == length bytes)) [
  | inl e ↦
      (let whole : take (end - 0) bytes ≡ bytes = take_all (end - 0) bytes (ground (arith, e)) in
        rw (whole, large) (ground arith))
  | inr e ↦ rw (e) refl
]
slice-IsBulk hash format bytes (suc offset) end large = ground arith

chunk_loop-IsBulk :
    (hash : Hash) (format : ClipFormat) (bytes : List ℕ) (fuel offset : ℕ)
    → transport_for format (length bytes) ≡ bulk
    → All IsBulk (chunk_loop hash format bytes fuel offset)
unfolding chunk_loop
chunk_loop-IsBulk hash format bytes zero offset large = tt
chunk_loop-IsBulk hash format bytes (suc fuel) offset large =
    let end = min (saturating_add u64_max offset max_data_chunk) (length bytes) in
    if_split (All IsBulk) (ltb offset (length bytes))
      (λ e. (
        slice-IsBulk (to_vec hash) format bytes offset end large,
        chunk_loop-IsBulk hash format bytes fuel end large,
      ))
      (λ _. tt)

pub chunk_bulk-IsBulk :
    (hash : Hash) (format : ClipFormat) (bytes : List ℕ)
    → transport_for format (length bytes) ≡ bulk
    → All IsBulk (chunk_bulk hash format bytes)
unfolding chunk_bulk is_control_data
chunk_bulk-IsBulk hash format bytes large =
    if_split (All IsBulk) (length bytes == 0)
      (λ e.
        (let none_left : length bytes ≡ 0 = ground (arith, e) in
          (rw (sym none_left, large) (ground arith), tt)))
      (λ _. chunk_loop-IsBulk hash format bytes (length bytes) 0 large)

module _ (cs : Codecs) where
  route_bulk : (ds : List ClipboardData) → All IsBulk ds → route cs true ds ≡ ([], ds)
  unfolding route
  route_bulk [] h = refl
  route_bulk (d ∷ ds) (h, hs) = rw (h, route_bulk ds hs) refl

  pub bulk_answer :
      (ds : List ClipboardData) → All IsBulk ds → route_clipboard_data cs true ds ≡ bulk_of ds
  unfolding route_clipboard_data
  bulk_answer ds h = rw (route_bulk ds h) refl

  pub control_answer :
      (lawful : IsLawful cs.content) (be : Bool) (hash : Hash) (format : ClipFormat)
      (bytes : List ℕ)
      → transport_for format (length bytes) ≡ control
      → route_clipboard_data cs be (one_chunk hash format bytes ∷ [])
        ≡ frame (record {
          ty = type_clipboard_data;
          payload = lawful.bytes_of (one_chunk hash format bytes);
        })
          ∷ []
  unfolding route_clipboard_data route is_control_data transport_for encode
  control_answer lawful be hash format bytes small =
      let (written, back) = from_cbor-to_cbor lawful (one_chunk hash format bytes) in
      rw (written) (ground (arith, small))
