-- ===== src/Clipboard/Session/Arrival.antt =====
-- What the answer to a pull does at the device that pulled
-- (crates/mouser-engine/src/daemon/clipboard.rs).
use mouser.Prelude.{
  ℕ, ◌^◌, ◌≤◌, ◌<◌, ◌≡◌, refl, sym, ap, ◌∙◌, Bool, true, false, ◌||◌, List, [], ◌∷◌, ◌++◌,
  append_assoc, append-nil, Option, none, some, Result, ok, err, map, length, arith,
}
use mouser.Prelude.Sat.{u64_max}
use mouser.Protocol.Codec.{IsLawful, from_cbor-to_cbor}
use mouser.Clipboard.Types.{Hash, ClipFormat, ClipboardError}
use mouser.Clipboard.Engine.{ClipboardData, AppliedClip, on_data_from}
use mouser.Clipboard.Engine.Serve.{
  Transport, control, bulk, transport_for, one_chunk, chunk_bulk, by_transport, chunk_data,
  chunk_of,
}
use mouser.Clipboard.Session.{
  ClipboardSession, Codecs, Write, ClipboardOutput, frame, chunks, to_platform, is_control,
  is_control_data, bulk_of, route_clipboard_data, type_clipboard_data,
}
use mouser.Clipboard.Session.Handlers.{
  write_of, writes_of, apply_data, on_bulk_data, on_control, session_data,
}
use mouser.Clipboard.Session.Feed.{clips_of, feed}
use mouser.Clipboard.Reassembly.{new}
use mouser.Clipboard.Reassembly.Complete.{receive}
use mouser.Clipboard.Pulls.{Pending, lookup}
use mouser.Clipboard.Types.{pull_key}
use mouser.Clipboard.Engine.Serve.{receive-chunk_data}
use mouser.Clipboard.Session.Feed.{IsOpen, feed_lem}
use mouser.Clipboard.Session.Chunks.{
  chunk_data-IsChunk, chunk_bulk-IsBulk, bulk_answer, control_answer,
}

-- The writes of contents that were applied, one after the other.
unfoldable pub all_writes : List AppliedClip → List Write
all_writes [] = []
all_writes (clip ∷ clips) = write_of clip (to_platform clip.format) ++ all_writes clips

all_writes-append :
    (xs ys : List AppliedClip) → all_writes (xs ++ ys) ≡ all_writes xs ++ all_writes ys
unfolding all_writes
all_writes-append [] ys = refl
all_writes-append (clip ∷ xs) ys =
    ap (◌++◌ (write_of clip (to_platform clip.format))) (all_writes-append xs ys)
    ∙ sym (append_assoc (write_of clip (to_platform clip.format)) (all_writes xs) (all_writes ys))

writes_of-clips_of :
    (r : Result (Option AppliedClip) ClipboardError) → writes_of r ≡ all_writes (clips_of r)
unfolding all_writes
writes_of-clips_of (err e) = refl
writes_of-clips_of (ok none) = refl
writes_of-clips_of (ok (some clip)) = sym (append-nil (write_of clip (to_platform clip.format)))

module _ (sha256 : List ℕ → Hash) where
  -- Chunks of the bulk plane, in order.
  unfoldable pub take_chunks : ClipboardSession → List ClipboardData → ClipboardSession × List Write
  take_chunks s [] = (s, [])
  take_chunks s (d ∷ ds) =
      let (s', writes) = on_bulk_data sha256 s d in
      let (s'', more) = take_chunks s' ds in (s'', writes ++ more)

  take_chunks-feed :
      (s : ClipboardSession) (ds : List ClipboardData)
      → (take_chunks s ds).1 ≡ all_writes (feed sha256 s.engine s.peer_id ds).1
  unfolding take_chunks feed on_bulk_data apply_data all_writes
  take_chunks-feed s [] = refl
  take_chunks-feed s (d ∷ ds) =
      let step = on_data_from sha256 s.engine s.peer_id d in
      let s' : ClipboardSession = record s { engine = step.0 } in
      ap (λ (w : List Write). w ++ (take_chunks s' ds).1) (writes_of-clips_of step.1)
      ∙ ap (◌++◌ (all_writes (clips_of step.1))) (take_chunks-feed s' ds)
      ∙ sym (all_writes-append (clips_of step.1) (feed sha256 step.0 s.peer_id ds).1)

  module _ (cs : Codecs) where
    -- The peer's outputs as they arrive: a frame on the control stream, chunks on the bulk plane.
    unfoldable pub take_output : ClipboardSession → ClipboardOutput → ClipboardSession × List Write
    take_output s (frame f) = let (s', out, writes) = on_control sha256 cs s f in (s', writes)
    take_output s (chunks ds) = take_chunks s ds

    unfoldable pub take_outputs :
        ClipboardSession → List ClipboardOutput → ClipboardSession × List Write
    take_outputs s [] = (s, [])
    take_outputs s (o ∷ os) =
        let (s', writes) = take_output s o in
        let (s'', more) = take_outputs s' os in (s'', writes ++ more)

    take_one :
        (s : ClipboardSession) (o : ClipboardOutput)
        → (take_outputs s (o ∷ [])).1 ≡ (take_output s o).1
    unfolding take_outputs
    take_one s o = append-nil (take_output s o).1

    -- A frame with one message of contents is taken as that chunk.
    take_frame :
        (lawful : IsLawful cs.content) (s : ClipboardSession) (d : ClipboardData)
        → is_control_data d ≡ true
        → (take_output s
            (frame (record { ty = type_clipboard_data; payload = lawful.bytes_of d }))).1
          ≡ (take_chunks s (d ∷ [])).1
    unfolding take_output take_chunks on_control session_data on_bulk_data
    take_frame lawful s d h =
        let (written, back) = from_cbor-to_cbor lawful d in
        rw (back, h) (sym (append-nil (apply_data sha256 s d).1))

    take_bulk :
        (s : ClipboardSession) (ds : List ClipboardData)
        → (take_outputs s (bulk_of ds)).1 ≡ (take_chunks s ds).1
    unfolding take_outputs take_chunks take_output
    take_bulk s [] = refl
    take_bulk s (d ∷ ds) = append-nil (take_chunks s (d ∷ ds)).1

    one_chunk_control :
        (hash : Hash) (format : ClipFormat) (bytes : List ℕ)
        → transport_for format (length bytes) ≡ control
        → is_control_data (one_chunk hash format bytes) ≡ true
    unfolding is_control_data transport_for
    one_chunk_control hash format bytes h = ground (arith, h)

    -- Whichever way the answer travels, it comes in as the chunks that it was made of.
    answer_chunks :
        (lawful : IsLawful cs.content) (be : Bool) (s : ClipboardSession) (hash : Hash)
        (format : ClipFormat) (bytes : List ℕ) (t : Transport)
        → transport_for format (length bytes) ≡ t
        → (be || is_control t) ≡ true
        → (take_outputs s (route_clipboard_data cs be (by_transport hash format bytes t))).1
          ≡ (take_chunks s (by_transport hash format bytes t)).1
    answer_chunks lawful be s hash format bytes control e h =
        rw (control_answer cs lawful be hash format bytes e) (
          take_one s _
          ∙ take_frame lawful s (one_chunk hash format bytes)
              (one_chunk_control hash format bytes e))
    answer_chunks lawful true s hash format bytes bulk e h =
        rw (bulk_answer cs (chunk_bulk hash format bytes) (chunk_bulk-IsBulk hash format bytes e))
          (take_bulk s (chunk_bulk hash format bytes))
    answer_chunks lawful false s hash format bytes bulk e h = cc

    -- A pull that is answered with its content ends in one write of the content.
    pub answer_lem :
        (lawful : IsLawful cs.content) (be : Bool) (s : ClipboardSession) (format : ClipFormat)
        (bytes : List ℕ) (p : Pending)
        → sha256 bytes < 256 ^ 32
        → length bytes ≤ u64_max
        → lookup (pull_key s.peer_id format (sha256 bytes)) s.engine.pending.entries ≡ some p
        → p.key.format ≡ format
        → p.reasm ≡ new format (sha256 bytes) (length bytes)
        → IsOpen s.engine p
        → (be || is_control (transport_for format (length bytes))) ≡ true
        → (take_outputs s (route_clipboard_data cs be (chunk_data (sha256 bytes) format bytes))).1
          ≡ write_of (record { format = format; bytes = bytes }) (to_platform format)
    unfolding chunk_data all_writes
    answer_lem lawful be s format bytes p range small found same fresh gates way =
        let whole : receive sha256 p.reasm (map chunk_of (chunk_data (sha256 bytes) format bytes))
            ≡ some bytes =
          rw (fresh) (receive-chunk_data sha256 (sha256 bytes) format bytes small) in
        let fed =
          feed_lem sha256 s.engine s.peer_id format (sha256 bytes) p
            (chunk_data (sha256 bytes) format bytes) bytes
            (chunk_data-IsChunk (sha256 bytes) format bytes range) found gates whole in
        answer_chunks lawful be s (sha256 bytes) format bytes (transport_for format (length bytes))
          refl way
        ∙ take_chunks-feed s (chunk_data (sha256 bytes) format bytes)
        ∙ ap all_writes fed
        ∙ append-nil _
        ∙ ap (λ (f : ClipFormat). write_of (record { format = f; bytes = bytes }) (to_platform f))
            same
