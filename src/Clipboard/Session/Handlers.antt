-- ===== src/Clipboard/Session/Handlers.antt =====
-- crates/mouser-engine/src/daemon/clipboard.rs: what a session does with the local clipboard and with
-- the messages of its peer.
use mouser.Prelude.{
  ℕ, Bool, not, ◌==◌, List, [], ◌∷◌, Option, none, some, Result, ok, err, if◌then◌else◌,
}
use mouser.Protocol.Codec.{CodecError, from_cbor}
use mouser.Clipboard.Types.{Hash, ClipFormat, ClipboardError}
use mouser.Clipboard.Settings.{ClipboardSettings, format_enabled, can_offer}
use mouser.Clipboard.Canonical.{canonical, content_hash}
use mouser.Clipboard.Engine.{
  ClipboardOffer, ClipboardPull, ClipboardData, AppliedClip, on_offer, on_data_from,
}
use mouser.Clipboard.Engine.Serve.{on_pull}
use mouser.Clipboard.Offer.{LocalRepr, Content, canonical_bytes, on_local_change}
use mouser.Clipboard.Session.{
  type_clipboard_offer, type_clipboard_pull, type_clipboard_data, PlatformFormat, formats,
  Clipboard, Codecs, ControlFrame, Write, ClipboardOutput, ClipboardSession, encode, to_platform,
  supported_offer, is_control_data, frames_of, route_clipboard_data,
}

-- The writes of a content that was applied.
abbrev pub write_of : AppliedClip → Option PlatformFormat → List Write
write_of clip none = []
write_of clip (some format) = record { format = format; bytes = clip.bytes } ∷ []

abbrev pub writes_of : Result (Option AppliedClip) ClipboardError → List Write
writes_of (err e) = []
writes_of (ok none) = []
writes_of (ok (some clip)) = write_of clip (to_platform clip.format)

module _ (sha256 : List ℕ → Hash) where
  abbrev pub snapped :
      ClipFormat → Option (List ℕ) → List LocalRepr × List Content → List LocalRepr × List Content
  snapped wire none rest = rest
  snapped wire (some bytes) (reps, source) = (
    record { format = wire; bytes = bytes } ∷ reps,
    record { format = wire; hash = content_hash sha256 wire bytes; bytes = canonical wire bytes }
        ∷ source,
  )

  -- The loop of `snapshot_local`; what it pushes stands in the order of the formats.
  unfoldable pub snapshot_formats :
      Clipboard
      → ClipboardSettings
      → List (ClipFormat × PlatformFormat)
      → List LocalRepr × List Content
  snapshot_formats clipboard settings [] = ([], [])
  snapshot_formats clipboard settings ((wire, platform) ∷ rest) =
      let later = snapshot_formats clipboard settings rest in
      if not (format_enabled settings wire) then later else snapped wire (clipboard platform) later

  unfoldable pub snapshot_local : Clipboard → ClipboardSettings → List LocalRepr × List Content
  snapshot_local clipboard settings =
      if not (can_offer settings) then ([], []) else snapshot_formats clipboard settings formats

  unfoldable pub apply_data : ClipboardSession → ClipboardData → ClipboardSession × List Write
  apply_data s d =
      let (engine, result) = on_data_from sha256 s.engine s.peer_id d in
      (record s { engine = engine }, writes_of result)

  unfoldable pub on_bulk_data : ClipboardSession → ClipboardData → ClipboardSession × List Write
  on_bulk_data s d = apply_data s d

  module _ (cs : Codecs) where
    abbrev pub sent_offer : Option ClipboardOffer → Option ControlFrame
    sent_offer none = none
    sent_offer (some offer) = encode cs.offer type_clipboard_offer offer

    abbrev pub offered : Bool → Option ClipboardOffer → Option ControlFrame
    offered bulk_enabled none = none
    offered bulk_enabled (some offer) = sent_offer (supported_offer offer bulk_enabled)

    unfoldable pub local_offer :
        ClipboardSession → Clipboard → ClipboardSession × Option ControlFrame
    local_offer s clipboard =
        let (reps, source) = snapshot_local clipboard s.engine.settings in
        let (engine, offer) = on_local_change sha256 s.engine reps in
        (record s { source = source; engine = engine }, offered s.bulk_enabled offer)

    -- `on_offer` behind the decoding and the filter of the entries.
    abbrev pub pull_of : Result (Option ClipboardPull) ClipboardError → List ClipboardOutput
    pull_of (err e) = []
    pull_of (ok none) = []
    pull_of (ok (some pull)) = frames_of (encode cs.pull type_clipboard_pull pull)

    abbrev pub on_supported :
        ClipboardSession → Option ClipboardOffer → ClipboardSession × List ClipboardOutput
    on_supported s none = (s, [])
    on_supported s (some offer) =
        let (engine, result) = on_offer s.engine offer s.peer_os in
        (record s { engine = engine }, pull_of result)

    abbrev pub on_decoded_offer :
        ClipboardSession
        → Result ClipboardOffer CodecError
        → ClipboardSession × List ClipboardOutput
    on_decoded_offer s (err e) = (s, [])
    on_decoded_offer s (ok offer) = on_supported s (supported_offer offer s.bulk_enabled)

    unfoldable pub session_offer :
        ClipboardSession → List ℕ → ClipboardSession × List ClipboardOutput
    session_offer s payload = on_decoded_offer s (from_cbor cs.offer payload)

    abbrev pub routed : Bool → Result (List ClipboardData) ClipboardError → List ClipboardOutput
    routed bulk_enabled (err e) = []
    routed bulk_enabled (ok ds) = route_clipboard_data cs bulk_enabled ds

    abbrev pub on_decoded_pull :
        ClipboardSession → Result ClipboardPull CodecError → List ClipboardOutput
    on_decoded_pull s (err e) = []
    on_decoded_pull s (ok pull) =
        routed s.bulk_enabled (on_pull s.engine pull (canonical_bytes s.source))

    unfoldable pub session_pull : ClipboardSession → List ℕ → List ClipboardOutput
    session_pull s payload = on_decoded_pull s (from_cbor cs.pull payload)

    abbrev pub on_decoded_data :
        ClipboardSession → Result ClipboardData CodecError → ClipboardSession × List Write
    on_decoded_data s (err e) = (s, [])
    on_decoded_data s (ok d) = if not (is_control_data d) then (s, []) else apply_data s d

    unfoldable pub session_data : ClipboardSession → List ℕ → ClipboardSession × List Write
    session_data s payload = on_decoded_data s (from_cbor cs.content payload)

    unfoldable pub on_control :
        ClipboardSession → ControlFrame → ClipboardSession × List ClipboardOutput × List Write
    on_control s f =
        if f.ty == type_clipboard_offer
        then (let (s', out) = session_offer s f.payload in (s', out, []))
        else (if f.ty == type_clipboard_pull
            then (s, session_pull s f.payload, [])
            else (if f.ty == type_clipboard_data
                then (let (s', writes) = session_data s f.payload in (s', [], writes))
                else (s, [], [])))
