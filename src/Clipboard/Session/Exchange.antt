-- ===== src/Clipboard/Session/Exchange.antt =====
-- How a session takes an offer and a pull that come in as frames (crates/mouser-engine/src/daemon/clipboard.rs).
use mouser.Prelude.{ℕ, ◌^◌, ◌<◌, ◌≡◌, refl, Bool, true, List, [], ◌∷◌, some, ok, All, if_cases}
use mouser.Core.DeviceId.{DeviceId, to_vec, to_id-to_vec}
use mouser.Protocol.Codec.{from_cbor-to_cbor}
use mouser.Clipboard.Types.{Hash, ClipFormat}
use mouser.Clipboard.Settings.{format_enabled, can_offer}
use mouser.Clipboard.Engine.{ClipboardEntry, parse_device_id}
use mouser.Clipboard.Offer.{canonical_bytes}
use mouser.Clipboard.Engine.Serve.{on_pull, served, chunk_data}
use mouser.Clipboard.Session.{
  route_clipboard_data, ClipboardSession, Codecs, ControlFrame, frame, supported_offer,
  supported_entry, supported_entries, offer_with, type_clipboard_offer, type_clipboard_pull,
}
use mouser.Clipboard.Session.Handlers.{on_supported, session_offer, session_pull, on_control}
use mouser.Clipboard.Session.Chunks.{AreLawful, parse_hash-to_vec}
use mouser.Clipboard.Session.Pulling.{IsPulling, on_offer-IsPulling}

supported-All :
    (P : ClipboardEntry → Type 0) (be : Bool) (es : List ClipboardEntry)
    → All P es
    → All P (supported_entries be es)
unfolding supported_entries
supported-All P be [] hs = tt
supported-All P be (e ∷ es) (h, hs) =
    if_cases (All P) (supported_entry be e) (h, supported-All P be es hs) (supported-All P be es hs)

parse_device_id-to_vec : (id : DeviceId) → id < 256 ^ 32 → parse_device_id (to_vec id) ≡ ok id
unfolding parse_device_id
parse_device_id-to_vec id h = rw (to_id-to_vec id h, parse_device_id) refl

module _ (sha256 : List ℕ → Hash) (cs : Codecs) (lawful : AreLawful cs) where
  on_supported-IsPulling :
      (P : ClipboardEntry → Type 0) (origin : DeviceId) (s : ClipboardSession) (g : ControlFrame)
      (es : List ClipboardEntry)
      → All P es
      → origin < 256 ^ 32
      → (on_supported sha256 cs s (offer_with es (to_vec origin))).1 ≡ frame g ∷ []
      → IsPulling cs lawful.pull P origin
          (on_supported sha256 cs s (offer_with es (to_vec origin))).0.engine
          g
  on_supported-IsPulling P origin s g [] hs range h = cc
  on_supported-IsPulling P origin s g (e ∷ es) hs range h =
      on_offer-IsPulling cs lawful.pull P origin sha256 s.peer_os s.engine g
        (record { entries = e ∷ es; origin = to_vec origin }) hs
        (parse_device_id-to_vec origin range) h

  on_supported-peer_id :
      (s : ClipboardSession) (es : List ClipboardEntry) (origin : List ℕ)
      → (on_supported sha256 cs s (offer_with es origin)).0.peer_id ≡ s.peer_id
  on_supported-peer_id s [] origin = refl
  on_supported-peer_id s (e ∷ es) origin = refl

  abbrev pub offer_frame : DeviceId → List ClipboardEntry → ControlFrame
  offer_frame origin es = record {
    ty = type_clipboard_offer;
    payload = lawful.offer.bytes_of (record { entries = es; origin = to_vec origin });
  }

  on_control-offer_frame :
      (origin : DeviceId) (s : ClipboardSession) (es : List ClipboardEntry)
      → on_control sha256 cs s (offer_frame origin es) ≡ (
          let step =
            on_supported sha256 cs s
              (offer_with (supported_entries s.bulk_enabled es) (to_vec origin)) in
          (step.0, step.1, []))
  unfolding on_control session_offer supported_offer
  on_control-offer_frame origin s es =
      let (written, back) =
        from_cbor-to_cbor lawful.offer (record { entries = es; origin = to_vec origin }) in
      rw (back) refl

  -- The session that answers an offer with a pull waits for one of its entries.
  pub on_control-IsPulling :
      (P : ClipboardEntry → Type 0) (origin : DeviceId) (s : ClipboardSession) (g : ControlFrame)
      (es : List ClipboardEntry)
      → All P es
      → origin < 256 ^ 32
      → (on_control sha256 cs s (offer_frame origin es)).1 ≡ frame g ∷ []
      → IsPulling cs lawful.pull P origin
          (on_control sha256 cs s (offer_frame origin es)).0.engine
          g
        × ((on_control sha256 cs s (offer_frame origin es)).0.peer_id ≡ s.peer_id)
  on_control-IsPulling P origin s g es hs range h =
      let step = on_control-offer_frame origin s es in
      let es' = supported_entries s.bulk_enabled es in
      rw (step) (
        on_supported-IsPulling P origin s g es' (supported-All P s.bulk_enabled es hs) range
            (rw (step) at h),
        on_supported-peer_id s es' (to_vec origin),
      )

  abbrev pub pull_frame : Hash → ClipFormat → ControlFrame
  pull_frame hash format = record {
    ty = type_clipboard_pull;
    payload = lawful.pull.bytes_of (record { hash = to_vec hash; format = format });
  }

  -- The answer to the pull of a content that is kept, in a format that is shared.
  pub on_control-pull_frame :
      (s : ClipboardSession) (hash : Hash) (format : ClipFormat) (bytes : List ℕ)
      → hash < 256 ^ 32
      → can_offer s.engine.settings ≡ true
      → format_enabled s.engine.settings format ≡ true
      → canonical_bytes s.source format hash ≡ some bytes
      → (on_control sha256 cs s (pull_frame hash format)).1
        ≡ route_clipboard_data cs s.bulk_enabled (chunk_data hash format bytes)
  unfolding on_control session_pull on_pull
  on_control-pull_frame s hash format bytes range can enabled kept =
      let (written, back) =
        from_cbor-to_cbor lawful.pull (record { hash = to_vec hash; format = format }) in
      rw (back, can, enabled, parse_hash-to_vec hash range) (rw (kept, served) refl)
