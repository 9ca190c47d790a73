-- ===== src/Clipboard/Session.antt =====
-- crates/mouser-engine/src/daemon/clipboard.rs: the session that joins a clipboard engine, the local
-- clipboard and the messages of one peer. The serializers are a record of parameters. The local
-- clipboard is what it holds of each format, where a read that fails holds nothing; a write is an
-- output, whose failure is only logged.
pub mod Handlers
pub mod Feed
pub mod Chunks
pub mod Arrival
pub mod Offered
pub mod Entries
pub mod Pulling
pub mod Exchange
pub mod Delivery
use Prim.Native.String.{String}
use mouser.Prelude.{
  ℕ, Bool, true, false, not, ◌&&◌, ◌||◌, ◌==◌, List, [], ◌∷◌, ◌++◌, Option, none, some, Result, ok,
  err, if◌then◌else◌, length, leb,
}
use mouser.Core.DeviceId.{DeviceId}
use mouser.Protocol.Codec.{Serde, CodecError, to_cbor, from_cbor}
use mouser.Clipboard.Types.{Hash, ClipFormat, ClipboardError}
use mouser.Clipboard.Settings.{ClipboardSettings, bidirectional, format_enabled, can_offer}
use mouser.Clipboard.Settings
use mouser.Clipboard.Canonical.{canonical, content_hash}
use mouser.Clipboard.Engine.{
  ClipboardEngine, ClipboardEntry, ClipboardOffer, ClipboardPull, ClipboardData, AppliedClip,
  new_engine, on_offer, on_data_from,
}
use mouser.Clipboard.Engine
use mouser.Clipboard.Engine.Serve.{
  control_text_cap, Transport, control, bulk, transport_for, on_pull,
}
use mouser.Clipboard.Offer.{LocalRepr, Content, insert_content, canonical_bytes, on_local_change}

abbrev pub type_clipboard_offer : ℕ
type_clipboard_offer = 0x50

abbrev pub type_clipboard_pull : ℕ
type_clipboard_pull = 0x51

abbrev pub type_clipboard_data : ℕ
type_clipboard_data = 0x52

-- `ClipFormat` of crates/mouser-core/src/platform.rs.
pub data PlatformFormat : Type 0 where
  utf8_text html rtf uri_list png : PlatformFormat

-- `FORMATS`.
abbrev pub formats : List (ClipFormat × PlatformFormat)
formats =
    (Settings.utf8_text, utf8_text)
    ∷ (Settings.html, html)
    ∷ (Settings.rtf, rtf)
    ∷ (Settings.uri_list, uri_list)
    ∷ (Settings.png, png)
    ∷ []

abbrev pub Clipboard : Type 0
Clipboard = PlatformFormat → Option (List ℕ)

pub record Codecs : Type 0 where
  pub offer : Serde ClipboardOffer
  pub pull : Serde ClipboardPull
  pub content : Serde ClipboardData

pub record ControlFrame : Type 0 where
  pub ty : ℕ
  pub payload : List ℕ

-- What is written to the local clipboard.
pub record Write : Type 0 where
  pub format : PlatformFormat
  pub bytes : List ℕ

pub data ClipboardOutput : Type 0 where
  frame : ControlFrame → ClipboardOutput
  chunks : List ClipboardData → ClipboardOutput

pub record ClipboardSession : Type 0 where
  pub engine : ClipboardEngine
  pub source : List Content
  pub peer_id : DeviceId
  pub peer_os : ℕ
  pub bulk_enabled : Bool

-- `ClipboardSettings::default`.
abbrev pub default_settings : ClipboardSettings
default_settings = record {
  shared_clipboard = true;
  sync_text = true;
  sync_images = true;
  sync_files = true;
  max_auto_sync_bytes = 0;
  prefer_native_apple = true;
  direction = bidirectional;
}

unfoldable pub new_session : DeviceId → DeviceId → ℕ → ℕ → Bool → ClipboardSession
new_session my_id peer_id local_os peer_os bulk_enabled = record {
  engine = new_engine my_id local_os default_settings;
  source = [];
  peer_id = peer_id;
  peer_os = peer_os;
  bulk_enabled = bulk_enabled;
}

unfoldable pub set_settings : ClipboardSession → ClipboardSettings → ClipboardSession
set_settings s settings = record s { engine = Engine.set_settings s.engine settings }

abbrev pub frame_of : ℕ → Result (List ℕ) CodecError → Option ControlFrame
frame_of ty (err e) = none
frame_of ty (ok payload) = some (record { ty = ty; payload = payload })

-- `ControlFrame::encode`.
unfoldable pub encode : {T : Type 0} → Serde T → ℕ → T → Option ControlFrame
encode serde ty value = frame_of ty (to_cbor serde value)

unfoldable pub to_platform_in :
    List (ClipFormat × PlatformFormat) → ClipFormat → Option PlatformFormat
to_platform_in [] format = none
to_platform_in ((wire, platform) ∷ rest) format =
    let later = to_platform_in rest format in if wire == format then some platform else later

abbrev pub to_platform : ClipFormat → Option PlatformFormat
to_platform = to_platform_in formats

abbrev pub is_control : Transport → Bool
is_control control = true
is_control bulk = false

unfoldable pub control_entry : ClipboardEntry → Bool
control_entry entry = is_control (transport_for entry.format entry.size)

unfoldable pub supported_entry : Bool → ClipboardEntry → Bool
supported_entry bulk_enabled entry = bulk_enabled || control_entry entry

unfoldable pub supported_entries : Bool → List ClipboardEntry → List ClipboardEntry
supported_entries bulk_enabled [] = []
supported_entries bulk_enabled (entry ∷ entries) =
    let rest = supported_entries bulk_enabled entries in
    if supported_entry bulk_enabled entry then entry ∷ rest else rest

abbrev pub offer_with : List ClipboardEntry → List ℕ → Option ClipboardOffer
offer_with [] origin = none
offer_with (entry ∷ entries) origin = some (record { entries = entry ∷ entries; origin = origin })

unfoldable pub supported_offer : ClipboardOffer → Bool → Option ClipboardOffer
supported_offer offer bulk_enabled =
    offer_with (supported_entries bulk_enabled offer.entries) offer.origin

unfoldable pub is_control_data : ClipboardData → Bool
is_control_data d =
    d.offset == 0
    && d.last
    && leb (length d.bytes) control_text_cap
    && is_control (transport_for d.format (length d.bytes))

abbrev pub frames_of : Option ControlFrame → List ClipboardOutput
frames_of none = []
frames_of (some f) = frame f ∷ []

abbrev pub bulk_of : List ClipboardData → List ClipboardOutput
bulk_of [] = []
bulk_of (d ∷ ds) = chunks (d ∷ ds) ∷ []

module _ (cs : Codecs) where
  -- The loop of `route_clipboard_data`: the control frames, and the chunks for the bulk plane.
  unfoldable pub route : Bool → List ClipboardData → List ClipboardOutput × List ClipboardData
  route bulk_enabled [] = ([], [])
  route bulk_enabled (d ∷ ds) =
      let (outputs, large) = route bulk_enabled ds in
      if is_control_data d
      then (frames_of (encode cs.content type_clipboard_data d) ++ outputs, large)
      else (outputs, if bulk_enabled then d ∷ large else large)

  unfoldable pub route_clipboard_data : Bool → List ClipboardData → List ClipboardOutput
  route_clipboard_data bulk_enabled ds =
      let (outputs, large) = route bulk_enabled ds in outputs ++ bulk_of large
