-- ===== src/Clipboard/Offer.antt =====
-- crates/mouser-clipboard/src/engine.rs, source.rs: the offer that a device makes of what its own
-- clipboard holds, and the contents that it keeps for the pulls.
pub mod Echo
use mouser.Prelude.{
  ℕ, Bool, true, false, not, ◌&&◌, ◌==◌, List, [], ◌∷◌, ◌++◌, Option, none, some, if◌then◌else◌,
  length,
}
use mouser.Core.DeviceId.{DeviceId, to_vec}
use mouser.Clipboard.Types.{Hash, ClipFormat}
use mouser.Clipboard.Settings.{ClipboardSettings, format_enabled, can_offer}
use mouser.Clipboard.Canonical.{canonical, content_hash}
use mouser.Clipboard.Applied.{AppliedMarker, suppress_once}
use mouser.Clipboard.Engine.{ClipboardEngine, ClipboardEntry, ClipboardOffer}

pub record LocalRepr : Type 0 where
  pub format : ClipFormat
  pub bytes : List ℕ

-- An entry of `MemContentSource`.
pub record Content : Type 0 where
  pub format : ClipFormat
  pub hash : Hash
  pub bytes : List ℕ

-- `MemContentSource`.
unfoldable pub insert_content : List Content → ClipFormat → Hash → List ℕ → List Content
insert_content entries format hash bytes =
    entries ++ (record { format = format; hash = hash; bytes = bytes } ∷ [])

unfoldable pub canonical_bytes : List Content → ClipFormat → Hash → Option (List ℕ)
canonical_bytes [] format hash = none
canonical_bytes (c ∷ entries) format hash =
    let rest = canonical_bytes entries format hash in
    if c.format == format && c.hash == hash then some c.bytes else rest

abbrev pub add_entry : Option ClipboardEntry → List ClipboardEntry → List ClipboardEntry
add_entry none entries = entries
add_entry (some entry) entries = entry ∷ entries

abbrev pub offer_of : DeviceId → List ClipboardEntry → Option ClipboardOffer
offer_of id [] = none
offer_of id (entry ∷ entries) = some (record { entries = entry ∷ entries; origin = to_vec id })

module _ (sha256 : List ℕ → Hash) where
  -- The entry of a representation.
  unfoldable pub entry_of : LocalRepr → ClipboardEntry
  entry_of rep = record {
    format = rep.format;
    hash = to_vec (content_hash sha256 rep.format rep.bytes);
    size = length (canonical rep.format rep.bytes);
  }

  -- One turn of the loop of `on_local_change`.
  unfoldable pub offer_rep :
      ClipboardSettings
      → List AppliedMarker
      → LocalRepr
      → List AppliedMarker × Option ClipboardEntry
  offer_rep settings applied rep =
      if not (format_enabled settings rep.format)
      then (applied, none)
      else (let (applied', suppressed) =
            suppress_once applied rep.format (content_hash sha256 rep.format rep.bytes) in
          (applied', if suppressed then none else some (entry_of rep)))

  unfoldable pub offer_reps :
      ClipboardSettings
      → List AppliedMarker
      → List LocalRepr
      → List AppliedMarker × List ClipboardEntry
  offer_reps settings applied [] = (applied, [])
  offer_reps settings applied (rep ∷ reps) =
      let (applied', entry) = offer_rep settings applied rep in
      let (applied'', entries) = offer_reps settings applied' reps in
      (applied'', add_entry entry entries)

  unfoldable pub on_local_change :
      ClipboardEngine → List LocalRepr → ClipboardEngine × Option ClipboardOffer
  on_local_change e reps =
      if not (can_offer e.settings)
      then (e, none)
      else (let (applied, entries) = offer_reps e.settings e.applied reps in
          (record e { applied = applied }, offer_of e.device_id entries))
