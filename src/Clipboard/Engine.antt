-- ===== src/Clipboard/Engine.antt =====
-- crates/mouser-clipboard/src/engine.rs: what a device does with the offers and the contents that
-- come from its peers. A method that changes the engine returns the new one with its result. SHA-256
-- is a parameter.
pub mod Keys
pub mod Apply
pub mod Choice
pub mod Serve
use mouser.Prelude.{
  ℕ, ◌+◌, Bool, true, false, not, ◌&&◌, ◌||◌, List, [], ◌∷◌, Option, none, some, Result, ok, err,
  leb, ltb, ◌==◌, if◌then◌else◌, length, max,
}
use mouser.Core.DeviceId.{DeviceId, to_id, to_vec}
use mouser.Clipboard.Types.{
  Hash, ClipFormat, PullKey, pull_key, key_eq, ClipboardError, unknown_hash, protocol,
}
use mouser.Clipboard.Settings.{
  ClipboardSettings, utf8_text, html, png, uri_list, rtf, format_enabled, can_receive,
  within_auto_sync_limit, prefer_native_suppresses,
}
use mouser.Clipboard.Reassembly.{Reassembly, push}
use mouser.Clipboard.Pulls.{
  Pending, PendingPulls, new_pending, lookup, remove, insert, remove_hash, remove_origin,
  retain_origin_offer, expire_stalled, key_for_data, key_for_origin_data,
}
use mouser.Clipboard.Applied.{AppliedMarker, record_applied}

pub record ClipboardEntry : Type 0 where
  pub format : ClipFormat
  pub hash : List ℕ
  pub size : ℕ

pub record ClipboardOffer : Type 0 where
  pub entries : List ClipboardEntry
  pub origin : List ℕ

pub record ClipboardPull : Type 0 where
  pub hash : List ℕ
  pub format : ClipFormat

pub record ClipboardData : Type 0 where
  pub hash : List ℕ
  pub format : ClipFormat
  pub offset : ℕ
  pub bytes : List ℕ
  pub last : Bool

pub record AppliedClip : Type 0 where
  pub format : ClipFormat
  pub bytes : List ℕ

pub record ClipboardEngine : Type 0 where
  pub device_id : DeviceId
  pub local_os : ℕ
  pub settings : ClipboardSettings
  pub applied : List AppliedMarker
  pub pending : PendingPulls
  pub now_tick : ℕ

unfoldable pub new_engine : DeviceId → ℕ → ClipboardSettings → ClipboardEngine
new_engine device_id local_os settings = record {
  device_id = device_id;
  local_os = local_os;
  settings = settings;
  applied = [];
  pending = record { entries = []; order = [] };
  now_tick = 0;
}

unfoldable pub set_settings : ClipboardEngine → ClipboardSettings → ClipboardEngine
set_settings e settings = record e { settings = settings }

-- The position of a format in `PREFERENCE`.
unfoldable pub preference_rank : ClipFormat → Option ℕ
preference_rank format =
    if format == png
    then some 0
    else (if format == rtf
        then some 1
        else (if format == html
            then some 2
            else (if format == uri_list
                then some 3
                else (if format == utf8_text then some 4 else none))))

abbrev pub is_eligible : ClipboardSettings → ClipboardEntry → Bool
is_eligible settings entry =
    format_enabled settings entry.format && within_auto_sync_limit settings entry.size

-- The better of an entry and the best of the later ones: the later one only if its rank is lower.
unfoldable pub better :
    Option ℕ → ClipboardEntry → Option (ℕ × ClipboardEntry) → Option (ℕ × ClipboardEntry)
better none entry best = best
better (some rank) entry none = some (rank, entry)
better (some rank) entry (some (r, e)) = if ltb r rank then some (r, e) else some (rank, entry)

-- `best_entry`, with its rank.
unfoldable pub best_entry : ClipboardSettings → List ClipboardEntry → Option (ℕ × ClipboardEntry)
best_entry settings [] = none
best_entry settings (entry ∷ entries) =
    let best = best_entry settings entries in
    if is_eligible settings entry then better (preference_rank entry.format) entry best else best

-- `parse_device_id` and `parse_hash`.
unfoldable pub parse_device_id : List ℕ → Result DeviceId ClipboardError
parse_device_id bytes = elim (to_id bytes) [
  | none ↦ err (protocol "origin is not 32 bytes")
  | some id ↦ ok id
]

unfoldable pub parse_hash : List ℕ → Result Hash ClipboardError
parse_hash bytes = elim (to_id bytes) [
  | none ↦ err (protocol "hash is not 32 bytes")
  | some hash ↦ ok hash
]

abbrev pub offered_key :
    DeviceId → ClipFormat → Result Hash ClipboardError → List PullKey → List PullKey
offered_key origin format (err e) keys = keys
offered_key origin format (ok hash) keys = pull_key origin format hash ∷ keys

unfoldable pub still_offered : DeviceId → List ClipboardEntry → List PullKey
still_offered origin [] = []
still_offered origin (entry ∷ entries) =
    offered_key origin entry.format (parse_hash entry.hash) (still_offered origin entries)

unfoldable pub supersede_origin : ClipboardEngine → DeviceId → ClipboardOffer → ClipboardEngine
supersede_origin e origin offer = record e {
  pending = retain_origin_offer e.pending origin (still_offered origin offer.entries);
}

-- `on_offer` on the hash of the entry that it chose.
unfoldable pub pull_hash :
    ClipboardEngine
    → DeviceId
    → ℕ
    → ClipboardEntry
    → Result Hash ClipboardError
    → ClipboardEngine × Result (Option ClipboardPull) ClipboardError
pull_hash e origin peer_os entry (err x) = (e, err x)
pull_hash e origin peer_os entry (ok hash) = (
  record e {
    pending =
        insert e.pending
          (new_pending (pull_key origin entry.format hash) entry.size peer_os e.now_tick);
  },
  ok (some (record { hash = to_vec hash; format = entry.format })),
)

unfoldable pub pull_best :
    ClipboardEngine
    → DeviceId
    → ℕ
    → Option (ℕ × ClipboardEntry)
    → ClipboardEngine × Result (Option ClipboardPull) ClipboardError
pull_best e origin peer_os none = (e, ok none)
pull_best e origin peer_os (some (rank, entry)) =
    pull_hash e origin peer_os entry (parse_hash entry.hash)

-- `on_offer` on the device that the offer names.
unfoldable pub offer_from :
    ClipboardEngine
    → ClipboardOffer
    → ℕ
    → Result DeviceId ClipboardError
    → ClipboardEngine × Result (Option ClipboardPull) ClipboardError
offer_from e offer peer_os (err x) = (e, err x)
offer_from e offer peer_os (ok origin) =
    if origin == e.device_id
    then (e, ok none)
    else (if prefer_native_suppresses e.settings e.local_os peer_os
        then (record e { pending = (remove_origin e.pending origin).0 }, ok none)
        else pull_best (supersede_origin e origin offer) origin peer_os
            (best_entry e.settings offer.entries))

unfoldable pub on_offer :
    ClipboardEngine
    → ClipboardOffer
    → ℕ
    → ClipboardEngine × Result (Option ClipboardPull) ClipboardError
on_offer e offer peer_os =
    if not (can_receive e.settings)
    then (e, ok none)
    else offer_from e offer peer_os (parse_device_id offer.origin)

unfoldable pub abort_pull : ClipboardEngine → Hash → ClipboardEngine × Bool
abort_pull e hash =
    let (pending, found) = remove_hash e.pending hash in (record e { pending = pending }, found)

unfoldable pub abort_origin : ClipboardEngine → DeviceId → ClipboardEngine × ℕ
abort_origin e origin =
    let (pending, count) = remove_origin e.pending origin in (record e { pending = pending }, count)

unfoldable pub tick : ClipboardEngine → ℕ → ClipboardEngine × ℕ
tick e now_tick =
    let now = max e.now_tick now_tick in
    let (pending, count) = expire_stalled e.pending now in
    (record e { now_tick = now; pending = pending }, count)

-- The entries with the one of a key in another state.
unfoldable pub update_entry : PullKey → Reassembly → List Pending → List Pending
update_entry key reasm [] = []
update_entry key reasm (p ∷ ps) =
    if key_eq p.key key then record p { reasm = reasm } ∷ ps else p ∷ update_entry key reasm ps

module _ (sha256 : List ℕ → Hash) where
  -- `on_data_for_key` behind the push of the chunk.
  unfoldable pub pushed :
      ClipboardEngine
      → PullKey
      → Pending
      → Reassembly × Result (Option (List ℕ)) ClipboardError
      → ClipboardEngine × Result (Option AppliedClip) ClipboardError
  pushed e key p (reasm, err x) = (record e { pending = remove e.pending key }, err x)
  pushed e key p (reasm, ok none) = (
    record e { pending = record e.pending { entries = update_entry key reasm e.pending.entries } },
    ok none,
  )
  pushed e key p (reasm, ok (some bytes)) =
      let e' = record e { pending = remove e.pending key } in
      if not (can_receive e.settings)
        || not (format_enabled e.settings p.key.format)
        || prefer_native_suppresses e.settings e.local_os p.peer_os
      then (e', ok none)
      else (
        record e' { applied = record_applied e'.applied p.key.origin p.key.format key.hash },
        ok (some (record { format = p.key.format; bytes = bytes })),
      )

  unfoldable pub data_for :
      ClipboardEngine
      → PullKey
      → ClipboardData
      → Option Pending
      → ClipboardEngine × Result (Option AppliedClip) ClipboardError
  data_for e key d none = (e, err unknown_hash)
  data_for e key d (some p) = pushed e key p (push sha256 p.reasm d.offset d.bytes d.last)

  unfoldable pub on_data_for_key :
      ClipboardEngine
      → PullKey
      → ClipboardData
      → ClipboardEngine × Result (Option AppliedClip) ClipboardError
  on_data_for_key e key d = data_for e key d (lookup key e.pending.entries)

  abbrev pub with_key :
      ClipboardEngine
      → ClipboardData
      → Result PullKey ClipboardError
      → ClipboardEngine × Result (Option AppliedClip) ClipboardError
  with_key e d (err x) = (e, err x)
  with_key e d (ok key) = on_data_for_key e key d

  abbrev pub with_hash :
      ClipboardEngine
      → ClipboardData
      → (Hash → Result PullKey ClipboardError)
      → Result Hash ClipboardError
      → ClipboardEngine × Result (Option AppliedClip) ClipboardError
  with_hash e d find (err x) = (e, err x)
  with_hash e d find (ok hash) = with_key e d (find hash)

  unfoldable pub on_data :
      ClipboardEngine → ClipboardData → ClipboardEngine × Result (Option AppliedClip) ClipboardError
  on_data e d = with_hash e d (λ hash. key_for_data e.pending d.format hash) (parse_hash d.hash)

  unfoldable pub on_data_from :
      ClipboardEngine
      → DeviceId
      → ClipboardData
      → ClipboardEngine × Result (Option AppliedClip) ClipboardError
  on_data_from e origin d =
      with_hash e d (λ hash. key_for_origin_data e.pending origin d.format hash) (parse_hash d.hash)
