-- ===== src/Clipboard/Pulls.antt =====
-- crates/mouser-clipboard/src/tracking.rs: the pulls in flight. The hash map is the list of its
-- values, one for each key, the latest last; what its iteration order decides is not modelled.
pub mod Bounds
pub mod Lookup
use mouser.Prelude.{
  ℕ, zero, suc, ◌+◌, Bool, true, false, not, ◌&&◌, ◌||◌, List, [], ◌∷◌, ◌++◌, map, Option, none,
  some, Result, ok, err, ltb, leb, ◌==◌, if◌then◌else◌, length,
}
use mouser.Prelude.Sat.{u64_max, saturating_add}
use mouser.Core.DeviceId.{DeviceId}
use mouser.Clipboard.Types.{
  Hash, ClipFormat, PullKey, pull_key, key_eq, ClipboardError, unknown_hash, protocol,
}
use mouser.Clipboard.Reassembly.{Reassembly, Progress}
use mouser.Clipboard.Reassembly

abbrev pub max_pending_pulls : ℕ
max_pending_pulls = 64

abbrev pub pull_stall_ticks : ℕ
pull_stall_ticks = 30

-- `peer_os` is an `Os`, by its discriminant.
pub record Pending : Type 0 where
  pub key : PullKey
  pub peer_os : ℕ
  pub deadline_tick : ℕ
  pub reasm : Reassembly

unfoldable pub new_pending : PullKey → ℕ → ℕ → ℕ → Pending
new_pending key size peer_os now_tick = record {
  key = key;
  peer_os = peer_os;
  deadline_tick = saturating_add u64_max now_tick pull_stall_ticks;
  reasm = Reassembly.new key.format key.hash size;
}

unfoldable pub is_stalled : Pending → ℕ → Bool
is_stalled p now_tick = leb p.deadline_tick now_tick

unfoldable pub retain {ℓ} : {A : Type ℓ} → (A → Bool) → List A → List A
retain f [] = []
retain f (x ∷ xs) = if f x then x ∷ retain f xs else retain f xs

pub record PendingPulls : Type 0 where
  pub entries : List Pending
  pub order : List PullKey

unfoldable pub lookup : PullKey → List Pending → Option Pending
lookup key [] = none
lookup key (p ∷ ps) = if key_eq p.key key then some p else lookup key ps

unfoldable pub remove : PendingPulls → PullKey → PendingPulls
remove pulls key = record {
  entries = retain (λ p. not (key_eq p.key key)) pulls.entries;
  order = retain (λ queued. not (key_eq queued key)) pulls.order;
}

abbrev pub is_some {ℓ} : {A : Type ℓ} → Option A → Bool
is_some none = false
is_some (some a) = true

-- `evict_oldest`, on the queue and the entries.
unfoldable pub evict_oldest : List PullKey → List Pending → PendingPulls × Bool
evict_oldest [] entries = (record { entries = entries; order = [] }, false)
evict_oldest (key ∷ order) entries =
    let rest = evict_oldest order entries in
    if is_some (lookup key entries)
    then (record { entries = retain (λ p. not (key_eq p.key key)) entries; order = order }, true)
    else rest

-- The loop of `insert`; every turn but the last removes an entry, so that as many turns as entries
-- are enough.
unfoldable pub make_room : ℕ → PendingPulls → PendingPulls
make_room zero pulls = pulls
make_room (suc fuel) pulls =
    let (pulls', evicted) = evict_oldest pulls.order pulls.entries in
    let rest = make_room fuel pulls' in
    if leb max_pending_pulls (length pulls.entries)
    then (if evicted then rest else pulls')
    else pulls

unfoldable pub insert : PendingPulls → Pending → PendingPulls
insert pulls pending =
    let removed = remove pulls pending.key in
    let room = make_room (length removed.entries) removed in
    record { entries = room.entries ++ (pending ∷ []); order = room.order ++ (pending.key ∷ []) }

unfoldable pub remove_all : List PullKey → PendingPulls → PendingPulls
remove_all [] pulls = pulls
remove_all (key ∷ keys) pulls = remove_all keys (remove pulls key)

-- The keys of the entries that pass a test, in the order of the entries.
abbrev pub keys_where : (Pending → Bool) → List Pending → List PullKey
keys_where f entries = map (λ p. p.key) (retain f entries)

unfoldable pub remove_hash : PendingPulls → Hash → PendingPulls × Bool
remove_hash pulls hash =
    let keys = keys_where (λ p. p.key.hash == hash) pulls.entries in
    (remove_all keys pulls, not (length keys == 0))

unfoldable pub remove_origin : PendingPulls → DeviceId → PendingPulls × ℕ
remove_origin pulls origin =
    let keys = keys_where (λ p. p.key.origin == origin) pulls.entries in
    (remove_all keys pulls, length keys)

unfoldable pub offers : List PullKey → PullKey → Bool
offers [] key = false
offers (k ∷ offered) key = key_eq k key || offers offered key

unfoldable pub retain_origin_offer : PendingPulls → DeviceId → List PullKey → PendingPulls
retain_origin_offer pulls origin offered =
    remove_all
      (keys_where (λ p. p.key.origin == origin && not (offers offered p.key)) pulls.entries) pulls

unfoldable pub expire_stalled : PendingPulls → ℕ → PendingPulls × ℕ
expire_stalled pulls now_tick =
    let keys = keys_where (λ p. is_stalled p now_tick) pulls.entries in
    (remove_all keys pulls, length keys)

unfoldable pub contains_hash : PendingPulls → Hash → Bool
contains_hash pulls hash = not (length (retain (λ p. p.key.hash == hash) pulls.entries) == 0)

unfoldable pub key_for_origin_data :
    PendingPulls → DeviceId → ClipFormat → Hash → Result PullKey ClipboardError
key_for_origin_data pulls origin format hash =
    let key = pull_key origin format hash in
    if is_some (lookup key pulls.entries)
    then ok key
    else (if not
          (length (retain (λ p. p.key.origin == origin && p.key.hash == hash) pulls.entries) == 0)
        then err (protocol "data format mismatch")
        else err unknown_hash)

-- The keys that match, and what `key_for_data` makes of them.
unfoldable pub key_for_data : PendingPulls → ClipFormat → Hash → Result PullKey ClipboardError
key_for_data pulls format hash =
    elim (keys_where (λ p. p.key.format == format && p.key.hash == hash) pulls.entries) [
      | [] ↦
          (if contains_hash pulls hash
            then err (protocol "data format mismatch")
            else err unknown_hash)
      | first ∷ [] ↦ ok first
      | first ∷ second ∷ more ↦ err (protocol "ambiguous clipboard data origin")
    ]
