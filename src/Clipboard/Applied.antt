-- ===== src/Clipboard/Applied.antt =====
-- crates/mouser-clipboard/src/tracking.rs: the representations that were applied lately, by which
-- a device does not offer again what it was given. The `Cell` of a marker is a field of it.
use mouser.Prelude.{
  ℕ, suc, ◌+◌, ◌≤◌, ◌<◌, ◌≡◌, refl, Bool, true, false, not, ◌&&◌, List, [], ◌∷◌, ◌++◌, leb, ◌==◌,
  if◌then◌else◌, length, length-append, arith, ◌⊎◌, inr,
}
use mouser.Core.DeviceId.{DeviceId}
use mouser.Clipboard.Types.{Hash, ClipFormat, PullKey, pull_key, key_eq}
use mouser.Clipboard.Pulls.{retain}

abbrev pub max_applied_clips : ℕ
max_applied_clips = 128

-- Its key has the same three parts as that of a pull.
pub record AppliedMarker : Type 0 where
  pub key : PullKey
  pub suppress_next : Bool

abbrev pub matches : ClipFormat → Hash → AppliedMarker → Bool
matches format hash m = m.suppress_next && m.key.format == format && m.key.hash == hash

-- The loop of `record`: the oldest markers go until there is room.
unfoldable pub pop_oldest : List AppliedMarker → List AppliedMarker
pop_oldest [] = []
pop_oldest (m ∷ entries) =
    let rest = pop_oldest entries in
    if leb max_applied_clips (suc (length entries)) then rest else m ∷ entries

unfoldable pub record_applied :
    List AppliedMarker → DeviceId → ClipFormat → Hash → List AppliedMarker
record_applied entries origin format hash =
    let key = pull_key origin format hash in
    pop_oldest (retain (λ m. not (key_eq m.key key)) entries)
    ++ (record { key = key; suppress_next = true } ∷ [])

unfoldable pub suppress_once : List AppliedMarker → ClipFormat → Hash → List AppliedMarker × Bool
suppress_once [] format hash = ([], false)
suppress_once (m ∷ entries) format hash =
    let (rest, found) = suppress_once entries format hash in
    if matches format hash m
    then (record m { suppress_next = false } ∷ entries, true)
    else (m ∷ rest, found)

-- How many offers of a representation are still to be suppressed.
unfoldable pub suppressions : ClipFormat → Hash → List AppliedMarker → ℕ
suppressions format hash [] = 0
suppressions format hash (m ∷ entries) =
    let rest = suppressions format hash entries in if matches format hash m then suc rest else rest

pop_oldest_bound : (entries : List AppliedMarker) → length (pop_oldest entries) < max_applied_clips
unfolding pop_oldest
pop_oldest_bound [] = omega arith
pop_oldest_bound (m ∷ entries) = ground (arith, pop_oldest_bound entries)

-- The log never holds more than 128 markers, however often an application is recorded.
record_applied_bound :
    (entries : List AppliedMarker) (origin : DeviceId) (format : ClipFormat) (hash : Hash)
    → length (record_applied entries origin format hash) ≤ max_applied_clips
unfolding record_applied
record_applied_bound entries origin format hash = omega (
  arith,
  length-append
      (pop_oldest (retain (λ m. not (key_eq m.key (pull_key origin format hash))) entries))
      (record { key = pull_key origin format hash; suppress_next = true } ∷ []),
  pop_oldest_bound (retain (λ m. not (key_eq m.key (pull_key origin format hash))) entries),
)

-- Every suppression uses up one marker: the answer is yes as long as markers are left, and each yes
-- leaves one less for the representation, so that as many offers of it are suppressed as
-- applications of it were recorded, and the next offer goes out.
suppress_once_lem :
    (entries : List AppliedMarker) (format : ClipFormat) (hash : Hash)
    → (((suppress_once entries format hash).1 ≡ true)
        × (suc (suppressions format hash (suppress_once entries format hash).0)
            ≡ suppressions format hash entries))
      ⊎ (((suppress_once entries format hash).1 ≡ false)
          × (suppressions format hash entries ≡ 0)
          × ((suppress_once entries format hash).0 ≡ entries))
unfolding suppress_once suppressions
suppress_once_lem [] format hash = inr (refl, refl, refl)
suppress_once_lem (m ∷ entries) format hash = ground (arith, suppress_once_lem entries format hash)

suppressions-append :
    (format : ClipFormat) (hash : Hash) (xs ys : List AppliedMarker)
    → suppressions format hash (xs ++ ys)
      ≡ suppressions format hash xs + suppressions format hash ys
unfolding suppressions
suppressions-append format hash [] ys = omega arith
suppressions-append format hash (m ∷ xs) ys = ground (arith, suppressions-append format hash xs ys)

-- After an application is recorded, the next offer of the same representation is suppressed.
pub suppress_once-record_applied :
    (entries : List AppliedMarker) (origin : DeviceId) (format : ClipFormat) (hash : Hash)
    → (suppress_once (record_applied entries origin format hash) format hash).1 ≡ true
unfolding record_applied suppressions
suppress_once-record_applied entries origin format hash = ground (
  arith,
  suppress_once_lem (record_applied entries origin format hash) format hash,
  suppressions-append format hash
      (pop_oldest (retain (λ m. not (key_eq m.key (pull_key origin format hash))) entries))
      (record { key = pull_key origin format hash; suppress_next = true } ∷ []),
)
