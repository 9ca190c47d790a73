-- ===== src/Clipboard/Engine/Keys.antt =====
-- What the pulls in flight gather is what their keys name, whatever a device meets (crates/mouser-clipboard/src/engine.rs).
use mouser.Prelude.{
  ℕ, ◌≡◌, refl, sym, ap, ◌∙◌, Bool, true, not, ◌||◌, ◌==◌, List, [], ◌∷◌, Option, none, some,
  Result, ok, err, Bool-cases, inl, inr, length, All, All-append, if_cases, if_split, some-inj, leb,
  zero, suc, arith,
}
use mouser.Core.DeviceId.{DeviceId}
use mouser.Clipboard.Types.{Hash, PullKey, key_eq, ClipboardError}
use mouser.Clipboard.Settings.{
  ClipboardSettings, format_enabled, can_receive, can_offer, prefer_native_suppresses,
}
use mouser.Clipboard.Offer.{LocalRepr, on_local_change}
use mouser.Clipboard.Reassembly
use mouser.Clipboard.Reassembly.{Reassembly, push, commit, finish}
use mouser.Clipboard.Pulls.{
  Pending, PendingPulls, new_pending, lookup, remove, remove_all, insert, make_room, evict_oldest,
  max_pending_pulls, is_some, remove_hash, remove_origin, retain_origin_offer, expire_stalled,
}
use mouser.Clipboard.Pulls.Bounds.{All-retain}
use mouser.Clipboard.Engine.{
  ClipboardEngine, ClipboardEntry, ClipboardOffer, ClipboardPull, ClipboardData, AppliedClip,
  pull_hash, pull_best, best_entry, supersede_origin, offer_from, on_offer, parse_device_id,
  abort_pull, abort_origin, tick, set_settings, with_hash, pushed, data_for, on_data_for_key,
  on_data_from, parse_hash, with_key, update_entry,
}

-- What a pull gathers is what its key names.
abbrev pub IsOfKey : Pending → Type 0
IsOfKey p = p.reasm.hash ≡ p.key.hash

abbrev pub AllOfKey : PendingPulls → Type 0
AllOfKey pulls = All IsOfKey pulls.entries

remove-AllOfKey :
    (pulls : PendingPulls) (key : PullKey) → AllOfKey pulls → AllOfKey (remove pulls key)
unfolding remove
remove-AllOfKey pulls key h = All-retain IsOfKey (λ p. not (key_eq p.key key)) pulls.entries h

remove_all-AllOfKey :
    (keys : List PullKey) (pulls : PendingPulls) → AllOfKey pulls → AllOfKey (remove_all keys pulls)
unfolding remove_all
remove_all-AllOfKey [] pulls h = h
remove_all-AllOfKey (key ∷ keys) pulls h =
    remove_all-AllOfKey keys (remove pulls key) (remove-AllOfKey pulls key h)

evict_oldest-AllOfKey :
    (order : List PullKey) (entries : List Pending)
    → All IsOfKey entries
    → AllOfKey (evict_oldest order entries).0
unfolding evict_oldest
evict_oldest-AllOfKey [] entries h = h
evict_oldest-AllOfKey (key ∷ order) entries h =
    let keep : PendingPulls × Bool → Type 0 = (λ m. AllOfKey m.0) in
    if_cases keep (is_some (lookup key entries))
      (All-retain IsOfKey (λ p. not (key_eq p.key key)) entries h)
      (evict_oldest-AllOfKey order entries h)

make_room-AllOfKey :
    (fuel : ℕ) (pulls : PendingPulls) → AllOfKey pulls → AllOfKey (make_room fuel pulls)
unfolding make_room
make_room-AllOfKey zero pulls h = h
make_room-AllOfKey (suc fuel) pulls h =
    let h' = evict_oldest-AllOfKey pulls.order pulls.entries h in
    if_cases AllOfKey (leb max_pending_pulls (length pulls.entries))
      (if_cases AllOfKey (evict_oldest pulls.order pulls.entries).1
        (make_room-AllOfKey fuel (evict_oldest pulls.order pulls.entries).0 h') h')
      h

insert-AllOfKey :
    (pulls : PendingPulls) (p : Pending) → AllOfKey pulls → IsOfKey p → AllOfKey (insert pulls p)
unfolding insert
insert-AllOfKey pulls p h hp =
    All-append IsOfKey
      (make_room (length (remove pulls p.key).entries) (remove pulls p.key)).entries (p ∷ [])
      (make_room-AllOfKey (length (remove pulls p.key).entries) (remove pulls p.key)
        (remove-AllOfKey pulls p.key h))
      (hp, tt)

key_eq_lem : (a b : PullKey) → key_eq a b ≡ true → a ≡ b
key_eq_lem a b h = ground (arith, h)

pub lookup-key :
    (key : PullKey) (ps : List Pending) (p : Pending) → lookup key ps ≡ some p → (p.key ≡ key)
unfolding lookup
lookup-key key [] p h = cc
lookup-key key (q ∷ ps) p h = elim (Bool-cases (key_eq q.key key)) [
  | inl e ↦
      (let same : q ≡ p = some-inj (rw (e) at h) in
        ap (λ (x : Pending). x.key) (sym same) ∙ key_eq_lem q.key key e)
  | inr e ↦ lookup-key key ps p (rw (e) at h)
]

pub lookup-IsOfKey :
    (key : PullKey) (ps : List Pending) (p : Pending)
    → All IsOfKey ps
    → lookup key ps ≡ some p
    → IsOfKey p
unfolding lookup
lookup-IsOfKey key [] p h e = cc
lookup-IsOfKey key (q ∷ ps) p h e = elim (Bool-cases (key_eq q.key key)) [
  | inl t ↦ (let same : q ≡ p = some-inj (rw (t) at e) in rw (sym same) h.0)
  | inr t ↦ lookup-IsOfKey key ps p h.1 (rw (t) at e)
]

update_entry-All :
    (key : PullKey) (r : Reassembly) (ps : List Pending)
    → All IsOfKey ps
    → ((p : Pending) → p.key ≡ key → IsOfKey (record p { reasm = r }))
    → All IsOfKey (update_entry key r ps)
unfolding update_entry
update_entry-All key r [] h f = tt
update_entry-All key r (p ∷ ps) h f =
    if_split (All IsOfKey) (key_eq p.key key) (λ e. (f p (key_eq_lem p.key key e), h.1))
      (λ e. (h.0, update_entry-All key r ps h.1 f))

pull_hash-AllOfKey :
    (e : ClipboardEngine) (origin : DeviceId) (os : ℕ) (entry : ClipboardEntry)
    (r : Result Hash ClipboardError)
    → AllOfKey e.pending
    → AllOfKey (pull_hash e origin os entry r).0.pending
unfolding pull_hash new_pending Reassembly.new
pull_hash-AllOfKey e origin os entry (err x) h = h
pull_hash-AllOfKey e origin os entry (ok hash) h = insert-AllOfKey e.pending _ h refl

superseded-AllOfKey :
    (e : ClipboardEngine) (origin : DeviceId) (offer : ClipboardOffer)
    → AllOfKey e.pending
    → AllOfKey (supersede_origin e origin offer).pending
unfolding supersede_origin retain_origin_offer
superseded-AllOfKey e origin offer h = remove_all-AllOfKey _ e.pending h

pull_best-AllOfKey :
    (e : ClipboardEngine) (origin : DeviceId) (os : ℕ) (o : Option (ℕ × ClipboardEntry))
    → AllOfKey e.pending
    → AllOfKey (pull_best e origin os o).0.pending
unfolding pull_best
pull_best-AllOfKey e origin os none h = h
pull_best-AllOfKey e origin os (some (rank, entry)) h =
    pull_hash-AllOfKey e origin os entry (parse_hash entry.hash) h

offer_from-AllOfKey :
    (e : ClipboardEngine) (offer : ClipboardOffer) (os : ℕ) (r : Result DeviceId ClipboardError)
    → AllOfKey e.pending
    → AllOfKey (offer_from e offer os r).0.pending
unfolding offer_from remove_origin
offer_from-AllOfKey e offer os (err x) h = h
offer_from-AllOfKey e offer os (ok origin) h =
    let keep : ClipboardEngine × Result (Option ClipboardPull) ClipboardError → Type 0 =
      (λ m. AllOfKey m.0.pending) in
    if_cases keep (origin == e.device_id) h (
      if_cases keep (prefer_native_suppresses e.settings e.local_os os)
        (remove_all-AllOfKey _ e.pending h)
        (pull_best-AllOfKey (supersede_origin e origin offer) origin os
          (best_entry e.settings offer.entries) (superseded-AllOfKey e origin offer h)))

-- What a device meets.
pub data Event : Type 0 where
  offers : ClipboardOffer → (peer_os : ℕ) → Event
  contents : DeviceId → ClipboardData → Event
  aborts : Hash → Event
  leaves : DeviceId → Event
  ticks : ℕ → Event
  sets : ClipboardSettings → Event
  changes : List LocalRepr → Event

module _ (sha256 : List ℕ → Hash) where
  push_hash :
      (r : Reassembly) (o : ℕ) (d : List ℕ) (l : Bool) → (push sha256 r o d l).0.hash ≡ r.hash
  unfolding push commit finish
  push_hash r o d l = ground arith

  pushed-AllOfKey :
      (e : ClipboardEngine) (key : PullKey) (p : Pending)
      (m : Reassembly × Result (Option (List ℕ)) ClipboardError)
      → AllOfKey e.pending
      → m.0.hash ≡ key.hash
      → AllOfKey (pushed sha256 e key p m).0.pending
  unfolding pushed
  pushed-AllOfKey e key p (r, err x) h same = remove-AllOfKey e.pending key h
  pushed-AllOfKey e key p (r, ok none) h same =
      update_entry-All key r e.pending.entries h
        (λ q eq. same ∙ ap (λ (k : PullKey). k.hash) (sym eq))
  pushed-AllOfKey e key p (r, ok (some bytes)) h same =
      let keep : ClipboardEngine × Result (Option AppliedClip) ClipboardError → Type 0 =
        (λ m. AllOfKey m.0.pending) in
      if_cases keep
        (not (can_receive e.settings)
          || not (format_enabled e.settings p.key.format)
          || prefer_native_suppresses e.settings e.local_os p.peer_os)
        (remove-AllOfKey e.pending key h) (remove-AllOfKey e.pending key h)

  data_for-AllOfKey :
      (e : ClipboardEngine) (key : PullKey) (d : ClipboardData) (o : Option Pending)
      → AllOfKey e.pending
      → lookup key e.pending.entries ≡ o
      → AllOfKey (data_for sha256 e key d o).0.pending
  unfolding data_for
  data_for-AllOfKey e key d none h found = h
  data_for-AllOfKey e key d (some p) h found =
      pushed-AllOfKey e key p (push sha256 p.reasm d.offset d.bytes d.last) h (
        push_hash p.reasm d.offset d.bytes d.last
        ∙ lookup-IsOfKey key e.pending.entries p h found
        ∙ ap (λ (k : PullKey). k.hash) (lookup-key key e.pending.entries p found))

  with_key-AllOfKey :
      (e : ClipboardEngine) (d : ClipboardData) (r : Result PullKey ClipboardError)
      → AllOfKey e.pending
      → AllOfKey (with_key sha256 e d r).0.pending
  unfolding on_data_for_key
  with_key-AllOfKey e d (err x) h = h
  with_key-AllOfKey e d (ok key) h = data_for-AllOfKey e key d (lookup key e.pending.entries) h refl

  with_hash-AllOfKey :
      (e : ClipboardEngine) (d : ClipboardData) (find : Hash → Result PullKey ClipboardError)
      (r : Result Hash ClipboardError)
      → AllOfKey e.pending
      → AllOfKey (with_hash sha256 e d find r).0.pending
  with_hash-AllOfKey e d find (err x) h = h
  with_hash-AllOfKey e d find (ok hash) h = with_key-AllOfKey e d (find hash) h

  abbrev pub meet : ClipboardEngine → Event → ClipboardEngine
  meet e (offers offer os) = (on_offer e offer os).0
  meet e (contents origin d) = (on_data_from sha256 e origin d).0
  meet e (aborts hash) = (abort_pull e hash).0
  meet e (leaves origin) = (abort_origin e origin).0
  meet e (ticks now) = (tick e now).0
  meet e (sets settings) = set_settings e settings
  meet e (changes reps) = (on_local_change sha256 e reps).0

  abbrev pub meet_all : ClipboardEngine → List Event → ClipboardEngine
  meet_all e [] = e
  meet_all e (x ∷ xs) = meet_all (meet e x) xs

  meet-AllOfKey :
      (e : ClipboardEngine) (x : Event) → AllOfKey e.pending → AllOfKey (meet e x).pending
  unfolding on_offer on_data_from abort_pull abort_origin tick set_settings remove_hash
      remove_origin expire_stalled on_local_change
  meet-AllOfKey e (offers offer os) h =
      let keep : ClipboardEngine × Result (Option ClipboardPull) ClipboardError → Type 0 =
        (λ m. AllOfKey m.0.pending) in
      if_cases keep (not (can_receive e.settings)) h
        (offer_from-AllOfKey e offer os (parse_device_id offer.origin) h)
  meet-AllOfKey e (contents origin d) h = with_hash-AllOfKey e d _ (parse_hash d.hash) h
  meet-AllOfKey e (aborts hash) h = remove_all-AllOfKey _ e.pending h
  meet-AllOfKey e (leaves origin) h = remove_all-AllOfKey _ e.pending h
  meet-AllOfKey e (ticks now) h = remove_all-AllOfKey _ e.pending h
  meet-AllOfKey e (sets settings) h = h
  meet-AllOfKey e (changes reps) h =
      let keep : ClipboardEngine × Option ClipboardOffer → Type 0 = (λ m. AllOfKey m.0.pending) in
      if_cases keep (not (can_offer e.settings)) h h

  pub meet_all-AllOfKey :
      (e : ClipboardEngine) (xs : List Event)
      → AllOfKey e.pending
      → AllOfKey (meet_all e xs).pending
  meet_all-AllOfKey e [] h = h
  meet_all-AllOfKey e (x ∷ xs) h = meet_all-AllOfKey (meet e x) xs (meet-AllOfKey e x h)
