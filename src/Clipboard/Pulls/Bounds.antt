-- ===== src/Clipboard/Pulls/Bounds.antt =====
-- The bookkeeping of the pulls in flight (crates/mouser-clipboard/src/tracking.rs): its bound, the
-- agreement of its two parts, and which entry gives way.
use mouser.Prelude.{
  ℕ, zero, suc, ◌≤◌, ◌<◌, ◌≡◌, refl, sym, ap, Bool, true, false, not, List, [], ◌∷◌, ◌++◌, map, leb,
  length, length-append, length-drop, map-append, All, All-append, drop, if_cases, ◌-◌, arith, inl,
  inr, Bool-cases,
}
use mouser.Clipboard.Types.{PullKey, key_eq}
use mouser.Clipboard.Pulls.{
  max_pending_pulls, Pending, retain, PendingPulls, lookup, remove, evict_oldest, make_room, insert,
  remove_all,
}

-- The queue lists the keys of the entries.
abbrev pub Agree : PendingPulls → Type 0
Agree pulls = pulls.order ≡ map (λ (p : Pending). p.key) pulls.entries

retain-map :
    (f : PullKey → Bool) (ps : List Pending)
    → retain f (map (λ (p : Pending). p.key) ps)
      ≡ map (λ (p : Pending). p.key) (retain (λ p. f p.key) ps)
unfolding retain
retain-map f [] = refl
retain-map f (p ∷ ps) = elim (Bool-cases (f p.key)) [
  | inl e ↦ rw e (ap (◌∷◌ p.key) (retain-map f ps))
  | inr e ↦ rw e (retain-map f ps)
]

key_eq_self : (k : PullKey) → key_eq k k ≡ true
key_eq_self k = ground arith

key_eq_sym : (a b : PullKey) → key_eq a b ≡ false → key_eq b a ≡ false
key_eq_sym a b h = ground arith

remove-Agree : (pulls : PendingPulls) (key : PullKey) → Agree pulls → Agree (remove pulls key)
unfolding remove
remove-Agree pulls key h = rw h (retain-map (λ queued. not (key_eq queued key)) pulls.entries)

length-retain : (f : Pending → Bool) (ps : List Pending) → length (retain f ps) ≤ length ps
unfolding retain
length-retain f [] = omega arith
length-retain f (p ∷ ps) = ground (arith, length-retain f ps)

-- No two entries have the same key.
abbrev pub Distinct : List Pending → Type 0
Distinct [] = Unit {0}
Distinct (p ∷ ps) = All (λ (q : Pending). key_eq q.key p.key ≡ false) ps × Distinct ps

abbrev pub IsWellFormed : PendingPulls → Type 0
IsWellFormed pulls =
    Agree pulls × Distinct pulls.entries × (length pulls.entries ≤ max_pending_pulls)

-- The bookkeeping with the given entries.
abbrev pub of_entries : List Pending → PendingPulls
of_entries ps = record { entries = ps; order = map (λ (p : Pending). p.key) ps }

-- What `insert` keeps of the other entries: the latest 63.
abbrev pub latest : List Pending → List Pending
latest ps = drop (length ps - 63) ps

pub All-retain :
    (P : Pending → Type 0) (f : Pending → Bool) (ps : List Pending) → All P ps → All P (retain f ps)
unfolding retain
All-retain P f [] h = h
All-retain P f (p ∷ ps) h =
    if_cases (All P) (f p) (h.0, All-retain P f ps h.1) (All-retain P f ps h.1)

All-drop : (P : Pending → Type 0) (n : ℕ) (ps : List Pending) → All P ps → All P (drop n ps)
All-drop P zero ps h = h
All-drop P (suc n) [] h = h
All-drop P (suc n) (p ∷ ps) h = All-drop P n ps h.1

retain-Distinct : (f : Pending → Bool) (ps : List Pending) → Distinct ps → Distinct (retain f ps)
unfolding retain
retain-Distinct f [] h = h
retain-Distinct f (p ∷ ps) h =
    if_cases Distinct (f p) (All-retain _ f ps h.0, retain-Distinct f ps h.1)
      (retain-Distinct f ps h.1)

drop-Distinct : (n : ℕ) (ps : List Pending) → Distinct ps → Distinct (drop n ps)
drop-Distinct zero ps h = h
drop-Distinct (suc n) [] h = h
drop-Distinct (suc n) (p ∷ ps) h = drop-Distinct n ps h.1

-- An entry whose key none of the others has can be added.
append-Distinct :
    (ps : List Pending) (q : Pending)
    → Distinct ps
    → All (λ (p : Pending). key_eq p.key q.key ≡ false) ps
    → Distinct (ps ++ (q ∷ []))
append-Distinct [] q d h = (tt, tt)
append-Distinct (p ∷ ps) q d h =
    (All-append _ ps (q ∷ []) d.0 (key_eq_sym p.key q.key h.0, tt), append-Distinct ps q d.1 h.1)

-- Nothing is dropped of what passes the test.
retain-All : (f : Pending → Bool) (ps : List Pending) → All (λ p. f p ≡ true) ps → retain f ps ≡ ps
unfolding retain
retain-All f [] h = refl
retain-All f (p ∷ ps) h = rw h.0 (ap (◌∷◌ p) (retain-All f ps h.1))

retain_others :
    (k : PullKey) (ps : List Pending)
    → All (λ (q : Pending). key_eq q.key k ≡ false) ps
    → retain (λ p. not (key_eq p.key k)) ps ≡ ps
unfolding retain
retain_others k [] h = refl
retain_others k (p ∷ ps) h = rw h.0 (ap (◌∷◌ p) (retain_others k ps h.1))

-- The entries that are left after a key was removed have other keys.
retain_absent :
    (k : PullKey) (ps : List Pending)
    → All (λ (q : Pending). key_eq q.key k ≡ false) (retain (λ p. not (key_eq p.key k)) ps)
unfolding retain
retain_absent k [] = tt
retain_absent k (p ∷ ps) = elim (Bool-cases (key_eq p.key k)) [
  | inl e ↦ rw e (retain_absent k ps)
  | inr e ↦ rw e (e, retain_absent k ps)
]

evict_oldest_lem :
    (p : Pending) (ps : List Pending)
    → Distinct (p ∷ ps)
    → evict_oldest (p.key ∷ map (λ (q : Pending). q.key) ps) (p ∷ ps) ≡ (of_entries ps, true)
unfolding evict_oldest lookup retain
evict_oldest_lem p ps d = rw (key_eq_self p.key, retain_others p.key ps d.0) refl

latest_more : (p : Pending) (ps : List Pending) → 63 ≤ length ps → latest (p ∷ ps) ≡ latest ps
latest_more p ps h = ap (λ n. drop n (p ∷ ps)) (more (length ps) h)
  where
    more : (n : ℕ) → 63 ≤ n → suc n - 63 ≡ suc (n - 63)
    more n l = omega arith

latest_few : (p : Pending) (ps : List Pending) → length ps < 63 → latest (p ∷ ps) ≡ p ∷ ps
latest_few p ps h = ap (λ n. drop n (p ∷ ps)) (few (length ps) h)
  where
    few : (n : ℕ) → n < 63 → suc n - 63 ≡ 0
    few n l = omega arith

make_room_lem :
    (fuel : ℕ) (ps : List Pending)
    → length ps ≤ fuel
    → Distinct ps
    → make_room fuel (of_entries ps) ≡ of_entries (latest ps)
unfolding make_room
make_room_lem zero [] h d = refl
make_room_lem zero (p ∷ ps) h d = absurd (omega (arith, h))
make_room_lem (suc fuel) [] h d = refl
make_room_lem (suc fuel) (p ∷ ps) h d =
    rw (make_room, evict_oldest_lem p ps d, make_room_lem fuel ps (omega (arith, h)) d.1)
      (elim (Bool-cases (leb max_pending_pulls (suc (length ps)))) [
        | inl e ↦ rw (e, latest_more p ps (ground (arith, e))) refl
        | inr e ↦ rw (e, latest_few p ps (ground (arith, e))) refl
      ])

bookkeeping : List Pending → List PullKey → PendingPulls
bookkeeping entries order = record { entries = entries; order = order }

abbrev pub others : PendingPulls → PullKey → List Pending
others pulls key = retain (λ p. not (key_eq p.key key)) pulls.entries

remove_lem :
    (pulls : PendingPulls) (key : PullKey)
    → Agree pulls
    → remove pulls key ≡ of_entries (others pulls key)
unfolding remove bookkeeping
remove_lem pulls key h = ap (bookkeeping (others pulls key)) (remove-Agree pulls key h)

append_entry :
    (ps : List Pending) (q : Pending)
    → bookkeeping (ps ++ (q ∷ [])) (map (λ (p : Pending). p.key) ps ++ (q.key ∷ []))
      ≡ of_entries (ps ++ (q ∷ []))
unfolding bookkeeping
append_entry ps q =
    ap (bookkeeping (ps ++ (q ∷ []))) (sym (map-append (λ (p : Pending). p.key) ps (q ∷ [])))

-- The pulls that are left of a well-formed bookkeeping, and the new one, are again well-formed.
latest-IsWellFormed :
    (ps : List Pending) (q : Pending)
    → Distinct ps
    → All (λ (p : Pending). key_eq p.key q.key ≡ false) ps
    → IsWellFormed (of_entries (latest ps ++ (q ∷ [])))
latest-IsWellFormed ps q d h = (
  refl,
  append-Distinct (latest ps) q (drop-Distinct _ ps d) (All-drop _ _ ps h),
  omega (arith, length-append (latest ps) (q ∷ []), length-drop (length ps - 63) ps),
)

insert_runs :
    (pulls : PendingPulls) (pending : Pending)
    → IsWellFormed pulls
    → insert pulls pending ≡ of_entries (latest (others pulls pending.key) ++ (pending ∷ []))
unfolding insert bookkeeping
insert_runs pulls pending w =
    rw
      (
        insert,
        remove_lem pulls pending.key w.0,
        make_room_lem (length (others pulls pending.key)) (others pulls pending.key) (omega arith)
            (retain-Distinct _ pulls.entries w.1),
      )
      (append_entry (latest (others pulls pending.key)) pending)

-- A pull that is started replaces the one with its key, if there is one, and drops the oldest ones
-- that are more than 63, and no other; it is the latest entry. The queue and the entries agree, no
-- key stands twice and at most 64 pulls are in flight before and after it.
pub insert_lem :
    (pulls : PendingPulls) (pending : Pending)
    → IsWellFormed pulls
    → (insert pulls pending ≡ of_entries (latest (others pulls pending.key) ++ (pending ∷ [])))
      × IsWellFormed (insert pulls pending)
insert_lem pulls pending w = (
  insert_runs pulls pending w,
  rw (insert_runs pulls pending w) (
      latest-IsWellFormed (others pulls pending.key) pending (retain-Distinct _ pulls.entries w.1)
        (retain_absent pending.key pulls.entries)),
)

-- Removing a key, and with it every removal by hash, origin, offer or age, keeps the bookkeeping
-- well-formed.
remove-IsWellFormed :
    (pulls : PendingPulls) (key : PullKey) → IsWellFormed pulls → IsWellFormed (remove pulls key)
unfolding remove
remove-IsWellFormed pulls key w = (
  remove-Agree pulls key w.0,
  retain-Distinct _ pulls.entries w.1,
  omega (arith, w.2, length-retain (λ p. not (key_eq p.key key)) pulls.entries),
)

remove_all-IsWellFormed :
    (keys : List PullKey) (pulls : PendingPulls)
    → IsWellFormed pulls
    → IsWellFormed (remove_all keys pulls)
unfolding remove_all
remove_all-IsWellFormed [] pulls w = w
remove_all-IsWellFormed (key ∷ keys) pulls w =
    remove_all-IsWellFormed keys (remove pulls key) (remove-IsWellFormed pulls key w)
