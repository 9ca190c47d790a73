-- ===== src/Clipboard/Pulls/Lookup.antt =====
-- The pulls in flight by their keys (crates/mouser-clipboard/src/tracking.rs).
use mouser.Prelude.{
  ℕ, zero, suc, ◌≡◌, refl, Bool, true, not, List, [], ◌∷◌, ◌++◌, none, some, leb, Bool-cases, inl,
  inr, length, arith, if_cases,
}
use mouser.Clipboard.Types.{PullKey, key_eq}
use mouser.Clipboard.Pulls.{
  Pending, PendingPulls, lookup, remove, retain, insert, make_room, evict_oldest, max_pending_pulls,
  is_some,
}

lookup-retain :
    (key : PullKey) (ps : List Pending)
    → lookup key (retain (λ p. not (key_eq p.key key)) ps) ≡ none
unfolding lookup retain
lookup-retain key [] = refl
lookup-retain key (p ∷ ps) = elim (Bool-cases (key_eq p.key key)) [
  | inl e ↦ rw (e) (lookup-retain key ps)
  | inr e ↦ rw (e, e) (lookup-retain key ps)
]

pub lookup-remove :
    (pulls : PendingPulls) (key : PullKey) → lookup key (remove pulls key).entries ≡ none
unfolding remove
lookup-remove pulls key = lookup-retain key pulls.entries

lookup-retain-none :
    (key : PullKey) (f : Pending → Bool) (ps : List Pending)
    → lookup key ps ≡ none
    → lookup key (retain f ps) ≡ none
unfolding lookup retain
lookup-retain-none key f [] h = refl
lookup-retain-none key f (p ∷ ps) h = elim (Bool-cases (key_eq p.key key)) [
  | inl e ↦ (let found : some p ≡ none = rw (e) at h in absurd (cc))
  | inr e ↦
      (let ih = lookup-retain-none key f ps (rw (e) at h) in
        if_cases (λ (l : List Pending). lookup key l ≡ none) (f p) (rw (e) ih) ih)
]

evict_oldest-none :
    (key : PullKey) (order : List PullKey) (entries : List Pending)
    → lookup key entries ≡ none
    → lookup key (evict_oldest order entries).0.entries ≡ none
unfolding evict_oldest
evict_oldest-none key [] entries h = h
evict_oldest-none key (k ∷ order) entries h =
    if_cases (λ (m : PendingPulls × Bool). lookup key m.0.entries ≡ none)
      (is_some (lookup k entries)) (lookup-retain-none key (λ p. not (key_eq p.key k)) entries h)
      (evict_oldest-none key order entries h)

make_room-none :
    (key : PullKey) (fuel : ℕ) (pulls : PendingPulls)
    → lookup key pulls.entries ≡ none
    → lookup key (make_room fuel pulls).entries ≡ none
unfolding make_room
make_room-none key zero pulls h = h
make_room-none key (suc fuel) pulls h =
    let keep : PendingPulls → Type 0 = (λ m. lookup key m.entries ≡ none) in
    let h' = evict_oldest-none key pulls.order pulls.entries h in
    if_cases keep (leb max_pending_pulls (length pulls.entries))
      (if_cases keep (evict_oldest pulls.order pulls.entries).1
        (make_room-none key fuel (evict_oldest pulls.order pulls.entries).0 h') h')
      h

lookup-append :
    (key : PullKey) (ps : List Pending) (p : Pending)
    → lookup key ps ≡ none
    → key_eq p.key key ≡ true
    → lookup key (ps ++ (p ∷ [])) ≡ some p
unfolding lookup
lookup-append key [] p h e = rw (e) refl
lookup-append key (q ∷ ps) p h e = elim (Bool-cases (key_eq q.key key)) [
  | inl t ↦ (let found : some q ≡ none = rw (t) at h in absurd (cc))
  | inr t ↦ rw (t) (lookup-append key ps p (rw (t) at h) e)
]

key_eq_refl : (key : PullKey) → key_eq key key ≡ true
key_eq_refl key = ground arith

-- What was inserted is found under its key.
pub lookup-insert :
    (pulls : PendingPulls) (p : Pending) → lookup p.key (insert pulls p).entries ≡ some p
unfolding insert
lookup-insert pulls p =
    lookup-append p.key
      (make_room (length (remove pulls p.key).entries) (remove pulls p.key)).entries p
      (make_room-none p.key (length (remove pulls p.key).entries) (remove pulls p.key)
        (lookup-remove pulls p.key))
      (key_eq_refl p.key)
