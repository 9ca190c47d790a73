-- ===== src/Core/Election/Leases.antt =====
-- Keeping, losing and claiming the coordinator lease (crates/mouser-core/src/election.rs).
use mouser.Prelude.{
  ℕ, ◌+◌, ◌-◌, ◌/◌, ◌≤◌, ◌<◌, ◌≡◌, true, Option, none, some, ◌==◌, arith, List, [], ◌∷◌, All, ◌⊎◌,
  inl, inr, ap, ◌∙◌, dec_lt, Bool-cases, Option-cases,
}
use mouser.Prelude.Sat.{u64_max}
use mouser.Core.DeviceId.{DeviceId}
use mouser.Core.Election.{
  Election, quiet, claim, yield_term, Held, Lease, default_ttl, coordinator, on_lease, on_claim,
  tick, start_claim, supersedes, clamp_ttl,
}

-- The engine ticks the machine after each of the given spans of time.
unfoldable pub tick_after : Election → ℕ → List ℕ → Election
tick_after e now [] = e
tick_after e now (gap ∷ gaps) = tick_after (tick e (now + gap)).0 (now + gap) gaps

-- The holder's lease is not due for renewal yet at this time.
abbrev Fresh : ℕ → DeviceId → ℕ → ℕ → Option Held → Type 0
Fresh now me term ttl none = ⊥
Fresh now me term ttl (some h) =
    (h.holder ≡ me)
    × (h.term ≡ term)
    × (h.ttl ≡ ttl)
    × (ttl ≤ h.deadline)
    × (now + (ttl - ttl / 3) ≤ h.deadline)

tick-Fresh :
    (e : Election) (now term ttl gap : ℕ)
    → 0 < ttl
    → gap < ttl - ttl / 3
    → Fresh now e.me term ttl e.held
    → ((tick e (now + gap)).0.me ≡ e.me)
      × Fresh (now + gap) e.me term ttl (tick e (now + gap)).0.held
unfolding tick
tick-Fresh e now term ttl gap h lt f = go e.held f
  where
    go :
        (held : Option Held)
        → Fresh now e.me term ttl held
        → ((tick (record e { held = held }) (now + gap)).0.me ≡ e.me)
          × Fresh (now + gap) e.me term ttl (tick (record e { held = held }) (now + gap)).0.held
    go none f = elim f [ ]
    go (some c) f = ground arith

tick_after-Fresh :
    (e : Election) (now term ttl : ℕ) (gaps : List ℕ)
    → 0 < ttl
    → All (λ gap. gap < ttl - ttl / 3) gaps
    → Fresh now e.me term ttl e.held
    → coordinator (tick_after e now gaps) ≡ some e.me
unfolding tick_after coordinator
tick_after-Fresh e now term ttl [] h a f = go e.held f
  where
    go :
        (held : Option Held)
        → Fresh now e.me term ttl held
        → coordinator (record e { held = held }) ≡ some e.me
    go none f = elim f [ ]
    go (some c) f = ap some f.0
tick_after-Fresh e now term ttl (gap ∷ gaps) h a f =
    let e' = (tick e (now + gap)).0 in
    let (same, f') = tick-Fresh e now term ttl gap h a.0 f in
    let next : Fresh (now + gap) e'.me term ttl e'.held = rw same f' in
    tick_after-Fresh e' (now + gap) term ttl gaps h a.1 next ∙ ap some same

-- A device that campaigned while it believed in no coordinator, and so got the lease, is the
-- coordinator, in its own eyes, after any number of ticks with no message of another device between
-- them, if each comes less than `ttl - ttl / 3` after the one before: the lease is renewed in time
-- and never runs out.
pub tick_after-coordinator :
    (e : Election) (now : ℕ) (gaps : List ℕ) {m t : ℕ}
    → e.held ≡ none
    → (start_claim e now).1 ≡ claim m t
    → All (λ gap. gap < default_ttl - default_ttl / 3) gaps
    → coordinator (tick_after (start_claim e now).0 now gaps) ≡ some e.me
tick_after-coordinator e now gaps {t} free p a =
    let e' = (start_claim e now).0 in
    let (same, f) = started e now free p in
    tick_after-Fresh e' now t default_ttl gaps (omega arith) a f ∙ ap some same
  where
    started :
        (e : Election) (now : ℕ) {m t : ℕ}
        → e.held ≡ none
        → (start_claim e now).1 ≡ claim m t
        → ((start_claim e now).0.me ≡ e.me)
          × Fresh now (start_claim e now).0.me t default_ttl (start_claim e now).0.held
    started e now free p = unfold start_claim in ground arith

-- A campaign never displaces another device whose lease still runs and whose id is lower:
-- nothing changes and nothing is sent. Any other campaign takes the lease, for the time to live of
-- the lease that it replaces, at a term above every term seen, below the largest `u64`.
start_claim_guard :
    (e : Election) (h : Held) (now : ℕ)
    → e.held ≡ some h
    → e.seen_term < u64_max
    → ((now < h.deadline) × (h.holder < e.me) × (start_claim e now ≡ (e, quiet)))
      ⊎ (((h.deadline ≤ now) ⊎ (e.me ≤ h.holder))
          × ((start_claim e now).1 ≡ claim e.me (e.seen_term + 1))
          × ((start_claim e now).0.held
              ≡ some (record {
                holder = e.me;
                term = e.seen_term + 1;
                ttl = h.ttl;
                deadline = now + h.ttl;
              })))
unfolding start_claim
start_claim_guard e h now held fits = elim (dec_lt now h.deadline) [
  | no over ↦ inr (inl (omega arith), ground arith, ground arith)
  | yes runs ↦ elim (dec_lt h.holder e.me) [
    | yes lower ↦ inl (runs, lower, ground arith)
    | no other ↦ inr (inr (omega arith), ground arith, ground arith)
  ]
]

-- A claim alone makes nobody coordinator: what this device believes stays as it is, except that it
-- drops its own lease if the claim is superior, and then gives up the term that it held.
on_claim-coordinator :
    (e : Election) (candidate : DeviceId) (term : ℕ)
    → ((on_claim e candidate term).0.held ≡ e.held)
      ⊎ ((h : Held) × (e.held ≡ some h)
          × (h.holder ≡ e.me)
          × (supersedes term candidate h.term h.holder ≡ true)
          × ((on_claim e candidate term).0.held ≡ none)
          × ((on_claim e candidate term).1 ≡ yield_term e.me h.term))
unfolding on_claim
on_claim-coordinator e candidate term = elim (Option-cases e.held) [
  | inl free ↦ inl (ground arith)
  | inr (h, held) ↦ elim (Bool-cases (h.holder == e.me)) [
    | inl own ↦ elim (Bool-cases (supersedes term candidate h.term h.holder)) [
      | inl wins ↦ inr (h, held, ground arith, wins, ground arith, ground arith)
      | inr loses ↦ inl (ground arith)
    ]
    | inr other ↦ inl (ground arith)
  ]
]

-- With no coordinator believed in, a lease of a term below one already seen is not installed, and
-- any other is, for its own time to live up to the cap.
on_lease_stale :
    (e : Election) (l : Lease) (now : ℕ)
    → e.held ≡ none
    → ((l.term < e.seen_term) × ((on_lease e l now).0 ≡ e))
      ⊎ ((e.seen_term ≤ l.term)
          × ((on_lease e l now).0.seen_term ≡ l.term)
          × ((on_lease e l now).0.held
              ≡ some (record {
                holder = l.holder;
                term = l.term;
                ttl = clamp_ttl l.ttl;
                deadline = now + clamp_ttl l.ttl;
              })))
unfolding on_lease
on_lease_stale e l now free = elim (dec_lt l.term e.seen_term) [
  | yes stale ↦ inl (stale, ground arith)
  | no current ↦ inr (omega arith, ground arith, ground arith)
]
