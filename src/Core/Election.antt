-- ===== src/Core/Election.antt =====
-- crates/mouser-core/src/election.rs: the coordinator lease. An `Instant` and a `Duration` are
-- numbers of nanoseconds; the clock is an argument, and its sums do not overflow.
pub mod Terms
pub mod Leases
pub mod Heal
use mouser.Prelude.{
  ℕ, ◌+◌, ◌-◌, ◌*◌, ◌/◌, Bool, true, false, not, ◌&&◌, ◌||◌, Option, none, some, ltb, leb, ◌==◌,
  if◌then◌else◌, min, max,
}
use mouser.Prelude.Sat.{u64_max, saturating_add}
use mouser.Core.DeviceId.{DeviceId}

abbrev pub millis : ℕ → ℕ
millis n = n * 1_000_000

abbrev pub default_ttl : ℕ
default_ttl = millis 6000

abbrev pub max_ttl : ℕ
max_ttl = millis 30_000

pub record Lease : Type 0 where
  pub holder : DeviceId
  pub term : ℕ
  pub ttl : ℕ

pub data ElectionEvent : Type 0 where
  quiet : ElectionEvent
  claim : DeviceId → ℕ → ElectionEvent
  yield_term : DeviceId → ℕ → ElectionEvent
  renew_lease : Lease → ElectionEvent

pub record Held : Type 0 where
  pub holder : DeviceId
  pub term : ℕ
  pub ttl : ℕ
  pub deadline : ℕ

pub record Election : Type 0 where
  pub me : DeviceId
  pub held : Option Held
  pub seen_term : ℕ

unfoldable pub new : DeviceId → Election
new me = record { me = me; held = none; seen_term = 0 }

unfoldable pub coordinator : Election → Option DeviceId
coordinator e = elim e.held [ none ↦ none | some h ↦ some h.holder ]

unfoldable pub clamp_ttl : ℕ → ℕ
clamp_ttl ttl = if ttl == 0 then default_ttl else min ttl max_ttl

unfoldable pub supersedes : ℕ → DeviceId → ℕ → DeviceId → Bool
supersedes term holder other_term other_holder =
    if not (term == other_term) then ltb other_term term else ltb holder other_holder

-- `Some(Held { .. })` for a lease that is taken over from the wire.
abbrev pub install : Lease → ℕ → ℕ → Held
install lease ttl now = record {
  holder = lease.holder;
  term = lease.term;
  ttl = ttl;
  deadline = now + ttl;
}

-- The two arms of `on_lease`, on a state whose `seen_term` is already raised.
unfoldable pub on_lease_held : Election → Held → Lease → ℕ → Election × ElectionEvent
unfolding clamp_ttl supersedes
on_lease_held e current lease now =
    let ttl = clamp_ttl lease.ttl in
    if current.holder == lease.holder && leb current.term lease.term
    then (
      record e {
        held = some (record {
          holder = lease.holder;
          term = max lease.term current.term;
          ttl = ttl;
          deadline = now + ttl;
        });
      },
      quiet,
    )
    else (if supersedes lease.term lease.holder current.term current.holder
        then (
          record e { held = some (install lease ttl now) },
          (if current.holder == e.me then yield_term e.me current.term else quiet),
        )
        else (e, quiet))

unfoldable pub on_lease_free : Election → ℕ → Lease → ℕ → Election × ElectionEvent
unfolding clamp_ttl
on_lease_free e prior_seen lease now =
    if ltb lease.term prior_seen
    then (e, quiet)
    else (record e { held = some (install lease (clamp_ttl lease.ttl) now) }, quiet)

unfoldable pub on_lease : Election → Lease → ℕ → Election × ElectionEvent
unfolding on_lease_held on_lease_free
on_lease e lease now =
    let prior_seen = e.seen_term in
    let e' = record e { seen_term = max e.seen_term lease.term } in
    elim e.held [
      | some current ↦ on_lease_held e' current lease now
      | none ↦ on_lease_free e' prior_seen lease now
    ]

unfoldable pub current_lease : Held → Lease
current_lease h = record { holder = h.holder; term = h.term; ttl = h.ttl }

unfoldable pub on_claim_held : Election → Held → DeviceId → ℕ → Election × ElectionEvent
unfolding supersedes current_lease
on_claim_held e current candidate term =
    if not (current.holder == e.me)
    then (e, quiet)
    else (if supersedes term candidate current.term current.holder
        then (record e { held = none }, yield_term e.me current.term)
        else (e, renew_lease (current_lease current)))

unfoldable pub on_claim : Election → DeviceId → ℕ → Election × ElectionEvent
unfolding on_claim_held
on_claim e candidate term =
    let e' = record e { seen_term = max e.seen_term term } in
    elim e.held [ none ↦ (e', quiet) | some current ↦ on_claim_held e' current candidate term ]

unfoldable pub on_yield : Election → DeviceId → ℕ → Election × ElectionEvent
on_yield e from term =
    let e' = record e { seen_term = max e.seen_term term } in
    elim e.held [
      | none ↦ (e', quiet)
      | some current ↦
          (if current.holder == from && current.term == term
            then (record e' { held = none }, quiet)
            else (e', quiet))
    ]

unfoldable pub tick_held : Election → Held → ℕ → Election × ElectionEvent
unfolding current_lease
tick_held e current now =
    if leb current.deadline now
    then (record e { held = none }, quiet)
    else (if current.holder == e.me && leb (current.deadline - current.ttl + current.ttl / 3) now
        then (let renewed = record current { deadline = now + current.ttl } in
            (record e { held = some renewed }, renew_lease (current_lease renewed)))
        else (e, quiet))

unfoldable pub tick : Election → ℕ → Election × ElectionEvent
unfolding tick_held
tick e now = elim e.held [ none ↦ (e, quiet) | some current ↦ tick_held e current now ]

unfoldable pub may_campaign : Election → ℕ → Bool
may_campaign e now = elim e.held [
  | none ↦ true
  | some current ↦
      (if leb current.deadline now then true else current.holder == e.me || ltb e.me current.holder)
]

unfoldable pub start_claim : Election → ℕ → Election × ElectionEvent
unfolding may_campaign
start_claim e now =
    if not (may_campaign e now)
    then (e, quiet)
    else (let term = saturating_add u64_max e.seen_term 1 in
        let ttl : ℕ = elim e.held [ none ↦ default_ttl | some h ↦ h.ttl ] in
        (
          record e {
            held = some (record { holder = e.me; term = term; ttl = ttl; deadline = now + ttl });
            seen_term = term;
          },
          claim e.me term,
        ))
