-- ===== src/Core/Election/Terms.antt =====
-- Invariants of the coordinator election (crates/mouser-core/src/election.rs).
use mouser.Prelude.{ℕ, ◌+◌, ◌≤◌, ◌<◌, ◌≡◌, Option, none, some, arith, min, List, [], ◌∷◌, All}
use mouser.Prelude.Sat.{u64_max}
use mouser.Core.DeviceId.{DeviceId}
use mouser.Core.Election.{
  Election, ElectionEvent, claim, Held, Lease, max_ttl, new, on_lease, on_claim, on_yield, tick,
  start_claim,
}

-- A lease that is held: its term has been seen, its time to live is in the allowed range, and its
-- deadline is not before that time.
abbrev pub Sound : ℕ → Option Held → Type 0
Sound seen none = Unit {0}
Sound seen (some h) = (h.term ≤ seen) × (0 < h.ttl) × (h.ttl ≤ max_ttl) × (h.ttl ≤ h.deadline)

pub record IsValid (e : Election) : Type 0 where
  pub seen_fits : e.seen_term ≤ u64_max
  pub held_sound : Sound e.seen_term e.held

-- What the engine feeds to the machine, with the time at which it does.
pub data Input : Type 0 where
  lease : Lease → ℕ → Input
  claimed : DeviceId → ℕ → Input
  yielded : DeviceId → ℕ → Input
  ticked campaign : ℕ → Input

unfoldable pub step : Election → Input → Election × ElectionEvent
unfolding on_lease on_claim on_yield tick start_claim
step e (lease l now) = on_lease e l now
step e (claimed candidate term) = on_claim e candidate term
step e (yielded from term) = on_yield e from term
step e (ticked now) = tick e now
step e (campaign now) = start_claim e now

abbrev pub IsFit : Input → Type 0
IsFit (lease l now) = l.term ≤ u64_max
IsFit (claimed candidate term) = term ≤ u64_max
IsFit (yielded from term) = term ≤ u64_max
IsFit _ = Unit {0}

step-IsValid : (e : Election) (i : Input) → IsFit i → IsValid e → IsValid (step e i).0
unfolding step
step-IsValid e i f v = go e.me e.held e.seen_term i f v.seen_fits v.held_sound
  where
    go :
        (me : DeviceId) (held : Option Held) (seen : ℕ) (i : Input)
        → IsFit i
        → seen ≤ u64_max
        → Sound seen held
        → IsValid (step (record { me = me; held = held; seen_term = seen }) i).0
    go me none seen (lease l now) f s h = ground arith
    go me (some c) seen (lease l now) f s h = ground arith
    go me none seen (claimed candidate term) f s h = ground arith
    go me (some c) seen (claimed candidate term) f s h = ground arith
    go me none seen (yielded from term) f s h = ground arith
    go me (some c) seen (yielded from term) f s h = ground arith
    go me none seen (ticked now) f s h = ground arith
    go me (some c) seen (ticked now) f s h = ground arith
    go me none seen (campaign now) f s h = ground arith
    go me (some c) seen (campaign now) f s h = ground arith

unfoldable pub run : Election → List Input → Election
run e [] = e
run e (i ∷ is) = run (step e i).0 is

run_from-IsValid : (e : Election) (is : List Input) → All IsFit is → IsValid e → IsValid (run e is)
unfolding run
run_from-IsValid e [] f v = v
run_from-IsValid e (i ∷ is) f v = run_from-IsValid (step e i).0 is f.1 (step-IsValid e i f.0 v)

-- After any history of inputs with `u64` terms, from a fresh machine on: no lease is believed in
-- whose term exceeds the highest term seen, that term is a `u64`, every time to live is positive
-- and at most the cap, and a deadline never lies before it, so that no subtraction underflows.
pub run-IsValid : (me : DeviceId) (is : List Input) → All IsFit is → IsValid (run (new me) is)
run-IsValid me is f =
    run_from-IsValid (new me) is f
      (unfold new in record { seen_fits = omega arith; held_sound = tt })

step-seen_term :
    (e : Election) (i : Input)
    → e.seen_term ≤ u64_max
    → IsFit i
    → (e.seen_term ≤ (step e i).0.seen_term) × ((step e i).0.seen_term ≤ u64_max)
unfolding step
step-seen_term e (lease l now) h f = go e.held
  where
    go :
        (held : Option Held)
        → (e.seen_term ≤ (step (record e { held = held }) (lease l now)).0.seen_term)
          × ((step (record e { held = held }) (lease l now)).0.seen_term ≤ u64_max)
    go none = ground arith
    go (some c) = ground arith
step-seen_term e (claimed candidate term) h f = ground arith
step-seen_term e (yielded from term) h f = ground arith
step-seen_term e (ticked now) h f = ground arith
step-seen_term e (campaign now) h f = ground arith

run_seen_term :
    (e : Election) (is : List Input)
    → e.seen_term ≤ u64_max
    → All IsFit is
    → (e.seen_term ≤ (run e is).seen_term) × ((run e is).seen_term ≤ u64_max)
unfolding run
run_seen_term e [] h f = ground arith
run_seen_term e (i ∷ is) h f =
    let (up, fit) = step-seen_term e i h f.0 in
    let (up', fit') = run_seen_term (step e i).0 is fit f.1 in (omega arith, fit')

claimed_term :
    (e : Election) (now : ℕ) {m t : ℕ}
    → (start_claim e now).1 ≡ claim m t
    → ((start_claim e now).0.seen_term ≡ t) × (t ≡ min (e.seen_term + 1) u64_max)
unfolding start_claim
claimed_term e now p = ground arith

-- Two campaigns of one device never announce the same term, however many inputs with `u64` terms
-- come between them, as long as the second announces a term below the largest `u64`.
start_claim_fresh :
    (e : Election) (is : List Input) (now later : ℕ) {m n t t' : ℕ}
    → e.seen_term ≤ u64_max
    → All IsFit is
    → (start_claim e now).1 ≡ claim m t
    → (start_claim (run (start_claim e now).0 is) later).1 ≡ claim n t'
    → t' < u64_max
    → t < t'
start_claim_fresh e is now later h f p q lt =
    let (seen, term) = claimed_term e now p in
    let (seen', term') = claimed_term (run (start_claim e now).0 is) later q in
    let (up, fit) = run_seen_term (start_claim e now).0 is (omega arith) f in omega arith
