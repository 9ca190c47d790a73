-- ===== src/Core/Election/Heal.antt =====
-- Two devices that both believe to be coordinator (crates/mouser-core/src/election.rs).
use mouser.Prelude.{ℕ, ◌≡◌, true, false, ◌≢◌, none, some, arith, ◌⊎◌, inl, inr}
use mouser.Core.DeviceId.{DeviceId}
use mouser.Core.Election.{
  Election, quiet, yield_term, Held, Lease, coordinator, on_lease, on_claim, on_yield, supersedes,
  current_lease,
}

-- The rule by which two leases are compared is a strict total order on pairs of term and holder.
supersedes_order :
    (s t u : ℕ) (a b c : DeviceId)
    → (supersedes s a s a ≡ false)
      × ((supersedes s a t b ≡ true) ⊎ (supersedes t b s a ≡ true) ⊎ ((s ≡ t) × (a ≡ b)))
      × ((supersedes s a t b ≡ false) ⊎ (supersedes t b u c ≡ false) ⊎ (supersedes s a u c ≡ true))
unfolding supersedes
supersedes_order s t u a b c = ground arith

-- When a partition heals, two holders that get each other's lease agree: the one whose lease is
-- superior keeps it and says nothing, the other takes that lease over and yields the term it held.
pub on_lease_heal :
    (a b : Election) (h k : Held) (now : ℕ)
    → a.held ≡ some h
    → b.held ≡ some k
    → h.holder ≡ a.me
    → k.holder ≡ b.me
    → a.me ≢ b.me
    → supersedes h.term a.me k.term b.me ≡ true
    → let (a', said) = on_lease a (current_lease k) now in
      let (b', heard) = on_lease b (current_lease h) now in
      (coordinator a' ≡ some a.me)
      × (coordinator b' ≡ some a.me)
      × (a'.held ≡ some h)
      × (said ≡ quiet)
      × (heard ≡ yield_term b.me k.term)
unfolding on_lease supersedes coordinator current_lease
on_lease_heal a b h k now p q own own' ne sup = ground (arith, ne)

-- What a holder announces when it gives way, be it to a lease or to a claim, frees every device
-- that believes in the lease it held: the term of the announcement is the term of that lease.
pub yield-on_yield :
    (a p : Election) (h k : Held) (l : Lease) (now : ℕ) {from : DeviceId} {term : ℕ}
    → a.held ≡ some h
    → h.holder ≡ a.me
    → p.held ≡ some k
    → k.holder ≡ a.me
    → k.term ≡ h.term
    → ((on_lease a l now).1 ≡ yield_term from term)
      ⊎ ((on_claim a l.holder l.term).1 ≡ yield_term from term)
    → (on_yield p from term).0.held ≡ none
unfolding on_lease on_claim on_yield
yield-on_yield a p h k l now q own r of_a same (inl y) = ground arith
yield-on_yield a p h k l now q own r of_a same (inr y) = ground arith
