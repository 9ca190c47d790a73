-- ===== src/Core/Ownership/Handoff.antt =====
-- Handoffs and reclaims between devices (crates/mouser-core/src/ownership.rs).
use mouser.Prelude.{◌+◌, ◌≤◌, ◌<◌, ◌≡◌, true, false, ◌≢◌, some, ◌==◌, if◌then◌else◌, arith}
use mouser.Prelude.Sat.{u64_max}
use mouser.Core.DeviceId.{DeviceId}
use mouser.Core.Ownership.{Ownership, accepted, grant_to, reclaim, observe}
use mouser.Protocol.Enums.{FocusKind}

-- A grant by the owner, at an epoch below the largest `u64`, is accepted by every device whose epoch
-- is not ahead of the owner's: then both know the target as the owner, at the one new epoch, and
-- each of the two is active if it is the target and on standby if not.
pub grant_to-observe :
    (o p : Ownership) (target : DeviceId)
    → o.owner ≡ o.me
    → o.epoch < u64_max
    → p.epoch ≤ o.epoch
    → let (o', minted) = grant_to o target in
      let (p', u) = observe p target o'.epoch false in
      (minted ≡ some (o.epoch + 1))
      × (u ≡ accepted target (o.epoch + 1))
      × (o'.owner ≡ target)
      × (o'.epoch ≡ o.epoch + 1)
      × (o'.focus ≡ (if target == o.me then FocusKind.active else FocusKind.standby))
      × (p'.owner ≡ target)
      × (p'.epoch ≡ o.epoch + 1)
      × (p'.focus ≡ (if target == p.me then FocusKind.active else FocusKind.standby))
unfolding grant_to observe
grant_to-observe o p target own h k = ground arith

-- Two devices that reclaim from the same epoch, below the largest `u64`, and then see each other's
-- claim agree on one owner: the one of the two with the lower id, at the epoch that both minted.
pub simultaneous_reclaim :
    (a b : Ownership)
    → a.epoch ≡ b.epoch
    → a.epoch < u64_max
    → a.me < b.me
    → let a' = (reclaim a).0 in
      let b' = (reclaim b).0 in
      let a'' = (observe a' b'.owner b'.epoch true).0 in
      let b'' = (observe b' a'.owner a'.epoch true).0 in
      (a''.owner ≡ a.me)
      × (b''.owner ≡ a.me)
      × (a''.epoch ≡ a.epoch + 1)
      × (b''.epoch ≡ a.epoch + 1)
      × (a''.focus ≡ FocusKind.active)
      × (b''.focus ≡ FocusKind.standby)
unfolding reclaim observe
simultaneous_reclaim a b e h lt = ground arith

-- At the largest `u64` an epoch cannot be minted: a reclaim there leaves the epoch as it was, and a
-- device that holds that epoch by a grant to somebody else turns the claim down. So the device that
-- reclaimed and the other one each name another owner.
pub reclaim_saturated :
    (o p : Ownership)
    → o.epoch ≡ u64_max
    → p.epoch ≡ u64_max
    → p.reclaim_origin ≡ false
    → p.owner ≢ o.me
    → ((reclaim o).0.owner ≡ o.me)
      × ((reclaim o).1 ≡ o.epoch)
      × ((observe p o.me (reclaim o).1 true).0 ≡ p)
unfolding reclaim observe
reclaim_saturated o p e f g ne = ground (arith, ne)
