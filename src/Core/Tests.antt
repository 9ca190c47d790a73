-- ===== src/Core/Tests.antt =====
-- Ownership and election on concrete devices.
use mouser.Prelude.{◌<◌, ◌≡◌, refl, true, false, [], ◌∷◌, none, some, arith, ltb, ◌⊎◌, inl}
use mouser.Prelude.Sat.{u64_max}
use mouser.Protocol.Enums.{FocusKind, TransferReason}
use mouser.Core.DeviceId.{to_vec, lex_lt, lex_lt-to_vec}
use mouser.Core.Ownership.{Ownership, accepted, grant_to, reclaim, observe, observe_with_reason}
use mouser.Core.Ownership.Epochs.{Wins, Refused, taken, claim, input_blocked, run-same_epoch}
use mouser.Core.Ownership.Epochs
use mouser.Core.Ownership.Handoff.{grant_to-observe, simultaneous_reclaim, reclaim_saturated}
use mouser.Core.Election.{
  Election, Lease, Held, default_ttl, coordinator, clamp_ttl, start_claim, on_lease, on_claim,
  on_yield, supersedes, current_lease, yield_term, quiet,
}
use mouser.Core.Election
use mouser.Core.Election.Terms.{IsValid, lease, claimed, ticked, run-IsValid}
use mouser.Core.Election.Terms
use mouser.Core.Election.Leases.{tick_after, tick_after-coordinator}
use mouser.Core.Election.Heal.{on_lease_heal, yield-on_yield}

lex_lt-to_vec_example : lex_lt (to_vec 258) (to_vec 259) ≡ ltb 258 259
lex_lt-to_vec_example = lex_lt-to_vec 258 259 (omega arith) (omega arith)

-- Device 5 owns input at epoch 3, by a reclaim of its own.
abbrev five : Ownership
five = record { me = 5; owner = 5; epoch = 3; focus = FocusKind.active; reclaim_origin = true }

-- Device 7 knows it.
abbrev seven : Ownership
seven = record { me = 7; owner = 5; epoch = 3; focus = FocusKind.standby; reclaim_origin = true }

run-same_epoch_example :
    (((Epochs.run five (claim 4 3 TransferReason.local_reclaim ∷ [])).owner ≡ 5)
      × ((Epochs.run five (claim 4 3 TransferReason.local_reclaim ∷ [])).reclaim_origin ≡ true))
    ⊎ (((Epochs.run five (claim 4 3 TransferReason.local_reclaim ∷ [])).owner < 5)
        × (true ≡ true)
        × ((Epochs.run five (claim 4 3 TransferReason.local_reclaim ∷ [])).reclaim_origin ≡ true))
unfolding Epochs.run Epochs.step observe_with_reason
run-same_epoch_example =
    run-same_epoch five (claim 4 3 TransferReason.local_reclaim ∷ []) (omega arith, tt)
      (omega arith) refl

grant_to-observe_example :
    let (o', minted) = grant_to five 7 in
    let (p', u) = observe seven 7 o'.epoch false in
    (minted ≡ some 4)
    × (u ≡ accepted 7 4)
    × (o'.owner ≡ 7)
    × (o'.epoch ≡ 4)
    × (o'.focus ≡ FocusKind.standby)
    × (p'.owner ≡ 7)
    × (p'.epoch ≡ 4)
    × (p'.focus ≡ FocusKind.active)
grant_to-observe_example = grant_to-observe five seven 7 refl (omega arith) (omega arith)

simultaneous_reclaim_example :
    let a' = (reclaim five).0 in
    let b' = (reclaim seven).0 in
    let a'' = (observe a' b'.owner b'.epoch true).0 in
    let b'' = (observe b' a'.owner a'.epoch true).0 in
    (a''.owner ≡ 5)
    × (b''.owner ≡ 5)
    × (a''.epoch ≡ 4)
    × (b''.epoch ≡ 4)
    × (a''.focus ≡ FocusKind.active)
    × (b''.focus ≡ FocusKind.standby)
simultaneous_reclaim_example = simultaneous_reclaim five seven refl (omega arith) (omega arith)

-- At the largest epoch, device 9 owns input by a grant.
abbrev last : Ownership
last = record {
  me = 5;
  owner = 9;
  epoch = u64_max;
  focus = FocusKind.standby;
  reclaim_origin = false;
}

reclaim_saturated_example :
    ((reclaim last).0.owner ≡ 5)
    × ((reclaim last).1 ≡ u64_max)
    × ((observe last 5 (reclaim last).1 true).0 ≡ last)
reclaim_saturated_example = reclaim_saturated last last refl refl refl (omega arith)

-- Device 3 is in a lease of term 4 that runs to time 100; device 6 in one of term 2.
abbrev held_three : Held
held_three = record { holder = 3; term = 4; ttl = 60; deadline = 100 }

abbrev held_six : Held
held_six = record { holder = 6; term = 2; ttl = 60; deadline = 100 }

abbrev three : Election
three = record { me = 3; held = some held_three; seen_term = 4 }

abbrev six : Election
six = record { me = 6; held = some held_six; seen_term = 2 }

abbrev free : Election
free = record { me = 6; held = none; seen_term = 2 }

abbrev lease_nine : Lease
lease_nine = record { holder = 3; term = 9; ttl = 60 }

run-IsValid_example : IsValid (Terms.run (Election.new 6) (lease lease_nine 10 ∷ ticked 80 ∷ []))
run-IsValid_example = run-IsValid 6 (lease lease_nine 10 ∷ ticked 80 ∷ []) (omega arith, (tt, tt))

tick_after-coordinator_example :
    coordinator (tick_after (start_claim free 10).0 10 (2000 ∷ 3000 ∷ [])) ≡ some 6
unfolding start_claim
tick_after-coordinator_example =
    tick_after-coordinator free 10 (2000 ∷ 3000 ∷ []) refl refl (omega arith, (omega arith, tt))

on_lease_heal_example :
    let (a', said) = on_lease three (current_lease held_six) 50 in
    let (b', heard) = on_lease six (current_lease held_three) 50 in
    (coordinator a' ≡ some 3)
    × (coordinator b' ≡ some 3)
    × (a'.held ≡ some held_three)
    × (said ≡ quiet)
    × (heard ≡ yield_term 6 2)
unfolding supersedes
on_lease_heal_example =
    on_lease_heal three six held_three held_six 50 refl refl refl refl (omega arith) refl

-- Device 1 believes in the lease of device 6.
abbrev one : Election
one = record { me = 1; held = some held_six; seen_term = 2 }

yield-on_yield_example : (on_yield one 6 2).0.held ≡ none
unfolding on_lease on_claim
yield-on_yield_example =
    yield-on_yield six one held_six held_six lease_nine 50 refl refl refl refl refl (inl refl)
