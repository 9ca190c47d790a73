-- ===== src/Core/Ownership/Epochs.antt =====
-- The acceptance rule of crates/mouser-core/src/ownership.rs: which claims move the token.
use mouser.Prelude.{
  ℕ, ◌≤◌, ◌<◌, ◌≡◌, refl, Bool, true, false, ◌⊎◌, ◌≢◌, inl, inr, List, [], ◌∷◌, ◌==◌, if◌then◌else◌,
  arith, All, ◌∙◌,
}
use mouser.Prelude.Sat.{u64_max}
use mouser.Core.DeviceId.{DeviceId}
use mouser.Core.Ownership.{
  Ownership, accepted, rejected, RejectReason, stale_epoch, lost_tiebreak, equal_epoch_not_reclaim,
  grant_to, reclaim, observe, observe_with_reason, mark_input_blocked, mark_disconnected,
}
use mouser.Protocol.Enums.{FocusKind, TransferReason}

-- A claim wins over a view if its epoch is greater, or if both are reclaims of one epoch and the
-- claim's owner is the lower one.
abbrev pub Wins : Ownership → DeviceId → ℕ → Bool → Type 0
Wins o owner epoch is_reclaim =
    (o.epoch < epoch)
    ⊎ ((epoch ≡ o.epoch) × (owner < o.owner) × (o.reclaim_origin ≡ true) × (is_reclaim ≡ true))

-- The view that a winning claim leaves.
abbrev pub taken : Ownership → DeviceId → ℕ → Bool → Ownership
taken o owner epoch is_reclaim = record {
  me = o.me;
  owner = owner;
  epoch = epoch;
  focus = if owner == o.me then FocusKind.active else FocusKind.standby;
  reclaim_origin = is_reclaim;
}

-- Why a claim that does not win is turned down.
abbrev pub Refused : Ownership → DeviceId → ℕ → Bool → RejectReason → Type 0
Refused o owner epoch is_reclaim stale_epoch =
    (epoch < o.epoch) ⊎ ((epoch ≡ o.epoch) × (owner ≡ o.owner))
Refused o owner epoch is_reclaim lost_tiebreak =
    (epoch ≡ o.epoch) × (o.owner < owner) × (o.reclaim_origin ≡ true) × (is_reclaim ≡ true)
Refused o owner epoch is_reclaim equal_epoch_not_reclaim =
    (epoch ≡ o.epoch) × (owner ≢ o.owner) × ((o.reclaim_origin ≡ false) ⊎ (is_reclaim ≡ false))

observe-Wins :
    (o : Ownership) (owner : DeviceId) (epoch : ℕ) (is_reclaim : Bool)
    → Wins o owner epoch is_reclaim
    → observe o owner epoch is_reclaim ≡ (taken o owner epoch is_reclaim, accepted owner epoch)
unfolding observe
observe-Wins o owner epoch is_reclaim (inl h) = ground arith
observe-Wins o owner epoch is_reclaim (inr h) = ground arith

observe-Refused :
    (o : Ownership) (owner : DeviceId) (epoch : ℕ) (is_reclaim : Bool) (r : RejectReason)
    → Refused o owner epoch is_reclaim r
    → observe o owner epoch is_reclaim ≡ (o, rejected r)
unfolding observe
observe-Refused o owner epoch is_reclaim stale_epoch h = ground arith
observe-Refused o owner epoch is_reclaim lost_tiebreak h = ground arith
observe-Refused o owner epoch is_reclaim equal_epoch_not_reclaim (same, other, h) =
    ground (arith, other)

Wins-or-Refused :
    (o : Ownership) (owner : DeviceId) (epoch : ℕ) (is_reclaim : Bool)
    → Wins o owner epoch is_reclaim ⊎ ((r : RejectReason) × Refused o owner epoch is_reclaim r)
Wins-or-Refused o owner epoch is_reclaim =
    split o.reclaim_origin is_reclaim refl refl (trichotomy o.epoch epoch)
      (trichotomy o.owner owner)
  where
    trichotomy : (m n : ℕ) → (m < n) ⊎ (n < m) ⊎ (n ≡ m)
    trichotomy m n = ground arith

    split :
        (b c : Bool)
        → o.reclaim_origin ≡ b
        → is_reclaim ≡ c
        → (o.epoch < epoch) ⊎ (epoch < o.epoch) ⊎ (epoch ≡ o.epoch)
        → (o.owner < owner) ⊎ (owner < o.owner) ⊎ (owner ≡ o.owner)
        → Wins o owner epoch is_reclaim ⊎ ((r : RejectReason) × Refused o owner epoch is_reclaim r)
    split b c p q (inl h) k = inl (inl h)
    split b c p q (inr (inl h)) k = inr (stale_epoch, inl h)
    split b c p q (inr (inr h)) (inr (inr k)) = inr (stale_epoch, inr (h, k))
    split true true p q (inr (inr h)) (inl k) = inr (lost_tiebreak, (h, k, p, q))
    split true true p q (inr (inr h)) (inr (inl k)) = inl (inr (h, k, p, q))
    split false c p q (inr (inr h)) (inl k) =
        inr (equal_epoch_not_reclaim, (h, (λ e. absurd (omega arith)), inl p))
    split false c p q (inr (inr h)) (inr (inl k)) =
        inr (equal_epoch_not_reclaim, (h, (λ e. absurd (omega arith)), inl p))
    split true false p q (inr (inr h)) (inl k) =
        inr (equal_epoch_not_reclaim, (h, (λ e. absurd (omega arith)), inr q))
    split true false p q (inr (inr h)) (inr (inl k)) =
        inr (equal_epoch_not_reclaim, (h, (λ e. absurd (omega arith)), inr q))

-- Each claim either wins, and is then adopted with its owner, epoch and origin while the focus
-- follows the owner, or is refused for a reason that is true of it, and then changes nothing.
observe_lem :
    (o : Ownership) (owner : DeviceId) (epoch : ℕ) (is_reclaim : Bool)
    → (Wins o owner epoch is_reclaim
        × (observe o owner epoch is_reclaim
            ≡ (taken o owner epoch is_reclaim, accepted owner epoch)))
      ⊎ ((r : RejectReason) × Refused o owner epoch is_reclaim r
          × (observe o owner epoch is_reclaim ≡ (o, rejected r)))
observe_lem o owner epoch is_reclaim = elim (Wins-or-Refused o owner epoch is_reclaim) [
  | inl w ↦ inl (w, observe-Wins o owner epoch is_reclaim w)
  | inr (r, h) ↦ inr (r, h, observe-Refused o owner epoch is_reclaim r h)
]

-- What the machine can be asked to do.
pub data Event : Type 0 where
  grant : DeviceId → Event
  self_reclaim : Event
  claim : DeviceId → ℕ → TransferReason → Event
  input_blocked disconnected : Event

unfoldable pub step : Ownership → Event → Ownership
step o (grant target) = (grant_to o target).0
step o self_reclaim = (reclaim o).0
step o (claim owner epoch reason) = (observe_with_reason o owner epoch reason).0
step o input_blocked = mark_input_blocked o
step o disconnected = mark_disconnected o

unfoldable pub run : Ownership → List Event → Ownership
run o [] = o
run o (e ∷ es) = run (step o e) es

-- An epoch that comes off the wire is a `u64`.
abbrev pub IsFit : Event → Type 0
IsFit (claim owner epoch reason) = epoch ≤ u64_max
IsFit _ = Unit {0}

step-epoch :
    (o : Ownership) (e : Event)
    → IsFit e
    → o.epoch ≤ u64_max
    → ((step o e).me ≡ o.me) × (o.epoch ≤ (step o e).epoch) × ((step o e).epoch ≤ u64_max)
unfolding step grant_to reclaim observe_with_reason mark_input_blocked mark_disconnected
step-epoch o (grant target) f h = ground arith
step-epoch o self_reclaim f h = ground arith
step-epoch o (claim owner epoch reason) f h = ground arith
step-epoch o input_blocked f h = ground arith
step-epoch o disconnected f h = ground arith

step-same_epoch :
    (o : Ownership) (e : Event)
    → (step o e).epoch ≡ o.epoch
    → o.epoch < u64_max
    → (((step o e).owner ≡ o.owner) × ((step o e).reclaim_origin ≡ o.reclaim_origin))
      ⊎ (((step o e).owner < o.owner)
          × (o.reclaim_origin ≡ true)
          × ((step o e).reclaim_origin ≡ true))
unfolding step grant_to reclaim observe_with_reason mark_input_blocked mark_disconnected
step-same_epoch o (grant target) e h = ground arith
step-same_epoch o self_reclaim e h = ground arith
step-same_epoch o (claim owner epoch reason) e h = ground arith
step-same_epoch o input_blocked e h = ground arith
step-same_epoch o disconnected e h = ground arith

-- Over any history of events whose epochs are `u64` values the device keeps its id, its epoch never
-- falls, and it stays a `u64`.
run-epoch :
    (o : Ownership) (es : List Event)
    → All IsFit es
    → o.epoch ≤ u64_max
    → ((run o es).me ≡ o.me) × (o.epoch ≤ (run o es).epoch) × ((run o es).epoch ≤ u64_max)
unfolding run
run-epoch o [] f h = ground arith
run-epoch o (e ∷ es) f h =
    let (me, up, fit) = step-epoch o e f.0 h in
    let (me', up', fit') = run-epoch (step o e) es f.1 fit in (me' ∙ me, omega arith, fit')

-- Over a history of events with `u64` epochs that ends at the epoch where it began, below the
-- largest `u64`, the owner and the origin of the epoch are what they were, or the owner has become
-- a lower one and the epoch was won by a reclaim from the start. So an owner by a grant is never
-- displaced at its own epoch.
pub run-same_epoch :
    (o : Ownership) (es : List Event)
    → All IsFit es
    → o.epoch < u64_max
    → (run o es).epoch ≡ o.epoch
    → (((run o es).owner ≡ o.owner) × ((run o es).reclaim_origin ≡ o.reclaim_origin))
      ⊎ (((run o es).owner < o.owner)
          × (o.reclaim_origin ≡ true)
          × ((run o es).reclaim_origin ≡ true))
unfolding run
run-same_epoch o [] f h q = ground arith
run-same_epoch o (e ∷ es) f h q =
    let (me, up, fit) = step-epoch o e f.0 (omega arith) in
    let (me', up', fit') = run-epoch (step o e) es f.1 fit in
    let still : (step o e).epoch ≡ o.epoch = omega arith in
    let first = step-same_epoch o e still h in
    let rest = run-same_epoch (step o e) es f.1 (omega arith) (omega arith) in ground arith
