-- ===== src/Core/Ownership.antt =====
-- crates/mouser-core/src/ownership.rs: who owns input, as a token with an epoch.
pub mod Epochs
pub mod Handoff
use mouser.Prelude.{
  ℕ, ◌+◌, ◌<◌, Bool, true, false, not, ◌&&◌, Option, none, some, ltb, ◌==◌, if◌then◌else◌,
}
use mouser.Prelude.Sat.{u64_max, saturating_add}
use mouser.Core.DeviceId.{DeviceId}
use mouser.Protocol.Enums.{FocusKind, TransferReason}

pub data RejectReason : Type 0 where
  stale_epoch lost_tiebreak equal_epoch_not_reclaim : RejectReason

pub data OwnershipUpdate : Type 0 where
  accepted : DeviceId → ℕ → OwnershipUpdate
  rejected : RejectReason → OwnershipUpdate

pub record Ownership : Type 0 where
  pub me : DeviceId
  pub owner : DeviceId
  pub epoch : ℕ
  pub focus : FocusKind
  pub reclaim_origin : Bool

unfoldable pub new : DeviceId → Ownership
new me = record { me = me; owner = me; epoch = 0; focus = FocusKind.active; reclaim_origin = false }

unfoldable pub is_owner : Ownership → Bool
is_owner o = o.owner == o.me

-- The new state, and the minted epoch if this device may mint one.
unfoldable pub grant_to : Ownership → DeviceId → Ownership × Option ℕ
unfolding is_owner
grant_to o target =
    if not (is_owner o)
    then (o, none)
    else (let new_epoch = saturating_add u64_max o.epoch 1 in
        (
          record o {
            owner = target;
            epoch = new_epoch;
            focus = if target == o.me then FocusKind.active else FocusKind.standby;
            reclaim_origin = false;
          },
          some new_epoch,
        ))

unfoldable pub reclaim : Ownership → Ownership × ℕ
reclaim o =
    let new_epoch = saturating_add u64_max o.epoch 1 in
    (
      record o { owner = o.me; epoch = new_epoch; focus = FocusKind.active; reclaim_origin = true },
      new_epoch,
    )

unfoldable pub adopt : Ownership → DeviceId → ℕ → Bool → Ownership × OwnershipUpdate
adopt o owner epoch is_reclaim = (
  record o {
    owner = owner;
    epoch = epoch;
    focus = if owner == o.me then FocusKind.active else FocusKind.standby;
    reclaim_origin = is_reclaim;
  },
  accepted owner epoch,
)

unfoldable pub observe : Ownership → DeviceId → ℕ → Bool → Ownership × OwnershipUpdate
unfolding adopt
observe o owner epoch is_reclaim =
    if ltb o.epoch epoch
    then adopt o owner epoch is_reclaim
    else (if epoch == o.epoch && not (owner == o.owner)
        then (if not (o.reclaim_origin && is_reclaim)
            then (o, rejected equal_epoch_not_reclaim)
            else (if ltb owner o.owner
                then adopt o owner epoch is_reclaim
                else (o, rejected lost_tiebreak)))
        else (o, rejected stale_epoch))

-- `reason == TransferReason::LocalReclaim`.
unfoldable pub is_local_reclaim : TransferReason → Bool
is_local_reclaim TransferReason.local_reclaim = true
is_local_reclaim _ = false

unfoldable pub observe_with_reason :
    Ownership → DeviceId → ℕ → TransferReason → Ownership × OwnershipUpdate
unfolding observe is_local_reclaim
observe_with_reason o owner epoch reason = observe o owner epoch (is_local_reclaim reason)

unfoldable pub mark_input_blocked : Ownership → Ownership
mark_input_blocked o = record o { focus = FocusKind.input_blocked }

unfoldable pub mark_disconnected : Ownership → Ownership
mark_disconnected o = record o { focus = FocusKind.disconnected }
