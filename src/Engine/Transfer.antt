-- ===== src/Engine/Transfer.antt =====
-- crates/mouser-engine/src/core/wire.rs: the transfer of ownership and its acknowledgement.
use mouser.Prelude.{
  ℕ, Bool, true, false, not, ◌&&◌, List, [], ◌∷◌, Option, none, some, Result, ok, err, ◌==◌,
  if◌then◌else◌,
}
use mouser.Core.DeviceId.{DeviceId, to_id}
use mouser.Core.Ownership.{Ownership, OwnershipUpdate, accepted, rejected}
use mouser.Protocol.Codec.{CodecError, from_cbor}
use mouser.Protocol.Messages.{type_ownership_ack, OwnershipTransfer, OwnershipAck}
use mouser.Engine.Types.{
  Action, send_control, send_motion, set_capture_mode, owner_changed, set_cursor_visible,
  default_guard, no_keys, authorize_epoch, revoke_epoch, can_accept_grant, full,
}
use mouser.Engine.State.{
  EngineCore, Codecs, encode, is_source, epoch, capture_mode, reset_out, next_seq,
}
use mouser.Engine.Machine.{reclaim_local}
use mouser.Core.Ownership

-- What an accepted transfer does to the state that already holds the new ownership.
unfoldable pub enter_ownership : EngineCore → DeviceId → ℕ → EngineCore
enter_ownership s owner epoch =
    let s' = record (reset_out s) {
      replay_guard = default_guard;
      held_keys = no_keys;
      misses = 0;
      pending_ack = none;
    } in
    if owner == s.ownership.me
    then record s' {
      input_auth = authorize_epoch s.input_auth epoch;
      input_rate = full;
      cross_out_armed = if is_source s.role then false else s.cross_out_armed;
    }
    else record s' {
      input_auth = revoke_epoch s.input_auth;
      reclaim_armed = if is_source s.role then false else s.reclaim_armed;
    }

module _ (cs : Codecs) where
  unfoldable pub on_accepted : EngineCore → DeviceId → ℕ → EngineCore × List Action
  on_accepted s owner epoch =
      let s' = enter_ownership s owner epoch in
      let ack = encode cs.ack (record { owner_epoch = epoch; accepted = true; reason = none }) in
      (
        s',
        send_control type_ownership_ack ack
            ∷ set_cursor_visible (owner == s.ownership.me)
            ∷ owner_changed owner epoch
            ∷ (if is_source s.role then set_capture_mode (capture_mode s') ∷ [] else []),
      )

  unfoldable pub refuse : EngineCore → ℕ → Bool → EngineCore × List Action
  refuse s owner_epoch stale = (
    s,
    send_control type_ownership_ack (
          encode cs.ack (record {
            owner_epoch = owner_epoch;
            accepted = false;
            reason = some (if stale then "stale epoch" else "input not permitted");
          }))
        ∷ [],
  )

  unfoldable pub transfer_to : EngineCore → DeviceId → OwnershipTransfer → EngineCore × List Action
  transfer_to s owner t =
      if owner == s.ownership.me && not (can_accept_grant s.input_auth)
      then refuse s t.owner_epoch false
      else (let (ownership, update) =
            Ownership.observe_with_reason s.ownership owner t.owner_epoch t.reason in
          elim update [
            | accepted owner' epoch ↦ on_accepted (record s { ownership = ownership }) owner' epoch
            | rejected _ ↦ refuse s t.owner_epoch true
          ])

  unfoldable pub transfer_for :
      EngineCore → OwnershipTransfer → Option DeviceId → EngineCore × List Action
  transfer_for s t none = (s, [])
  transfer_for s t (some owner) = transfer_to s owner t

  unfoldable pub read_transfer :
      EngineCore → Result OwnershipTransfer CodecError → EngineCore × List Action
  read_transfer s (err _) = (s, [])
  read_transfer s (ok t) = transfer_for s t (to_id t.to)

  unfoldable pub on_transfer : EngineCore → List ℕ → EngineCore × List Action
  on_transfer s payload = read_transfer s (from_cbor cs.transfer payload)

  unfoldable pub take_ack : EngineCore → OwnershipAck → EngineCore × List Action
  take_ack s ack = elim s.pending_ack [
    | none ↦ (s, [])
    | some pending ↦
        (if not (ack.owner_epoch == pending.epoch)
          then (s, [])
          else (let s' = record s { pending_ack = none } in
              if not ack.accepted
              then reclaim_local cs s'
              else (let s'' = next_seq s' in
                  (
                    s'',
                    send_motion (record {
                      owner_epoch = ack.owner_epoch;
                      seq = s''.out_seq;
                      display_id = 0;
                      x = s.peer_x;
                      y = s.peer_y;
                    })
                        ∷ [],
                  ))))
  ]

  unfoldable pub on_ownership_ack : EngineCore → List ℕ → EngineCore × List Action
  on_ownership_ack s payload = elim (from_cbor cs.ack payload) [
    | err _ ↦ (s, [])
    | ok ack ↦ take_ack s ack
  ]
