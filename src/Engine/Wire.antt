-- ===== src/Engine/Wire.antt =====
-- crates/mouser-engine/src/core/wire.rs: what the engine does with the peer's messages.
use mouser.Prelude.{
  ℕ, Bool, true, false, not, ◌&&◌, ◌||◌, List, [], ◌∷◌, none, some, ok, err, ◌==◌, if◌then◌else◌,
  if_cases, if_test, ◌≡◌,
}
use mouser.Core.DeviceId.{to_vec}
use mouser.Core.Ownership.{Ownership, OwnershipUpdate, accepted, rejected}
use mouser.Core.Ownership
use mouser.Protocol.Enums.{TransferReason, ScrollUnit}
use mouser.Protocol.Codec.{from_cbor}
use mouser.Protocol.Messages.{
  type_ping, type_pong, type_heartbeat, type_goodbye, type_ownership_transfer, type_ownership_ack,
  type_key_event, type_pointer_button, type_scroll, KeyEvent, Datagram, motion, motion_rel, unknown,
}
use mouser.Engine.Types.{
  Action, Inject, CoreScrollUnit, send_control, inject, move_cursor, owner_changed,
  set_cursor_visible, default_guard, accept_ctr, accept_seq, KeyTransition, repeat, no_keys,
  observe_key, revoke_epoch, allows_epoch, allow_one,
}
use mouser.Engine.State.{EngineCore, Codecs, encode, is_owner, is_source, epoch, reset_out}
use mouser.Engine.Machine.{reclaim_local}
use mouser.Engine.Transfer.{on_transfer, on_ownership_ack}

abbrev pub authorize_inject : EngineCore → ℕ → Bool
authorize_inject s owner_epoch = is_owner s && allows_epoch s.input_auth owner_epoch

module _ (cs : Codecs) where
  -- `!self.guard.accept_ctr(..) || !self.authorize_inject(..)`, negated.
  unfoldable pub admit : EngineCore → ℕ → ℕ → EngineCore × Bool
  admit s owner_epoch ctr =
      let (g, fresh) = accept_ctr s.replay_guard owner_epoch ctr (epoch s) in
      (record s { replay_guard = g }, fresh && authorize_inject s owner_epoch)

  unfoldable pub is_repeat : KeyTransition → Bool
  is_repeat repeat = true
  is_repeat _ = false

  -- An admitted key event.
  unfoldable pub press_key : EngineCore → KeyEvent → EngineCore × List Action
  press_key s k =
      let (held, transition) = observe_key s.held_keys k.usage k.down in
      let (rate, allowed) = allow_one s.input_rate in
      let s' = record s { held_keys = held; input_rate = rate } in
      if is_repeat transition && not allowed
      then (s', [])
      else (s', inject (Inject.key k.usage k.down k.mods) ∷ [])

  unfoldable pub on_key : EngineCore → List ℕ → EngineCore × List Action
  on_key s payload = elim (from_cbor cs.key payload) [
    | err _ ↦ (s, [])
    | ok k ↦
        (let (s', admitted) = admit s k.owner_epoch k.ctr in
          if not admitted then (s', []) else press_key s' k)
  ]

  unfoldable pub on_button : EngineCore → List ℕ → EngineCore × List Action
  on_button s payload = elim (from_cbor cs.button payload) [
    | err _ ↦ (s, [])
    | ok b ↦
        (let (s', admitted) = admit s b.owner_epoch b.ctr in
          if not admitted then (s', []) else (
            record s' { input_rate = (allow_one s.input_rate).0 },
            inject (Inject.button b.button b.down) ∷ [],
          ))
  ]

  unfoldable pub core_unit : ScrollUnit → CoreScrollUnit
  core_unit ScrollUnit.detent120 = CoreScrollUnit.detent120
  core_unit _ = CoreScrollUnit.logical_pixel

  unfoldable pub on_scroll : EngineCore → List ℕ → EngineCore × List Action
  on_scroll s payload = elim (from_cbor cs.scroll payload) [
    | err _ ↦ (s, [])
    | ok w ↦
        (let (s', admitted) = admit s w.owner_epoch w.ctr in
          if not admitted
          then (s', [])
          else (let (rate, allowed) = allow_one s.input_rate in
              let s'' = record s' { input_rate = rate } in
              if not allowed
              then (s'', [])
              else (s'', inject (Inject.scroll w.dx w.dy (core_unit w.unit)) ∷ [])))
  ]

  unfoldable pub on_ping : EngineCore → List ℕ → EngineCore × List Action
  on_ping s payload =
      let s' = record s { misses = 0 } in
      elim (from_cbor cs.ping payload) [
        | err _ ↦ (s', [])
        | ok p ↦ (s', send_control type_pong (encode cs.pong (record { id = p.id })) ∷ [])
      ]

  -- The payload is decoded and dropped.
  unfoldable pub on_goodbye : EngineCore → List ℕ → EngineCore × List Action
  on_goodbye s payload =
      if is_source s.role && not (is_owner s) then reclaim_local cs s else (s, [])

  unfoldable pub on_control : EngineCore → ℕ → List ℕ → EngineCore × List Action
  on_control s msg_type payload =
      if msg_type == type_ownership_transfer
      then on_transfer cs s payload
      else (if msg_type == type_ownership_ack
          then on_ownership_ack cs s payload
          else (if msg_type == type_key_event
              then on_key s payload
              else (if msg_type == type_pointer_button
                  then on_button s payload
                  else (if msg_type == type_scroll
                      then on_scroll s payload
                      else (if msg_type == type_ping
                          then on_ping s payload
                          else (if msg_type == type_pong || msg_type == type_heartbeat
                              then (record s { misses = 0 }, [])
                              else (if msg_type == type_goodbye
                                  then on_goodbye s payload
                                  else (s, []))))))))

  -- What each handler's result satisfies, the dispatcher's result satisfies.
  pub on_control_cases :
      (P : EngineCore × List Action → Type 0) (s : EngineCore) (msg_type : ℕ) (payload : List ℕ)
      → P (on_transfer cs s payload)
      → P (on_ownership_ack cs s payload)
      → (msg_type ≡ type_key_event → P (on_key s payload))
      → (msg_type ≡ type_pointer_button → P (on_button s payload))
      → (msg_type ≡ type_scroll → P (on_scroll s payload))
      → P (on_ping s payload)
      → P (record s { misses = 0 }, [])
      → P (on_goodbye s payload)
      → P (s, [])
      → P (on_control s msg_type payload)
  unfolding on_control
  on_control_cases P s t payload transfer ack key button scroll ping alive bye other =
      if_cases P (t == type_ownership_transfer) transfer (
        if_cases P (t == type_ownership_ack) ack (
          if_test P t type_key_event key (
            if_test P t type_pointer_button button (
              if_test P t type_scroll scroll (
                if_cases P (t == type_ping) ping (
                  if_cases P (t == type_pong || t == type_heartbeat) alive
                    (if_cases P (t == type_goodbye) bye other)))))))

  unfoldable pub on_motion : EngineCore → Datagram → EngineCore × List Action
  on_motion s (motion m) =
      let (g, fresh) = accept_seq s.replay_guard m.owner_epoch m.seq (epoch s) in
      let s' = record s { replay_guard = g } in
      if not (fresh && authorize_inject s m.owner_epoch)
      then (s', [])
      else (s', inject (move_cursor m.display_id m.x m.y) ∷ [])
  on_motion s (motion_rel m) = (s, [])
  on_motion s (unknown tag) = (s, [])

  -- Giving the input back after a failed injection, once it is blocked here.
  unfoldable pub give_back : EngineCore → EngineCore × List Action
  give_back s =
      let (ownership, minted) = Ownership.grant_to s.ownership s.peer in
      elim minted [
        | none ↦ (s, [])
        | some epoch ↦ (
          record (reset_out s) {
            ownership = ownership;
            replay_guard = default_guard;
            held_keys = no_keys;
          },
          send_control type_ownership_transfer (
                encode cs.transfer (record {
                  to = to_vec s.peer;
                  owner_epoch = epoch;
                  layout_rev = 0;
                  reason = TransferReason.ui_select;
                }))
              ∷ set_cursor_visible false
              ∷ owner_changed s.peer epoch
              ∷ [],
        )
      ]

  unfoldable pub on_injection_failed : EngineCore → EngineCore × List Action
  on_injection_failed s =
      let s' = record s {
        input_auth = revoke_epoch (record (s.input_auth) { input_allowed = false });
        held_keys = no_keys;
        ownership = Ownership.mark_input_blocked s.ownership;
      } in
      if not (is_owner s) then (s', []) else give_back s'
