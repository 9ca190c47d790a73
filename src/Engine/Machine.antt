-- ===== src/Engine/Machine.antt =====
-- crates/mouser-engine/src/core.rs: what the source does with local
-- input and with time. Each handler returns the new state and the actions for the runtime.
use mouser.Prelude.{
  ℕ, ◌-◌, Bool, true, false, not, ◌&&◌, ◌||◌, List, [], ◌∷◌, ◌++◌, Option, none, some, leb, ◌==◌,
  if◌then◌else◌,
}
use mouser.Prelude.Int.{ℤ, pos, ◌+ℤ◌, leb_ℤ, max_ℤ, wrap_i32, saturating_add_i32}
use mouser.Prelude.Sat.{u32_max, u64_max, saturating_add}
use mouser.Core.DeviceId.{to_vec}
use mouser.Core.Ownership.{Ownership}
use mouser.Core.Ownership
use mouser.Protocol.Enums.{TransferReason, ScrollUnit, GoodbyeReason}
use mouser.Protocol.Messages.{
  type_heartbeat, type_goodbye, type_ownership_transfer, type_key_event, type_pointer_button,
  type_scroll,
}
use mouser.Engine.Types.{
  source, target, passive_edge, active_forward, LocalInputEvent, cursor_moved, button_event,
  key_event, scroll_event, warp_cursor, pass_through, suppress, Action, send_control, send_motion,
  inject, capture, set_capture_mode, owner_changed, set_cursor_visible, default_guard, no_keys,
  revoke_epoch, refill, PendingAck, new_pending,
}
use mouser.Engine.Geometry.{
  max_index, clamp, crosses_out, local_left_cross_edge, local_escape_back, homeward_delta,
  escape_threshold, crosses_back, peer_left_entry_edge, entry_point, return_point,
}
use mouser.Engine.State.{
  heartbeat_miss_limit, EngineCore, Codecs, encode, is_owner, epoch, is_source, reset_out, next_ctr,
  next_seq,
}

module _ (cs : Codecs) where
  unfoldable pub reclaim_local : EngineCore → EngineCore × List Action
  reclaim_local s =
      let (ownership, epoch) = Ownership.reclaim s.ownership in
      let me = s.ownership.me in
      let message = encode cs.transfer (record {
        to = to_vec me;
        owner_epoch = epoch;
        layout_rev = 0;
        reason = TransferReason.local_reclaim;
      }) in
      (
        record (reset_out s) {
          ownership = ownership;
          replay_guard = default_guard;
          held_keys = no_keys;
          input_auth = revoke_epoch s.input_auth;
          pending_ack = none;
          reclaim_armed = true;
          cross_out_armed = false;
        },
        set_capture_mode passive_edge
            ∷ send_control type_ownership_transfer message
            ∷ set_cursor_visible true
            ∷ owner_changed me epoch
            ∷ capture pass_through
            ∷ [],
      )

  -- The part of `cross_to_peer` behind a successful grant at the given epoch.
  unfoldable pub hand_over : EngineCore → Ownership → ℕ → ℤ → ℤ → EngineCore × List Action
  hand_over s ownership epoch x y =
      let (peer_x, peer_y) = entry_point s.layout x y in
      let message = encode cs.transfer (record {
        to = to_vec s.peer;
        owner_epoch = epoch;
        layout_rev = 0;
        reason = TransferReason.edge_cross;
      }) in
      (
        record (reset_out s) {
          ownership = ownership;
          replay_guard = default_guard;
          held_keys = no_keys;
          input_auth = revoke_epoch s.input_auth;
          pending_ack = some (new_pending epoch);
          peer_x = peer_x;
          peer_y = peer_y;
          reclaim_armed = false;
          escape_travel = pos 0;
        },
        set_capture_mode active_forward
            ∷ send_control type_ownership_transfer message
            ∷ set_cursor_visible false
            ∷ owner_changed s.peer epoch
            ∷ capture suppress
            ∷ [],
      )

  unfoldable pub cross_to_peer : EngineCore → ℤ → ℤ → EngineCore × List Action
  cross_to_peer s x y =
      let (ownership, minted) = Ownership.grant_to s.ownership s.peer in
      elim minted [
        | none ↦ (s, capture pass_through ∷ [])
        | some epoch ↦ hand_over s ownership epoch x y
      ]

  -- `on_cursor` while the cursor is on this screen.
  unfoldable pub on_cursor_here : EngineCore → ℤ → ℤ → ℤ → ℤ → EngineCore × List Action
  on_cursor_here s x y dx dy =
      if not s.cross_out_armed && local_left_cross_edge s.layout x y
      then (record s { cross_out_armed = true }, capture pass_through ∷ [])
      else (if s.cross_out_armed && not s.suppress_blocked && crosses_out s.layout x y dx dy
          then cross_to_peer s x y
          else (s, capture pass_through ∷ []))

  -- The last part of `on_cursor` on the peer: the peer's cursor moves, and may come back.
  unfoldable pub drive_peer : EngineCore → ℤ → ℤ → EngineCore × List Action
  drive_peer s dx dy =
      let peer_x = clamp (saturating_add_i32 s.peer_x dx) (pos 0) (max_index s.layout.peer_width) in
      let peer_y =
        clamp (saturating_add_i32 s.peer_y dy) (pos 0) (max_index s.layout.peer_height) in
      let armed = s.reclaim_armed || peer_left_entry_edge s.layout peer_x peer_y in
      let s' = record s { peer_x = peer_x; peer_y = peer_y; reclaim_armed = armed } in
      if armed && crosses_back s.layout dx dy peer_x peer_y
      then (let (back, actions) = reclaim_local s' in
          let (x, y) = return_point s.layout peer_x peer_y in
          (back, actions ++ (inject (warp_cursor 0 x y) ∷ [])))
      else (let s'' = next_seq s' in
          (
            s'',
            send_motion (record {
              owner_epoch = epoch s;
              seq = s''.out_seq;
              display_id = 0;
              x = peer_x;
              y = peer_y;
            })
                ∷ capture suppress
                ∷ [],
          ))

  unfoldable pub on_cursor_away : EngineCore → ℤ → ℤ → ℤ → ℤ → EngineCore × List Action
  on_cursor_away s x y dx dy =
      if local_escape_back s.layout x y dx dy
      then reclaim_local s
      else (let travel =
            max_ℤ (wrap_i32 (s.escape_travel +ℤ homeward_delta s.layout dx dy)) (pos 0) in
          let s' = record s { escape_travel = travel } in
          if leb_ℤ (escape_threshold s.layout) travel
          then reclaim_local s'
          else drive_peer s' dx dy)

  unfoldable pub on_cursor : EngineCore → ℤ → ℤ → ℤ → ℤ → Bool → EngineCore × List Action
  on_cursor s x y dx dy owns =
      if owns then on_cursor_here s x y dx dy else on_cursor_away s x y dx dy

  -- An event other than motion, while the peer owns input.
  unfoldable pub forward : EngineCore → LocalInputEvent → EngineCore × List Action
  forward s (cursor_moved display_id x y dx dy) = (s, [])
  forward s (key_event usage down mods) =
      let s' = next_ctr s in
      (
        s',
        send_control type_key_event (
              encode cs.key (record {
                usage = usage;
                down = down;
                mods = mods;
                owner_epoch = epoch s;
                ctr = s'.out_ctr;
              }))
            ∷ capture suppress
            ∷ [],
      )
  forward s (button_event button down) =
      let s' = next_ctr s in
      (
        s',
        send_control type_pointer_button (
              encode cs.button
                (record { button = button; down = down; owner_epoch = epoch s; ctr = s'.out_ctr }))
            ∷ capture suppress
            ∷ [],
      )
  forward s (scroll_event dx dy) =
      let s' = next_ctr s in
      (
        s',
        send_control type_scroll (
              encode cs.scroll (record {
                dx = dx;
                dy = dy;
                unit = ScrollUnit.logical_pixel;
                owner_epoch = epoch s;
                ctr = s'.out_ctr;
              }))
            ∷ capture suppress
            ∷ [],
      )

  unfoldable pub on_source_input : EngineCore → LocalInputEvent → EngineCore × List Action
  on_source_input s (cursor_moved display_id x y dx dy) = on_cursor s x y dx dy (is_owner s)
  on_source_input s event = if is_owner s then (s, capture pass_through ∷ []) else forward s event

  unfoldable pub on_local_input : EngineCore → LocalInputEvent → EngineCore × List Action
  on_local_input s event = elim s.role [
    | target ↦ (s, capture pass_through ∷ [])
    | source ↦ on_source_input s event
  ]

  unfoldable pub on_suppress_unavailable : EngineCore → EngineCore × List Action
  on_suppress_unavailable s = elim s.role [
    | target ↦ (s, [])
    | source ↦
        (let s' = record s { suppress_blocked = true } in
          if is_owner s then (s', []) else reclaim_local s')
  ]

  -- What `on_tick` does behind the heartbeat, the refill and the pending grant.
  unfoldable pub count_miss : EngineCore → EngineCore × List Action
  count_miss s =
      let s' = record s { misses = saturating_add u32_max s.misses 1 } in
      if is_source s.role && not (is_owner s) && leb heartbeat_miss_limit s'.misses
      then reclaim_local s'
      else (s', [])

  unfoldable pub wait_ack : EngineCore → Option PendingAck → EngineCore × List Action
  wait_ack s none = count_miss s
  wait_ack s (some pending) =
      if pending.ticks_left == 0
      then reclaim_local s
      else count_miss
          (record s { pending_ack = some (record pending { ticks_left = pending.ticks_left - 1 }) })

  unfoldable pub on_tick : EngineCore → EngineCore × List Action
  on_tick s =
      let hb_seq = saturating_add u64_max s.hb_seq 1 in
      let s' = record s { hb_seq = hb_seq; input_rate = refill s.input_rate } in
      let (s'', actions) = wait_ack s' s.pending_ack in
      (s'', send_control type_heartbeat (encode cs.heartbeat (record { seq = hb_seq })) ∷ actions)

  unfoldable pub goodbye : GoodbyeReason → ℕ × List ℕ
  goodbye reason = (type_goodbye, encode cs.goodbye (record { reason = reason }))
