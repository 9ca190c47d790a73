-- ===== src/Engine/State.antt =====
-- crates/mouser-engine/src/core.rs: the state of the engine, how it starts, and its small readers and
-- setters.
use mouser.Prelude.{ℕ, Bool, true, false, List, [], ◌∷◌, Option, none, ok, err, ◌==◌, if◌then◌else◌}
use mouser.Prelude.Int.{ℤ, pos}
use mouser.Prelude.Sat.{u32_max, u64_max, saturating_add}
use mouser.Core.DeviceId.{DeviceId}
use mouser.Core.Ownership.{Ownership}
use mouser.Protocol.Codec.{Serde, to_cbor}
use mouser.Protocol.Messages.{
  Ping, Pong, Heartbeat, Goodbye, OwnershipTransfer, OwnershipAck, KeyEvent, PointerButton, Scroll,
}
use mouser.Engine.Types.{
  Role, source, target, EdgeLayout, side_by_side, CaptureMode, off, passive_edge, active_forward,
  Action, set_capture_mode, set_cursor_visible, ReplayGuard, default_guard, HeldKeys, no_keys,
  InputAuth, new_trusted, InputRate, full, PendingAck,
}
use mouser.Core.Ownership

abbrev pub heartbeat_miss_limit : ℕ
heartbeat_miss_limit = 3

pub record EngineCore : Type 0 where
  pub role : Role
  pub peer : DeviceId
  pub ownership : Ownership
  pub layout : EdgeLayout
  pub out_ctr : ℕ
  pub out_seq : ℕ
  pub replay_guard : ReplayGuard
  pub held_keys : HeldKeys
  pub input_auth : InputAuth
  pub input_rate : InputRate
  pub pending_ack : Option PendingAck
  pub peer_x : ℤ
  pub peer_y : ℤ
  pub reclaim_armed : Bool
  pub cross_out_armed : Bool
  pub misses : ℕ
  pub hb_seq : ℕ
  pub suppress_blocked : Bool
  pub escape_travel : ℤ

-- The serializers of the messages that the engine sends and reads.
pub record Codecs : Type 0 where
  pub transfer : Serde OwnershipTransfer
  pub ack : Serde OwnershipAck
  pub key : Serde KeyEvent
  pub button : Serde PointerButton
  pub scroll : Serde Scroll
  pub heartbeat : Serde Heartbeat
  pub goodbye : Serde Goodbye
  pub ping : Serde Ping
  pub pong : Serde Pong

-- `to_cbor(value).unwrap_or_default()`.
unfoldable pub encode : {T : Type 0} → Serde T → T → List ℕ
encode serde value = elim (to_cbor serde value) [ ok bytes ↦ bytes | err _ ↦ [] ]

unfoldable pub new : Role → DeviceId → DeviceId → EdgeLayout → EngineCore
new role me peer layout = record {
  role = role;
  peer = peer;
  ownership = Ownership.new me;
  layout = layout;
  out_ctr = 0;
  out_seq = 0;
  replay_guard = default_guard;
  held_keys = no_keys;
  input_auth = new_trusted;
  input_rate = full;
  pending_ack = none;
  peer_x = pos 0;
  peer_y = pos 0;
  reclaim_armed = true;
  cross_out_armed = true;
  misses = 0;
  hb_seq = 0;
  suppress_blocked = false;
  escape_travel = pos 0;
}

unfoldable pub new_source : DeviceId → DeviceId → EdgeLayout → EngineCore
new_source me peer layout = new source me peer layout

unfoldable pub new_target : DeviceId → DeviceId → EngineCore
new_target me peer = new target me peer (side_by_side (pos 0) (pos 0) (pos 0) (pos 0))

abbrev pub is_owner : EngineCore → Bool
is_owner s = s.ownership.owner == s.ownership.me

abbrev pub epoch : EngineCore → ℕ
epoch s = s.ownership.epoch

abbrev pub is_source : Role → Bool
is_source source = true
is_source target = false

unfoldable pub set_peer_trusted : EngineCore → Bool → EngineCore
set_peer_trusted s trusted = record s {
  input_auth = record (s.input_auth) { peer_trusted = trusted };
}

unfoldable pub set_input_allowed : EngineCore → Bool → EngineCore
set_input_allowed s allowed = record s {
  input_auth = record (s.input_auth) { input_allowed = allowed };
}

unfoldable pub capture_mode : EngineCore → CaptureMode
capture_mode s = elim s.role [
  | target ↦ off
  | source ↦ (if is_owner s then passive_edge else active_forward)
]

unfoldable pub initial_actions : EngineCore → List Action
initial_actions s = set_cursor_visible (is_owner s) ∷ set_capture_mode (capture_mode s) ∷ []

abbrev pub reset_out : EngineCore → EngineCore
reset_out s = record s { out_ctr = 0; out_seq = 0 }

-- `next_ctr` and `next_seq`: the state with the counter raised, which is then read from it.
abbrev pub next_ctr : EngineCore → EngineCore
next_ctr s = record s { out_ctr = saturating_add u64_max s.out_ctr 1 }

abbrev pub next_seq : EngineCore → EngineCore
next_seq s = record s { out_seq = saturating_add u32_max s.out_seq 1 }
