-- ===== src/Engine/Types.antt =====
-- crates/mouser-engine/src/core/types.rs: the parts of the engine's state, and what it asks for.
use mouser.Prelude.{
  ℕ, ◌-◌, Bool, true, false, not, ◌&&◌, ◌||◌, List, [], ◌∷◌, Option, none, some, leb, ◌==◌,
  if◌then◌else◌, min,
}
use mouser.Prelude.Int.{ℤ}
use mouser.Prelude.Sat.{u16_max, saturating_add}
use mouser.Core.DeviceId.{DeviceId}
use mouser.Protocol.Messages.{PointerMotion}
use Prim.Native.String.{String}
use text.Mathlib.Text.{◌==◌ as str_eq}

abbrev pub ownership_ack_ticks : ℕ
ownership_ack_ticks = 2

abbrev pub input_rate_burst : ℕ
input_rate_burst = 240

abbrev pub input_rate_refill : ℕ
input_rate_refill = 120

pub data Edge : Type 0 where
  left right top bottom : Edge

pub data Role : Type 0 where
  source target : Role

pub record EdgeLayout : Type 0 where
  pub width : ℤ
  pub height : ℤ
  pub peer_width : ℤ
  pub peer_height : ℤ
  pub edge : Edge

abbrev pub with_edge : ℤ → ℤ → ℤ → ℤ → Edge → EdgeLayout
with_edge width height peer_width peer_height edge = record {
  width = width;
  height = height;
  peer_width = peer_width;
  peer_height = peer_height;
  edge = edge;
}

abbrev pub side_by_side : ℤ → ℤ → ℤ → ℤ → EdgeLayout
side_by_side width height peer_width peer_height =
    with_edge width height peer_width peer_height Edge.right

unfoldable pub from_setting : String → Edge
from_setting s =
    if str_eq s "left"
    then Edge.left
    else (if str_eq s "top"
        then Edge.top
        else (if str_eq s "bottom" then Edge.bottom else Edge.right))

-- crates/mouser-core/src/platform.rs: the scroll unit of the platform interfaces.
pub data CoreScrollUnit : Type 0 where
  detent120 logical_pixel : CoreScrollUnit

pub data CaptureMode : Type 0 where
  off passive_edge active_forward : CaptureMode

pub data LocalInputEvent : Type 0 where
  cursor_moved : (display_id : ℕ) (x y dx dy : ℤ) → LocalInputEvent
  button_event : (button : ℕ) (down : Bool) → LocalInputEvent
  key_event : (usage : ℕ) (down : Bool) (mods : ℕ) → LocalInputEvent
  scroll_event : (dx dy : ℤ) → LocalInputEvent

pub data Inject : Type 0 where
  move_cursor : (display_id : ℕ) (x y : ℤ) → Inject
  warp_cursor : (display_id : ℕ) (x y : ℤ) → Inject
  button : (button : ℕ) (down : Bool) → Inject
  key : (usage : ℕ) (down : Bool) (mods : ℕ) → Inject
  scroll : (dx dy : ℤ) (unit : CoreScrollUnit) → Inject

pub data CaptureDecision : Type 0 where
  pass_through suppress : CaptureDecision

pub data Action : Type 0 where
  send_control : ℕ → List ℕ → Action
  send_motion : PointerMotion → Action
  inject : Inject → Action
  capture : CaptureDecision → Action
  set_capture_mode : CaptureMode → Action
  owner_changed : DeviceId → ℕ → Action
  set_cursor_visible : Bool → Action

pub record ReplayGuard : Type 0 where
  pub epoch : ℕ
  pub last_ctr : Option ℕ
  pub last_seq : Option ℕ

abbrev pub default_guard : ReplayGuard
default_guard = record { epoch = 0; last_ctr = none; last_seq = none }

-- `last.is_some_and(|prev| n <= prev)`.
abbrev pub not_after : Option ℕ → ℕ → Bool
not_after none n = false
not_after (some prev) n = leb n prev

abbrev pub enter_epoch : ReplayGuard → ℕ → ReplayGuard
enter_epoch g epoch =
    if not (g.epoch == epoch) then record { epoch = epoch; last_ctr = none; last_seq = none } else g

unfoldable pub accept_ctr : ReplayGuard → ℕ → ℕ → ℕ → ReplayGuard × Bool
accept_ctr g epoch ctr current_epoch =
    if not (epoch == current_epoch)
    then (g, false)
    else (let g' = enter_epoch g epoch in
        if not_after g'.last_ctr ctr
        then (g', false)
        else (record g' { last_ctr = some ctr }, true))

unfoldable pub accept_seq : ReplayGuard → ℕ → ℕ → ℕ → ReplayGuard × Bool
accept_seq g epoch seq current_epoch =
    if not (epoch == current_epoch)
    then (g, false)
    else (let g' = enter_epoch g epoch in
        if not_after g'.last_seq seq
        then (g', false)
        else (record g' { last_seq = some seq }, true))

pub data KeyTransition : Type 0 where
  press release repeat : KeyTransition

-- `BTreeSet<u16>`, as the list of its members.
pub record HeldKeys : Type 0 where
  pub keys : List ℕ

unfoldable pub contains : ℕ → List ℕ → Bool
contains usage [] = false
contains usage (k ∷ ks) = k == usage || contains usage ks

unfoldable pub without : ℕ → List ℕ → List ℕ
without usage [] = []
without usage (k ∷ ks) = if k == usage then without usage ks else k ∷ without usage ks

abbrev pub no_keys : HeldKeys
no_keys = record { keys = [] }

unfoldable pub observe_key : HeldKeys → ℕ → Bool → HeldKeys × KeyTransition
unfolding contains without
observe_key h usage down =
    if down
    then (if contains usage h.keys then (h, repeat) else (record { keys = usage ∷ h.keys }, press))
    else (record { keys = without usage h.keys }, release)

pub record InputAuth : Type 0 where
  pub peer_trusted : Bool
  pub input_allowed : Bool
  pub accepted_epoch : Option ℕ

abbrev pub new_trusted : InputAuth
new_trusted = record { peer_trusted = true; input_allowed = true; accepted_epoch = none }

abbrev pub authorize_epoch : InputAuth → ℕ → InputAuth
authorize_epoch a epoch = record a { accepted_epoch = some epoch }

abbrev pub revoke_epoch : InputAuth → InputAuth
revoke_epoch a = record a { accepted_epoch = none }

abbrev pub is_epoch : Option ℕ → ℕ → Bool
is_epoch none epoch = false
is_epoch (some e) epoch = e == epoch

abbrev pub allows_epoch : InputAuth → ℕ → Bool
allows_epoch a epoch = a.peer_trusted && a.input_allowed && is_epoch a.accepted_epoch epoch

abbrev pub can_accept_grant : InputAuth → Bool
can_accept_grant a = a.peer_trusted && a.input_allowed

pub record InputRate : Type 0 where
  pub tokens : ℕ

abbrev pub full : InputRate
full = record { tokens = input_rate_burst }

unfoldable pub refill : InputRate → InputRate
refill r = record {
  tokens = min (saturating_add u16_max r.tokens input_rate_refill) input_rate_burst;
}

unfoldable pub allow_one : InputRate → InputRate × Bool
allow_one r = if r.tokens == 0 then (r, false) else (record { tokens = r.tokens - 1 }, true)

pub record PendingAck : Type 0 where
  pub epoch : ℕ
  pub ticks_left : ℕ

abbrev pub new_pending : ℕ → PendingAck
new_pending epoch = record { epoch = epoch; ticks_left = ownership_ack_ticks }
