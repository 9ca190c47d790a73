-- ===== src/Engine/Tests.antt =====
-- The engine core on concrete messages and screens.
use mouser.Prelude.{
  leb, ℕ, ◌≡◌, refl, true, false, List, [], ◌∷◌, none, some, Result, ok, err, length, arith,
  if◌then◌else◌, ◌==◌,
}
use mouser.Prelude.Int.{pos}
use Prim.Native.String.{String}
use mouser.Prelude.Sat.{u64_max}
use mouser.Core.Ownership
use mouser.Core.Ownership.{Ownership}
use mouser.Protocol.Enums.{TransferReason, FocusKind}
use mouser.Protocol.Codec.{Serde, from_cbor, to_cbor, starts_indefinite}
use mouser.Protocol.Messages.{
  type_key_event, OwnershipTransfer, OwnershipAck, KeyEvent, PointerMotion, motion,
}
use mouser.Engine.Types.{
  source, target, EdgeLayout, side_by_side, cursor_moved, authorize_epoch, new_trusted, new_pending,
  observe_key, contains, allow_one, accept_ctr, accept_seq,
}
use mouser.Engine.State.{EngineCore, Codecs, encode, new}
use mouser.Engine.Machine.{on_local_input}
use mouser.Engine.Wire.{on_control, on_motion, on_key, admit, press_key, is_repeat}
use mouser.Engine.Events.{local_input, tick, suppress_unavailable, run}
use mouser.Engine.Invariant.{Inv, run-new-Inv}
use mouser.Engine.Replay.{ReadsU64}
use mouser.Engine.Injection.{injects, stamp, Open, IsFresh, on_control_gate}
use mouser.Engine.Once.{on_control_once, is_newer, on_motion-is_newer}
use mouser.Engine.Capture.{decisions, decision, on_local_input_decides}
use mouser.Engine.Screen.{Driven, run-new-Driven}
use mouser.Engine.Handoff.{crossing, HandedOver, ReadsAcks, ReadsTransfers, crossing_lem}
use mouser.Engine.Silence.{Beat, heartbeat, count_ticks, beat, ticks, beat_reclaim, ticks_reclaim}
use mouser.Engine.Silence

-- Serializers that write a map header and then the fields, each as one number.
abbrev reason_number : TransferReason → ℕ
reason_number TransferReason.edge_cross = 0
reason_number TransferReason.hotkey = 1
reason_number TransferReason.ui_select = 2
reason_number TransferReason.local_reclaim = 3
reason_number TransferReason.unknown = 255

abbrev number_reason : ℕ → TransferReason
number_reason n =
    if n == 0
    then TransferReason.edge_cross
    else (if n == 1
        then TransferReason.hotkey
        else (if n == 2
            then TransferReason.ui_select
            else (if n == 3 then TransferReason.local_reclaim else TransferReason.unknown)))

unfoldable read_transfer_bytes : List ℕ → Result (OwnershipTransfer × ℕ) String
read_transfer_bytes (b ∷ e ∷ r ∷ n ∷ to) =
    if leb e u64_max
    then ok (
      record { to = to; owner_epoch = e; layout_rev = r; reason = number_reason n },
      length (b ∷ e ∷ r ∷ n ∷ to),
    )
    else err "epoch"
read_transfer_bytes _ = err "short"

unfoldable read_ack_bytes : List ℕ → Result (OwnershipAck × ℕ) String
read_ack_bytes (b ∷ e ∷ []) = ok (record { owner_epoch = e; accepted = true; reason = none }, 2)
read_ack_bytes _ = err "length"

unfoldable read_key_bytes : List ℕ → Result (KeyEvent × ℕ) String
read_key_bytes (b ∷ u ∷ e ∷ c ∷ []) =
    ok (record { usage = u; down = true; mods = 0; owner_epoch = e; ctr = c }, 4)
read_key_bytes _ = err "length"

abbrev no_serde : {T : Type 0} → Serde T
no_serde = record { into_writer = λ _. err "none"; from_reader = λ _. err "none" }

abbrev codecs : Codecs
codecs = record {
  transfer = record {
    into_writer = λ t. ok (0xa4 ∷ t.owner_epoch ∷ t.layout_rev ∷ reason_number t.reason ∷ t.to);
    from_reader = read_transfer_bytes;
  };
  ack = record { into_writer = λ a. ok (0xa3 ∷ a.owner_epoch ∷ []); from_reader = read_ack_bytes };
  key = record {
    into_writer = λ k. ok (0xa5 ∷ k.usage ∷ k.owner_epoch ∷ k.ctr ∷ []);
    from_reader = read_key_bytes;
  };
  button = no_serde;
  scroll = no_serde;
  heartbeat = no_serde;
  goodbye = no_serde;
  ping = no_serde;
  pong = no_serde;
}

number_reason_lem : (r : TransferReason) → number_reason (reason_number r) ≡ r
number_reason_lem TransferReason.edge_cross = refl
number_reason_lem TransferReason.hotkey = refl
number_reason_lem TransferReason.ui_select = refl
number_reason_lem TransferReason.local_reclaim = refl
number_reason_lem TransferReason.unknown = refl

codecs-ReadsTransfers : ReadsTransfers codecs
unfolding from_cbor encode to_cbor starts_indefinite read_transfer_bytes
codecs-ReadsTransfers t h = ground (arith, number_reason_lem t.reason)

codecs-ReadsAcks : ReadsAcks codecs
unfolding from_cbor encode to_cbor starts_indefinite read_ack_bytes
codecs-ReadsAcks e h = refl

codecs-ReadsU64 : ReadsU64 codecs
unfolding read_transfer_bytes
codecs-ReadsU64 [] t n h = cc
codecs-ReadsU64 (b ∷ []) t n h = cc
codecs-ReadsU64 (b ∷ e ∷ []) t n h = cc
codecs-ReadsU64 (b ∷ e ∷ r ∷ []) t n h = cc
codecs-ReadsU64 (b ∷ e ∷ r ∷ m ∷ to) t n h = ground arith

-- A device with a screen of 1920 by 1080 points whose peer, to the right, has 2560 by 1440.
abbrev screens : EdgeLayout
screens = side_by_side (pos 1920) (pos 1080) (pos 2560) (pos 1440)

abbrev here : EngineCore
here = new source 1 2 screens

abbrev there : EngineCore
there = new target 2 1 screens

crossing_lem_example :
    HandedOver here there (pos 1919) (pos 540) (crossing codecs here there (pos 1919) (pos 540))
unfolding new Ownership.new
crossing_lem_example =
    crossing_lem codecs here there (pos 1919) (pos 540) codecs-ReadsTransfers codecs-ReadsAcks refl
      (omega arith) refl (omega arith) (omega arith) refl refl

-- A device that accepted a grant of epoch 1.
abbrev admitted : EngineCore
admitted = record (new target 2 1 screens) {
  ownership = record {
    me = 2;
    owner = 2;
    epoch = 1;
    focus = FocusKind.active;
    reclaim_origin = false;
  };
  input_auth = authorize_epoch new_trusted 1;
}

-- The key with usage 4 goes down: epoch 1, counter 7.
abbrev key_frame : List ℕ
key_frame = 0xa5 ∷ 4 ∷ 1 ∷ 7 ∷ []

abbrev move : PointerMotion
move = record { owner_epoch = 1; seq = 3; display_id = 0; x = pos 10; y = pos 20 }

abbrev next_move : PointerMotion
next_move = record { owner_epoch = 1; seq = 4; display_id = 0; x = pos 12; y = pos 20 }

on_control_once_example :
    injects
      (on_control codecs
        (run codecs (on_control codecs admitted type_key_event key_frame).0 (tick ∷ [])).0
        type_key_event
        key_frame).1
    ≡ false
unfolding new on_control on_key admit press_key observe_key contains allow_one is_repeat accept_ctr
    injects stamp from_cbor starts_indefinite read_key_bytes
on_control_once_example =
    on_control_once codecs admitted type_key_event type_key_event key_frame key_frame 1 7 7
      (tick ∷ []) codecs-ReadsU64 (omega arith) refl refl refl (omega arith)

on_motion-is_newer_example :
    injects (on_motion codecs (on_motion codecs admitted (motion move)).0 (motion next_move)).1
    ≡ is_newer next_move.seq move.seq
unfolding new on_motion accept_seq injects
on_motion-is_newer_example =
    on_motion-is_newer codecs admitted move next_move refl refl (omega arith) (omega arith)
      (omega arith) (omega arith)

on_control_gate_example : Open admitted × IsFresh admitted (stamp codecs type_key_event key_frame)
unfolding new on_control on_key admit press_key observe_key contains allow_one is_repeat accept_ctr
    injects from_cbor starts_indefinite read_key_bytes
on_control_gate_example = on_control_gate codecs admitted key_frame type_key_event refl

run-new-Inv_example : Inv (run codecs (new target 2 1 screens) (tick ∷ suppress_unavailable ∷ [])).0
run-new-Inv_example =
    run-new-Inv codecs target 2 1 screens (tick ∷ suppress_unavailable ∷ []) (omega arith)

on_local_input_decides_example :
    decisions (on_local_input codecs here (cursor_moved 0 (pos 1915) (pos 540) (pos 9) (pos 0))).1
    ≡ decision (on_local_input codecs here (cursor_moved 0 (pos 1915) (pos 540) (pos 9) (pos 0))).0
      ∷ []
unfolding new Ownership.new
on_local_input_decides_example =
    on_local_input_decides codecs here (cursor_moved 0 (pos 1915) (pos 540) (pos 9) (pos 0)) refl
      (omega arith)

run-new-Driven_example : Driven (new source 1 2 screens) (
    run codecs
      (new source 1 2 screens)
      (local_input (cursor_moved 0 (pos 1919) (pos 540) (pos 9) (pos 0)) ∷ tick ∷ []))
run-new-Driven_example =
    run-new-Driven codecs source 1 2 screens
      (local_input (cursor_moved 0 (pos 1919) (pos 540) (pos 9) (pos 0)) ∷ tick ∷ [])

-- A source that granted epoch 1 to its peer and waits for the answer.
abbrev waiting : EngineCore
waiting = record (new source 1 2 screens) {
  ownership = record {
    me = 1;
    owner = 2;
    epoch = 1;
    focus = FocusKind.standby;
    reclaim_origin = false;
  };
  pending_ack = some (new_pending 1);
}

abbrev beats : List Beat
beats = Silence.tick ∷ heartbeat [] ∷ Silence.tick ∷ heartbeat [] ∷ Silence.tick ∷ []

beat_reclaim_example :
    (beat codecs beats waiting).ownership.owner ≡ (beat codecs beats waiting).ownership.me
unfolding new count_ticks
beat_reclaim_example =
    beat_reclaim codecs beats waiting (new_pending 1) refl refl (omega arith) (omega arith)

ticks_reclaim_example :
    (ticks codecs 4 waiting).ownership.owner ≡ (ticks codecs 4 waiting).ownership.me
unfolding new
ticks_reclaim_example = ticks_reclaim codecs 4 waiting refl (omega arith)
