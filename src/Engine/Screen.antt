-- ===== src/Engine/Screen.antt =====
-- The peer's cursor as the source drives it (crates/mouser-engine/src/core.rs, core/wire.rs).
use mouser.Prelude.{
  ℕ, ◌≡◌, refl, ◌∙◌, List, [], ◌∷◌, ◌++◌, Option, none, some, Result, ok, err, arith,
}
use mouser.Prelude.Int.{ℤ, pos, ◌≤ℤ◌, min_ℤ, max_ℤ, saturating_add_i32}
use mouser.Core.Ownership.{grant_to}
use mouser.Engine.Types.{
  LocalInputEvent, cursor_moved, key_event, button_event, scroll_event, Action, send_motion,
  EdgeLayout,
}
use mouser.Engine.Geometry.{clamp, max_index, entry_point}
use mouser.Engine.Geometry.Fraction.{map_axis_fraction_bounds}
use mouser.Engine.State.{EngineCore, Codecs, new, set_peer_trusted, set_input_allowed}
use mouser.Engine.Types.{Role}
use mouser.Core.DeviceId.{DeviceId, to_id}
use mouser.Protocol.Codec.{CodecError, from_cbor}
use mouser.Protocol.Messages.{Datagram, motion, motion_rel, unknown, OwnershipTransfer}
use mouser.Engine.Transfer.{
  transfer_to, transfer_for, read_transfer, on_transfer, take_ack, on_ownership_ack, on_accepted,
  refuse, enter_ownership,
}
use mouser.Engine.Wire.{
  on_key, on_button, on_scroll, on_ping, on_goodbye, on_control, on_control_cases, on_motion,
  on_injection_failed, give_back, admit, press_key,
}
use mouser.Engine.Events.{
  Event, local_input, control, datagram, tick, suppress_unavailable, injection_failed, peer_trusted,
  input_allowed, handle, run,
}
use mouser.Engine.Machine.{
  on_tick, on_suppress_unavailable, count_miss, wait_ack, reclaim_local, hand_over, cross_to_peer,
  on_cursor_here, drive_peer, on_cursor_away, on_cursor, forward, on_source_input, on_local_input,
}

abbrev pub IsOnAxis : ℤ → ℤ → Type 0
IsOnAxis v len = (pos 0 ≤ℤ v) × (v ≤ℤ max_index len)

abbrev pub IsOnScreen : EdgeLayout → ℤ → ℤ → Type 0
IsOnScreen l x y = IsOnAxis x l.peer_width × IsOnAxis y l.peer_height

-- Every motion among the actions is to a point of the peer's screen.
unfoldable pub MotionsOnScreen : EdgeLayout → List Action → Type 0
MotionsOnScreen l [] = Unit {0}
MotionsOnScreen l (send_motion m ∷ actions) = IsOnScreen l m.x m.y × MotionsOnScreen l actions
MotionsOnScreen l (_ ∷ actions) = MotionsOnScreen l actions

abbrev pub Driven : EngineCore → EngineCore × List Action → Type 0
Driven s (s', actions) =
    IsOnScreen s'.layout s'.peer_x s'.peer_y
    × (s'.layout ≡ s.layout)
    × MotionsOnScreen s.layout actions

MotionsOnScreen-append :
    (l : EdgeLayout) (xs ys : List Action)
    → MotionsOnScreen l xs
    → MotionsOnScreen l ys
    → MotionsOnScreen l (xs ++ ys)
unfolding MotionsOnScreen
MotionsOnScreen-append l [] ys h k = k
MotionsOnScreen-append l (send_motion m ∷ xs) ys (h, hs) k =
    (h, MotionsOnScreen-append l xs ys hs k)
MotionsOnScreen-append l (_ ∷ xs) ys h k = MotionsOnScreen-append l xs ys h k

clamp-IsOnAxis : (v len : ℤ) → IsOnAxis (clamp v (pos 0) (max_index len)) len
unfolding clamp min_ℤ max_ℤ max_index
clamp-IsOnAxis v len = ground arith

max_index-IsOnAxis : (len : ℤ) → IsOnAxis (max_index len) len × IsOnAxis (pos 0) len
unfolding max_index max_ℤ
max_index-IsOnAxis len = ground arith

entry_point-IsOnScreen :
    (l : EdgeLayout) (x y : ℤ) → IsOnScreen l (entry_point l x y).0 (entry_point l x y).1
unfolding entry_point
entry_point-IsOnScreen l x y = ground (
  arith,
  map_axis_fraction_bounds y l.height l.peer_height,
  map_axis_fraction_bounds x l.width l.peer_width,
  max_index-IsOnAxis l.peer_width,
  max_index-IsOnAxis l.peer_height,
)

module _ (cs : Codecs) (s : EngineCore) where
  cross_to_peer-Driven :
      (x y : ℤ) → IsOnScreen s.layout s.peer_x s.peer_y → Driven s (cross_to_peer cs s x y)
  unfolding cross_to_peer hand_over grant_to MotionsOnScreen
  cross_to_peer-Driven x y v = ground (arith, entry_point-IsOnScreen s.layout x y)

  on_cursor_here-Driven :
      (x y dx dy : ℤ)
      → IsOnScreen s.layout s.peer_x s.peer_y
      → Driven s (on_cursor_here cs s x y dx dy)
  unfolding on_cursor_here MotionsOnScreen
  on_cursor_here-Driven x y dx dy v = ground (arith, cross_to_peer-Driven x y v)

  drive_peer-Driven :
      (dx dy : ℤ) → IsOnScreen s.layout s.peer_x s.peer_y → Driven s (drive_peer cs s dx dy)
  unfolding drive_peer reclaim_local MotionsOnScreen
  drive_peer-Driven dx dy v = ground (
    arith,
    clamp-IsOnAxis (saturating_add_i32 s.peer_x dx) s.layout.peer_width,
    clamp-IsOnAxis (saturating_add_i32 s.peer_y dy) s.layout.peer_height,
  )

  reclaim_local-Driven : IsOnScreen s.layout s.peer_x s.peer_y → Driven s (reclaim_local cs s)
  unfolding reclaim_local MotionsOnScreen
  reclaim_local-Driven v = (v, refl, tt)

module _ (cs : Codecs) where
  on_cursor_away-Driven :
      (s : EngineCore) (x y dx dy : ℤ)
      → IsOnScreen s.layout s.peer_x s.peer_y
      → Driven s (on_cursor_away cs s x y dx dy)
  unfolding on_cursor_away drive_peer reclaim_local MotionsOnScreen
  on_cursor_away-Driven s x y dx dy v = ground (
    arith,
    clamp-IsOnAxis (saturating_add_i32 s.peer_x dx) s.layout.peer_width,
    clamp-IsOnAxis (saturating_add_i32 s.peer_y dy) s.layout.peer_height,
  )

  on_local_input-Driven :
      (s : EngineCore) (e : LocalInputEvent)
      → IsOnScreen s.layout s.peer_x s.peer_y
      → Driven s (on_local_input cs s e)
  unfolding on_local_input on_source_input on_cursor forward MotionsOnScreen
  on_local_input-Driven s (cursor_moved d x y dx dy) v =
      ground (arith, on_cursor_here-Driven cs s x y dx dy v, on_cursor_away-Driven s x y dx dy v)
  on_local_input-Driven s (key_event u d m) v = ground arith
  on_local_input-Driven s (button_event b d) v = ground arith
  on_local_input-Driven s (scroll_event dx dy) v = ground arith

  on_tick-Driven :
      (s : EngineCore) → IsOnScreen s.layout s.peer_x s.peer_y → Driven s (on_tick cs s)
  unfolding on_tick count_miss wait_ack reclaim_local MotionsOnScreen
  on_tick-Driven s v = ground arith

  on_suppress_unavailable-Driven :
      (s : EngineCore)
      → IsOnScreen s.layout s.peer_x s.peer_y
      → Driven s (on_suppress_unavailable cs s)
  unfolding on_suppress_unavailable reclaim_local MotionsOnScreen
  on_suppress_unavailable-Driven s v = ground arith

  transfer_for-Driven :
      (s : EngineCore) (t : OwnershipTransfer) (o : Option DeviceId)
      → IsOnScreen s.layout s.peer_x s.peer_y
      → Driven s (transfer_for cs s t o)
  unfolding transfer_for transfer_to on_accepted refuse enter_ownership MotionsOnScreen
  transfer_for-Driven s t none v = (v, refl, tt)
  transfer_for-Driven s t (some o) v = ground arith

  on_transfer-Driven :
      (s : EngineCore) (payload : List ℕ)
      → IsOnScreen s.layout s.peer_x s.peer_y
      → Driven s (on_transfer cs s payload)
  unfolding on_transfer read_transfer MotionsOnScreen
  on_transfer-Driven s payload v = go (from_cbor cs.transfer payload)
    where
      go : (r : Result OwnershipTransfer CodecError) → Driven s (read_transfer cs s r)
      go (err e) = (v, refl, tt)
      go (ok t) = transfer_for-Driven s t (to_id t.to) v

  on_ownership_ack-Driven :
      (s : EngineCore) (payload : List ℕ)
      → IsOnScreen s.layout s.peer_x s.peer_y
      → Driven s (on_ownership_ack cs s payload)
  unfolding on_ownership_ack take_ack reclaim_local MotionsOnScreen
  on_ownership_ack-Driven s payload v = ground arith

  on_key-Driven :
      (s : EngineCore) (payload : List ℕ)
      → IsOnScreen s.layout s.peer_x s.peer_y
      → Driven s (on_key cs s payload)
  unfolding on_key admit press_key MotionsOnScreen
  on_key-Driven s payload v = ground arith

  on_button-Driven :
      (s : EngineCore) (payload : List ℕ)
      → IsOnScreen s.layout s.peer_x s.peer_y
      → Driven s (on_button cs s payload)
  unfolding on_button admit MotionsOnScreen
  on_button-Driven s payload v = ground arith

  on_scroll-Driven :
      (s : EngineCore) (payload : List ℕ)
      → IsOnScreen s.layout s.peer_x s.peer_y
      → Driven s (on_scroll cs s payload)
  unfolding on_scroll admit MotionsOnScreen
  on_scroll-Driven s payload v = ground arith

  on_ping-Driven :
      (s : EngineCore) (payload : List ℕ)
      → IsOnScreen s.layout s.peer_x s.peer_y
      → Driven s (on_ping cs s payload)
  unfolding on_ping MotionsOnScreen
  on_ping-Driven s payload v = ground arith

  on_goodbye-Driven :
      (s : EngineCore) (payload : List ℕ)
      → IsOnScreen s.layout s.peer_x s.peer_y
      → Driven s (on_goodbye cs s payload)
  unfolding on_goodbye reclaim_local MotionsOnScreen
  on_goodbye-Driven s payload v = ground arith

  on_control-Driven :
      (s : EngineCore) (t : ℕ) (payload : List ℕ)
      → IsOnScreen s.layout s.peer_x s.peer_y
      → Driven s (on_control cs s t payload)
  unfolding MotionsOnScreen
  on_control-Driven s t payload v =
      on_control_cases cs (Driven s) s t payload (on_transfer-Driven s payload v)
        (on_ownership_ack-Driven s payload v) (λ _. on_key-Driven s payload v)
        (λ _. on_button-Driven s payload v) (λ _. on_scroll-Driven s payload v)
        (on_ping-Driven s payload v) (v, refl, tt) (on_goodbye-Driven s payload v) (v, refl, tt)

  on_motion-Driven :
      (s : EngineCore) (d : Datagram)
      → IsOnScreen s.layout s.peer_x s.peer_y
      → Driven s (on_motion cs s d)
  unfolding on_motion MotionsOnScreen
  on_motion-Driven s (motion m) v = ground arith
  on_motion-Driven s (motion_rel m) v = (v, refl, tt)
  on_motion-Driven s (unknown tag) v = (v, refl, tt)

  on_injection_failed-Driven :
      (s : EngineCore) → IsOnScreen s.layout s.peer_x s.peer_y → Driven s (on_injection_failed cs s)
  unfolding on_injection_failed give_back grant_to MotionsOnScreen
  on_injection_failed-Driven s v = ground arith

  handle-Driven :
      (s : EngineCore) (e : Event)
      → IsOnScreen s.layout s.peer_x s.peer_y
      → Driven s (handle cs s e)
  unfolding handle set_peer_trusted set_input_allowed MotionsOnScreen
  handle-Driven s (local_input e) v = on_local_input-Driven s e v
  handle-Driven s (control t payload) v = on_control-Driven s t payload v
  handle-Driven s (datagram d) v = on_motion-Driven s d v
  handle-Driven s tick v = on_tick-Driven s v
  handle-Driven s suppress_unavailable v = on_suppress_unavailable-Driven s v
  handle-Driven s injection_failed v = on_injection_failed-Driven s v
  handle-Driven s (peer_trusted b) v = (v, refl, tt)
  handle-Driven s (input_allowed b) v = (v, refl, tt)

  run-Driven :
      (s : EngineCore) (es : List Event)
      → IsOnScreen s.layout s.peer_x s.peer_y
      → Driven s (run cs s es)
  unfolding run MotionsOnScreen
  run-Driven s [] v = (v, refl, tt)
  run-Driven s (e ∷ es) v =
      let (s', actions) = handle cs s e in
      let (here, same, sent) = handle-Driven s e v in
      let (there, same', more) = run-Driven (handle cs s e).0 es here in
      (
        there,
        same' ∙ same,
        MotionsOnScreen-append s.layout (handle cs s e).1 _ sent (rw (same) at more),
      )

-- In every history of a fresh engine, whatever its events: the peer's cursor is on the peer's screen
-- at the end, the layout is the one it was made with, and every motion that was sent, by local input
-- or on an acknowledgement, is to a point of that screen.
pub run-new-Driven :
    (cs : Codecs) (r : Role) (me peer : DeviceId) (l : EdgeLayout) (es : List Event)
    → Driven (new r me peer l) (run cs (new r me peer l) es)
unfolding new
run-new-Driven cs r me peer l es =
    run-Driven cs (new r me peer l) es
      ((max_index-IsOnAxis l.peer_width).1, (max_index-IsOnAxis l.peer_height).1)
