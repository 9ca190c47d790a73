-- ===== src/Engine/Invariant.antt =====
-- What holds in every state of an engine core (crates/mouser-engine/src/core.rs, core/wire.rs).
use mouser.Prelude.{
  ℕ, ◌≤◌, ◌≡◌, refl, ◌≢◌, List, [], ◌∷◌, Option, none, some, ok, err, Result, arith,
}
use mouser.Prelude.Int.{ℤ}
use mouser.Core.DeviceId.{DeviceId, to_id}
use mouser.Core.Ownership
use mouser.Core.Ownership.{
  Ownership, OwnershipUpdate, accepted, rejected, grant_to, reclaim, observe, observe_with_reason,
  mark_input_blocked,
}
use mouser.Prelude.Sat.{u64_max, saturating_add}
use mouser.Protocol.Codec.{CodecError, from_cbor}
use mouser.Protocol.Messages.{OwnershipTransfer, Datagram, motion, motion_rel, unknown}
use mouser.Engine.Types.{
  Role, EdgeLayout, source, LocalInputEvent, cursor_moved, key_event, button_event, scroll_event,
  PendingAck, accept_ctr, accept_seq, allow_one, refill, observe_key, input_rate_burst,
  ownership_ack_ticks,
}
use mouser.Engine.State.{EngineCore, Codecs, set_peer_trusted, set_input_allowed, new}
use mouser.Engine.Machine.{
  reclaim_local, hand_over, cross_to_peer, on_cursor_here, drive_peer, on_cursor, on_cursor_away,
  forward, on_source_input, on_local_input, on_suppress_unavailable, count_miss, wait_ack, on_tick,
}
use mouser.Engine.Transfer.{
  on_accepted, refuse, transfer_to, transfer_for, read_transfer, on_transfer, take_ack,
  on_ownership_ack,
}
use mouser.Engine.Transfer.{enter_ownership}
use mouser.Engine.Wire.{
  admit, press_key, is_repeat, core_unit, on_key, on_button, on_scroll, on_ping, on_goodbye,
  on_control, on_control_cases, on_motion, give_back, on_injection_failed,
}
use mouser.Engine.Events.{
  Event, local_input, control, datagram, tick, suppress_unavailable, injection_failed, peer_trusted,
  input_allowed, handle, run,
}

-- A grant that waits for its acknowledgement was minted by a source, for the current epoch, which
-- the device does not own.
abbrev pub Waits : EngineCore → Option PendingAck → Type 0
Waits s none = Unit {0}
Waits s (some p) =
    (s.role ≡ source)
    × (p.epoch ≡ s.ownership.epoch)
    × (s.ownership.owner ≢ s.ownership.me)
    × (p.ticks_left ≤ ownership_ack_ticks)

-- The peer's input is authorized for no epoch but the current one, which the device then owns.
abbrev pub Authorized : EngineCore → Option ℕ → Type 0
Authorized s none = Unit {0}
Authorized s (some e) = (e ≡ s.ownership.epoch) × (s.ownership.owner ≡ s.ownership.me)

-- A counter that the guard remembers belongs to the current epoch.
abbrev pub Remembers : EngineCore → Option ℕ → Type 0
Remembers s none = Unit {0}
Remembers s (some n) = s.replay_guard.epoch ≡ s.ownership.epoch

pub record Inv (s : EngineCore) : Type 0 where
  pub other : s.peer ≢ s.ownership.me
  pub waits : Waits s s.pending_ack
  pub authorized : Authorized s s.input_auth.accepted_epoch
  pub last_ctr : Remembers s s.replay_guard.last_ctr
  pub last_seq : Remembers s s.replay_guard.last_seq
  pub tokens : s.input_rate.tokens ≤ input_rate_burst

module _ (cs : Codecs) where
  reclaim_local-Inv : (s : EngineCore) → Inv s → Inv (reclaim_local cs s).0
  unfolding reclaim_local reclaim
  reclaim_local-Inv s v = record {
    other = v.other;
    waits = tt;
    authorized = tt;
    last_ctr = tt;
    last_seq = tt;
    tokens = v.tokens;
  }

  cross_to_peer-Inv :
      (s : EngineCore) (x y : ℤ) → s.role ≡ source → Inv s → Inv (cross_to_peer cs s x y).0
  unfolding cross_to_peer hand_over grant_to
  cross_to_peer-Inv s x y r v = ground (arith, v.other)

  on_cursor_here-Inv :
      (s : EngineCore) (x y dx dy : ℤ)
      → s.role ≡ source
      → Inv s
      → Inv (on_cursor_here cs s x y dx dy).0
  unfolding on_cursor_here
  on_cursor_here-Inv s x y dx dy r v = ground (arith, cross_to_peer-Inv s x y r v)

  drive_peer-Inv : (s : EngineCore) (dx dy : ℤ) → Inv s → Inv (drive_peer cs s dx dy).0
  unfolding drive_peer reclaim_local reclaim
  drive_peer-Inv s dx dy v = ground arith

  on_cursor_away-Inv :
      (s : EngineCore) (x y dx dy : ℤ) → Inv s → Inv (on_cursor_away cs s x y dx dy).0
  unfolding on_cursor_away reclaim_local reclaim drive_peer
  on_cursor_away-Inv s x y dx dy v = ground arith

  count_miss-Inv : (s : EngineCore) → Inv s → Inv (count_miss cs s).0
  unfolding count_miss reclaim_local reclaim
  count_miss-Inv s v = ground arith

  wait_ack-Inv :
      (s : EngineCore) (p : Option PendingAck) → s.pending_ack ≡ p → Inv s → Inv (wait_ack cs s p).0
  unfolding wait_ack count_miss reclaim_local reclaim
  wait_ack-Inv s none e v = count_miss-Inv s v
  wait_ack-Inv s (some p) e v = ground arith

  on_tick-Inv : (s : EngineCore) → Inv s → Inv (on_tick cs s).0
  unfolding on_tick refill
  on_tick-Inv s v =
      wait_ack-Inv
        (record s { hb_seq = saturating_add u64_max s.hb_seq 1; input_rate = refill s.input_rate })
        s.pending_ack refl
        (record {
          other = v.other;
          waits = v.waits;
          authorized = v.authorized;
          last_ctr = v.last_ctr;
          last_seq = v.last_seq;
          tokens = omega arith;
        })

  forward-Inv : (s : EngineCore) (e : LocalInputEvent) → Inv s → Inv (forward cs s e).0
  unfolding forward
  forward-Inv s (cursor_moved d x y dx dy) v = v
  forward-Inv s (key_event u d m) v = ground arith
  forward-Inv s (button_event b d) v = ground arith
  forward-Inv s (scroll_event dx dy) v = ground arith

  on_source_input-Inv :
      (s : EngineCore) (e : LocalInputEvent)
      → s.role ≡ source
      → Inv s
      → Inv (on_source_input cs s e).0
  unfolding on_source_input on_cursor
  on_source_input-Inv s (cursor_moved d x y dx dy) r v =
      ground (arith, on_cursor_here-Inv s x y dx dy r v, on_cursor_away-Inv s x y dx dy v)
  on_source_input-Inv s (key_event u d m) r v = ground (arith, forward-Inv s (key_event u d m) v)
  on_source_input-Inv s (button_event b d) r v = ground (arith, forward-Inv s (button_event b d) v)
  on_source_input-Inv s (scroll_event dx dy) r v =
      ground (arith, forward-Inv s (scroll_event dx dy) v)

  on_local_input-Inv :
      (s : EngineCore) (e : LocalInputEvent) → Inv s → Inv (on_local_input cs s e).0
  unfolding on_local_input
  on_local_input-Inv s e v = ground (arith, on_source_input-Inv s e)

  on_suppress_unavailable-Inv : (s : EngineCore) → Inv s → Inv (on_suppress_unavailable cs s).0
  unfolding on_suppress_unavailable reclaim_local reclaim
  on_suppress_unavailable-Inv s v = ground arith

  transfer_to-Inv :
      (s : EngineCore) (o : DeviceId) (t : OwnershipTransfer) → Inv s → Inv (transfer_to cs s o t).0
  unfolding transfer_to on_accepted refuse enter_ownership observe_with_reason observe
  transfer_to-Inv s o t v = ground arith

  transfer_for-Inv :
      (s : EngineCore) (t : OwnershipTransfer) (o : Option DeviceId)
      → Inv s
      → Inv (transfer_for cs s t o).0
  unfolding transfer_for
  transfer_for-Inv s t none v = v
  transfer_for-Inv s t (some o) v = transfer_to-Inv s o t v

  on_transfer-Inv : (s : EngineCore) (payload : List ℕ) → Inv s → Inv (on_transfer cs s payload).0
  unfolding on_transfer read_transfer
  on_transfer-Inv s payload v = go (from_cbor cs.transfer payload)
    where
      go : (r : Result OwnershipTransfer CodecError) → Inv (read_transfer cs s r).0
      go (err e) = v
      go (ok t) = transfer_for-Inv s t (to_id t.to) v

  on_ownership_ack-Inv :
      (s : EngineCore) (payload : List ℕ) → Inv s → Inv (on_ownership_ack cs s payload).0
  unfolding on_ownership_ack take_ack reclaim_local reclaim
  on_ownership_ack-Inv s payload v = ground arith

  on_key-Inv : (s : EngineCore) (payload : List ℕ) → Inv s → Inv (on_key cs s payload).0
  unfolding on_key admit accept_ctr press_key allow_one observe_key is_repeat
  on_key-Inv s payload v = ground arith

  on_button-Inv : (s : EngineCore) (payload : List ℕ) → Inv s → Inv (on_button cs s payload).0
  unfolding on_button admit accept_ctr allow_one
  on_button-Inv s payload v = ground arith

  on_scroll-Inv : (s : EngineCore) (payload : List ℕ) → Inv s → Inv (on_scroll cs s payload).0
  unfolding on_scroll admit accept_ctr allow_one core_unit
  on_scroll-Inv s payload v = ground arith

  on_motion-Inv : (s : EngineCore) (d : Datagram) → Inv s → Inv (on_motion cs s d).0
  unfolding on_motion accept_seq
  on_motion-Inv s (motion m) v = ground arith
  on_motion-Inv s (motion_rel m) v = v
  on_motion-Inv s (unknown tag) v = v

  on_injection_failed-Inv : (s : EngineCore) → Inv s → Inv (on_injection_failed cs s).0
  unfolding on_injection_failed give_back mark_input_blocked grant_to
  on_injection_failed-Inv s v = ground arith

  on_ping-Inv : (s : EngineCore) (payload : List ℕ) → Inv s → Inv (on_ping cs s payload).0
  unfolding on_ping
  on_ping-Inv s payload v = ground arith

  on_goodbye-Inv : (s : EngineCore) (payload : List ℕ) → Inv s → Inv (on_goodbye cs s payload).0
  unfolding on_goodbye
  on_goodbye-Inv s payload v = ground (arith, reclaim_local-Inv s v)

  on_control-Inv :
      (s : EngineCore) (t : ℕ) (payload : List ℕ) → Inv s → Inv (on_control cs s t payload).0
  on_control-Inv s t payload v =
      on_control_cases cs (λ r. Inv r.0) s t payload (on_transfer-Inv s payload v)
        (on_ownership_ack-Inv s payload v) (λ _. on_key-Inv s payload v)
        (λ _. on_button-Inv s payload v) (λ _. on_scroll-Inv s payload v) (on_ping-Inv s payload v)
        (record {
          other = v.other;
          waits = v.waits;
          authorized = v.authorized;
          last_ctr = v.last_ctr;
          last_seq = v.last_seq;
          tokens = v.tokens;
        })
        (on_goodbye-Inv s payload v) v

  handle-Inv : (s : EngineCore) (e : Event) → Inv s → Inv (handle cs s e).0
  unfolding handle set_peer_trusted set_input_allowed
  handle-Inv s (local_input e) v = on_local_input-Inv s e v
  handle-Inv s (control t payload) v = on_control-Inv s t payload v
  handle-Inv s (datagram d) v = on_motion-Inv s d v
  handle-Inv s tick v = on_tick-Inv s v
  handle-Inv s suppress_unavailable v = on_suppress_unavailable-Inv s v
  handle-Inv s injection_failed v = on_injection_failed-Inv s v
  handle-Inv s (peer_trusted b) v = ground arith
  handle-Inv s (input_allowed b) v = ground arith

  run-Inv : (s : EngineCore) (es : List Event) → Inv s → Inv (run cs s es).0
  unfolding run
  run-Inv s [] v = v
  run-Inv s (e ∷ es) v = run-Inv (handle cs s e).0 es (handle-Inv s e v)

new-Inv : (r : Role) (me peer : DeviceId) (l : EdgeLayout) → peer ≢ me → Inv (new r me peer l)
unfolding new Ownership.new
new-Inv r me peer l ne = record {
  other = ne;
  waits = tt;
  authorized = tt;
  last_ctr = tt;
  last_seq = tt;
  tokens = omega arith;
}

-- Whatever happens to a fresh engine whose peer is another device: a grant that waits for its
-- acknowledgement is a source's, for the current epoch, which the device does not own; the peer's
-- input is authorized for no epoch but the current one, and only while the device owns it; the
-- counters that the replay guard remembers belong to the current epoch; and the rate limiter never
-- holds more tokens than a burst.
pub run-new-Inv :
    (cs : Codecs) (r : Role) (me peer : DeviceId) (l : EdgeLayout) (es : List Event)
    → peer ≢ me
    → Inv (run cs (new r me peer l) es).0
run-new-Inv cs r me peer l es ne = run-Inv cs (new r me peer l) es (new-Inv r me peer l ne)
