-- ===== src/Engine/Replay.antt =====
-- crates/mouser-engine/src/core/types.rs (ReplayGuard) as core.rs and core/wire.rs use it: when a
-- counter of the peer's messages is spent for good.
use mouser.Prelude.{
  ℕ, ◌≤◌, ◌<◌, ◌≡◌, refl, true, false, List, [], ◌∷◌, Option, none, some, ok, err, Result, arith,
  ◌⊎◌,
}
use mouser.Prelude.Int.{ℤ}
use mouser.Prelude.Sat.{u64_max, saturating_add}
use mouser.Core.DeviceId.{DeviceId, to_id}
use mouser.Core.Ownership.{grant_to, reclaim, observe, observe_with_reason, mark_input_blocked}
use mouser.Protocol.Codec.{CodecError, from_cbor, from_cbor_strict}
use mouser.Protocol.Messages.{OwnershipTransfer, Datagram, motion, motion_rel, unknown}
use mouser.Engine.Types.{
  LocalInputEvent, cursor_moved, key_event, button_event, scroll_event, PendingAck, ReplayGuard,
  not_after, accept_ctr, accept_seq, allow_one, refill, observe_key,
}
use mouser.Engine.State.{EngineCore, Codecs, set_peer_trusted, set_input_allowed}
use mouser.Engine.Machine.{
  reclaim_local, hand_over, cross_to_peer, on_cursor_here, drive_peer, on_cursor, on_cursor_away,
  forward, on_source_input, on_local_input, on_suppress_unavailable, count_miss, wait_ack, on_tick,
}
use mouser.Engine.Transfer.{
  on_accepted, refuse, transfer_to, transfer_for, read_transfer, on_transfer, take_ack,
  on_ownership_ack,
}
use mouser.Engine.Transfer.{enter_ownership}
use mouser.Engine.Wire.{
  admit, press_key, is_repeat, core_unit, on_key, on_button, on_scroll, on_ping, on_goodbye,
  on_control, on_control_cases, on_motion, give_back, on_injection_failed,
}
use mouser.Engine.Events.{
  Event, local_input, control, datagram, tick, suppress_unavailable, injection_failed, peer_trusted,
  input_allowed, handle, run,
}

-- Which of the guard's two counters: that of key, button and scroll events, or that of motion.
pub data Counter : Type 0 where
  control_counter motion_counter : Counter

abbrev pub last : Counter → ReplayGuard → Option ℕ
last control_counter g = g.last_ctr
last motion_counter g = g.last_seq

-- The number `n` is spent at the epoch `e`: the epoch is over; or the guard has seen it; or the
-- peer's input is closed and can be opened again only by a later epoch.
abbrev pub Spent : Counter → ℕ → ℕ → EngineCore → Type 0
Spent c e n s =
    (s.ownership.epoch ≤ u64_max)
    × ((e < s.ownership.epoch)
        ⊎ ((s.ownership.epoch ≡ e)
            × (((s.ownership.owner ≡ s.ownership.me)
                  × (s.replay_guard.epoch ≡ e)
                  × (not_after (last c s.replay_guard) n ≡ true))
                ⊎ ((s.input_auth.accepted_epoch ≡ none)
                    × ((s.ownership.owner ≡ s.ownership.me)
                        ⊎ ((s.ownership.owner < s.ownership.me)
                            ⊎ (s.ownership.reclaim_origin ≡ false)))))))

-- The decoder of a transfer yields an epoch that fits its type.
abbrev pub ReadsU64 : Codecs → Type 0
ReadsU64 cs =
    (bytes : List ℕ) (t : OwnershipTransfer) (n : ℕ)
    → cs.transfer.from_reader bytes ≡ ok (t, n)
    → t.owner_epoch ≤ u64_max

module _ (cs : Codecs) (c : Counter) (e n : ℕ) where
  reclaim_local-Spent : (s : EngineCore) → Spent c e n s → Spent c e n (reclaim_local cs s).0
  unfolding reclaim_local reclaim
  reclaim_local-Spent s v = ground arith

  cross_to_peer-Spent :
      (s : EngineCore) (x y : ℤ) → Spent c e n s → Spent c e n (cross_to_peer cs s x y).0
  unfolding cross_to_peer hand_over grant_to
  cross_to_peer-Spent s x y v = ground arith

  on_cursor_here-Spent :
      (s : EngineCore) (x y dx dy : ℤ)
      → Spent c e n s
      → Spent c e n (on_cursor_here cs s x y dx dy).0
  unfolding on_cursor_here
  on_cursor_here-Spent s x y dx dy v = ground (arith, cross_to_peer-Spent s x y v)

  drive_peer-Spent :
      (s : EngineCore) (dx dy : ℤ) → Spent c e n s → Spent c e n (drive_peer cs s dx dy).0
  unfolding drive_peer reclaim_local reclaim
  drive_peer-Spent s dx dy v = ground arith

  count_miss-Spent : (s : EngineCore) → Spent c e n s → Spent c e n (count_miss cs s).0
  unfolding count_miss reclaim_local reclaim
  count_miss-Spent s v = ground arith

  transfer_to-Spent :
      (s : EngineCore) (o : DeviceId) (t : OwnershipTransfer)
      → t.owner_epoch ≤ u64_max
      → Spent c e n s
      → Spent c e n (transfer_to cs s o t).0
  unfolding transfer_to on_accepted refuse enter_ownership observe_with_reason observe
  transfer_to-Spent s o t h v = ground arith

  on_key-Spent :
      (s : EngineCore) (payload : List ℕ) → Spent c e n s → Spent c e n (on_key cs s payload).0
  unfolding on_key admit accept_ctr press_key allow_one observe_key is_repeat
  on_key-Spent s payload v = ground arith

  on_cursor_away-Spent :
      (s : EngineCore) (x y dx dy : ℤ)
      → Spent c e n s
      → Spent c e n (on_cursor_away cs s x y dx dy).0
  unfolding on_cursor_away reclaim_local reclaim drive_peer
  on_cursor_away-Spent s x y dx dy v = ground arith

  forward-Spent :
      (s : EngineCore) (i : LocalInputEvent) → Spent c e n s → Spent c e n (forward cs s i).0
  unfolding forward
  forward-Spent s (cursor_moved d x y dx dy) v = v
  forward-Spent s (key_event u d m) v = v
  forward-Spent s (button_event b d) v = v
  forward-Spent s (scroll_event dx dy) v = v

  on_source_input-Spent :
      (s : EngineCore) (i : LocalInputEvent)
      → Spent c e n s
      → Spent c e n (on_source_input cs s i).0
  unfolding on_source_input on_cursor
  on_source_input-Spent s (cursor_moved d x y dx dy) v =
      ground (arith, on_cursor_here-Spent s x y dx dy v, on_cursor_away-Spent s x y dx dy v)
  on_source_input-Spent s (key_event u d m) v = ground (arith, forward-Spent s (key_event u d m) v)
  on_source_input-Spent s (button_event b d) v =
      ground (arith, forward-Spent s (button_event b d) v)
  on_source_input-Spent s (scroll_event dx dy) v =
      ground (arith, forward-Spent s (scroll_event dx dy) v)

  on_local_input-Spent :
      (s : EngineCore) (i : LocalInputEvent) → Spent c e n s → Spent c e n (on_local_input cs s i).0
  unfolding on_local_input
  on_local_input-Spent s i v = ground (arith, on_source_input-Spent s i v)

  wait_ack-Spent :
      (s : EngineCore) (p : Option PendingAck) → Spent c e n s → Spent c e n (wait_ack cs s p).0
  unfolding wait_ack count_miss reclaim_local reclaim
  wait_ack-Spent s none v = count_miss-Spent s v
  wait_ack-Spent s (some p) v = ground arith

  on_tick-Spent : (s : EngineCore) → Spent c e n s → Spent c e n (on_tick cs s).0
  unfolding on_tick
  on_tick-Spent s v =
      wait_ack-Spent
        (record s { hb_seq = saturating_add u64_max s.hb_seq 1; input_rate = refill s.input_rate })
        s.pending_ack v

  transfer_for-Spent :
      (s : EngineCore) (t : OwnershipTransfer) (o : Option DeviceId)
      → t.owner_epoch ≤ u64_max
      → Spent c e n s
      → Spent c e n (transfer_for cs s t o).0
  unfolding transfer_for
  transfer_for-Spent s t none h v = v
  transfer_for-Spent s t (some o) h v = transfer_to-Spent s o t h v

  on_transfer-Spent :
      (s : EngineCore) (payload : List ℕ)
      → ReadsU64 cs
      → Spent c e n s
      → Spent c e n (on_transfer cs s payload).0
  unfolding on_transfer read_transfer
  on_transfer-Spent s payload h v = go (from_cbor cs.transfer payload) refl
    where
      go :
          (r : Result OwnershipTransfer CodecError)
          → from_cbor cs.transfer payload ≡ r
          → Spent c e n (read_transfer cs s r).0
      go (err _) q = v
      go (ok t) q =
          transfer_for-Spent s t (to_id t.to)
            (h payload t _ (from_cbor_strict cs.transfer payload t q).0) v

  on_ownership_ack-Spent :
      (s : EngineCore) (payload : List ℕ)
      → Spent c e n s
      → Spent c e n (on_ownership_ack cs s payload).0
  unfolding on_ownership_ack take_ack reclaim_local reclaim
  on_ownership_ack-Spent s payload v = ground arith

  on_button-Spent :
      (s : EngineCore) (payload : List ℕ) → Spent c e n s → Spent c e n (on_button cs s payload).0
  unfolding on_button admit accept_ctr allow_one
  on_button-Spent s payload v = ground arith

  on_scroll-Spent :
      (s : EngineCore) (payload : List ℕ) → Spent c e n s → Spent c e n (on_scroll cs s payload).0
  unfolding on_scroll admit accept_ctr allow_one core_unit
  on_scroll-Spent s payload v = ground arith

  on_ping-Spent :
      (s : EngineCore) (payload : List ℕ) → Spent c e n s → Spent c e n (on_ping cs s payload).0
  unfolding on_ping
  on_ping-Spent s payload v = ground arith

  on_goodbye-Spent :
      (s : EngineCore) (payload : List ℕ) → Spent c e n s → Spent c e n (on_goodbye cs s payload).0
  unfolding on_goodbye
  on_goodbye-Spent s payload v = ground (arith, reclaim_local-Spent s v)

  on_motion-Spent :
      (s : EngineCore) (d : Datagram) → Spent c e n s → Spent c e n (on_motion cs s d).0
  unfolding on_motion accept_seq
  on_motion-Spent s (motion m) v = ground arith
  on_motion-Spent s (motion_rel m) v = v
  on_motion-Spent s (unknown tag) v = v

  on_injection_failed-Spent :
      (s : EngineCore) → Spent c e n s → Spent c e n (on_injection_failed cs s).0
  unfolding on_injection_failed give_back mark_input_blocked grant_to
  on_injection_failed-Spent s v = ground arith

  on_control-Spent :
      (s : EngineCore) (t : ℕ) (payload : List ℕ)
      → ReadsU64 cs
      → Spent c e n s
      → Spent c e n (on_control cs s t payload).0
  on_control-Spent s t payload h v =
      on_control_cases cs (λ r. Spent c e n r.0) s t payload (on_transfer-Spent s payload h v)
        (on_ownership_ack-Spent s payload v) (λ _. on_key-Spent s payload v)
        (λ _. on_button-Spent s payload v) (λ _. on_scroll-Spent s payload v)
        (on_ping-Spent s payload v) v (on_goodbye-Spent s payload v) v

  handle-Spent :
      (s : EngineCore) (ev : Event) → ReadsU64 cs → Spent c e n s → Spent c e n (handle cs s ev).0
  unfolding handle set_peer_trusted set_input_allowed on_suppress_unavailable
  handle-Spent s (local_input i) h v = on_local_input-Spent s i v
  handle-Spent s (control t payload) h v = on_control-Spent s t payload h v
  handle-Spent s (datagram d) h v = on_motion-Spent s d v
  handle-Spent s tick h v = on_tick-Spent s v
  handle-Spent s suppress_unavailable h v =
      ground (arith, reclaim_local-Spent (record s { suppress_blocked = true }) v)
  handle-Spent s injection_failed h v = on_injection_failed-Spent s v
  handle-Spent s (peer_trusted b) h v = v
  handle-Spent s (input_allowed b) h v = v

  pub run-Spent :
      (s : EngineCore) (es : List Event) → ReadsU64 cs → Spent c e n s → Spent c e n (run cs s es).0
  unfolding run
  run-Spent s [] h v = v
  run-Spent s (ev ∷ es) h v = run-Spent (handle cs s ev).0 es h (handle-Spent s ev h v)
