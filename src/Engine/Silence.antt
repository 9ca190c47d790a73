-- ===== src/Engine/Silence.antt =====
-- A peer that says nothing, or that does not answer a grant, loses input
-- (crates/mouser-engine/src/core.rs, on_tick and reclaim_local).
use mouser.Prelude.{
  ℕ, zero, suc, sym, ◌+◌, ◌≤◌, ◌<◌, ◌≡◌, List, [], ◌∷◌, Option, none, some, arith, ◌⊎◌,
}
use mouser.Prelude.Sat.{u64_max, saturating_add}
use mouser.Core.Ownership.{reclaim}
use mouser.Protocol.Messages.{type_heartbeat}
use mouser.Engine.Types.{source, PendingAck, refill, ownership_ack_ticks}
use mouser.Engine.State.{EngineCore, Codecs, heartbeat_miss_limit}
use mouser.Engine.Machine.{reclaim_local, count_miss, wait_ack, on_tick}
use mouser.Engine.Wire.{on_control}

-- What the time and a living peer do while no message but the sign of life comes.
pub data Beat : Type 0 where
  tick : Beat
  heartbeat : List ℕ → Beat

unfoldable pub count_ticks : List Beat → ℕ
count_ticks [] = 0
count_ticks (tick ∷ beats) = suc (count_ticks beats)
count_ticks (heartbeat payload ∷ beats) = count_ticks beats

-- The source owns input, or it has counted `k` missed ticks, not enough to take it back.
abbrev Misses : ℕ → EngineCore → Type 0
Misses k s =
    (s.role ≡ source)
    × ((s.ownership.owner ≡ s.ownership.me) ⊎ ((k ≤ s.misses) × (s.misses < heartbeat_miss_limit)))

-- The grant that the source waits for has been waited for `k` ticks.
abbrev Overdue : ℕ → Option PendingAck → Type 0
Overdue k none = ⊥
Overdue k (some p) = p.ticks_left + k ≤ ownership_ack_ticks

abbrev Waited : ℕ → EngineCore → Type 0
Waited k s = (s.role ≡ source) × ((s.ownership.owner ≡ s.ownership.me) ⊎ Overdue k s.pending_ack)

add_suc : (n k : ℕ) → n + suc k ≡ suc n + k
add_suc n k = omega arith

zero_add : (k : ℕ) → 0 + k ≡ k
zero_add k = omega arith

Misses-owner : (k : ℕ) (s : EngineCore) → 3 ≤ k → Misses k s → s.ownership.owner ≡ s.ownership.me
Misses-owner k s h v = ground arith

Waited-owner : (k : ℕ) (s : EngineCore) → 3 ≤ k → Waited k s → s.ownership.owner ≡ s.ownership.me
Waited-owner k s h v = ground arith

module _ (cs : Codecs) where
  unfoldable pub beat : List Beat → EngineCore → EngineCore
  beat [] s = s
  beat (tick ∷ beats) s = beat beats (on_tick cs s).0
  beat (heartbeat payload ∷ beats) s = beat beats (on_control cs s type_heartbeat payload).0

  -- The number of ticks given.
  unfoldable pub ticks : ℕ → EngineCore → EngineCore
  ticks zero s = s
  ticks (suc n) s = ticks n (on_tick cs s).0

  wait_ack-Misses :
      (k : ℕ) (s : EngineCore) (p : Option PendingAck)
      → Misses k s
      → Misses (suc k) (wait_ack cs s p).0
  unfolding wait_ack count_miss reclaim_local reclaim
  wait_ack-Misses k s none v = ground arith
  wait_ack-Misses k s (some p) v = ground arith

  wait_ack_first :
      (s : EngineCore) (p : Option PendingAck) → s.role ≡ source → Misses 1 (wait_ack cs s p).0
  unfolding wait_ack count_miss reclaim_local reclaim
  wait_ack_first s none r = ground arith
  wait_ack_first s (some p) r = ground arith

  ticks-Misses : (k n : ℕ) (s : EngineCore) → Misses k s → Misses (n + k) (ticks n s)
  unfolding ticks on_tick
  ticks-Misses k zero s v = rw (zero_add k) v
  ticks-Misses k (suc n) s v = rw (sym (add_suc n k)) (
      ticks-Misses (suc k) n _ (
        wait_ack-Misses k
          (record s {
            hb_seq = saturating_add u64_max s.hb_seq 1;
            input_rate = refill s.input_rate;
          })
          s.pending_ack v))

  -- A source that hears nothing from its peer for three ticks or more owns input again, whoever
  -- owned it before.
  pub ticks_reclaim :
      (n : ℕ) (s : EngineCore)
      → s.role ≡ source
      → 3 ≤ n
      → (ticks n s).ownership.owner ≡ (ticks n s).ownership.me
  unfolding ticks on_tick
  ticks_reclaim zero s r h = omega (arith, h)
  ticks_reclaim (suc n) s r h = Misses-owner (n + 1) (ticks n (on_tick cs s).0) (omega (arith, h)) (
      ticks-Misses 1 n _ (
        wait_ack_first
          (record s {
            hb_seq = saturating_add u64_max s.hb_seq 1;
            input_rate = refill s.input_rate;
          })
          s.pending_ack r))

  wait_ack-Waited :
      (k : ℕ) (s : EngineCore) → Waited k s → Waited (suc k) (wait_ack cs s s.pending_ack).0
  unfolding wait_ack count_miss reclaim_local reclaim
  wait_ack-Waited k s v = ground arith

  beat-Waited :
      (k : ℕ) (beats : List Beat) (s : EngineCore)
      → Waited k s
      → Waited (count_ticks beats + k) (beat beats s)
  unfolding beat on_tick count_ticks on_control
  beat-Waited k [] s v = rw (zero_add k) v
  beat-Waited k (tick ∷ beats) s v = rw (sym (add_suc (count_ticks beats) k)) (
      beat-Waited (suc k) beats _ (
        wait_ack-Waited k
          (record s {
            hb_seq = saturating_add u64_max s.hb_seq 1;
            input_rate = refill s.input_rate;
          })
          v))
  beat-Waited k (heartbeat payload ∷ beats) s v = beat-Waited k beats (record s { misses = 0 }) v

  -- A source whose grant is not acknowledged owns input again after three ticks or more, even if
  -- the peer shows signs of life all the time.
  pub beat_reclaim :
      (beats : List Beat) (s : EngineCore) (p : PendingAck)
      → s.role ≡ source
      → s.pending_ack ≡ some p
      → p.ticks_left ≤ ownership_ack_ticks
      → 3 ≤ count_ticks beats
      → (beat beats s).ownership.owner ≡ (beat beats s).ownership.me
  beat_reclaim beats s p r q h t =
      Waited-owner (count_ticks beats + 0) (beat beats s) (omega (arith, t))
        (beat-Waited 0 beats s (ground arith))
