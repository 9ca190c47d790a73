-- ===== src/Engine/Once.antt =====
-- The peer's control messages are injected at most once, whatever happens between two deliveries, and
-- its motions in their order (crates/mouser-engine/src/core/wire.rs).
use mouser.Prelude.{
  ℕ, ◌+◌, ◌-◌, ◌%◌, ◌^◌, ◌<◌, ltb, ◌&&◌, ◌≤◌, ◌≡◌, Bool, true, false, List, Option, some, arith,
}
use mouser.Prelude.Sat.{u64_max}
use mouser.Protocol.Messages.{PointerMotion, motion}
use mouser.Engine.Types.{accept_seq}
use mouser.Engine.State.{EngineCore, Codecs}
use mouser.Engine.Wire.{on_control, on_motion}
use mouser.Engine.Events.{Event, run}
use mouser.Engine.Replay.{control_counter, Spent, ReadsU64, run-Spent}
use mouser.Engine.Injection.{
  injects, stamp, Open, IsFresh, SpentStamp, on_control_gate, on_control_spent,
}

-- A spent number is not fresh while the peer's input is open.
Spent-stale :
    (s : EngineCore) (e n m : ℕ) (o : Option (ℕ × ℕ))
    → Spent control_counter e n s
    → m ≤ n
    → o ≡ some (e, m)
    → Open s
    → IsFresh s o
    → ⊥
Spent-stale s e n m o v h p a f = ground arith

Spent-at :
    (s : EngineCore) (e n : ℕ) (o : Option (ℕ × ℕ))
    → o ≡ some (e, n)
    → SpentStamp o s
    → Spent control_counter e n s
Spent-at s e n o p v = ground arith

refute : (b : Bool) → (b ≡ true → ⊥) → b ≡ false
refute b h = ground arith

module _ (cs : Codecs) (s : EngineCore) where
  -- After a control message was injected, no control message of the same epoch with the same or a
  -- lower counter is injected: not the same frame again, and no other kind of event under its
  -- counter, whatever local input, messages, ticks, failures and transfers come in between. The
  -- epochs at which the engine starts and that it decodes are 64-bit numbers.
  pub on_control_once :
      (t t' : ℕ) (payload payload' : List ℕ) (e n m : ℕ) (es : List Event)
      → ReadsU64 cs
      → s.ownership.epoch ≤ u64_max
      → injects (on_control cs s t payload).1 ≡ true
      → stamp cs t payload ≡ some (e, n)
      → stamp cs t' payload' ≡ some (e, m)
      → m ≤ n
      → injects (on_control cs (run cs (on_control cs s t payload).0 es).0 t' payload').1 ≡ false
  on_control_once t t' payload payload' e n m es reads b h p q le =
      let s₁ = (on_control cs s t payload).0 in
      let s₂ = (run cs s₁ es).0 in
      refute _ (λ again.
        (let (allowed, fresh) = on_control_gate cs s₂ payload' t' again in
          Spent-stale s₂ e n m _
            (run-Spent cs control_counter e n s₁ es reads
              (Spent-at s₁ e n _ p (on_control_spent cs s payload t b h)))
            le q allowed fresh))

-- The comparison of serial numbers of 32 bits (RFC 1982): `n` is newer than `m` if it is reached from
-- `m` by less than half a turn upwards, through the wrap-around.
abbrev pub is_newer : ℕ → ℕ → Bool
is_newer n m = ltb 0 ((n + (2 ^ 32 - m)) % 2 ^ 32) && ltb ((n + (2 ^ 32 - m)) % 2 ^ 32) (2 ^ 31)

-- While the numbers are less than half a turn apart, the comparison of serial numbers is the one of
-- numbers.
is_newer-ltb :
    (n m : ℕ) → n < 2 ^ 32 → m < 2 ^ 32 → n < m + 2 ^ 31 → m < n + 2 ^ 31 → is_newer n m ≡ ltb m n
is_newer-ltb n m hn hm h k = ground arith

-- After a pointer motion was injected, the next motion of its epoch is injected exactly if its
-- sequence number is newer by the comparison of serial numbers: a repeated or an overtaken motion is
-- dropped, any other is applied. The numbers have 32 bits and are less than 2 ^ 31 apart, so that no
-- wrap-around lies between them.
pub on_motion-is_newer :
    (cs : Codecs) (s : EngineCore) (d d' : PointerMotion)
    → injects (on_motion cs s (motion d)).1 ≡ true
    → d'.owner_epoch ≡ d.owner_epoch
    → d.seq < 2 ^ 32
    → d'.seq < 2 ^ 32
    → d'.seq < d.seq + 2 ^ 31
    → d.seq < d'.seq + 2 ^ 31
    → injects (on_motion cs (on_motion cs s (motion d)).0 (motion d')).1 ≡ is_newer d'.seq d.seq
unfolding injects on_motion accept_seq
on_motion-is_newer cs s d d' h same hd hd' lo hi =
    ground (arith, is_newer-ltb d'.seq d.seq hd' hd lo hi)
