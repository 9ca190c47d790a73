-- ===== src/Engine/Injection.antt =====
-- Which of the peer's messages are injected (crates/mouser-engine/src/core/wire.rs).
use mouser.Prelude.{
  ℕ, ◌≤◌, ◌≡◌, refl, Bool, true, false, ◌||◌, List, [], ◌∷◌, Option, none, some, ok, err, Result,
  ◌==◌, if◌then◌else◌, arith,
}
use mouser.Prelude.Sat.{u64_max}
use mouser.Core.Ownership.{observe, observe_with_reason}
use mouser.Protocol.Codec.{CodecError, from_cbor}
use mouser.Protocol.Messages.{
  type_key_event, type_pointer_button, type_scroll, KeyEvent, PointerButton, Scroll,
  OwnershipTransfer,
}
use mouser.Core.DeviceId.{DeviceId, to_id}
use mouser.Engine.Types.{Action, inject, not_after, enter_epoch, accept_ctr, allow_one, observe_key}
use mouser.Engine.State.{EngineCore, Codecs}
use mouser.Engine.Machine.{reclaim_local}
use mouser.Engine.Transfer.{
  transfer_to, transfer_for, read_transfer, on_transfer, on_accepted, refuse, take_ack,
  on_ownership_ack,
}
use mouser.Engine.Wire.{
  admit, press_key, is_repeat, on_key, on_button, on_scroll, on_ping, on_goodbye, on_control,
  on_control_cases,
}
use mouser.Engine.Replay.{control_counter, Spent}

abbrev pub is_inject : Action → Bool
is_inject (inject i) = true
is_inject _ = false

unfoldable pub injects : List Action → Bool
injects [] = false
injects (a ∷ actions) = is_inject a || injects actions

-- The epoch and the counter of a message that asks for an injection.
abbrev pub key_stamp : Result KeyEvent CodecError → Option (ℕ × ℕ)
key_stamp (ok k) = some (k.owner_epoch, k.ctr)
key_stamp (err _) = none

abbrev pub button_stamp : Result PointerButton CodecError → Option (ℕ × ℕ)
button_stamp (ok b) = some (b.owner_epoch, b.ctr)
button_stamp (err _) = none

abbrev pub scroll_stamp : Result Scroll CodecError → Option (ℕ × ℕ)
scroll_stamp (ok w) = some (w.owner_epoch, w.ctr)
scroll_stamp (err _) = none

unfoldable pub stamp : Codecs → ℕ → List ℕ → Option (ℕ × ℕ)
stamp cs t payload =
    if t == type_key_event
    then key_stamp (from_cbor cs.key payload)
    else (if t == type_pointer_button
        then button_stamp (from_cbor cs.button payload)
        else (if t == type_scroll then scroll_stamp (from_cbor cs.scroll payload) else none))

-- The peer is trusted and allowed, the device owns input, and it accepted the grant of this epoch.
abbrev pub Open : EngineCore → Type 0
Open s =
    (s.input_auth.peer_trusted ≡ true)
    × (s.input_auth.input_allowed ≡ true)
    × (s.ownership.owner ≡ s.ownership.me)
    × (s.input_auth.accepted_epoch ≡ some s.ownership.epoch)

-- The stamp is of the current epoch and its counter is above all that were seen in it.
abbrev pub IsFresh : EngineCore → Option (ℕ × ℕ) → Type 0
IsFresh s none = ⊥
IsFresh s (some (e, n)) =
    (e ≡ s.ownership.epoch)
    × (not_after (enter_epoch s.replay_guard s.ownership.epoch).last_ctr n ≡ false)

abbrev pub SpentStamp : Option (ℕ × ℕ) → EngineCore → Type 0
SpentStamp none s = ⊥
SpentStamp (some (e, n)) s = Spent control_counter e n s

module _ (cs : Codecs) (s : EngineCore) (payload : List ℕ) where
  on_key_gate :
      injects (on_key cs s payload).1 ≡ true
      → Open s × IsFresh s (key_stamp (from_cbor cs.key payload))
  unfolding injects on_key admit accept_ctr press_key is_repeat observe_key allow_one
  on_key_gate h = ground arith

  on_button_gate :
      injects (on_button cs s payload).1 ≡ true
      → Open s × IsFresh s (button_stamp (from_cbor cs.button payload))
  unfolding injects on_button admit accept_ctr allow_one
  on_button_gate h = ground arith

  on_scroll_gate :
      injects (on_scroll cs s payload).1 ≡ true
      → Open s × IsFresh s (scroll_stamp (from_cbor cs.scroll payload))
  unfolding injects on_scroll admit accept_ctr allow_one
  on_scroll_gate h = ground arith

  transfer_silent :
      (t : OwnershipTransfer) (o : Option DeviceId) → injects (transfer_for cs s t o).1 ≡ false
  unfolding injects transfer_for transfer_to on_accepted refuse observe_with_reason observe
  transfer_silent t none = refl
  transfer_silent t (some o) = ground arith

  on_transfer_silent : injects (on_transfer cs s payload).1 ≡ false
  unfolding on_transfer read_transfer injects
  on_transfer_silent = go (from_cbor cs.transfer payload)
    where
      go : (r : Result OwnershipTransfer CodecError) → injects (read_transfer cs s r).1 ≡ false
      go (err _) = refl
      go (ok t) = transfer_silent t (to_id t.to)

  on_ownership_ack_silent : injects (on_ownership_ack cs s payload).1 ≡ false
  unfolding on_ownership_ack take_ack reclaim_local injects
  on_ownership_ack_silent = ground arith

  on_ping_silent : injects (on_ping cs s payload).1 ≡ false
  unfolding on_ping injects
  on_ping_silent = ground arith

  on_goodbye_silent : injects (on_goodbye cs s payload).1 ≡ false
  unfolding on_goodbye reclaim_local injects
  on_goodbye_silent = ground arith

  -- Whatever the state, a message of the control channel is injected only if the peer is trusted
  -- and allowed, the device owns input by a grant that it accepted for the current epoch, and the
  -- message is a key, button or scroll event of this epoch whose counter is above all counters that
  -- the guard saw in it.
  pub on_control_gate :
      (t : ℕ)
      → injects (on_control cs s t payload).1 ≡ true
      → Open s × IsFresh s (stamp cs t payload)
  unfolding stamp injects
  on_control_gate t =
      on_control_cases cs (λ r. injects r.1 ≡ true → Open s × IsFresh s (stamp cs t payload)) s t
        payload (λ h. ground (arith, on_transfer_silent))
        (λ h. ground (arith, on_ownership_ack_silent)) (λ e h. rw e (on_key_gate h))
        (λ e h. rw e (on_button_gate h)) (λ e h. rw e (on_scroll_gate h))
        (λ h. ground (arith, on_ping_silent)) (λ h. ground arith)
        (λ h. ground (arith, on_goodbye_silent)) (λ h. ground arith)

  on_key_spent :
      s.ownership.epoch ≤ u64_max
      → injects (on_key cs s payload).1 ≡ true
      → SpentStamp (key_stamp (from_cbor cs.key payload)) (on_key cs s payload).0
  unfolding injects on_key admit accept_ctr press_key is_repeat observe_key allow_one
  on_key_spent b h = ground arith

  on_button_spent :
      s.ownership.epoch ≤ u64_max
      → injects (on_button cs s payload).1 ≡ true
      → SpentStamp (button_stamp (from_cbor cs.button payload)) (on_button cs s payload).0
  unfolding injects on_button admit accept_ctr allow_one
  on_button_spent b h = ground arith

  on_scroll_spent :
      s.ownership.epoch ≤ u64_max
      → injects (on_scroll cs s payload).1 ≡ true
      → SpentStamp (scroll_stamp (from_cbor cs.scroll payload)) (on_scroll cs s payload).0
  unfolding injects on_scroll admit accept_ctr allow_one
  on_scroll_spent b h = ground arith

  pub on_control_spent :
      (t : ℕ)
      → s.ownership.epoch ≤ u64_max
      → injects (on_control cs s t payload).1 ≡ true
      → SpentStamp (stamp cs t payload) (on_control cs s t payload).0
  unfolding stamp injects
  on_control_spent t b =
      on_control_cases cs (λ r. injects r.1 ≡ true → SpentStamp (stamp cs t payload) r.0) s t
        payload (λ h. ground (arith, on_transfer_silent))
        (λ h. ground (arith, on_ownership_ack_silent)) (λ e h. rw e (on_key_spent b h))
        (λ e h. rw e (on_button_spent b h)) (λ e h. rw e (on_scroll_spent b h))
        (λ h. ground (arith, on_ping_silent)) (λ h. ground arith)
        (λ h. ground (arith, on_goodbye_silent)) (λ h. ground arith)
