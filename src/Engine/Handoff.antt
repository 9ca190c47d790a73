-- ===== src/Engine/Handoff.antt =====
-- Two engine cores and the frames between them (crates/mouser-engine/src/core.rs, core/wire.rs):
-- input goes over to the peer.
use mouser.Prelude.{
  ok, ℕ, ◌+◌, ◌≤◌, ◌<◌, ◌^◌, ◌≡◌, refl, true, List, [], ◌∷◌, ◌++◌, none, some, arith,
}
use mouser.Prelude.Int.{ℤ}
use mouser.Prelude.Sat.{u64_max, saturating_add}
use mouser.Core.DeviceId.{DeviceId, to_vec, to_id-to_vec}
use mouser.Core.Ownership.{grant_to, adopt, observe, observe_with_reason}
use mouser.Protocol.Enums.{TransferReason}
use mouser.Protocol.Codec.{from_cbor}
use mouser.Protocol.Messages.{motion, OwnershipTransfer}
use mouser.Engine.Types.{
  Action, send_control, send_motion, inject, move_cursor, accept_seq, new_pending,
}
use mouser.Engine.Geometry.{entry_point}
use mouser.Engine.State.{EngineCore, Codecs, encode, next_seq}
use mouser.Engine.Machine.{hand_over, cross_to_peer}
use mouser.Engine.Transfer.{
  on_transfer, read_transfer, transfer_for, transfer_to, on_accepted, on_ownership_ack, take_ack,
}
use mouser.Engine.Transfer.{enter_ownership}
use mouser.Engine.Wire.{on_control, on_motion}

-- The frames among the actions of one engine, in order, as they reach the other one: its state, and
-- what it does.
unfoldable pub deliver : Codecs → EngineCore → List Action → EngineCore × List Action
deliver cs s [] = (s, [])
deliver cs s (send_control t payload ∷ actions) =
    let (s', first) = on_control cs s t payload in
    let (s'', rest) = deliver cs s' actions in (s'', first ++ rest)
deliver cs s (send_motion m ∷ actions) =
    let (s', first) = on_motion cs s (motion m) in
    let (s'', rest) = deliver cs s' actions in (s'', first ++ rest)
deliver cs s (_ ∷ actions) = deliver cs s actions

-- A crossing and the three frames that follow it: both engines, and what the peer does last.
unfoldable pub crossing :
    Codecs → EngineCore → EngineCore → ℤ → ℤ → EngineCore × EngineCore × List Action
crossing cs s t x y =
    let (s', out) = cross_to_peer cs s x y in
    let (t', reply) = deliver cs t out in
    let (s'', motions) = deliver cs s' reply in
    let (t'', actions) = deliver cs t' motions in (s'', t'', actions)

-- The acknowledgement of a grant is read as it was written.
abbrev pub ReadsAcks : Codecs → Type 0
ReadsAcks cs =
    (e : ℕ)
    → e ≤ u64_max
    → from_cbor cs.ack (encode cs.ack (record { owner_epoch = e; accepted = true; reason = none }))
      ≡ ok (record { owner_epoch = e; accepted = true; reason = none })

-- A transfer whose epoch is a 64-bit number is read as it was written.
abbrev pub ReadsTransfers : Codecs → Type 0
ReadsTransfers cs =
    (t : OwnershipTransfer)
    → t.owner_epoch ≤ u64_max
    → from_cbor cs.transfer (encode cs.transfer t) ≡ ok t

-- Both engines agree that the second one owns input, at the epoch behind that of the first one.
abbrev pub HandedOver :
    EngineCore → EngineCore → ℤ → ℤ → EngineCore × EngineCore × List Action → Type 0
HandedOver s t x y (s', t', actions) =
    (actions
      ≡ inject (move_cursor 0 (entry_point s.layout x y).0 (entry_point s.layout x y).1) ∷ [])
    × (s'.ownership.owner ≡ t.ownership.me)
    × (s'.ownership.epoch ≡ s.ownership.epoch + 1)
    × (s'.pending_ack ≡ none)
    × (t'.ownership.owner ≡ t.ownership.me)
    × (t'.ownership.me ≡ t.ownership.me)
    × (t'.ownership.epoch ≡ s.ownership.epoch + 1)
    × (t'.input_auth.accepted_epoch ≡ some (s.ownership.epoch + 1))

module _ (cs : Codecs) where
  transfer_arrives :
      (t : EngineCore) (e : ℕ) (r : TransferReason)
      → ReadsTransfers cs
      → e ≤ u64_max
      → t.ownership.me < 256 ^ 32
      → t.ownership.epoch < e
      → t.input_auth.peer_trusted ≡ true
      → t.input_auth.input_allowed ≡ true
      → on_transfer cs t (
          encode cs.transfer
            (record { to = to_vec t.ownership.me; owner_epoch = e; layout_rev = 0; reason = r }))
        ≡ on_accepted cs
            (record t { ownership = (observe_with_reason t.ownership t.ownership.me e r).0 })
            t.ownership.me
            e
  unfolding on_transfer read_transfer transfer_for transfer_to observe_with_reason observe adopt
  transfer_arrives t e r law fits small later trusted allowed =
      rw
        (
          law (record { to = to_vec t.ownership.me; owner_epoch = e; layout_rev = 0; reason = r })
              fits,
          to_id-to_vec t.ownership.me small,
        )
        (ground arith)

  ack_arrives :
      (s : EngineCore) (e : ℕ)
      → ReadsAcks cs
      → e ≤ u64_max
      → s.pending_ack ≡ some (new_pending e)
      → on_ownership_ack cs s
          (encode cs.ack (record { owner_epoch = e; accepted = true; reason = none }))
        ≡ (let s' = next_seq (record s { pending_ack = none }) in
            (
              s',
              send_motion (record {
                owner_epoch = e;
                seq = s'.out_seq;
                display_id = 0;
                x = s.peer_x;
                y = s.peer_y;
              })
                  ∷ [],
            ))
  unfolding on_ownership_ack take_ack
  ack_arrives s e law fits p = rw (on_ownership_ack, law e fits) (ground arith)

  cross_to_peer_grants :
      (s : EngineCore) (x y : ℤ)
      → s.ownership.owner ≡ s.ownership.me
      → cross_to_peer cs s x y
        ≡ hand_over cs s
            (grant_to s.ownership s.peer).0
            (saturating_add u64_max s.ownership.epoch 1)
            x
            y
  unfolding cross_to_peer grant_to
  cross_to_peer_grants s x y o = ground arith

  deliver_reply :
      (s t : EngineCore) (o : DeviceId) (e : ℕ)
      → deliver cs s ((on_accepted cs t o e).1 ++ []) ≡ (
          let r =
            on_ownership_ack cs s
              (encode cs.ack (record { owner_epoch = e; accepted = true; reason = none })) in
          (r.0, r.1 ++ []))
  unfolding deliver on_accepted on_control
  deliver_reply s t o e = ground arith

  -- The last motion arrives.
  warp_arrives :
      (s s' t : EngineCore) (x y : ℤ)
      → t.ownership.epoch ≤ s.ownership.epoch
      → s.ownership.epoch < u64_max
      → t.input_auth.peer_trusted ≡ true
      → t.input_auth.input_allowed ≡ true
      → s'.ownership.owner ≡ t.ownership.me
      → s'.ownership.epoch ≡ s.ownership.epoch + 1
      → s'.pending_ack ≡ none
      → (let e = saturating_add u64_max s.ownership.epoch 1 in
          let t' =
            (on_accepted cs
              (record t {
                ownership =
                    (observe_with_reason t.ownership t.ownership.me e TransferReason.edge_cross).0;
              })
              t.ownership.me
              e).0 in
          let (x', y') = entry_point s.layout x y in
          let (t'', actions) =
            on_motion cs t'
              (motion (record { owner_epoch = e; seq = 1; display_id = 0; x = x'; y = y' })) in
          HandedOver s t x y (s', t'', actions ++ []))
  unfolding on_motion on_accepted enter_ownership observe_with_reason observe adopt accept_seq
  warp_arrives s s' t x y h e tru al o' e' p' = ground arith

  -- A source that owns input, at an epoch below the largest, crosses to its peer, whose epoch is no
  -- later and who trusts and allows it; messages are read as they were written, and each frame is
  -- delivered. Then the peer owns input at the next epoch and admits input of that epoch; the source
  -- agrees on owner and epoch and waits for nothing; and all that the last frame makes the peer do
  -- is to put its cursor at the point of its screen that corresponds to the crossing.
  pub crossing_lem :
      (s t : EngineCore) (x y : ℤ)
      → ReadsTransfers cs
      → ReadsAcks cs
      → s.ownership.owner ≡ s.ownership.me
      → s.ownership.epoch < u64_max
      → s.peer ≡ t.ownership.me
      → t.ownership.me < 256 ^ 32
      → t.ownership.epoch ≤ s.ownership.epoch
      → t.input_auth.peer_trusted ≡ true
      → t.input_auth.input_allowed ≡ true
      → HandedOver s t x y (crossing cs s t x y)
  unfolding crossing deliver on_control hand_over grant_to
  crossing_lem s t x y lt la o e p i h tru al =
      rw
        (
          crossing,
          cross_to_peer_grants s x y o,
          p,
          transfer_arrives t (saturating_add u64_max s.ownership.epoch 1) TransferReason.edge_cross
              lt (omega arith) i (omega (arith, h, e)) tru al,
          deliver_reply,
          ack_arrives _ (saturating_add u64_max s.ownership.epoch 1) la (omega arith),
        )
        (warp_arrives s
          (record s { ownership = (grant_to s.ownership t.ownership.me).0; pending_ack = none }) t x
          y h e tru al (ground arith) (ground arith) refl)
