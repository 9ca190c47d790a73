-- ===== src/Engine/Capture.antt =====
-- The capture decisions of the source (crates/mouser-engine/src/core.rs, on_local_input).
use mouser.Prelude.{◌≡◌, ◌≢◌, List, [], ◌∷◌, arith, if◌then◌else◌}
use mouser.Prelude.Int.{ℤ}
use mouser.Core.Ownership.{grant_to, reclaim}
use mouser.Engine.Types.{
  source, LocalInputEvent, cursor_moved, key_event, button_event, scroll_event, Action,
  CaptureDecision, pass_through, suppress, capture,
}
use mouser.Engine.State.{EngineCore, Codecs, is_owner}
use mouser.Engine.Machine.{
  reclaim_local, hand_over, cross_to_peer, on_cursor_here, drive_peer, on_cursor_away, on_cursor,
  forward, on_source_input, on_local_input,
}

unfoldable pub decisions : List Action → List CaptureDecision
decisions [] = []
decisions (capture d ∷ actions) = d ∷ decisions actions
decisions (_ ∷ actions) = decisions actions

-- The decision for a local event once the engine has handled it.
abbrev pub decision : EngineCore → CaptureDecision
decision s = if is_owner s then pass_through else suppress

module _ (cs : Codecs) where
  cross_to_peer_decides :
      (s : EngineCore) (x y : ℤ)
      → s.peer ≢ s.ownership.me
      → s.ownership.owner ≡ s.ownership.me
      → decisions (cross_to_peer cs s x y).1 ≡ decision (cross_to_peer cs s x y).0 ∷ []
  unfolding cross_to_peer hand_over grant_to decisions
  cross_to_peer_decides s x y ne o = ground (arith, ne)

  on_cursor_here_decides :
      (s : EngineCore) (x y dx dy : ℤ)
      → s.peer ≢ s.ownership.me
      → s.ownership.owner ≡ s.ownership.me
      → decisions (on_cursor_here cs s x y dx dy).1
        ≡ decision (on_cursor_here cs s x y dx dy).0 ∷ []
  unfolding on_cursor_here decisions
  on_cursor_here_decides s x y dx dy ne o = ground (arith, cross_to_peer_decides s x y ne o)

  on_cursor_away_decides :
      (s : EngineCore) (x y dx dy : ℤ)
      → s.ownership.owner ≢ s.ownership.me
      → decisions (on_cursor_away cs s x y dx dy).1
        ≡ decision (on_cursor_away cs s x y dx dy).0 ∷ []
  unfolding on_cursor_away drive_peer reclaim_local reclaim decisions
  on_cursor_away_decides s x y dx dy o = ground (arith, o)

  -- A source whose peer is another device answers every local event with exactly one capture
  -- decision: to let the event through if the source owns input once the event is handled, and to
  -- suppress it if the peer does. An event is never seen by both devices or by neither.
  pub on_local_input_decides :
      (s : EngineCore) (e : LocalInputEvent)
      → s.role ≡ source
      → s.peer ≢ s.ownership.me
      → decisions (on_local_input cs s e).1 ≡ decision (on_local_input cs s e).0 ∷ []
  unfolding on_local_input on_source_input on_cursor forward decisions
  on_local_input_decides s (cursor_moved d x y dx dy) r ne =
      ground (arith, on_cursor_here_decides s x y dx dy ne, on_cursor_away_decides s x y dx dy)
  on_local_input_decides s (key_event u d m) r ne = ground arith
  on_local_input_decides s (button_event b d) r ne = ground arith
  on_local_input_decides s (scroll_event dx dy) r ne = ground arith
