-- ===== src/Engine/Events.antt =====
-- Everything that the runtime can feed to an engine core (crates/mouser-engine/src/runtime.rs), as
-- one type of events with one step function, and histories of events.
use mouser.Prelude.{ℕ, Bool, List, [], ◌∷◌, ◌++◌}
use mouser.Protocol.Messages.{Datagram}
use mouser.Engine.Types.{LocalInputEvent, Action}
use mouser.Engine.State.{EngineCore, Codecs, set_peer_trusted, set_input_allowed}
use mouser.Engine.Machine.{on_local_input, on_suppress_unavailable, on_tick}
use mouser.Engine.Wire.{on_control, on_motion, on_injection_failed}

pub data Event : Type 0 where
  local_input : LocalInputEvent → Event
  control : (msg_type : ℕ) (payload : List ℕ) → Event
  datagram : Datagram → Event
  tick suppress_unavailable injection_failed : Event
  peer_trusted input_allowed : Bool → Event

module _ (cs : Codecs) where
  unfoldable pub handle : EngineCore → Event → EngineCore × List Action
  handle s (local_input event) = on_local_input cs s event
  handle s (control msg_type payload) = on_control cs s msg_type payload
  handle s (datagram d) = on_motion cs s d
  handle s tick = on_tick cs s
  handle s suppress_unavailable = on_suppress_unavailable cs s
  handle s injection_failed = on_injection_failed cs s
  handle s (peer_trusted trusted) = (set_peer_trusted s trusted, [])
  handle s (input_allowed allowed) = (set_input_allowed s allowed, [])

  -- The state after a history, and all that was asked of the runtime.
  unfoldable pub run : EngineCore → List Event → EngineCore × List Action
  run s [] = (s, [])
  run s (e ∷ es) =
      let (s', actions) = handle s e in let (s'', more) = run s' es in (s'', actions ++ more)
