-- ===== src/Webrtc/Group/Events.antt =====
-- A group of WebRTC peers while it serves: src/transport/webrtc/webrtc_connection.cpp.
use magpie_cpp.Prelude.Map
use magpie_cpp.Prelude.{◌==◌, ◌||◌, not, Bool, ◌∷◌, ◌≡◌, List, String, true, some, false, []}
use magpie_cpp.Prelude.Result.{Result, throw, ok}
use magpie_cpp.Webrtc.Group.{
  stop_group, sweep_stale, on_state_change, or_empty, on_signal, text_field, send_data, has_text,
  PeerGroup, request_from,
}
use magpie_cpp.Value.{Value}

-- What happens to a group while it serves.
pub data GroupEvent : Type 0 where
  requested : String → Value → GroupEvent
  sends : Value → GroupEvent
  signalled : Result Value → GroupEvent
  changed : String → Bool → GroupEvent
  swept : GroupEvent
  stops : GroupEvent

unfoldable pub group_step : GroupEvent → PeerGroup → PeerGroup
unfolding request_from send_data on_signal on_state_change sweep_stale stop_group
group_step (requested remote v) g = request_from remote v g
group_step (sends v) g = (send_data v g).1
group_step (signalled s) g = (on_signal s g).group
group_step (changed remote b) g = on_state_change remote b g
group_step swept g = sweep_stale g
group_step stops g = stop_group g

-- The events stand with the latest first.
unfoldable pub group_run : PeerGroup → List GroupEvent → PeerGroup
unfolding group_step
group_run g [] = g
group_run g (e ∷ es) = group_step e (group_run g es)

-- The event does not take the request `rid` from the peer: no other peer sends a request with its id,
-- no reply to it is sent, the peer does not say hello, and the group does not stop.
unfoldable pub spares : String → String → GroupEvent → Bool
unfolding has_text text_field or_empty
spares remote rid (requested other v) = not (has_text (text_field "rid" v) rid) || other == remote
spares remote rid (sends v) =
    not (has_text (text_field "type" v) "rpc_rep") || not (or_empty (text_field "rid" v) == rid)
spares remote rid (signalled (ok v)) =
    not (has_text (text_field "type" v) "hello") || not (has_text (text_field "peer_id" v) remote)
spares remote rid (signalled (throw e)) = true
spares remote rid (changed other b) = true
spares remote rid swept = true
spares remote rid stops = false

-- The group knows where the request came from.
abbrev pub Origin : String → String → PeerGroup → Type 0
Origin remote rid g = Map.find rid g.rpc_origins ≡ some remote
