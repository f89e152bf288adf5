-- ===== src/Webrtc/Routing.antt =====
-- What WebRtcConnection does with a message of its channels, and the callbacks it holds,
-- src/transport/webrtc/webrtc_connection.cpp, for one peer. A callback is a value of type `C`; what one
-- throws is only logged.
use magpie_cpp.Value
use magpie_cpp.Prelude.Map
use magpie_cpp.Prelude.{◌||◌, ◌==◌, if◌then◌else◌, ◌∷◌, String, ℕ, Option, List, some, none, []}
use magpie_cpp.Value.{Dict, Value, dict}
use magpie_cpp.Prelude.Result.{Result, ok}
use magpie_cpp.Prelude.Map.{Map}
use magpie_cpp.Mqtt.Requester.{text_of}

-- The five maps of Impl; a callback has its handle, and that of a reply its request id.
pub record Callbacks (C : Type 0) : Type 0 where
  pub pub_callbacks : Map (List (ℕ × C))
  pub rpc_req_callbacks : Map (List (ℕ × C))
  pub rpc_rep_callbacks : Map C
  pub video_callbacks : List (ℕ × C)
  pub audio_callbacks : List (ℕ × C)

-- A callback that is run, with its arguments.
pub data Invocation (C : Type 0) : Type 0 where
  run_data : C → Value → String → Invocation C
  run_message : C → Value → Invocation C
  run_frame : C → Value → Invocation C

unfoldable pub run_each : {C : Type 0} → (C → Invocation C) → List (ℕ × C) → List (Invocation C)
run_each run [] = []
run_each run ((handle, cb) ∷ rest) = run cb ∷ run_each run rest

unfoldable pub held : {C : Type 0} → Option (List (ℕ × C)) → List (ℕ × C)
held none = []
held (some callbacks) = callbacks

module _ {C : Type 0} where
  unfoldable pub to_topic : Callbacks C → Option String → Option Value → List (Invocation C)
  unfolding held run_each Map.find
  to_topic c (some topic) (some payload) =
      run_each (λ cb. run_data cb payload topic) (held (Map.find topic c.pub_callbacks))
  to_topic c _ _ = []

  unfoldable pub to_service : Callbacks C → Value → Option String → List (Invocation C)
  unfolding held run_each Map.find
  to_service c received (some service) =
      run_each (λ cb. run_message cb received) (held (Map.find service c.rpc_req_callbacks))
  to_service c received none = []

  -- A frame that came over the data channel: its payload has to be a dict.
  unfoldable pub to_media : Callbacks C → Option String → Option Value → List (Invocation C)
  unfolding run_each to_topic
  to_media c (some topic) (some (dict payload)) =
      if topic == "video"
      then run_each (λ cb. run_frame cb (dict payload)) c.video_callbacks
      else if topic == "audio"
      then run_each (λ cb. run_frame cb (dict payload)) c.audio_callbacks
      else to_topic c (some topic) (some (dict payload))
  to_media c _ _ = []

  unfoldable pub run_reply : Value → Option C → List (Invocation C)
  run_reply received none = []
  run_reply received (some cb) = run_message cb received ∷ []

  unfoldable pub to_caller : Callbacks C → Value → Option String → List (Invocation C)
  unfolding run_reply Map.find
  to_caller c received (some rid) = run_reply received (Map.find rid c.rpc_rep_callbacks)
  to_caller c received none = []

  unfoldable pub by_kind : Callbacks C → Dict → Option String → List (Invocation C)
  unfolding to_topic to_service to_media to_caller text_of Value.find
  by_kind c d none = []
  by_kind c d (some kind) =
      if kind == "pub"
      then to_topic c (text_of (Value.find "topic" d)) (Value.find "payload" d)
      else if kind == "rpc_req"
      then to_service c (dict d) (text_of (Value.find "service" d))
      else if kind == "media"
      then to_media c (text_of (Value.find "topic" d)) (Value.find "payload" d)
      else if kind == "rpc_ack" || kind == "rpc_rep"
      then to_caller c (dict d) (text_of (Value.find "rid" d))
      else []

  -- Impl::onDataChannelMessage, with the message as it is deserialized.
  unfoldable pub on_data_message : Result Value → Callbacks C → List (Invocation C)
  unfolding by_kind text_of Value.find
  on_data_message (ok (dict d)) c = by_kind c d (text_of (Value.find "type" d))
  on_data_message _ c = []

  unfoldable pub by_media_kind : Callbacks C → Option String → Option Value → List (Invocation C)
  unfolding run_each
  by_media_kind c (some kind) (some (dict payload)) =
      if kind == "video"
      then run_each (λ cb. run_frame cb (dict payload)) c.video_callbacks
      else if kind == "audio"
      then run_each (λ cb. run_frame cb (dict payload)) c.audio_callbacks
      else []
  by_media_kind c _ _ = []

  -- Impl::onMediaChannelMessage, with the message as it is deserialized.
  unfoldable pub on_media_message : Result Value → Callbacks C → List (Invocation C)
  unfolding by_media_kind text_of Value.find
  on_media_message (ok (dict d)) c =
      by_media_kind c (text_of (Value.find "kind" d)) (Value.find "payload" d)
  on_media_message _ c = []
