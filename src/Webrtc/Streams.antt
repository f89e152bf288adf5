-- ===== src/Webrtc/Streams.antt =====
-- Frames over WebRTC: src/transport/webrtc/webrtc_stream_writer.cpp and webrtc_stream_reader.cpp.
pub mod Delivery
pub mod MediaChannel
use magpie_cpp.Value
use magpie_cpp.Prelude.{
  ◌<>◌, ◌∷◌, ◌==◌, List, if◌then◌else◌, Option, Bool, String, true, some, none, [],
}
use magpie_cpp.Webrtc.Callbacks.{Change, add_video, add_pub, add_audio}
use magpie_cpp.Frame.Body.{
  FrameObject, Doubles, to_dict, Body, image_raw, image_jpeg, dict_frame, audio_raw, audio_flac,
}
use magpie_cpp.Value.{Dict, Value, string, empty, dict}
use magpie_cpp.Prelude.Result.{Result, timeout_error, throw, plain_timeout, ok}
use magpie_cpp.Stream.{emplace_back}
use magpie_cpp.Frame.{Fresh, new_frame}
use magpie_cpp.Frame.Registry.{from_dict, Registry}
use magpie_cpp.Mqtt.Requester.{text_of}

-- sendData or sendMediaFrame
pub data SendCall : Type 0 where
  over_data over_media : Value → SendCall

-- Whether the frame is an ImageFrameRaw or an AudioFrameRaw, with the name of its kind.
unfoldable pub media_kind : Body → Option String
media_kind (image_raw i) = some "video"
media_kind (image_jpeg i) = some "video"
media_kind (audio_raw a) = some "audio"
media_kind (audio_flac a) = some "audio"
media_kind _ = none

unfoldable pub topic_envelope : String → String → String → Value → Value
topic_envelope key kind topic payload = dict (
    Value.set "payload" payload
      (Value.set "topic" (string topic) (Value.set key (string kind) empty)))

unfoldable pub write_media : Bool → String → String → Value → SendCall
unfolding topic_envelope
write_media use_media kind topic payload =
    let effective = if topic == "" then kind else topic in
    if use_media
    then over_media (topic_envelope "kind" kind effective payload)
    else over_data (topic_envelope "type" "media" effective payload)

unfoldable pub write_kind : Bool → Option String → String → Value → Option SendCall
unfolding write_media topic_envelope
write_kind use_media (some kind) topic payload = some (write_media use_media kind topic payload)
write_kind use_media none topic payload =
    if topic == "" then none else some (over_data (topic_envelope "type" "pub" topic payload))

-- WebRtcStreamWriter::transportWrite: the call that it makes, if it makes one.
unfoldable pub webrtc_write : Bool → FrameObject → String → Option SendCall
unfolding write_kind media_kind to_dict
webrtc_write use_media f topic =
    write_kind use_media (media_kind f.body) topic (dict (to_dict f empty))

pub record WebrtcStreamReader : Type 0 where
  pub name : String
  pub topic_filter : String
  pub data_closed : Bool
  pub data_queue : List (FrameObject × String)

-- The callback that the constructor adds.
unfoldable pub reader_change : {C : Type 0} → String → C → Change C
reader_change topic cb =
    if topic == "video"
    then add_video cb
    else if topic == "audio"
    then add_audio cb
    else add_pub topic cb

-- WebRtcStreamReader::enqueue, of a pointer that may be null.
unfoldable pub enqueue_made : Option FrameObject → String → WebrtcStreamReader → WebrtcStreamReader
unfolding emplace_back
enqueue_made none topic r = r
enqueue_made (some f) topic r = record r { data_queue = emplace_back (f, topic) r.data_queue }

-- The frame that the constructor of DictFrame makes.
unfoldable pub plain_dict : Fresh → Dict → FrameObject
unfolding new_frame
plain_dict fresh d = record {
  base = record (new_frame fresh) { name = "DictFrame" };
  body = dict_frame d;
}

module _ (doubles : Doubles) (registry : Registry) (fresh : Fresh) where
  -- WebRtcStreamReader::onVideoFrame and onAudioFrame
  unfoldable pub on_media_frame : Value → WebrtcStreamReader → WebrtcStreamReader
  unfolding enqueue_made from_dict
  on_media_frame (dict d) r =
      if r.data_closed
      then r
      else enqueue_made (from_dict doubles registry fresh d) r.topic_filter r
  on_media_frame _ r = r

  unfoldable pub make_frame : Dict → Option String → Option FrameObject
  unfolding from_dict plain_dict
  make_frame d (some frame_name) = from_dict doubles registry fresh d
  make_frame d none = some (plain_dict fresh d)

  -- WebRtcStreamReader::onDataMessage
  unfoldable pub on_data_frame : Value → String → WebrtcStreamReader → WebrtcStreamReader
  unfolding enqueue_made make_frame text_of Value.find
  on_data_frame (dict d) topic r =
      if r.data_closed
      then r
      else enqueue_made (make_frame d (text_of (Value.find "name" d))) topic r
  on_data_frame _ topic r = r

-- transportReadBlocking behind its first check, each time its thread wakes; `none` waits on, and
-- `some (ok none)` is its `false`.
unfoldable pub webrtc_read_woken :
    Bool
    → List (FrameObject × String)
    → WebrtcStreamReader
    → Option (Result (Option (FrameObject × String))) × WebrtcStreamReader
webrtc_read_woken expired (item ∷ rest) r = (some (ok (some item)), record r { data_queue = rest })
webrtc_read_woken expired [] r =
    if r.data_closed
    then (some (ok none), r)
    else if expired
    then (some (throw (timeout_error plain_timeout (r.name <> ": no data received"))), r)
    else (none, r)

-- WebRtcStreamReader::transportReadBlocking
unfoldable pub webrtc_read :
    Bool → WebrtcStreamReader → Option (Result (Option (FrameObject × String))) × WebrtcStreamReader
unfolding webrtc_read_woken
webrtc_read expired r =
    if r.data_closed then (some (ok none), r) else webrtc_read_woken expired r.data_queue r

-- WebRtcStreamReader::transportClose, but for the callback that it takes back.
unfoldable pub close_webrtc_stream : WebrtcStreamReader → WebrtcStreamReader
close_webrtc_stream r = record r { data_closed = true }
