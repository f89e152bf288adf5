-- ===== src/Examples/Frame.antt =====
-- Frames at concrete inputs.
use magpie_cpp.Frame
use magpie_cpp.Frame.Body
use magpie_cpp.Frame.Registry
use magpie_cpp.Frame.Registry.RoundTrip
use magpie_cpp.Prelude.{◌||◌, ℕ, List, ◌≡◌, arith, ◌∷◌, true, some, refl, false, []}
use magpie_cpp.Frame.Body.{bool_frame, audio_flac}
use magpie_cpp.Value.{Value, dict, find, Dict, int, entry, empty}
use magpie_cpp.Prelude.Int.{pos, negsuc}
use magpie_cpp.Prelude.Result.{timeout_error, throw, plain_timeout, Result, ok}
use magpie_cpp.Mqtt.Connection.{Connection, publish}
use magpie_cpp.Mqtt.Streams.{
  read_stream-write_frame, writer_retain, is_positive, on_stream_message, read_stream, write_frame,
  MqttStreamReader,
}
use magpie_cpp.Webrtc.Streams.{
  webrtc_read_woken, webrtc_write, webrtc_read, media_kind, WebrtcStreamReader,
}
use magpie_cpp.Webrtc.Streams.Delivery.{
  carried, webrtc_read-webrtc_write, reader_callbacks, kind_reaches, reaches,
}
use magpie_cpp.Zmq.Streams.{zmq_read-zmq_write, zmq_write, as_turns, zmq_read}
use magpie_cpp.Webrtc.Streams.MediaChannel.{webrtc_read-media_channel, carried_as_media}

abbrev fresh : Frame.Fresh
fresh = record { unique_id = "0123456789ABCDEFGHJKMNPQRS"; utc_timestamp = "1700000000.000000" }

abbrev doubles : Body.Doubles
doubles = record { of_int = λ z. 0; to_int = λ x. pos x }

-- 16 bytes of FLAC data, as it is sent.
abbrev flac : Body.FrameObject
flac = record {
  base = record { gid = "g1"; id = negsuc 4; name = "AudioFrameFlac"; timestamp = "12.5" };
  body = audio_flac (record {
    samples = 102 ∷ 76 ∷ 97 ∷ 67 ∷ [];
    channels = pos 2;
    sample_rate = pos 48000;
    bit_depth = pos 16;
    format = "FLAC";
  });
}

flac-IsValid : RoundTrip.IsValid flac
unfolding Body.class_name
flac-IsValid = record {
  named = refl;
  body_valid = (
    record { channels_fit = omega arith; rate_fits = omega arith; depth_fits = omega arith },
    refl,
  );
}

-- The dict already holds an entry that is overwritten.
abbrev used_dict : Dict
used_dict = entry "format" (int (pos 3)) empty

from_dict-to_dict_example :
    Registry.from_dict doubles Registry.builtin_registry fresh (Body.to_dict flac used_dict)
    ≡ some flac
from_dict-to_dict_example =
    RoundTrip.from_dict-to_dict doubles Registry.builtin_registry fresh flac used_dict flac-IsValid
      (RoundTrip.find-builtin_registry flac.body)

-- A peer that sends an IntFrame under the name BoolFrame: the number becomes a Boolean.
bool_from_int :
    Body.body_load doubles (bool_frame false) (entry "value" (int (pos 7)) empty) ≡ bool_frame true
unfolding Body.body_load find
bool_from_int = refl

-- The sample rate of a hostile peer wraps to 32 bits.
rate_wraps : Frame.int32_or (pos 0) (some (int (pos 4294967297))) ≡ pos 1
unfolding Frame.int32_or
rate_wraps = refl

abbrev frame_bytes : Value → Result (List ℕ)
frame_bytes v = ok (7 ∷ [])

abbrev frame_value : List ℕ → Result Value
frame_value bytes = ok (dict (Body.to_dict flac empty))

abbrev broker_connection : Connection ℕ
broker_connection = record {
  subscriptions = [];
  next_handle = 1;
  publish_qos = pos 0;
  subscribe_qos = pos 0;
  publish_retain = false;
}

abbrev idle_reader : MqttStreamReader
idle_reader = record { name = "MqttStreamReader"; mqtt_closed = false; mqtt_queue = [] }

-- The writer was made with a retain of 0, at a connection that retains by default.
read_stream-write_frame_example :
    let c = record broker_connection { publish_retain = true } in
    (write_frame frame_bytes flac "audio" (pos 1) (writer_retain (pos 0) c) c
      ≡ (publish "audio" (7 ∷ []) (pos 1) (is_positive (pos 0) || true) ∷ []))
    × ((read_stream doubles Registry.builtin_registry fresh frame_value false
          (on_stream_message "audio" (7 ∷ []) idle_reader)).0
        ≡ some (ok (some (flac, "audio"))))
read_stream-write_frame_example =
    read_stream-write_frame frame_bytes frame_value doubles Registry.builtin_registry fresh flac
      "audio" (pos 0) false (record broker_connection { publish_retain = true }) idle_reader
      (7 ∷ []) 1 flac-IsValid (RoundTrip.find-builtin_registry flac.body) refl refl refl refl

abbrev idle_webrtc_reader : WebrtcStreamReader
idle_webrtc_reader = record {
  name = "reader";
  topic_filter = "audio";
  data_closed = false;
  data_queue = [];
}

webrtc_read-webrtc_write_example :
    (webrtc_read false (
      carried doubles Registry.builtin_registry fresh
        (webrtc_write false flac "audio")
        (reader_callbacks 1 "audio")
        idle_webrtc_reader)).0
    ≡ some (ok (some (flac, "audio")))
unfolding reaches kind_reaches media_kind
webrtc_read-webrtc_write_example =
    webrtc_read-webrtc_write doubles Registry.builtin_registry fresh flac "audio" 1 false
      idle_webrtc_reader flac-IsValid (RoundTrip.find-builtin_registry flac.body) refl refl refl
      refl

zmq_read-zmq_write_example :
    zmq_read doubles Registry.builtin_registry fresh true "reader" frame_value
      (as_turns (zmq_write true frame_bytes false false flac "audio"))
    ≡ some (ok (some (flac, "audio")))
zmq_read-zmq_write_example =
    zmq_read-zmq_write frame_bytes frame_value doubles Registry.builtin_registry fresh flac "audio"
      "reader" (7 ∷ []) false false flac-IsValid (RoundTrip.find-builtin_registry flac.body) refl
      refl

abbrev mic_reader : WebrtcStreamReader
mic_reader = record { name = "reader"; topic_filter = "mic2"; data_closed = false; data_queue = [] }

-- Under the topic "mic2" the audio frame does not arrive.
webrtc_read-media_channel_example :
    (webrtc_read true (
      carried_as_media doubles Registry.builtin_registry fresh
        (webrtc_write true flac "mic2")
        (reader_callbacks 1 "mic2")
        mic_reader)).0
    ≡ some (throw (timeout_error plain_timeout "reader: no data received"))
unfolding media_kind webrtc_read webrtc_read_woken
webrtc_read-media_channel_example =
    webrtc_read-media_channel doubles Registry.builtin_registry fresh flac "audio" "mic2" 1 true
      mic_reader flac-IsValid (RoundTrip.find-builtin_registry flac.body) refl refl refl refl
