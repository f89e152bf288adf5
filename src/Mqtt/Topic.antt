-- ===== src/Mqtt/Topic.antt =====
-- convertUri and topicMatches of src/transport/mqtt/mqtt_connection.cpp. Texts hold no NUL, which
-- MQTT forbids in topics and at which the C pointers of the source would stop.
use Prim.Native.Char.{code}
use magpie_cpp.Prelude.{
  ◌&&◌, ◌==◌, ◌<>◌, eqb, Bool, if◌then◌else◌, Option, true, some, none, false, String,
}

-- s.compare(0, prefix.size(), prefix) == 0, with the rest of `s` behind the prefix.
unfoldable pub strip_prefix : String → String → Option String
strip_prefix String.[] s = some s
strip_prefix (String.◌∷◌ c p) String.[] = none
strip_prefix (String.◌∷◌ c p) (String.◌∷◌ d s) =
    let rest = strip_prefix p s in if eqb (code c) (code d) then rest else none

unfoldable pub with_scheme : String → Option String → Option String → String
with_scheme uri (some rest) _ = "tcp://" <> rest
with_scheme uri none (some rest) = "ssl://" <> rest
with_scheme uri none none = uri

-- convertUri
unfoldable pub convert_uri : String → String
unfolding strip_prefix with_scheme
convert_uri uri = with_scheme uri (strip_prefix "mqtt://" uri) (strip_prefix "mqtts://" uri)

-- while (*t && *t != '/') ++t;
unfoldable pub skip_level : String → String
skip_level String.[] = ""
skip_level (String.◌∷◌ d t) = if eqb (code d) b'/' then (String.◌∷◌ d t) else skip_level t

-- The loop of topicMatches and the tests behind it, from the places that `f` and `t` point to.
-- `level_start` is f == filter.c_str() || *(f - 1) == '/'.
unfoldable pub matches_from : Bool → String → String → Bool
unfolding skip_level
matches_from level_start String.[] String.[] = true
matches_from level_start String.[] (String.◌∷◌ d t) = false
matches_from level_start (String.◌∷◌ c f) String.[] = eqb (code c) b'#' && level_start
matches_from level_start (String.◌∷◌ c f) (String.◌∷◌ d t) =
    let any_level = matches_from false f (skip_level (String.◌∷◌ d t)) in
    let same = matches_from (eqb (code c) b'/') f t in
    if eqb (code c) b'+'
    then any_level
    else if eqb (code c) b'#'
    then true
    else if eqb (code c) (code d)
    then same
    else false

-- topicMatches
unfoldable pub topic_matches : String → String → Bool
unfolding matches_from
topic_matches filter topic = if filter == topic then true else matches_from true filter topic
