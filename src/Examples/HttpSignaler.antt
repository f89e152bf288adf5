-- ===== src/Examples/HttpSignaler.antt =====
-- A signaler over HTTP, src/transport/webrtc/webrtc_http_signaler.cpp, with two messages.
use magpie_cpp.Prelude.{arith, ℕ, true, false, List, [], ◌∷◌, ◌++◌, Option, some, ◌≡◌, refl}
use magpie_cpp.Prelude.Bytes.{Bytes, codes}
use magpie_cpp.Webrtc.HttpSignaler.{
  HttpEvent, Outcome, answered, disconnects, failed, http_run, new_http, polls, publishes, sends,
  subscribes,
}
use magpie_cpp.Webrtc.HttpSignaler.Order.{http_run-in_order, in_order, published}
use magpie_cpp.Webrtc.HttpSignaler.Taken.{IsAscending, UpTo}
use magpie_cpp.Webrtc.HttpSignaler.Taken.Cursor.{http_run-IsAscending}
use magpie_cpp.Webrtc.HttpSignaler.Ids.{encode_id, letter}
use magpie_cpp.Webrtc.HttpSignaler.Urls.{peer_url, peer_url-injective}

abbrev with_status : ℕ → Outcome
with_status n =
    answered (record { status = n; body = []; sequence = []; join_announcements = false })

abbrev one_message : Bytes → Option ℕ
one_message s = some 1

abbrev a_message : Outcome
a_message =
    answered
      (record { status = 200; body = 7 ∷ []; sequence = codes "1"; join_announcements = false })

-- The second message waits behind an error and a relay that has forgotten the peer.
abbrev two_publishes : List HttpEvent
two_publishes =
    publishes (1 ∷ []) "early"
    ∷ subscribes true (with_status 204)
    ∷ publishes (2 ∷ []) "a"
    ∷ publishes (3 ∷ []) "b"
    ∷ sends failed failed
    ∷ sends (with_status 404) (with_status 204)
    ∷ sends (with_status 204) failed
    ∷ polls false a_message failed
    ∷ sends (with_status 500) failed
    ∷ disconnects (with_status 204)
    ∷ publishes (4 ∷ []) "late"
    ∷ []

published_test : published one_message two_publishes new_http ≡ (2 ∷ [], "a") ∷ (3 ∷ [], "b") ∷ []
unfolding published
published_test = refl

waiting_test : (http_run one_message two_publishes new_http).outgoing ≡ (3 ∷ [], "b") ∷ []
unfolding http_run
waiting_test = refl

taken_test : (http_run one_message two_publishes new_http).taken ≡ (1, 7 ∷ []) ∷ []
unfolding http_run
taken_test = refl

http_run-in_order_example :
    in_order (http_run one_message two_publishes new_http)
    ≡ in_order new_http ++ published one_message two_publishes new_http
http_run-in_order_example = http_run-in_order one_message two_publishes new_http

http_run-IsAscending_example :
    IsAscending (http_run one_message two_publishes new_http).taken
    × UpTo
        (http_run one_message two_publishes new_http).cursor
        (http_run one_message two_publishes new_http).taken
http_run-IsAscending_example =
    http_run-IsAscending one_message two_publishes
      (tt, (tt, (tt, (tt, (tt, (tt, (tt, (refl, (tt, (tt, (tt, tt)))))))))))

encode_id_test : encode_id (codes "room") ≡ codes "cm9vbQ"
unfolding encode_id letter
encode_id_test = refl

abbrev room : Bytes
room = 97 ∷ []

abbrev peer : Bytes
peer = 255 ∷ []

abbrev relay : Bytes
relay = codes "https://relay//"

url_test : peer_url relay room peer ≡ codes "https://relay/sessions/YQ/peers/_w"
unfolding peer_url letter
url_test = refl

peer_url-injective_example : (room ≡ room) × (peer ≡ peer)
peer_url-injective_example =
    peer_url-injective relay room peer room peer (omega arith, tt) (omega arith, tt)
      (omega arith, tt) (omega arith, tt) refl
