-- ===== src/Webrtc/HttpSignaler.antt =====
-- HttpSignaler, src/transport/webrtc/webrtc_http_signaler.cpp: signals over the long-poll protocol of
-- a relay. libcurl is a parameter: what each request brings is an argument of the step that makes
-- it. The steps are the calls of the users and the turns of the two threads; waits and timeouts
-- only put the next turn off. Payloads are lists of bytes, so that publish gets no null pointer.
pub mod Ids
pub mod Urls
pub mod Order
pub mod Taken
use magpie_cpp.Prelude.{
  ℕ, String, Bool, true, false, not, ◌&&◌, ◌||◌, List, [], ◌∷◌, ◌++◌, Option, none, some, eqb, leb,
  if◌then◌else◌,
}
use magpie_cpp.Prelude.Bytes.{Bytes}
use magpie_cpp.Prelude.Result.{Result, ok, throw, Exception, std_error}
use magpie_cpp.Zconf.{empty_list}

pub record Response : Type 0 where
  pub status : ℕ
  pub body : Bytes
  pub sequence : Bytes
  pub join_announcements : Bool

-- What a request brings: a response, or the exception that Impl::request throws.
pub data Outcome : Type 0 where
  failed : Outcome
  answered : Response → Outcome

-- A message that waits, under its X-Magpie-Message-Id.
abbrev pub Pending : Type 0
Pending = Bytes × String

pub data HttpRequest : Type 0 where
  put_peer : Bytes → HttpRequest
  post_message : Pending → HttpRequest
  get_messages : ℕ → HttpRequest
  delete_peer : HttpRequest

-- HttpSignaler::Impl, with the requests that were made and the messages that the callback took,
-- under their sequence numbers.
pub record Http : Type 0 where
  pub stopped : Bool
  pub closed : Bool
  pub started : Bool
  pub registered : Bool
  pub join_announcements : Bool
  pub announcement : Bytes
  pub callback : Bool
  pub outgoing : List Pending
  -- the two threads run, and the cursor of pollLoop
  pub threads : Bool
  pub cursor : ℕ
  pub requests : List (HttpRequest × Outcome)
  pub taken : List (ℕ × Bytes)

abbrev pub new_http : Http
new_http = record {
  stopped = false;
  closed = false;
  started = false;
  registered = false;
  join_announcements = false;
  announcement = [];
  callback = false;
  outgoing = [];
  threads = false;
  cursor = 0;
  requests = [];
  taken = [];
}

unfoldable pub log_request : HttpRequest → Outcome → Http → Http
log_request r outcome h = record h { requests = h.requests ++ ((r, outcome) ∷ []) }

-- The tests of registerPeer on its response.
unfoldable pub after_put : Outcome → Http → Result (Unit {0}) × Http
after_put failed h = (throw (std_error "HttpSignaler: "), h)
after_put (answered r) h =
    if eqb r.status 409
    then (throw (std_error "HttpSignaler: participant rejected (409)"), h)
    else if not (eqb r.status 204)
    then (throw (std_error "HttpSignaler: registration failed"), h)
    else (ok tt, record h { join_announcements = r.join_announcements; registered = true })

unfoldable pub register_peer : Outcome → Http → Result (Unit {0}) × Http
unfolding log_request after_put
register_peer put h = after_put put (log_request (put_peer h.announcement) put h)

-- What sendLoop does with the response to its POST; pop_front behind a 204.
unfoldable pub after_post : Outcome → Outcome → List Pending → Http → Http
unfolding register_peer
after_post failed put rest h = h
after_post (answered r) put rest h =
    if eqb r.status 404
    then (register_peer put h).1
    else if eqb r.status 204
    then record h { outgoing = rest }
    else h

-- A turn of sendLoop: `post` is the outcome of its POST, and `put` that of a registration.
unfoldable pub send_front : Outcome → Outcome → List Pending → Http → Http
unfolding after_post log_request
send_front post put [] h = h
send_front post put (m ∷ rest) h = after_post post put rest (log_request (post_message m) post h)

unfoldable pub send_turn : Outcome → Outcome → Http → Http
unfolding send_front
send_turn post put h = if h.threads && not h.stopped then send_front post put h.outgoing h else h

-- if (receiver) receiver(…); cursor = sequence; where `throws` says whether the callback throws.
unfoldable pub run_receiver : Bool → ℕ → Bytes → Http → Http
run_receiver throws sequence body h =
    if not h.callback
    then record h { cursor = sequence }
    else if throws
    then h
    else record h { cursor = sequence; taken = h.taken ++ ((sequence, body) ∷ []) }

-- std::stoull throws for `none`.
unfoldable pub take_sequence : Bool → Option ℕ → Bytes → Http → Http
unfolding run_receiver
take_sequence throws none body h = h
take_sequence throws (some sequence) body h =
    if leb sequence h.cursor then h else run_receiver throws sequence body h

unfoldable pub reset_cursor : Result (Unit {0}) × Http → Http
reset_cursor (ok u, h) = record h { cursor = 0 }
reset_cursor (throw e, h) = h

unfoldable pub after_get : (Bytes → Option ℕ) → Bool → Outcome → Outcome → Http → Http
unfolding register_peer reset_cursor take_sequence empty_list
after_get stoull throws failed put h = h
after_get stoull throws (answered r) put h =
    if eqb r.status 404
    then reset_cursor (register_peer put h)
    else if eqb r.status 204
    then h
    else if not (eqb r.status 200) || empty_list r.sequence
    then h
    else take_sequence throws (stoull r.sequence) r.body h

-- A turn of pollLoop.
unfoldable pub poll_turn : (Bytes → Option ℕ) → Bool → Outcome → Outcome → Http → Http
unfolding after_get log_request
poll_turn stoull throws get put h =
    if h.threads && not h.stopped
    then after_get stoull throws get put (log_request (get_messages h.cursor) get h)
    else h

-- publish, of a payload that gets the identifier `id`.
unfoldable pub publish : Bytes → String → Http → Result (Unit {0}) × Http
publish body id h =
    if not h.started || h.closed
    then (throw (std_error "HttpSignaler: not connected"), h)
    else (ok tt, record h { outgoing = h.outgoing ++ ((body, id) ∷ []) })

unfoldable pub start_threads : Result (Unit {0}) × Http → Result (Unit {0}) × Http
start_threads (ok u, h) =
    (ok tt, record h { callback = true; started = true; threads = true; cursor = 0 })
start_threads (throw e, h) = (throw e, h)

-- subscribe, with a callback or with an empty one.
unfoldable pub subscribe : Bool → Outcome → Http → Result (Unit {0}) × Http
unfolding register_peer start_threads
subscribe has_callback put h =
    if not has_callback
    then (throw (std_error "HttpSignaler: callback is empty"), h)
    else if h.closed
    then (throw (std_error "HttpSignaler: disconnected"), h)
    else if h.started
    then (ok tt, record h { callback = true })
    else start_threads (if h.registered then (ok tt, h) else register_peer put h)

-- announce, which gives joinAnnouncements where it returns.
unfoldable pub announce : Bytes → Outcome → Http → Result (Unit {0}) × Http
unfolding register_peer
announce payload put h =
    if h.stopped
    then (throw (std_error "HttpSignaler: disconnected"), h)
    else register_peer put (record h { announcement = payload })

-- disconnect: the threads are joined, and `stopped` is reset for the last request.
unfoldable pub disconnect : Outcome → Http → Http
unfolding log_request
disconnect delete h =
    let off = record h { closed = true; stopped = true; callback = false; threads = false } in
    if h.closed
    then h
    else if h.registered
    then log_request delete_peer delete (record off { stopped = false })
    else off

pub data HttpEvent : Type 0 where
  publishes : Bytes → String → HttpEvent
  subscribes : Bool → Outcome → HttpEvent
  announces : Bytes → Outcome → HttpEvent
  unsubscribes : HttpEvent
  disconnects : Outcome → HttpEvent
  sends : Outcome → Outcome → HttpEvent
  polls : Bool → Outcome → Outcome → HttpEvent

unfoldable pub http_step : (Bytes → Option ℕ) → HttpEvent → Http → Http
unfolding publish subscribe announce disconnect send_turn poll_turn
http_step stoull (publishes body id) h = (publish body id h).1
http_step stoull (subscribes has_callback put) h = (subscribe has_callback put h).1
http_step stoull (announces payload put) h = (announce payload put h).1
http_step stoull unsubscribes h = record h { callback = false }
http_step stoull (disconnects delete) h = disconnect delete h
http_step stoull (sends post put) h = send_turn post put h
http_step stoull (polls throws get put) h = poll_turn stoull throws get put h

-- Events in the order in which they happen.
unfoldable pub http_run : (Bytes → Option ℕ) → List HttpEvent → Http → Http
unfolding http_step
http_run stoull [] h = h
http_run stoull (e ∷ es) h = http_run stoull es (http_step stoull e h)
