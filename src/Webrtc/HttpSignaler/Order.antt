-- ===== src/Webrtc/HttpSignaler/Order.antt =====
-- What an HttpSignaler, src/transport/webrtc/webrtc_http_signaler.cpp, was given to send: in the
-- order of publish, until the relay has it.
use mathlib.Core.List.{append_assoc, append-nil}
use magpie_cpp.Prelude.{
  ℕ, Bool, true, false, not, ◌&&◌, ◌||◌, List, [], ◌∷◌, ◌++◌, Option, none, some, eqb, leb,
  if◌then◌else◌, ◌≡◌, refl, sym, ap, ◌∙◌, if_rule, arith,
}
use magpie_cpp.Prelude.Bytes.{Bytes}
use magpie_cpp.Prelude.Result.{Result, ok, throw}
use magpie_cpp.Zconf.{empty_list}
use magpie_cpp.Webrtc.HttpSignaler.{
  Http, HttpEvent, HttpRequest, Outcome, Pending, Response, after_get, after_post, after_put,
  announce, announces, answered, delete_peer, disconnect, disconnects, failed, get_messages,
  http_run, http_step, log_request, poll_turn, polls, post_message, publish, publishes, put_peer,
  register_peer, reset_cursor, run_receiver, send_front, send_turn, sends, start_threads, subscribe,
  subscribes, take_sequence, unsubscribes,
}

-- The messages that the relay has answered with 204.
unfoldable pub if_accepted : Pending → Outcome → List Pending
if_accepted m failed = []
if_accepted m (answered r) = if eqb r.status 204 then m ∷ [] else []

unfoldable pub acknowledged : List (HttpRequest × Outcome) → List Pending
acknowledged [] = []
acknowledged ((post_message m, outcome) ∷ rest) = if_accepted m outcome ++ acknowledged rest
acknowledged ((put_peer body, outcome) ∷ rest) = acknowledged rest
acknowledged ((get_messages after, outcome) ∷ rest) = acknowledged rest
acknowledged ((delete_peer, outcome) ∷ rest) = acknowledged rest

acknowledged-append :
    (rs ss : List (HttpRequest × Outcome))
    → acknowledged (rs ++ ss) ≡ acknowledged rs ++ acknowledged ss
unfolding acknowledged
acknowledged-append [] ss = refl
acknowledged-append ((post_message m, outcome) ∷ rs) ss =
    ap (λ l. if_accepted m outcome ++ l) (acknowledged-append rs ss)
    ∙ sym (append_assoc (if_accepted m outcome) (acknowledged rs) (acknowledged ss))
acknowledged-append ((put_peer body, outcome) ∷ rs) ss = acknowledged-append rs ss
acknowledged-append ((get_messages after, outcome) ∷ rs) ss = acknowledged-append rs ss
acknowledged-append ((delete_peer, outcome) ∷ rs) ss = acknowledged-append rs ss

-- The messages that were acknowledged, and behind them those that wait.
unfoldable pub in_order : Http → List Pending
unfolding acknowledged
in_order h = acknowledged h.requests ++ h.outgoing

-- Requests that carry no message.
silent-in_order :
    (r : HttpRequest) (outcome : Outcome) (h : Http)
    → acknowledged ((r, outcome) ∷ []) ≡ []
    → in_order (log_request r outcome h) ≡ in_order h
unfolding in_order log_request
silent-in_order r outcome h silent =
    ap (λ l. l ++ h.outgoing)
      (acknowledged-append h.requests ((r, outcome) ∷ [])
        ∙ rw silent (append-nil (acknowledged h.requests)))

abbrev SameQueue : Http → Http → Type 0
SameQueue h k = in_order k ≡ in_order h

after_put-SameQueue : (put : Outcome) (h : Http) → SameQueue h (after_put put h).1
unfolding after_put in_order
after_put-SameQueue failed h = refl
after_put-SameQueue (answered r) h =
    let P : Result (Unit {0}) × Http → Type 0 = λ p. SameQueue h p.1 in
    if_rule P (eqb r.status 409) _ _ (λ e. refl)
      (λ e. if_rule P (not (eqb r.status 204)) _ _ (λ f. refl) (λ f. refl))

register_peer-SameQueue : (put : Outcome) (h : Http) → SameQueue h (register_peer put h).1
unfolding register_peer acknowledged
register_peer-SameQueue put h =
    after_put-SameQueue put (log_request (put_peer h.announcement) put h)
    ∙ silent-in_order (put_peer h.announcement) put h refl

run_receiver-SameQueue :
    (throws : Bool) (sequence : ℕ) (body : Bytes) (h : Http)
    → SameQueue h (run_receiver throws sequence body h)
unfolding run_receiver in_order
run_receiver-SameQueue throws sequence body h =
    if_rule (SameQueue h) (not h.callback) _ _ (λ e. refl)
      (λ e. if_rule (SameQueue h) throws _ _ (λ f. refl) (λ f. refl))

take_sequence-SameQueue :
    (throws : Bool) (n : Option ℕ) (body : Bytes) (h : Http)
    → SameQueue h (take_sequence throws n body h)
unfolding take_sequence
take_sequence-SameQueue throws none body h = refl
take_sequence-SameQueue throws (some n) body h =
    if_rule (SameQueue h) (leb n h.cursor) _ _ (λ e. refl)
      (λ e. run_receiver-SameQueue throws n body h)

reset_cursor-SameQueue :
    (h : Http) (p : Result (Unit {0}) × Http) → SameQueue h p.1 → SameQueue h (reset_cursor p)
unfolding reset_cursor in_order
reset_cursor-SameQueue h (ok u, k) s = s
reset_cursor-SameQueue h (throw e, k) s = s

after_get-SameQueue :
    (stoull : Bytes → Option ℕ) (throws : Bool) (get put : Outcome) (h : Http)
    → SameQueue h (after_get stoull throws get put h)
unfolding after_get
after_get-SameQueue stoull throws failed put h = refl
after_get-SameQueue stoull throws (answered r) put h =
    if_rule (SameQueue h) (eqb r.status 404) _ _
      (λ e. reset_cursor-SameQueue h (register_peer put h) (register_peer-SameQueue put h))
      (λ e.
        if_rule (SameQueue h) (eqb r.status 204) _ _ (λ f. refl)
          (λ f.
            if_rule (SameQueue h) (not (eqb r.status 200) || empty_list r.sequence) _ _ (λ g. refl)
              (λ g. take_sequence-SameQueue throws (stoull r.sequence) r.body h)))

poll_turn-SameQueue :
    (stoull : Bytes → Option ℕ) (throws : Bool) (get put : Outcome) (h : Http)
    → SameQueue h (poll_turn stoull throws get put h)
unfolding poll_turn
poll_turn-SameQueue stoull throws get put h =
    if_rule (SameQueue h) (h.threads && not h.stopped) _ _
      (λ e.
        after_get-SameQueue stoull throws get put (log_request (get_messages h.cursor) get h)
        ∙ silent-in_order (get_messages h.cursor) get h (unfold acknowledged in refl))
      (λ e. refl)

start_threads-SameQueue :
    (h : Http) (p : Result (Unit {0}) × Http) → SameQueue h p.1 → SameQueue h (start_threads p).1
unfolding start_threads in_order
start_threads-SameQueue h (ok u, k) s = s
start_threads-SameQueue h (throw e, k) s = s

subscribe-SameQueue :
    (has_callback : Bool) (put : Outcome) (h : Http) → SameQueue h (subscribe has_callback put h).1
unfolding subscribe in_order
subscribe-SameQueue has_callback put h =
    let P : Result (Unit {0}) × Http → Type 0 = λ p. SameQueue h p.1 in
    if_rule P (not has_callback) _ _ (λ e. refl)
      (λ e.
        if_rule P h.closed _ _ (λ f. refl)
          (λ f.
            if_rule P h.started _ _ (λ g. refl)
              (λ g.
                start_threads-SameQueue h (if h.registered then (ok tt, h) else register_peer put h)
                  (if_rule P h.registered (ok tt, h) (register_peer put h) (λ r. refl)
                    (λ r. register_peer-SameQueue put h)))))

disconnect-SameQueue : (delete : Outcome) (h : Http) → SameQueue h (disconnect delete h)
unfolding disconnect in_order acknowledged
disconnect-SameQueue delete h =
    let off : Http = record h {
      closed = true;
      stopped = false;
      callback = false;
      threads = false;
    } in
    if_rule (SameQueue h) h.closed _ _ (λ e. refl)
      (λ e.
        if_rule (SameQueue h) h.registered _ _ (λ f. silent-in_order delete_peer delete off refl)
          (λ f. refl))

-- A turn of sendLoop: the message at the front is acknowledged and leaves, or it stays.
unacknowledged-in_order :
    (r : Response) (m : Pending) (h : Http)
    → eqb r.status 204 ≡ false
    → in_order (log_request (post_message m) (answered r) h) ≡ in_order h
unfolding acknowledged if_accepted
unacknowledged-in_order r m h e = silent-in_order (post_message m) (answered r) h (rw e refl)

acknowledged-in_order :
    (r : Response) (m : Pending) (rest : List Pending) (h : Http)
    → eqb r.status 204 ≡ true
    → h.outgoing ≡ m ∷ rest
    → SameQueue h (record (log_request (post_message m) (answered r) h) { outgoing = rest })
unfolding acknowledged if_accepted in_order log_request
acknowledged-in_order r m rest h e front =
    let sent : acknowledged ((post_message m, answered r) ∷ []) ≡ m ∷ [] = rw e refl in
    ap (λ l. l ++ rest)
      (acknowledged-append h.requests ((post_message m, answered r) ∷ [])
        ∙ ap (λ l. acknowledged h.requests ++ l) sent)
    ∙ append_assoc (acknowledged h.requests) (m ∷ []) rest
    ∙ ap (λ l. acknowledged h.requests ++ l) (sym front)

not_204 : (n : ℕ) → eqb n 404 ≡ true → eqb n 204 ≡ false
not_204 n e = ground arith

after_post-SameQueue :
    (post put : Outcome) (m : Pending) (rest : List Pending) (h : Http)
    → h.outgoing ≡ m ∷ rest
    → SameQueue h (after_post post put rest (log_request (post_message m) post h))
unfolding after_post acknowledged if_accepted
after_post-SameQueue failed put m rest h front = silent-in_order (post_message m) failed h refl
after_post-SameQueue (answered r) put m rest h front =
    let k : Http = log_request (post_message m) (answered r) h in
    if_rule (SameQueue h) (eqb r.status 404) _ _
      (λ e. register_peer-SameQueue put k ∙ unacknowledged-in_order r m h (not_204 r.status e))
      (λ e.
        if_rule (SameQueue h) (eqb r.status 204) _ _ (λ f. acknowledged-in_order r m rest h f front)
          (λ f. unacknowledged-in_order r m h f))

send_front-SameQueue :
    (post put : Outcome) (ms : List Pending) (h : Http)
    → h.outgoing ≡ ms
    → SameQueue h (send_front post put ms h)
unfolding send_front
send_front-SameQueue post put [] h front = refl
send_front-SameQueue post put (m ∷ rest) h front = after_post-SameQueue post put m rest h front

send_turn-SameQueue : (post put : Outcome) (h : Http) → SameQueue h (send_turn post put h)
unfolding send_turn
send_turn-SameQueue post put h =
    if_rule (SameQueue h) (h.threads && not h.stopped) _ _
      (λ e. send_front-SameQueue post put h.outgoing h refl) (λ e. refl)

announce-SameQueue :
    (payload : Bytes) (put : Outcome) (h : Http) → SameQueue h (announce payload put h).1
unfolding announce in_order
announce-SameQueue payload put h =
    let with_payload : Http = record h { announcement = payload } in
    if_rule (λ (p : Result (Unit {0}) × Http). SameQueue h p.1) h.stopped _ _ (λ e. refl)
      (λ e. register_peer-SameQueue put with_payload)

-- The message of a call of publish that returns.
unfoldable pub if_returned : Result (Unit {0}) × Http → Pending → List Pending
if_returned (ok u, h) m = m ∷ []
if_returned (throw e, h) m = []

unfoldable pub published_by : HttpEvent → Http → List Pending
unfolding if_returned publish
published_by (publishes body id) h = if_returned (publish body id h) (body, id)
published_by (subscribes has_callback put) h = []
published_by (announces payload put) h = []
published_by unsubscribes h = []
published_by (disconnects delete) h = []
published_by (sends post put) h = []
published_by (polls throws get put) h = []

unfoldable pub published : (Bytes → Option ℕ) → List HttpEvent → Http → List Pending
unfolding published_by http_step
published stoull [] h = []
published stoull (e ∷ es) h = published_by e h ++ published stoull es (http_step stoull e h)

publish-in_order :
    (m : Pending) (h : Http)
    → in_order (publish m.0 m.1 h).1 ≡ in_order h ++ if_returned (publish m.0 m.1 h) m
unfolding publish in_order if_returned
publish-in_order m h =
    if_rule (λ (p : Result (Unit {0}) × Http). in_order p.1 ≡ in_order h ++ if_returned p m)
      (not h.started || h.closed) _ _ (λ e. sym (append-nil (in_order h)))
      (λ e. sym (append_assoc (acknowledged h.requests) h.outgoing (m ∷ [])))

http_step-in_order :
    (stoull : Bytes → Option ℕ) (e : HttpEvent) (h : Http)
    → in_order (http_step stoull e h) ≡ in_order h ++ published_by e h
unfolding http_step published_by in_order
http_step-in_order stoull (publishes body id) h = publish-in_order (body, id) h
http_step-in_order stoull (subscribes has_callback put) h =
    subscribe-SameQueue has_callback put h ∙ sym (append-nil (in_order h))
http_step-in_order stoull (announces payload put) h =
    announce-SameQueue payload put h ∙ sym (append-nil (in_order h))
http_step-in_order stoull unsubscribes h = sym (append-nil (in_order h))
http_step-in_order stoull (disconnects delete) h =
    disconnect-SameQueue delete h ∙ sym (append-nil (in_order h))
http_step-in_order stoull (sends post put) h =
    send_turn-SameQueue post put h ∙ sym (append-nil (in_order h))
http_step-in_order stoull (polls throws get put) h =
    poll_turn-SameQueue stoull throws get put h ∙ sym (append-nil (in_order h))

-- Over any sequence of calls, turns of the two threads and outcomes of their requests, the messages
-- that the relay acknowledged with 204, followed by those that wait in the queue, are the messages
-- of the calls of publish that returned, in the order of these calls, behind those of the start:
-- none is lost, none is acknowledged twice and none overtakes another.
pub http_run-in_order :
    (stoull : Bytes → Option ℕ) (es : List HttpEvent) (h : Http)
    → in_order (http_run stoull es h) ≡ in_order h ++ published stoull es h
unfolding http_run published
http_run-in_order stoull [] h = sym (append-nil (in_order h))
http_run-in_order stoull (e ∷ es) h =
    http_run-in_order stoull es (http_step stoull e h)
    ∙ ap (λ l. l ++ published stoull es (http_step stoull e h)) (http_step-in_order stoull e h)
    ∙ append_assoc (in_order h) (published_by e h) (published stoull es (http_step stoull e h))
