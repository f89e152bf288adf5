-- ===== src/Webrtc/HttpSignaler/Taken/Cursor.antt =====
-- pollLoop and its cursor, src/transport/webrtc/webrtc_http_signaler.cpp: what the callback of an
-- HttpSignaler takes.
use magpie_cpp.Prelude.{
  ℕ, ◌<◌, Bool, true, false, not, ◌&&◌, ◌||◌, List, [], ◌∷◌, ◌++◌, Option, none, some, eqb, leb,
  All, if◌then◌else◌, ◌≡◌, refl, ap, ◌∙◌, if_rule, arith, Bool-cases, inl, inr,
}
use magpie_cpp.Prelude.Bytes.{Bytes}
use magpie_cpp.Prelude.Result.{Result, ok, throw}
use magpie_cpp.Zconf.{empty_list}
use magpie_cpp.Webrtc.HttpSignaler.{
  Http, HttpEvent, Outcome, after_get, announce, announces, answered, disconnect, disconnects,
  failed, get_messages, http_run, http_step, log_request, new_http, poll_turn, polls, publish,
  publishes, register_peer, run_receiver, send_turn, sends, start_threads, subscribe, subscribes,
  take_sequence, unsubscribes,
}
use magpie_cpp.Webrtc.HttpSignaler.Taken.{
  Poller, poller, SamePoller, IsAscending, UpTo, UpTo-append, UpTo-weaken, IsAscending-append,
  log_request-SamePoller, register_peer-SamePoller, send_turn-SamePoller, announce-SamePoller,
  publish-SamePoller,
}

record IsInStep (p : Poller) : Type 0 where
  ordered : IsAscending p.taken
  bounded : UpTo p.cursor p.taken
  idle : p.started ≡ false → (p.taken ≡ []) × (p.threads ≡ false)

abbrev HttpIsInStep : Http → Type 0
HttpIsInStep h = IsInStep (poller h)

kept : (h k : Http) → SamePoller h k → HttpIsInStep h → HttpIsInStep k
kept h k same i = rw same i

-- The first subscription starts the threads with nothing taken.
start_threads-IsInStep :
    (h : Http) (p : Result (Unit {0}) × Http)
    → h.started ≡ false
    → SamePoller h p.1
    → HttpIsInStep h
    → HttpIsInStep (start_threads p).1
unfolding start_threads poller
start_threads-IsInStep h (ok u, k) off same i =
    let none_yet : k.taken ≡ [] = ap (λ p. p.taken) same ∙ (i.idle off).0 in
    record { ordered = rw none_yet tt; bounded = rw none_yet tt; idle = λ e. absurd (cc) }
start_threads-IsInStep h (throw e, k) off same i = kept h k same i

subscribe-IsInStep :
    (has_callback : Bool) (put : Outcome) (h : Http)
    → HttpIsInStep h
    → HttpIsInStep (subscribe has_callback put h).1
unfolding subscribe poller
subscribe-IsInStep has_callback put h i =
    let P : Result (Unit {0}) × Http → Type 0 = λ p. HttpIsInStep p.1 in
    let Q : Result (Unit {0}) × Http → Type 0 = λ p. SamePoller h p.1 in
    if_rule P (not has_callback) _ _ (λ e. i)
      (λ e.
        if_rule P h.closed _ _ (λ f. i)
          (λ f.
            if_rule P h.started _ _ (λ g. i)
              (λ g.
                start_threads-IsInStep h (if h.registered then (ok tt, h) else register_peer put h)
                  g
                  (if_rule Q h.registered (ok tt, h) (register_peer put h) (λ r. refl)
                    (λ r. register_peer-SamePoller put h))
                  i)))

disconnect-IsInStep :
    (delete : Outcome) (h : Http) → HttpIsInStep h → HttpIsInStep (disconnect delete h)
unfolding disconnect poller log_request
disconnect-IsInStep delete h i =
    let stays : IsInStep (record (poller h) { threads = false }) = record {
      ordered = i.ordered;
      bounded = i.bounded;
      idle = λ off. ((i.idle off).0, refl);
    } in
    if_rule HttpIsInStep h.closed _ _ (λ e. i)
      (λ e. if_rule HttpIsInStep h.registered _ _ (λ f. stays) (λ f. stays))

run_receiver-IsInStep :
    (throws : Bool) (n : ℕ) (body : Bytes) (h : Http)
    → h.started ≡ true
    → h.cursor < n
    → HttpIsInStep h
    → HttpIsInStep (run_receiver throws n body h)
unfolding run_receiver poller
run_receiver-IsInStep throws n body h on above i =
    let moves : IsInStep (record (poller h) { cursor = n }) = record {
      ordered = i.ordered;
      bounded = UpTo-weaken h.cursor n h.taken i.bounded above;
      idle = λ e. absurd (cc);
    } in
    let takes : IsInStep (record (poller h) { cursor = n; taken = h.taken ++ ((n, body) ∷ []) }) =
      record {
        ordered = IsAscending-append h.cursor n body h.taken i.ordered i.bounded above;
        bounded = UpTo-append h.cursor n body h.taken i.bounded above;
        idle = λ e. absurd (cc);
      } in
    if_rule HttpIsInStep (not h.callback) _ _ (λ e. moves)
      (λ e. if_rule HttpIsInStep throws _ _ (λ f. i) (λ f. takes))

not_behind : (m n : ℕ) → leb m n ≡ false → n < m
not_behind m n e = ground arith

take_sequence-IsInStep :
    (throws : Bool) (n : Option ℕ) (body : Bytes) (h : Http)
    → h.started ≡ true
    → HttpIsInStep h
    → HttpIsInStep (take_sequence throws n body h)
unfolding take_sequence
take_sequence-IsInStep throws none body h on i = i
take_sequence-IsInStep throws (some n) body h on i =
    if_rule HttpIsInStep (leb n h.cursor) _ _ (λ e. i)
      (λ e. run_receiver-IsInStep throws n body h on (not_behind n h.cursor e) i)

-- The relay still knows the peer.
abbrev pub Known : Outcome → Type 0
Known failed = Unit
Known (answered r) = eqb r.status 404 ≡ false

after_get-IsInStep :
    (stoull : Bytes → Option ℕ) (throws : Bool) (get put : Outcome) (h : Http)
    → Known get
    → h.started ≡ true
    → HttpIsInStep h
    → HttpIsInStep (after_get stoull throws get put h)
unfolding after_get
after_get-IsInStep stoull throws failed put h known on i = i
after_get-IsInStep stoull throws (answered r) put h known on i =
    if_rule HttpIsInStep (eqb r.status 404) _ _ (λ e. absurd (cc))
      (λ e.
        if_rule HttpIsInStep (eqb r.status 204) _ _ (λ f. i)
          (λ f.
            if_rule HttpIsInStep (not (eqb r.status 200) || empty_list r.sequence) _ _ (λ g. i)
              (λ g. take_sequence-IsInStep throws (stoull r.sequence) r.body h on i)))

both_true : (a b : Bool) → a && b ≡ true → a ≡ true
both_true true b e = refl
both_true false b e = e

threads-started : (h : Http) → HttpIsInStep h → h.threads ≡ true → h.started ≡ true
unfolding poller
threads-started h i running = elim (Bool-cases h.started) [
  | inl on ↦ on
  | inr off ↦ let stopped = (i.idle off).1 in absurd (cc)
]

poll_turn-IsInStep :
    (stoull : Bytes → Option ℕ) (throws : Bool) (get put : Outcome) (h : Http)
    → Known get
    → HttpIsInStep h
    → HttpIsInStep (poll_turn stoull throws get put h)
unfolding poll_turn poller
poll_turn-IsInStep stoull throws get put h known i =
    if_rule HttpIsInStep (h.threads && not h.stopped) _ _
      (λ e.
        let logged : Http = log_request (get_messages h.cursor) get h in
        let same = log_request-SamePoller (get_messages h.cursor) get h in
        let on = threads-started h i (both_true h.threads (not h.stopped) e) in
        after_get-IsInStep stoull throws get put logged known (ap (λ p. p.started) same ∙ on)
          (kept h logged same i))
      (λ e. i)

-- The event is no GET that is answered with 404.
abbrev pub KeepsPeer : HttpEvent → Type 0
KeepsPeer (publishes body id) = Unit
KeepsPeer (subscribes has_callback put) = Unit
KeepsPeer (announces payload put) = Unit
KeepsPeer unsubscribes = Unit
KeepsPeer (disconnects delete) = Unit
KeepsPeer (sends post put) = Unit
KeepsPeer (polls throws get put) = Known get

http_step-IsInStep :
    (stoull : Bytes → Option ℕ) (e : HttpEvent) (h : Http)
    → KeepsPeer e
    → HttpIsInStep h
    → HttpIsInStep (http_step stoull e h)
unfolding http_step poller
http_step-IsInStep stoull (publishes body id) h k i =
    kept h (publish body id h).1 (publish-SamePoller body id h) i
http_step-IsInStep stoull (subscribes has_callback put) h k i =
    subscribe-IsInStep has_callback put h i
http_step-IsInStep stoull (announces payload put) h k i =
    kept h (announce payload put h).1 (announce-SamePoller payload put h) i
http_step-IsInStep stoull unsubscribes h k i = i
http_step-IsInStep stoull (disconnects delete) h k i = disconnect-IsInStep delete h i
http_step-IsInStep stoull (sends post put) h k i =
    kept h (send_turn post put h) (send_turn-SamePoller post put h) i
http_step-IsInStep stoull (polls throws get put) h k i =
    poll_turn-IsInStep stoull throws get put h k i

http_run-IsInStep :
    (stoull : Bytes → Option ℕ) (es : List HttpEvent) (h : Http)
    → All KeepsPeer es
    → HttpIsInStep h
    → HttpIsInStep (http_run stoull es h)
unfolding http_run
http_run-IsInStep stoull [] h ks i = i
http_run-IsInStep stoull (e ∷ es) h ks i =
    http_run-IsInStep stoull es (http_step stoull e h) ks.1 (http_step-IsInStep stoull e h ks.0 i)

-- From a new signaler on, while no GET is answered with 404, the messages that the callback took have
-- strictly ascending sequence numbers, none of which is above the cursor, whatever else the relay
-- answers and whenever the callback throws: none is taken twice or behind a later one.
pub http_run-IsAscending :
    (stoull : Bytes → Option ℕ) (es : List HttpEvent)
    → All KeepsPeer es
    → IsAscending (http_run stoull es new_http).taken
      × UpTo (http_run stoull es new_http).cursor (http_run stoull es new_http).taken
unfolding poller
http_run-IsAscending stoull es keeps =
    let i : HttpIsInStep (http_run stoull es new_http) =
      http_run-IsInStep stoull es new_http keeps
        (record { ordered = tt; bounded = tt; idle = λ e. (refl, refl) }) in
    (i.ordered, i.bounded)
