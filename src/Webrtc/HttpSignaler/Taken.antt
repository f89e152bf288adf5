-- ===== src/Webrtc/HttpSignaler/Taken.antt =====
-- The part of an HttpSignaler, src/transport/webrtc/webrtc_http_signaler.cpp, that pollLoop goes by,
-- and the steps that do not touch it.
pub mod Cursor
use magpie_cpp.Prelude.{
  ℕ, ◌<◌, ◌≤◌, String, Bool, true, false, not, ◌&&◌, ◌||◌, List, [], ◌∷◌, ◌++◌, Option, none, some,
  eqb, leb, All, if◌then◌else◌, ◌≡◌, refl, sym, ap, ◌∙◌, if_rule, arith, Bool-cases, inl, inr,
}
use magpie_cpp.Prelude.Bytes.{Bytes}
use magpie_cpp.Prelude.Result.{Result, ok, throw}
use magpie_cpp.Zconf.{empty_list}
use magpie_cpp.Webrtc.HttpSignaler.{
  Http, HttpEvent, HttpRequest, Outcome, Pending, Response, after_get, after_post, after_put,
  announce, announces, answered, delete_peer, disconnect, disconnects, failed, get_messages,
  http_run, http_step, log_request, new_http, poll_turn, polls, post_message, publish, publishes,
  put_peer, register_peer, reset_cursor, run_receiver, send_front, send_turn, sends, start_threads,
  subscribe, subscribes, take_sequence, unsubscribes,
}

abbrev pub Taken : Type 0
Taken = List (ℕ × Bytes)

-- The part of the state that pollLoop goes by.
pub record Poller : Type 0 where
  pub taken : Taken
  pub cursor : ℕ
  pub threads : Bool
  pub started : Bool

unfoldable pub poller : Http → Poller
poller h = record { taken = h.taken; cursor = h.cursor; threads = h.threads; started = h.started }

-- The sequence numbers ascend strictly.
abbrev pub IsAscending : Taken → Type 0
IsAscending [] = Unit
IsAscending (x ∷ xs) = All (λ (y : ℕ × Bytes). x.0 < y.0) xs × IsAscending xs

abbrev pub UpTo : ℕ → Taken → Type 0
UpTo n xs = All (λ (y : ℕ × Bytes). y.0 ≤ n) xs

pub UpTo-append :
    (m n : ℕ) (body : Bytes) (xs : Taken) → UpTo m xs → m < n → UpTo n (xs ++ ((n, body) ∷ []))
UpTo-append m n body [] u above = (omega arith, tt)
UpTo-append m n body (x ∷ xs) u above = (omega arith, UpTo-append m n body xs u.1 above)

pub UpTo-weaken : (m n : ℕ) (xs : Taken) → UpTo m xs → m < n → UpTo n xs
UpTo-weaken m n [] u above = tt
UpTo-weaken m n (x ∷ xs) u above = (omega arith, UpTo-weaken m n xs u.1 above)

above-append :
    (m k n : ℕ) (body : Bytes) (xs : Taken)
    → All (λ (y : ℕ × Bytes). k < y.0) xs
    → k < n
    → All (λ (y : ℕ × Bytes). k < y.0) (xs ++ ((n, body) ∷ []))
above-append m k n body [] a above = (above, tt)
above-append m k n body (x ∷ xs) a above = (a.0, above-append m k n body xs a.1 above)

pub IsAscending-append :
    (m n : ℕ) (body : Bytes) (xs : Taken)
    → IsAscending xs
    → UpTo m xs
    → m < n
    → IsAscending (xs ++ ((n, body) ∷ []))
IsAscending-append m n body [] a u above = (tt, tt)
IsAscending-append m n body (x ∷ xs) a u above =
    (above-append m x.0 n body xs a.0 (omega arith), IsAscending-append m n body xs a.1 u.1 above)

-- Steps that pollLoop does not see.
abbrev pub SamePoller : Http → Http → Type 0
SamePoller h k = poller k ≡ poller h

after_put-SamePoller : (put : Outcome) (h : Http) → SamePoller h (after_put put h).1
unfolding after_put poller
after_put-SamePoller failed h = refl
after_put-SamePoller (answered r) h =
    let P : Result (Unit {0}) × Http → Type 0 = λ p. SamePoller h p.1 in
    if_rule P (eqb r.status 409) _ _ (λ e. refl)
      (λ e. if_rule P (not (eqb r.status 204)) _ _ (λ f. refl) (λ f. refl))

pub log_request-SamePoller :
    (q : HttpRequest) (outcome : Outcome) (h : Http) → SamePoller h (log_request q outcome h)
unfolding log_request poller
log_request-SamePoller q outcome h = refl

pub register_peer-SamePoller : (put : Outcome) (h : Http) → SamePoller h (register_peer put h).1
unfolding register_peer
register_peer-SamePoller put h =
    after_put-SamePoller put (log_request (put_peer h.announcement) put h)
    ∙ log_request-SamePoller (put_peer h.announcement) put h

after_post-SamePoller :
    (post put : Outcome) (rest : List Pending) (h : Http)
    → SamePoller h (after_post post put rest h)
unfolding after_post poller
after_post-SamePoller failed put rest h = refl
after_post-SamePoller (answered r) put rest h =
    if_rule (SamePoller h) (eqb r.status 404) _ _ (λ e. register_peer-SamePoller put h)
      (λ e. if_rule (SamePoller h) (eqb r.status 204) _ _ (λ f. refl) (λ f. refl))

send_front-SamePoller :
    (post put : Outcome) (ms : List Pending) (h : Http) → SamePoller h (send_front post put ms h)
unfolding send_front
send_front-SamePoller post put [] h = refl
send_front-SamePoller post put (m ∷ rest) h =
    after_post-SamePoller post put rest (log_request (post_message m) post h)
    ∙ log_request-SamePoller (post_message m) post h

pub send_turn-SamePoller : (post put : Outcome) (h : Http) → SamePoller h (send_turn post put h)
unfolding send_turn
send_turn-SamePoller post put h =
    if_rule (SamePoller h) (h.threads && not h.stopped) _ _
      (λ e. send_front-SamePoller post put h.outgoing h) (λ e. refl)

pub announce-SamePoller :
    (payload : Bytes) (put : Outcome) (h : Http) → SamePoller h (announce payload put h).1
unfolding announce poller
announce-SamePoller payload put h =
    let with_payload : Http = record h { announcement = payload } in
    if_rule (λ (p : Result (Unit {0}) × Http). SamePoller h p.1) h.stopped _ _ (λ e. refl)
      (λ e. register_peer-SamePoller put with_payload)

pub publish-SamePoller :
    (body : Bytes) (id : String) (h : Http) → SamePoller h (publish body id h).1
unfolding publish poller
publish-SamePoller body id h =
    if_rule (λ (p : Result (Unit {0}) × Http). SamePoller h p.1) (not h.started || h.closed) _ _
      (λ e. refl) (λ e. refl)
