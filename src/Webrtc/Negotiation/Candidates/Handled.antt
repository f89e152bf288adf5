-- ===== src/Webrtc/Negotiation/Candidates/Handled.antt =====
-- What one handler of src/transport/webrtc/webrtc_connection.cpp does to the candidates of a peer.
use mathlib.Core.List.{append_assoc, append-nil}
use magpie_cpp.Prelude.{
  String, Bool, List, ◌++◌, ◌==◌, ◌∷◌, Option, true, some, none, false, [], ◌≡◌, refl, ap, ◌∙◌,
  Bool-cases, inl, inr, arith, sym, text_ltb, if_rule, ◌||◌, ◌&&◌, not,
}
use mathlib.Core.Bool.{false≢true}
use magpie_cpp.Prelude.Int.{ℤ}
use magpie_cpp.Webrtc.Negotiation.{
  Accepts, Peer, RtcCall, add_remote_candidate, call_rtc, new_connection, set_remote_description,
  setup_peer_connection, create_offer, offer_calls, send_hello, send_signal, on_hello, note_remote,
  decide_role, apply_pending_candidates, take_description, on_offer, on_answer, on_candidate,
}
use magpie_cpp.Webrtc.Negotiation.Candidates.{
  IsInOrder, given, waiting, candidate_pair, given-append, waiting-append, given-candidate_calls,
}

-- Calls that give no candidate.
pub quiet-IsInOrder :
    (own : String) (heard : List (String × String)) (calls : List RtcCall) (p : Peer)
    → given calls ≡ []
    → IsInOrder own heard p
    → IsInOrder own heard (call_rtc calls p)
unfolding call_rtc
quiet-IsInOrder own heard calls p quiet o =
    let same : given (p.calls ++ calls) ≡ given p.calls =
      simp (given-append, quiet, append-nil) refl in
    record {
      none_lost = rw same o.none_lost;
      none_early = λ e. rw same (o.none_early e);
      none_late = o.none_late;
      has_connection = o.has_connection;
      not_disconnecting = o.not_disconnecting;
      named = o.named;
    }

pub setup-IsInOrder :
    (own : String) (heard : List (String × String)) (p : Peer)
    → IsInOrder own heard p
    → IsInOrder own heard (setup_peer_connection p)
unfolding setup_peer_connection
setup-IsInOrder own heard p o =
    let q = quiet-IsInOrder own heard (new_connection ∷ []) p (unfold given in refl) o in
    record {
      none_lost = q.none_lost;
      none_early = q.none_early;
      none_late = q.none_late;
      has_connection = λ e. refl;
      not_disconnecting = q.not_disconnecting;
      named = q.named;
    }

-- A change of the other fields.
pub kept-IsInOrder :
    (own : String) (heard : List (String × String)) (p q : Peer)
    → q.calls ≡ p.calls
    → q.pending_candidates ≡ p.pending_candidates
    → q.remote_desc_set ≡ p.remote_desc_set
    → q.pc ≡ p.pc
    → q.disconnecting ≡ p.disconnecting
    → q.peer_id ≡ p.peer_id
    → IsInOrder own heard p
    → IsInOrder own heard q
kept-IsInOrder own heard p q c w r k d n o = record {
  none_lost = rw (c, w) o.none_lost;
  none_early = λ e. rw c (o.none_early (sym r ∙ e));
  none_late = λ e. rw w (o.none_late (sym r ∙ e));
  has_connection = λ e. rw k (o.has_connection (sym r ∙ e));
  not_disconnecting = d ∙ o.not_disconnecting;
  named = n ∙ o.named;
}

-- A candidate behind a remote description, and one before it.
pub given-now :
    (own : String) (heard : List (String × String)) (cand mid : String) (p : Peer)
    → p.remote_desc_set ≡ true
    → IsInOrder own heard p
    → IsInOrder own (heard ++ ((cand, mid) ∷ [])) (call_rtc (add_remote_candidate cand mid ∷ []) p)
unfolding call_rtc
given-now own heard cand mid p r o =
    let w = o.none_late r in
    let all = rw w at o.none_lost in
    let all' : given p.calls ≡ heard = sym (append-nil (given p.calls)) ∙ unfold waiting in all in
    record {
      none_lost =
          unfold given waiting in
          rw (w, given-append, all') (append-nil (heard ++ ((cand, mid) ∷ [])));
      none_early = λ x. absurd (false≢true (sym x ∙ r));
      none_late = o.none_late;
      has_connection = o.has_connection;
      not_disconnecting = o.not_disconnecting;
      named = o.named;
    }

pub held-back :
    (own : String) (heard : List (String × String)) (cand mid : String) (idx : ℤ) (p : Peer)
    → p.remote_desc_set ≡ false
    → IsInOrder own heard p
    → IsInOrder own
        (heard ++ ((cand, mid) ∷ []))
        (record p { pending_candidates = p.pending_candidates ++ ((cand, mid, idx) ∷ []) })
held-back own heard cand mid idx p r o = record {
  none_lost = rw (waiting-append) (
      sym (append_assoc (given p.calls) (waiting p.pending_candidates) _)
      ∙ unfold waiting in ap (λ l. l ++ ((cand, mid) ∷ [])) o.none_lost);
  none_early = o.none_early;
  none_late = λ x. absurd (false≢true (sym r ∙ x));
  has_connection = o.has_connection;
  not_disconnecting = o.not_disconnecting;
  named = o.named;
}

given-offer_calls : (use_media : Bool) → given (offer_calls use_media) ≡ []
unfolding given offer_calls
given-offer_calls true = refl
given-offer_calls false = refl

pub create_offer-IsInOrder :
    (own : String) (heard : List (String × String)) (p : Peer)
    → IsInOrder own heard p
    → IsInOrder own heard (create_offer p)
unfolding create_offer
create_offer-IsInOrder own heard p o = kept-IsInOrder own heard _ _ refl refl refl refl refl refl (
    quiet-IsInOrder own heard (offer_calls p.use_media_channels) p
      (given-offer_calls p.use_media_channels) o)

pub decide_role-IsInOrder :
    (own : String) (heard : List (String × String)) (p : Peer)
    → IsInOrder own heard p
    → IsInOrder own heard (decide_role p)
unfolding decide_role send_hello send_signal
decide_role-IsInOrder own heard p o =
    let decided : Peer = record p { role_decided = true } in
    let told : Peer = send_hello decided in
    if_rule (IsInOrder own heard) (text_ltb p.remote_peer_id p.peer_id) _ _
      (λ e. create_offer-IsInOrder own heard (setup_peer_connection decided) (
        setup-IsInOrder own heard decided
          (kept-IsInOrder own heard p decided refl refl refl refl refl refl o)))
      (λ e.
        setup-IsInOrder own heard told
          (kept-IsInOrder own heard p told refl refl refl refl refl refl o))

pub on_hello-IsInOrder :
    (own : String) (heard : List (String × String)) (remote : Option String) (p : Peer)
    → IsInOrder own heard p
    → IsInOrder own heard (on_hello remote p)
unfolding on_hello
on_hello-IsInOrder own heard none p o = o
on_hello-IsInOrder own heard (some remote) p o =
    let noted : IsInOrder own heard (note_remote remote p) =
      unfold note_remote in
      if_rule (IsInOrder own heard) (p.remote_peer_id == "") _ _
        (λ e. kept-IsInOrder own heard p _ refl refl refl refl refl refl o) (λ e. o) in
    if_rule (IsInOrder own heard) ((note_remote remote p).role_decided) _ _ (λ e. noted)
      (λ e. decide_role-IsInOrder own heard (note_remote remote p) noted)

pub apply_pending-IsInOrder :
    (own : String) (heard : List (String × String)) (p q : Peer)
    → given q.calls ≡ given p.calls
    → q.pending_candidates ≡ p.pending_candidates
    → q.pc ≡ true
    → q.remote_desc_set ≡ true
    → q.disconnecting ≡ false
    → q.peer_id ≡ own
    → IsInOrder own heard p
    → IsInOrder own heard (apply_pending_candidates q)
unfolding apply_pending_candidates call_rtc
apply_pending-IsInOrder own heard p q c w k r d n o = record {
  none_lost =
      unfold waiting in simp (given-append, given-candidate_calls, c, w, append-nil) o.none_lost;
  none_early = λ e. absurd (false≢true (sym e ∙ r));
  none_late = λ e. refl;
  has_connection = λ e. k;
  not_disconnecting = d;
  named = n;
}

pub take_description-IsInOrder :
    (accepts : Accepts) (own : String) (heard : List (String × String)) (sdp type : String)
    (p : Peer)
    → p.pc ≡ true
    → IsInOrder own heard p
    → IsInOrder own heard (take_description accepts sdp type p)
unfolding take_description
take_description-IsInOrder accepts own heard sdp type p k o =
    let calls = set_remote_description sdp type ∷ [] in
    let called = quiet-IsInOrder own heard calls p (unfold given in refl) o in
    if_rule (IsInOrder own heard) (accepts p.calls sdp type) _ _
      (λ e.
        apply_pending-IsInOrder own heard (call_rtc calls p)
          (record (call_rtc calls p) { remote_desc_set = true }) refl refl (unfold call_rtc in k)
          refl (unfold call_rtc in o.not_disconnecting) (unfold call_rtc in o.named) called)
      (λ e. called)

pub on_offer-IsInOrder :
    (accepts : Accepts) (own : String) (heard : List (String × String)) (sdp : Option String)
    (p : Peer)
    → IsInOrder own heard p
    → IsInOrder own heard (on_offer accepts sdp p)
unfolding on_offer
on_offer-IsInOrder accepts own heard none p o = o
on_offer-IsInOrder accepts own heard (some sdp) p o =
    if_rule (IsInOrder own heard) p.connected _ _ (λ e. o)
      (λ e.
        if_rule (λ q. IsInOrder own heard (take_description accepts sdp "offer" q)) p.pc p
          (setup_peer_connection p)
          (λ k. take_description-IsInOrder accepts own heard sdp "offer" p k o)
          (λ k.
            take_description-IsInOrder accepts own heard sdp "offer" (setup_peer_connection p)
              (unfold setup_peer_connection in refl) (setup-IsInOrder own heard p o)))

pub on_answer-IsInOrder :
    (accepts : Accepts) (own : String) (heard : List (String × String)) (sdp : Option String)
    (p : Peer)
    → IsInOrder own heard p
    → IsInOrder own heard (on_answer accepts sdp p)
unfolding on_answer
on_answer-IsInOrder accepts own heard none p o = o
on_answer-IsInOrder accepts own heard (some sdp) p o =
    if_rule (IsInOrder own heard) (p.connected || not p.pc) _ _ (λ e. o)
      (λ e. take_description-IsInOrder accepts own heard sdp "answer" p (ground (arith, e)) o)

pub on_candidate-IsInOrder :
    (own : String) (heard : List (String × String)) (cand : Option String) (mid : String) (idx : ℤ)
    (p : Peer)
    → IsInOrder own heard p
    → IsInOrder own (heard ++ candidate_pair cand mid) (on_candidate cand mid idx p)
unfolding on_candidate candidate_pair
on_candidate-IsInOrder own heard none mid idx p o = rw (append-nil heard) o
on_candidate-IsInOrder own heard (some cand) mid idx p o = elim (Bool-cases (cand == "")) [
  | inl e ↦ rw (e, append-nil heard) o
  | inr e ↦ rw e (
      if_rule (IsInOrder own (heard ++ ((cand, mid) ∷ []))) (p.remote_desc_set && p.pc) _ _
        (λ r. given-now own heard cand mid p (ground (arith, r)) o)
        (λ r. held-back own heard cand mid idx p (ground (arith, r, o.has_connection)) o))
]
