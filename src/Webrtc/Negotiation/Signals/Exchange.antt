-- ===== src/Webrtc/Negotiation/Signals/Exchange.antt =====
-- Two peers that hear each other's signals, src/transport/webrtc/webrtc_connection.cpp: the exchange
-- of descriptions from their hellos on, and what a hello does behind an offer.
use magpie_cpp.Prelude.{
  String, Bool, List, ◌++◌, ◌==◌, ◌∷◌, Option, true, some, none, false, [], text_ltb, ◌≡◌, refl,
  not, arith, ap, ◌∙◌, if_rule, sym, ◌||◌, ◌≢◌, eq_iff,
}
use mathlib.Core.Bool.{false≢true}
use magpie_cpp.Value.{Dict}
use magpie_cpp.Webrtc.Negotiation.{
  Accepts, Peer, RtcCall, add_remote_candidate, close_connection, create_data_channel,
  new_connection, new_peer, peer_step, set_local_description, set_remote_description,
  local_description, send_hello, description_message, on_hello, note_remote, decide_role, on_offer,
  on_answer, take_description, call_rtc, Candidate, setup_peer_connection, create_offer,
  apply_pending_candidates, candidate_calls, send_signal,
}
use magpie_cpp.Webrtc.Negotiation.Offers.{on_offer-SameRole}
use magpie_cpp.Webrtc.Negotiation.Signals.{
  described, last_signal, hello-heard, offer-heard, answer-heard, description_sent,
}

-- The peers of an exchange of descriptions, where `p` has the greater identifier: each hears the
-- other's hello, and then what the other's libdatachannel describes.
pub record Exchange : Type 0 where
  pub offering : Peer
  pub answering : Peer

-- Behind the hellos.
unfoldable pub describe : Accepts → String → String → Peer → Peer → Exchange
describe accepts offer answer p q =
    let p' = peer_step accepts (local_description "offer" offer) p in
    let q' = peer_step accepts (last_signal p') q in
    let q'' = peer_step accepts (local_description "answer" answer) q' in
    record { offering = peer_step accepts (last_signal q'') p'; answering = q'' }

unfoldable pub exchange : Accepts → String → String → Peer → Peer → Exchange
exchange accepts offer answer p q =
    describe accepts offer answer (peer_step accepts (last_signal (send_hello q)) (send_hello p))
      (peer_step accepts (last_signal (send_hello p)) (send_hello q))

described-append :
    (was : Option (String × String)) (cs ds : List RtcCall)
    → described was (cs ++ ds) ≡ described (described was cs) ds
unfolding described
described-append was [] ds = refl
described-append was (new_connection ∷ cs) ds = described-append none cs ds
described-append was (set_remote_description sdp type ∷ cs) ds =
    described-append (some (sdp, type)) cs ds
described-append was (set_local_description ∷ cs) ds = described-append was cs ds
described-append was (close_connection ∷ cs) ds = described-append none cs ds
described-append was (create_data_channel label ∷ cs) ds = described-append was cs ds
described-append was (add_remote_candidate cand mid ∷ cs) ds = described-append was cs ds

described-candidate_calls :
    (was : Option (String × String)) (cs : List Candidate)
    → described was (candidate_calls cs) ≡ was
unfolding described candidate_calls
described-candidate_calls was [] = refl
described-candidate_calls was ((cand, mid, idx) ∷ cs) = described-candidate_calls was cs

-- A peer that has a connection and waits for a description.
record IsReady (own : String) (p : Peer) : Type 0 where
  named : p.peer_id ≡ own
  live : p.disconnecting ≡ false
  not_open : p.connected ≡ false
  has_connection : p.pc ≡ true

new_peer-on_hello :
    (own remote role : String) (media : Bool)
    → IsReady own (on_hello (some remote) (send_hello (new_peer own remote role media)))
unfolding on_hello note_remote new_peer send_hello send_signal decide_role create_offer
    setup_peer_connection call_rtc
new_peer-on_hello own remote role media =
    if_rule (IsReady own) (text_ltb remote own) _ _
      (λ e. record { named = refl; live = refl; not_open = refl; has_connection = refl })
      (λ e. record { named = refl; live = refl; not_open = refl; has_connection = refl })

send_signal-IsReady :
    (own : String) (msg : Dict) (p : Peer) → IsReady own p → IsReady own (send_signal msg p)
unfolding send_signal
send_signal-IsReady own msg p r = record {
  named = r.named;
  live = r.live;
  not_open = r.not_open;
  has_connection = r.has_connection;
}

-- A peer that took a description.
abbrev pub Took : String → String → Peer → Type 0
Took sdp type p = (described none p.calls ≡ some (sdp, type)) × (p.remote_desc_set ≡ true)

module _ (accepts : Accepts)
    (takes : (calls : List RtcCall) (sdp type : String) → accepts calls sdp type ≡ true) where
  take_description-Took :
      (own sdp type : String) (p : Peer)
      → IsReady own p
      → Took sdp type (take_description accepts sdp type p)
        × IsReady own (take_description accepts sdp type p)
  unfolding take_description apply_pending_candidates call_rtc
  take_description-Took own sdp type p r =
      if_rule (λ q. Took sdp type q × IsReady own q) (accepts p.calls sdp type) _ _
        (λ e. (
          (
            rw
                (
                  described-append none (p.calls ++ (set_remote_description sdp type ∷ []))
                      (candidate_calls p.pending_candidates),
                  described-append none p.calls (set_remote_description sdp type ∷ []),
                )
                (unfold described in
                  described-candidate_calls (some (sdp, type)) p.pending_candidates),
            refl,
          ),
          record {
            named = r.named;
            live = r.live;
            not_open = r.not_open;
            has_connection = r.has_connection;
          },
        ))
        (λ e. absurd (false≢true (sym e ∙ takes p.calls sdp type)))

  on_offer-Took :
      (own sdp : String) (p : Peer)
      → IsReady own p
      → Took sdp "offer" (on_offer accepts (some sdp) p)
        × IsReady own (on_offer accepts (some sdp) p)
  unfolding on_offer
  on_offer-Took own sdp p r =
      if_rule (λ q. Took sdp "offer" q × IsReady own q) p.connected _ _
        (λ e. absurd (false≢true (sym r.not_open ∙ e)))
        (λ e.
          if_rule
            (λ q.
              Took sdp "offer" (take_description accepts sdp "offer" q)
              × IsReady own (take_description accepts sdp "offer" q))
            p.pc p (setup_peer_connection p) (λ k. take_description-Took own sdp "offer" p r)
            (λ k. absurd (false≢true (sym k ∙ r.has_connection))))

  on_answer-Took :
      (own sdp : String) (p : Peer)
      → IsReady own p
      → Took sdp "answer" (on_answer accepts (some sdp) p)
        × IsReady own (on_answer accepts (some sdp) p)
  unfolding on_answer
  on_answer-Took own sdp p r =
      if_rule (λ q. Took sdp "answer" q × IsReady own q) (p.connected || not p.pc) _ _
        (λ e. absurd (false≢true (ground (arith, e, r.not_open, r.has_connection))))
        (λ e. take_description-Took own sdp "answer" p r)

  describe-Took :
      (a b offer answer : String) (p q : Peer)
      → (a == b) ≡ false
      → (b == a) ≡ false
      → IsReady a p
      → IsReady b q
      → let e = describe accepts offer answer p q in
        Took offer "offer" e.answering × Took answer "answer" e.offering
  unfolding describe
  describe-Took a b offer answer p q ab ba rp rq =
      let taken = on_offer-Took b offer q rq in
      let p' = send_signal (description_message "offer" p.peer_id offer) p in
      let q' = on_offer accepts (some offer) q in
      let rp' = send_signal-IsReady a (description_message "offer" p.peer_id offer) p rp in
      let from_p : (p.peer_id == q.peer_id) ≡ false = rw (rp.named, rq.named) ab in
      let from_q : (q'.peer_id == p'.peer_id) ≡ false = rw (rp'.named, taken.1.named) ba in
      rw
        (
          offer-heard accepts q p from_p rq.live offer rp.live,
          description_sent accepts q p from_p rq.live "offer" offer rp.live,
          answer-heard accepts p' q' from_q rp'.live answer taken.1.live,
          description_sent accepts p' q' from_q rp'.live "answer" answer taken.1.live,
        )
        ((unfold send_signal in taken.0), (on_answer-Took a answer p' rp').0)

  -- Two new peers that take every description, hear each other's hello, and then what the other's
  -- libdatachannel describes: the offer of the one is the remote description of the other's
  -- connection, and the answer to it that of the first one's; both have noted that they have one.
  pub exchange-Took :
      (a b role_a role_b : String) (media_a media_b : Bool) (offer answer : String)
      → a ≢ b
      → let e =
          exchange accepts offer answer
            (new_peer a b role_a media_a)
            (new_peer b a role_b media_b) in
        Took offer "offer" e.answering × Took answer "answer" e.offering
  unfolding exchange new_peer
  exchange-Took a b role_a role_b media_a media_b offer answer differ =
      let ab : (a == b) ≡ false = ground (arith, eq_iff a b, differ) in
      let ba : (b == a) ≡ false = ground (arith, eq_iff b a, differ) in
      let p = new_peer a b role_a media_a in
      let q = new_peer b a role_b media_b in
      let to_p : peer_step accepts (last_signal (send_hello q)) (send_hello p)
          ≡ on_hello (some b) (send_hello p) =
        hello-heard accepts (send_hello p) q (unfold send_hello send_signal new_peer in ba)
          (unfold send_hello send_signal new_peer in refl) in
      let to_q : peer_step accepts (last_signal (send_hello p)) (send_hello q)
          ≡ on_hello (some a) (send_hello q) =
        hello-heard accepts (send_hello q) p (unfold send_hello send_signal new_peer in ab)
          (unfold send_hello send_signal new_peer in refl) in
      rw (to_p, to_q)
        (describe-Took a b offer answer (on_hello (some b) (send_hello p))
          (on_hello (some a) (send_hello q)) ab ba (new_peer-on_hello a b role_a media_a)
          (new_peer-on_hello b a role_b media_b))

  first_hello :
      (remote : String) (p : Peer)
      → p.remote_peer_id ≡ ""
      → p.role_decided ≡ false
      → text_ltb remote p.peer_id ≡ false
      → ((on_hello (some remote) p).calls ≡ p.calls ++ (new_connection ∷ []))
        × ((on_hello (some remote) p).remote_desc_set ≡ p.remote_desc_set)
  first_hello remote p r d lesser =
      let Goal : Peer → Type 0 = λ q.
        (q.calls ≡ p.calls ++ (new_connection ∷ [])) × (q.remote_desc_set ≡ p.remote_desc_set) in
      unfold on_hello note_remote decide_role in
      rw ((eq_iff p.remote_peer_id "").1 r) (
        if_rule Goal p.role_decided _ _ (λ e. absurd (false≢true (sym d ∙ e)))
          (λ e.
            if_rule Goal (text_ltb remote p.peer_id) _ _ (λ f. absurd (false≢true (sym lesser ∙ f)))
              (λ f. unfold setup_peer_connection send_hello send_signal call_rtc in (refl, refl))))

  -- A new peer that is not the greater of the two and gets the other's offer before its hello: the
  -- offer is taken, also without a hello, but a hello that comes later makes a new connection, which
  -- has no remote description though the peer has noted that it has one.
  pub late_hello-undescribed :
      (a b role : String) (media : Bool) (sdp : String) (q : Peer)
      → a ≢ b
      → text_ltb b a ≡ false
      → q.peer_id ≡ b
      → q.disconnecting ≡ false
      → let p1 =
          peer_step accepts
            (last_signal (peer_step accepts (local_description "offer" sdp) q))
            (new_peer a b role media) in
        let p2 = peer_step accepts (last_signal (send_hello q)) p1 in
        Took sdp "offer" p1 × (described none p2.calls ≡ none) × (p2.remote_desc_set ≡ true)
  unfolding new_peer
  late_hello-undescribed a b role media sdp q differ lesser named live =
      let p0 = new_peer a b role media in
      let ba : (q.peer_id == a) ≡ false = rw named (ground (arith, eq_iff b a, differ)) in
      let p1 = on_offer accepts (some sdp) p0 in
      let same = on_offer-SameRole accepts (some sdp) p0 in
      let taken = take_description-Took a sdp "offer" (setup_peer_connection p0) (
        unfold setup_peer_connection call_rtc in
        record { named = refl; live = refl; not_open = refl; has_connection = refl }) in
      let took : Took sdp "offer" p1 × IsReady a p1 = unfold on_offer in taken in
      let h = first_hello b p1 same.same_remote same.same_decided (rw (same.same_id) lesser) in
      let heard : peer_step accepts (last_signal (send_hello q)) p1 ≡ on_hello (some b) p1 =
        hello-heard accepts p1 q (rw took.1.named ba) took.1.live
        ∙ ap (λ i. on_hello (some i) p1) named in
      rw (offer-heard accepts p0 q ba refl sdp live, heard)
        (
          took.0,
          rw (h.0, described-append none p1.calls (new_connection ∷ [])) (unfold described in refl),
          h.1 ∙ took.0.1,
        )
