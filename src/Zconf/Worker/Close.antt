-- ===== src/Zconf/Worker/Close.antt =====
-- close of src/discovery/zconf_discovery.cpp: what a node that closes sends last.
use mathlib.Core.Bool.{false≢true}
use mathlib.Core.List.{append-nil}
use mathlib.Core.Path.{subst}
use magpie_cpp.Prelude.{
  ◌++◌, ◌≡◌, ℕ, List, Option, true, some, none, false, [], ◌∷◌, refl, sym, ◌∙◌, if_rule, All, ◌&&◌,
  arith,
}
use magpie_cpp.Zconf.Queries.{Query}
use magpie_cpp.Zconf.Advertise.{
  AddressCodec, Message, send_goodbye, send_announce, advertise, stop_advertising,
}
use magpie_cpp.Zconf.Worker.{
  Entry, ZconfEvent, ZconfImpl, close_returns, closes, ended, finish_close, joined, looping,
  open_sockets, opens_sockets, publish, publishes, request_close, starts, stop, stops, thread_turn,
  to_sockets, turns, zconf_run, zconf_step,
}

to_sockets-zero : (m : Option Message) → to_sockets 0 m ≡ []
unfolding to_sockets
to_sockets-zero none = refl
to_sockets-zero (some m) = refl

-- A discovery whose thread has ended and whose sockets are closed, and what it has sent by then.
pub record IsStopped (sent : List Message) (asked : List Query) (z : ZconfImpl) : Type 0 where
  pub not_running : z.running ≡ false
  pub no_thread : z.worker ≡ ended
  pub no_socket : z.n_service ≡ 0
  pub all_sent : z.sent ≡ sent
  pub all_asked : z.asked ≡ asked

-- Any event but a start.
abbrev pub IsNoStart : ZconfEvent → Type 0
IsNoStart starts = ⊥
IsNoStart _ = Unit {0}

nothing-sent :
    (sent : List Message) (n : ℕ) (m : Option Message) → n ≡ 0 → sent ++ to_sockets n m ≡ sent
nothing-sent sent n m e = rw (e, to_sockets-zero m) (append-nil sent)

zconf_step-IsStopped :
    (codec : AddressCodec) (sent : List Message) (asked : List Query) (e : ZconfEvent)
    (z : ZconfImpl)
    → IsNoStart e
    → IsStopped sent asked z
    → IsStopped sent asked (zconf_step codec e z)
unfolding zconf_step
zconf_step-IsStopped codec sent asked starts z n s = absurd n
zconf_step-IsStopped codec sent asked stops z n s =
    unfold stop in
    record {
      not_running = s.not_running;
      no_thread = s.no_thread;
      no_socket = s.no_socket;
      all_sent =
          nothing-sent z.sent z.n_service (stop_advertising z.advertiser).0 s.no_socket
          ∙ s.all_sent;
      all_asked = s.all_asked;
    }
zconf_step-IsStopped codec sent asked closes z n s =
    unfold request_close in
    if_rule (IsStopped sent asked) z.running _ _ (λ e. absurd (false≢true (sym s.not_running ∙ e)))
      (λ e. s)
zconf_step-IsStopped codec sent asked close_returns z n s =
    subst (λ w. IsStopped sent asked (joined w z)) (sym s.no_thread)
      (unfold joined in
        if_rule (IsStopped sent asked) (z.closing && z.running) _ _
          (λ e. absurd (false≢true (ground (arith, e, s.not_running)))) (λ e. s))
zconf_step-IsStopped codec sent asked (publishes id port payload ips enumerated) z n s =
    unfold publish in
    record {
      not_running = s.not_running;
      no_thread = s.no_thread;
      no_socket = s.no_socket;
      all_sent =
          nothing-sent z.sent z.n_service
            (send_announce codec (advertise id port payload ips enumerated z.advertiser))
            s.no_socket
          ∙ s.all_sent;
      all_asked = s.all_asked;
    }
zconf_step-IsStopped codec sent asked (opens_sockets n_service n_client) z n s =
    subst (λ w. IsStopped sent asked (open_sockets w n_service n_client z)) (sym s.no_thread)
      (unfold open_sockets in s)
zconf_step-IsStopped codec sent asked (turns t entries) z n s =
    subst (λ w. IsStopped sent asked (thread_turn w codec t entries z)) (sym s.no_thread)
      (unfold thread_turn in s)

zconf_run-IsStopped :
    (codec : AddressCodec) (sent : List Message) (asked : List Query) (es : List ZconfEvent)
    (z : ZconfImpl)
    → All IsNoStart es
    → IsStopped sent asked z
    → IsStopped sent asked (zconf_run codec es z)
unfolding zconf_run
zconf_run-IsStopped codec sent asked [] z n s = s
zconf_run-IsStopped codec sent asked (e ∷ es) z n s =
    zconf_run-IsStopped codec sent asked es (zconf_step codec e z) n.1
      (zconf_step-IsStopped codec sent asked e z n.0 s)

-- close: the thread sees at its next turn that it is to end, and close returns.
abbrev pub closing_steps : ℕ → List (ℕ × Entry) → List ZconfEvent
closing_steps t entries = closes ∷ turns t entries ∷ close_returns ∷ []

closed-IsStopped :
    (codec : AddressCodec) (t : ℕ) (entries : List (ℕ × Entry)) (z : ZconfImpl)
    → z.running ≡ true
    → z.worker ≡ looping
    → IsStopped
        (z.sent ++ to_sockets z.n_service (send_goodbye z.advertiser))
        z.asked
        (zconf_run codec (closing_steps t entries) z)
unfolding zconf_run zconf_step request_close thread_turn joined finish_close
closed-IsStopped codec t entries z on loops =
    let sent = z.sent ++ to_sockets z.n_service (send_goodbye z.advertiser) in
    let Goal : ZconfImpl → Type 0 = λ y. IsStopped sent z.asked (
      joined (thread_turn y.worker codec t entries y).worker
        (thread_turn y.worker codec t entries y)) in
    let asked : ZconfImpl = record z { closing = true } in
    if_rule Goal z.running asked z
      (λ e.
        subst
          (λ w. IsStopped sent z.asked (
            joined (thread_turn w codec t entries asked).worker
              (thread_turn w codec t entries asked)))
          (sym loops)
          (if_rule (IsStopped sent z.asked) z.running _ _
            (λ r. record {
              not_running = refl;
              no_thread = refl;
              no_socket = refl;
              all_sent = refl;
              all_asked = refl;
            })
            (λ r. absurd (false≢true (sym r ∙ on)))))
      (λ e. absurd (false≢true (sym e ∙ on)))

-- A discovery that runs is closed: with the next turn of its thread, whatever the sockets deliver
-- by then, close returns. The last that it sends is its goodbye, on each open service socket, if it
-- advertises; as long as nobody starts it again, it sends and asks nothing more, whatever is
-- published, stopped or closed.
pub close-last_goodbye :
    (codec : AddressCodec) (t : ℕ) (entries : List (ℕ × Entry)) (later : List ZconfEvent)
    (z : ZconfImpl)
    → z.running ≡ true
    → z.worker ≡ looping
    → All IsNoStart later
    → let closed = zconf_run codec (closing_steps t entries) z in
      let afterwards = zconf_run codec later closed in
      (closed.running ≡ false)
      × (closed.sent ≡ z.sent ++ to_sockets z.n_service (send_goodbye z.advertiser))
      × (afterwards.sent ≡ closed.sent)
      × (afterwards.asked ≡ z.asked)
close-last_goodbye codec t entries later z on loops quiet =
    let c = closed-IsStopped codec t entries z on loops in
    let l = zconf_run-IsStopped codec _ _ later _ quiet c in
    (c.not_running, c.all_sent, l.all_sent ∙ sym c.all_sent, l.all_asked)
