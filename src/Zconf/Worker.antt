-- ===== src/Zconf/Worker.antt =====
-- start, close and thread_main of src/discovery/zconf_discovery.cpp: the life of one discovery as
-- the steps of its callers and of its worker thread. mdns.h parses what the sockets deliver; the
-- sockets that it opens are counted.
pub mod Close
use magpie_cpp.Prelude.{
  ◌++◌, ◌&&◌, ℕ, Bool, List, Option, replicate, true, some, none, false, [], ◌∷◌, if◌then◌else◌,
}
use magpie_cpp.Prelude.Bytes.{Bytes}
use magpie_cpp.Zconf.{Discovery, new_discovery}
use magpie_cpp.Zconf.Records.{ResourceRecord, handle_record}
use magpie_cpp.Zconf.Queries.{Query, Pacing, worker_turn}
use magpie_cpp.Zconf.Advertise.{
  AddressCodec, Advertiser, Message, QuestionType, advertise, handle_question, new_advertiser,
  send_announce, send_goodbye, stop_advertising,
}

-- What mdns_callback is called with.
pub data Entry : Type 0 where
  question : Bytes → QuestionType → Entry
  heard_record : ResourceRecord → Entry
  other_entry : Entry

unfoldable pub push_sent : Option Message → List Message → List Message
push_sent none later = later
push_sent (some m) later = m ∷ later

-- handle_record for each entry that the sockets deliver, with the time at which it is handled.
unfoldable pub handle_entries :
    AddressCodec → List (ℕ × Entry) → Advertiser → Discovery → List Message × Discovery
unfolding push_sent handle_question handle_record
handle_entries codec [] a d = ([], d)
handle_entries codec ((now, question qname rtype) ∷ rest) a d =
    let later = handle_entries codec rest a d in
    (push_sent (handle_question codec qname rtype a) later.0, later.1)
handle_entries codec ((now, heard_record r) ∷ rest) a d =
    handle_entries codec rest a (handle_record now r d)
handle_entries codec ((now, other_entry) ∷ rest) a d = handle_entries codec rest a d

-- The thread, if there is one: created, in its loop, or behind it.
pub data Worker : Type 0 where
  no_worker opening looping ended : Worker

-- ZconfDiscovery::Impl, with all that was sent.
pub record ZconfImpl : Type 0 where
  pub discovery : Discovery
  pub advertiser : Advertiser
  pub pacing : Pacing
  pub running : Bool
  pub closing : Bool
  pub worker : Worker
  pub n_service : ℕ
  pub n_client : ℕ
  pub sent : List Message
  pub asked : List Query

unfoldable pub new_zconf : Bytes → ZconfImpl
unfolding new_discovery new_advertiser
new_zconf service_type = record {
  discovery = new_discovery service_type;
  advertiser = new_advertiser service_type;
  pacing = record { last_ptr_query_ms = 0; last_refresh_ms = 0; last_announce = 0 };
  running = false;
  closing = false;
  worker = no_worker;
  n_service = 0;
  n_client = 0;
  sent = [];
  asked = [];
}

unfoldable pub start : ZconfImpl → ZconfImpl
start z = if z.running then z else record z { closing = false; running = true; worker = opening }

-- The loop over the service sockets.
unfoldable pub to_sockets : ℕ → Option Message → List Message
to_sockets n none = []
to_sockets n (some m) = replicate n m

-- The loops over the client sockets.
unfoldable pub to_clients : ℕ → List Query → List Query
to_clients n [] = []
to_clients n (q ∷ qs) = replicate n q ++ to_clients n qs

-- advertise, behind its call of start.
unfoldable pub publish :
    AddressCodec → Bytes → ℕ → Bytes → List Bytes → List Bytes → ZconfImpl → ZconfImpl
unfolding advertise send_announce to_sockets
publish codec id port payload ips enumerated z =
    let a = advertise id port payload ips enumerated z.advertiser in
    record z { advertiser = a; sent = z.sent ++ to_sockets z.n_service (send_announce codec a) }

unfoldable pub stop : ZconfImpl → ZconfImpl
unfolding stop_advertising to_sockets
stop z =
    let stopped = stop_advertising z.advertiser in
    record z { advertiser = stopped.1; sent = z.sent ++ to_sockets z.n_service stopped.0 }

-- close, up to the join.
unfoldable pub request_close : ZconfImpl → ZconfImpl
request_close z = if z.running then record z { closing = true } else z

-- close, behind the join.
unfoldable pub finish_close : ZconfImpl → ZconfImpl
unfolding send_goodbye to_sockets
finish_close z = record z {
  sent = z.sent ++ to_sockets z.n_service (send_goodbye z.advertiser);
  n_service = 0;
  n_client = 0;
  running = false;
}

-- The join holds close up until the thread has ended.
unfoldable pub joined : Worker → ZconfImpl → ZconfImpl
unfolding finish_close
joined ended z = if z.closing && z.running then finish_close z else z
joined _ z = z

-- thread_main, before its loop, where `n_service` and `n_client` sockets could be opened.
unfoldable pub open_sockets : Worker → ℕ → ℕ → ZconfImpl → ZconfImpl
open_sockets opening n_service n_client z = record z {
  n_service = n_service;
  n_client = n_client;
  pacing = record z.pacing { last_ptr_query_ms = 0; last_refresh_ms = 0 };
  worker = looping;
}
open_sockets _ n_service n_client z = z

unfoldable pub loop_body : AddressCodec → ℕ → List (ℕ × Entry) → ZconfImpl → ZconfImpl
unfolding worker_turn handle_entries to_sockets to_clients
loop_body codec t entries z =
    let turn = worker_turn t codec z.advertiser z.pacing z.discovery in
    let taken = handle_entries codec entries z.advertiser turn.1.1 in
    record z {
      pacing = turn.1.0;
      discovery = taken.1;
      sent = (z.sent ++ to_sockets z.n_service turn.0.1) ++ taken.0;
      asked = z.asked ++ to_clients z.n_client turn.0.0;
    }

-- while (!closing_), at the time `t`
unfoldable pub thread_turn : Worker → AddressCodec → ℕ → List (ℕ × Entry) → ZconfImpl → ZconfImpl
unfolding loop_body
thread_turn looping codec t entries z =
    if z.closing then record z { worker = ended } else loop_body codec t entries z
thread_turn _ codec t entries z = z

-- The steps of callers, who start, publish, stop, ask to close and return from close, and of the
-- thread, which opens its sockets and goes round its loop.
pub data ZconfEvent : Type 0 where
  starts stops closes close_returns : ZconfEvent
  publishes : Bytes → ℕ → Bytes → List Bytes → List Bytes → ZconfEvent
  opens_sockets : ℕ → ℕ → ZconfEvent
  turns : ℕ → List (ℕ × Entry) → ZconfEvent

unfoldable pub zconf_step : AddressCodec → ZconfEvent → ZconfImpl → ZconfImpl
unfolding start publish stop request_close joined open_sockets thread_turn
zconf_step codec starts z = start z
zconf_step codec stops z = stop z
zconf_step codec closes z = request_close z
zconf_step codec close_returns z = joined z.worker z
zconf_step codec (publishes id port payload ips enumerated) z =
    publish codec id port payload ips enumerated z
zconf_step codec (opens_sockets n_service n_client) z = open_sockets z.worker n_service n_client z
zconf_step codec (turns t entries) z = thread_turn z.worker codec t entries z

unfoldable pub zconf_run : AddressCodec → List ZconfEvent → ZconfImpl → ZconfImpl
unfolding zconf_step
zconf_run codec [] z = z
zconf_run codec (e ∷ es) z = zconf_run codec es (zconf_step codec e z)
