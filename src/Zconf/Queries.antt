-- ===== src/Zconf/Queries.antt =====
-- thread_main of src/discovery/zconf_discovery.cpp: what one turn of the worker sends before it
-- waits on its sockets, for which mdns.h is a parameter. A query goes out on each client socket.

use magpie_cpp.Prelude.Bytes.{same_bytes_refl, Bytes}
use magpie_cpp.Prelude.{
  ◌&&◌, ◌%◌, Option, ◌-◌, arith, ltb, ◌^◌, ◌++◌, ◌≡◌, All, if◌then◌else◌, ◌+◌, ◌∷◌, List, ℕ, true,
  refl, none, [],
}
use magpie_cpp.Zconf.{NodeInfo, Discovery, empty_list}
use magpie_cpp.Prelude.Table.{has-push_new, has, Table, push_new}
use magpie_cpp.Zconf.Text.{norm_host, ensure_trailing_dot}
use magpie_cpp.Zconf.Advertise.{Message, Advertiser, AddressCodec, send_announce}

-- send_ptr_query_all_, send_instance_queries_ (SRV and TXT) and send_host_queries_ (A and AAAA)
pub data Query : Type 0 where
  ptr_query instance_queries host_queries : Bytes → Query

unfoldable pub known_instances : Table NodeInfo → List Bytes
unfolding empty_list
known_instances [] = []
known_instances ((id, n) ∷ rest) =
    let later = known_instances rest in
    if empty_list n.instance_name then later else ensure_trailing_dot n.instance_name ∷ later

unfoldable pub known_hosts : Table NodeInfo → List Bytes
unfolding empty_list
known_hosts [] = []
known_hosts ((id, n) ∷ rest) =
    let later = known_hosts rest in
    if empty_list n.host_qualified then later else ensure_trailing_dot n.host_qualified ∷ later

-- The loop over one of the two vectors: `key` gives the text that the set keeps, and `ask` the query.
unfoldable pub ask_each :
    (Bytes → Bytes) → (Bytes → Query) → List Bytes → List Bytes → List Query × List Bytes
unfolding push_new
ask_each key ask [] queried = ([], queried)
ask_each key ask (t ∷ ts) queried =
    let rest = ask_each key ask ts (push_new (key t) queried) in
    (if has (key t) queried then rest.0 else ask t ∷ rest.0, rest.1)

unfoldable pub same_key : Bytes → Bytes
same_key t = t

unfoldable pub ask_host : Bytes → Query
ask_host h = host_queries (ensure_trailing_dot h)

-- The follow-up queries.
unfoldable pub refresh : Discovery → List Query × Discovery
unfolding known_instances known_hosts ask_each same_key ask_host
refresh d =
    let instances =
      ask_each same_key instance_queries (known_instances d.nodes) d.queried_instance in
    let hosts = ask_each norm_host ask_host (known_hosts d.nodes) d.queried_host in
    (instances.0 ++ hosts.0, record d { queried_instance = instances.1; queried_host = hosts.1 })

-- The worker's clocks: two members, and the function's static.
pub record Pacing : Type 0 where
  pub last_ptr_query_ms : ℕ
  pub last_refresh_ms : ℕ
  pub last_announce : ℕ

-- t - last, of uint64_t
unfoldable pub elapsed : ℕ → ℕ → ℕ
elapsed t last = (t + 2 ^ 64 - last) % 2 ^ 64

unfoldable pub pace_ptr : ℕ → Bytes → Pacing → List Query × Pacing
unfolding elapsed
pace_ptr t service_type p =
    if ltb 1500 (elapsed t p.last_ptr_query_ms)
    then (ptr_query service_type ∷ [], record p { last_ptr_query_ms = t })
    else ([], p)

unfoldable pub pace_refresh : ℕ → Pacing → Discovery → List Query × (Pacing × Discovery)
unfolding elapsed refresh
pace_refresh t p d =
    if ltb 500 (elapsed t p.last_refresh_ms)
    then ((refresh d).0, (record p { last_refresh_ms = t }, (refresh d).1))
    else ([], (p, d))

unfoldable pub pace_announce : ℕ → AddressCodec → Advertiser → Pacing → Option Message × Pacing
unfolding elapsed send_announce
pace_announce t codec a p =
    if a.advertising && ltb 2000 (elapsed t p.last_announce)
    then (send_announce codec a, record p { last_announce = t })
    else (none, p)

-- A turn: the queries and the announcement that are sent, and the state behind them.
unfoldable pub worker_turn :
    ℕ
    → AddressCodec
    → Advertiser
    → Pacing
    → Discovery
    → (List Query × Option Message) × (Pacing × Discovery)
unfolding pace_ptr pace_refresh pace_announce
worker_turn t codec a p d =
    let first = pace_ptr t d.service_type p in
    let second = pace_refresh t first.1 d in
    let third = pace_announce t codec a second.1.0 in
    ((first.0 ++ second.0, third.0), (third.1, second.1.1))

-- A text that is asked about stays asked about, until a record erases it.
ask_each-keeps :
    (key : Bytes → Bytes) (ask : Bytes → Query) (k : Bytes) (ts queried : List Bytes)
    → has k queried ≡ true
    → has k (ask_each key ask ts queried).1 ≡ true
unfolding ask_each
ask_each-keeps key ask k [] queried h = h
ask_each-keeps key ask k (t ∷ ts) queried h =
    ask_each-keeps key ask k ts (push_new (key t) queried)
      (ground (arith, has-push_new k (key t) queried, h))

ask_each-asked :
    (key : Bytes → Bytes) (ask : Bytes → Query) (ts queried : List Bytes)
    → All (λ t. has (key t) (ask_each key ask ts queried).1 ≡ true) ts
unfolding ask_each
ask_each-asked key ask [] queried = tt
ask_each-asked key ask (t ∷ ts) queried = (
  ask_each-keeps key ask (key t) ts (push_new (key t) queried)
      (ground (arith, has-push_new (key t) (key t) queried, same_bytes_refl (key t))),
  ask_each-asked key ask ts (push_new (key t) queried),
)

ask_each-none :
    (key : Bytes → Bytes) (ask : Bytes → Query) (ts queried : List Bytes)
    → All (λ t. has (key t) queried ≡ true) ts
    → (ask_each key ask ts queried).0 ≡ []
unfolding ask_each push_new
ask_each-none key ask [] queried h = refl
ask_each-none key ask (t ∷ ts) queried h = rw (h.0) (ask_each-none key ask ts queried h.1)

-- Once a refresh has asked about the nodes that are known, a further one sends nothing.
pub refresh-again : (d : Discovery) → (refresh (refresh d).1).0 ≡ []
unfolding refresh
refresh-again d =
    simp
      (
        ask_each-none same_key instance_queries (known_instances d.nodes) _
            (ask_each-asked same_key instance_queries (known_instances d.nodes) d.queried_instance),
        ask_each-none norm_host ask_host (known_hosts d.nodes) _
            (ask_each-asked norm_host ask_host (known_hosts d.nodes) d.queried_host),
      )
      refl
