-- ===== src/Zconf/Lookup.antt =====
-- list_nodes, resolve_node and pick_best_ip of src/discovery/zconf_discovery.cpp, in the states that
-- handle_record leads to, and a node's goodbye.
use mathlib.Core.Option.{some-injective}
use magpie_cpp.Prelude.Table
use magpie_cpp.Prelude.{
  arith, ◌&&◌, sym, if◌then◌else◌, ap, ◌∙◌, Bool-cases, ◌⊎◌, All, ◌∷◌, Bool, ◌≡◌, ℕ, List, Option,
  true, some, refl, none, inr, inl, false, [],
}
use magpie_cpp.Zconf.{
  front_or_empty, ip_or, pick_best_ip, empty_list, first_routable, is_local_ip, list_nodes,
  is_expired, Resolution, is_resolved, Discovery, unexpired, NodeInfo, resolve_node,
  resolution_step, look_up, if_resolved, resolved,
}
use magpie_cpp.Prelude.Bytes.{same_bytes_refl, same_bytes_iff, same_bytes, Bytes}
use magpie_cpp.Zconf.Known.{IsWellFormed, IsEntry}
use magpie_cpp.Prelude.Table.{
  has, find_miss, find_hit, AllEntries, find-AllEntries, none-some, Table,
}

if_resolved-some :
    (o : Option NodeInfo) (n : NodeInfo)
    → if_resolved o ≡ some n
    → (o ≡ some n) × (is_resolved n ≡ true)
unfolding if_resolved
if_resolved-some none n e = absurd (none-some n e)
if_resolved-some (some m) n e = elim (Bool-cases (is_resolved m)) [
  | inl r ↦
      let same = some-injective m n (rw r at e) in
      (ap (λ (x : NodeInfo). some x) same, rw (← same) r)
  | inr r ↦ absurd (none-some n (rw r at e))
]

-- What resolve_node may return for a node id.
abbrev pub IsResolution : Bytes → NodeInfo → Type 0
IsResolution id n = IsEntry id n × (is_resolved n ≡ true)

look_up-IsResolution :
    (id : Bytes) (n : NodeInfo) (d : Discovery)
    → IsWellFormed d
    → look_up id d ≡ some n
    → IsResolution id n
unfolding look_up
look_up-IsResolution id n d w e =
    let found = if_resolved-some (Table.find id d.nodes) n e in
    (find-AllEntries IsEntry id n d.nodes w.keyed_nodes found.0, found.1)

-- The entry of a resolution, so that equations between resolutions can be taken apart.
entry_of : Resolution → Option NodeInfo
entry_of (resolved n) = some n
entry_of _ = none

resolved_at :
    (id : Bytes) (n : NodeInfo) (o : Option NodeInfo) (d : Discovery) (past : Bool)
    (rest : Resolution)
    → look_up id d ≡ o
    → IsWellFormed d
    → (rest ≡ resolved n → IsResolution id n)
    → resolution_step o past rest ≡ resolved n
    → IsResolution id n
unfolding resolution_step entry_of
resolved_at id n (some m) d past rest e w later r =
    look_up-IsResolution id n d w (e ∙ ap entry_of r)
resolved_at id n none d true rest e w later r = absurd (none-some n (ap entry_of r))
resolved_at id n none d false rest e w later r = later r

-- Whatever the histories of the states at its wake-ups are, resolve_node returns an entry only under
-- the id asked for, with a port, an address and no address twice, and only for an id without an
-- upper-case letter.
pub resolve_node-IsResolution :
    (id : Bytes) (looks : List (Discovery × Bool)) (n : NodeInfo)
    → All (λ l. IsWellFormed l.0) looks
    → resolve_node id looks ≡ resolved n
    → IsResolution id n
unfolding resolve_node entry_of
resolve_node-IsResolution id [] n w e = absurd (none-some n (ap entry_of e))
resolve_node-IsResolution id ((d, past) ∷ later) n w e =
    resolved_at id n (look_up id d) d past (resolve_node id later) refl w.0
      (resolve_node-IsResolution id later n w.1) e

-- A node is in a list.
abbrev pub Listed : NodeInfo → List NodeInfo → Type 0
Listed n [] = ⊥
Listed n (m ∷ ms) = (n ≡ m) ⊎ Listed n ms

-- No node of a list has this id.
abbrev pub Unlisted : Bytes → List NodeInfo → Type 0
Unlisted id ns = All (λ n. same_bytes n.node_id id ≡ false) ns

keep-Listed :
    (n x : NodeInfo) (b : Bool) (ns : List NodeInfo)
    → Listed n ns
    → Listed n (if b then ns else x ∷ ns)
keep-Listed n x true ns h = h
keep-Listed n x false ns h = inr h

keep-Unlisted :
    (id : Bytes) (x : NodeInfo) (b : Bool) (ns : List NodeInfo)
    → same_bytes x.node_id id ≡ false
    → Unlisted id ns
    → Unlisted id (if b then ns else x ∷ ns)
keep-Unlisted id x true ns e h = h
keep-Unlisted id x false ns e h = (e, h)

unexpired-Listed :
    (now : ℕ) (id : Bytes) (n : NodeInfo) (expires : Table ℕ) (m : Table NodeInfo)
    → Table.find id m ≡ some n
    → is_expired now (Table.find id expires) ≡ false
    → Listed n (unexpired now expires m)
unfolding unexpired
unexpired-Listed now id n expires [] e f = absurd (none-some n (unfold Table.find in e))
unexpired-Listed now id n expires ((j, x) ∷ m) e f = elim (Bool-cases (same_bytes j id)) [
  | inl s ↦
      rw ((same_bytes_iff j id).0 s, f)
        (inl (sym (some-injective x n (sym (find_hit id j x m s) ∙ e))))
  | inr s ↦
      keep-Listed n x (is_expired now (Table.find j expires)) (unexpired now expires m)
        (unexpired-Listed now id n expires m (sym (find_miss id j x m s) ∙ e) f)
]

absent_later :
    (now : ℕ) (id j : Bytes) (x : NodeInfo) (expires : Table ℕ) (m : Table NodeInfo)
    → same_bytes j id ≡ false
    → (Table.find id ((j, x) ∷ m) ≡ none) ⊎ (is_expired now (Table.find id expires) ≡ true)
    → (Table.find id m ≡ none) ⊎ (is_expired now (Table.find id expires) ≡ true)
absent_later now id j x expires m s (inl e) = inl (sym (find_miss id j x m s) ∙ e)
absent_later now id j x expires m s (inr e) = inr e

expired_here :
    (now : ℕ) (id j : Bytes) (x : NodeInfo) (expires : Table ℕ) (m : Table NodeInfo)
    → same_bytes j id ≡ true
    → (Table.find id ((j, x) ∷ m) ≡ none) ⊎ (is_expired now (Table.find id expires) ≡ true)
    → is_expired now (Table.find id expires) ≡ true
expired_here now id j x expires m s (inl e) = absurd (none-some x (sym e ∙ find_hit id j x m s))
expired_here now id j x expires m s (inr e) = e

unexpired-Unlisted :
    (now : ℕ) (id : Bytes) (expires : Table ℕ) (m : Table NodeInfo)
    → AllEntries IsEntry m
    → (Table.find id m ≡ none) ⊎ (is_expired now (Table.find id expires) ≡ true)
    → Unlisted id (unexpired now expires m)
unfolding unexpired
unexpired-Unlisted now id expires [] w e = tt
unexpired-Unlisted now id expires ((j, x) ∷ m) w e = elim (Bool-cases (same_bytes j id)) [
  | inl s ↦
      let gone = expired_here now id j x expires m s e in
      rw ((same_bytes_iff j id).0 s, gone) (unexpired-Unlisted now id expires m w.1 (inr gone))
  | inr s ↦
      keep-Unlisted id x (is_expired now (Table.find j expires)) (unexpired now expires m)
        (rw w.0.1 s)
        (unexpired-Unlisted now id expires m w.1 (absent_later now id j x expires m s e))
]

-- At any time, list_nodes lists the entry of every node whose time has not passed, and no entry of
-- a node that is unknown or whose time has passed.
pub list_nodes-unexpired :
    (now : ℕ) (id : Bytes) (d : Discovery)
    → IsWellFormed d
    → ((n : NodeInfo)
        → Table.find id d.nodes ≡ some n
        → is_expired now (Table.find id d.expire_ms_by_node) ≡ false
        → Listed n (list_nodes now d))
      × ((Table.find id d.nodes ≡ none)
            ⊎ (is_expired now (Table.find id d.expire_ms_by_node) ≡ true)
          → Unlisted id (list_nodes now d))
unfolding list_nodes
list_nodes-unexpired now id d w = (
  λ n e f. unexpired-Listed now id n d.expire_ms_by_node d.nodes e f,
  unexpired-Unlisted now id d.expire_ms_by_node d.nodes w.keyed_nodes,
)

abbrev pub all_local : List Bytes → Bool
all_local [] = true
all_local (ip ∷ rest) = is_local_ip ip && all_local rest

ip_or-routable :
    (fallback : Bytes) (ips : List Bytes)
    → all_local ips ≡ false
    → is_local_ip (ip_or fallback (first_routable ips)) ≡ false
unfolding first_routable ip_or
ip_or-routable fallback [] e = ground (arith, e)
ip_or-routable fallback (ip ∷ ips) e = elim (Bool-cases (is_local_ip ip)) [
  | inl l ↦ rw l (ip_or-routable fallback ips (ground (arith, e, l)))
  | inr l ↦ rw l l
]

first_routable-has :
    (ips : List Bytes)
    → (first_routable ips ≡ none)
      ⊎ ((ip : Bytes) × (first_routable ips ≡ some ip) × (has ip ips ≡ true))
unfolding first_routable has
first_routable-has [] = inl refl
first_routable-has (ip ∷ ips) = elim (Bool-cases (is_local_ip ip)) [
  | inr l ↦ inr (ip, rw l refl, rw (same_bytes_refl ip) refl)
  | inl l ↦ elim (first_routable-has ips) [
    | inl e ↦ inl (rw l e)
    | inr (x, e, h) ↦ inr (x, rw l e, ground (arith, h))
  ]
]

front_or_empty-has :
    (ips : List Bytes) → empty_list ips ≡ false → has (front_or_empty ips) ips ≡ true
unfolding empty_list has front_or_empty
front_or_empty-has [] e = ground (arith, e)
front_or_empty-has (ip ∷ ips) e = rw (same_bytes_refl ip) refl

pick_best_ip-has :
    (ips : List Bytes)
    → empty_list ips ≡ false
    → has (ip_or (front_or_empty ips) (first_routable ips)) ips ≡ true
pick_best_ip-has ips e = elim (first_routable-has ips) [
  | inr (x, f, h) ↦ rw f (unfold ip_or in h)
  | inl f ↦ rw f (unfold ip_or in front_or_empty-has ips e)
]

-- The chosen address is one of the node's; it is no loopback or link-local IPv4 address as long as
-- the node has another; and a node without addresses gives the empty text.
pub pick_best_ip_lem :
    (n : NodeInfo)
    → (empty_list n.ips ≡ false → has (pick_best_ip n) n.ips ≡ true)
      × (all_local n.ips ≡ false → is_local_ip (pick_best_ip n) ≡ false)
      × (n.ips ≡ [] → pick_best_ip n ≡ [])
unfolding pick_best_ip
pick_best_ip_lem n = (
  pick_best_ip-has n.ips,
  λ e. ip_or-routable (front_or_empty n.ips) n.ips e,
  λ e. rw e (unfold first_routable ip_or front_or_empty in refl),
)
