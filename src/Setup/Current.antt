-- ===== src/Setup/Current.antt =====
-- src/dhmp_config.c: which of the servers this node is.
use rdma_middleware.Prelude.{
  ℕ, zero, suc, ◌+◌, Option-cases, if-holds, ◌≡◌, refl, ap, sym, ◌∙◌, Bool, true, false, not, ◌&&◌,
  Bool-cases, inl, inr, Option, some, none, List, [], ◌∷◌, get_elem?, if◌then◌else◌, arith,
}
use rdma_middleware.Prelude.Results.{◌>>=◌, Returns, bind-Returns, Returns-some, Returns-map}
use rdma_middleware.HashMap.Text.{default_equal, default_equal→eq}
use rdma_middleware.Setup.Config.{NetInfo, Config}

-- A network interface: its name, its flags and its address in dots.
pub record Interface : Type 0 where
  pub name : List ℕ
  pub loopback : Bool
  pub up : Bool
  pub addr : List ℕ

abbrev pub same : List ℕ → List ℕ → Bool
same = default_equal

unfoldable pub is_named : NetInfo → Interface → Bool
is_named n f = not f.loopback && f.up && same f.name n.nic_name

-- The inner loop of `dhmp_set_curnode_id`: `buf` gives the interface at a position, also behind the last
-- one, `p` is where `ifr` points, and `n` rounds are left. The result is where `ifr` points afterwards,
-- and whether the interface there has the name.
unfoldable pub find_interface : (ℕ → Interface) → NetInfo → ℕ → ℕ → ℕ × Bool
find_interface buf net zero p = (p, false)
find_interface buf net (suc n) p =
    if is_named net (buf p) then (p, true) else find_interface buf net n (p + 1)

-- The search for a server with this address, from the server `i` on.
unfoldable pub find_server : List ℕ → List NetInfo → ℕ → Option ℕ
find_server address [] i = none
find_server address (n ∷ ns) i =
    if same n.addr address then some i else find_server address ns (i + 1)

-- The outer loop, over the servers whose interface is looked for; `ifr` goes on where it was left. `none`
-- is the code's `exit`.
unfoldable pub search_servers : (ℕ → Interface) → ℕ → List NetInfo → List NetInfo → ℕ → Option ℕ
search_servers buf dev_num servers [] p = none
search_servers buf dev_num servers (n ∷ ns) p =
    let (q, found) = find_interface buf n dev_num p in
    let rest = search_servers buf dev_num servers ns q in
    if found
    then (elim (find_server (buf q).addr servers 0) [ none ↦ rest | some i ↦ some i ])
    else rest

-- `dhmp_set_curnode_id`; the servers are the first `nets_cnt` slots.
unfoldable pub dhmp_set_curnode_id : (ℕ → Interface) → ℕ → List NetInfo → Config → Option Config
dhmp_set_curnode_id buf dev_num servers c =
    search_servers buf dev_num servers servers 0 >>= λ (i : ℕ).
    some (record c { curnet_id = some i })

find_server_lem :
    (address : List ℕ) (ns : List NetInfo) (start i : ℕ)
    → find_server address ns start ≡ some i
    → (k : ℕ) × (n : NetInfo) × (i ≡ start + k)
      × (get_elem? ns k ≡ some n)
      × (same n.addr address ≡ true)
unfolding find_server
find_server_lem address [] start i e = absurd cc
find_server_lem address (x ∷ ns) start i e = elim (Bool-cases (same x.addr address)) [
  | inl here ↦
      let at : some start ≡ some i =
        ap (λ b. if b then some start else find_server address ns (start + 1)) (sym here) ∙ e in
      (0, x, ground (arith, at), refl, here)
  | inr past ↦
      let rest : find_server address ns (start + 1) ≡ some i =
        ap (λ b. if b then some start else find_server address ns (start + 1)) (sym past) ∙ e in
      let (k, n, at, slot, equal) = find_server_lem address ns (start + 1) i rest in
      (suc k, n, omega (arith, at), slot, equal)
]

find_interface_lem :
    (buf : ℕ → Interface) (net : NetInfo) (n p q : ℕ)
    → find_interface buf net n p ≡ (q, true)
    → is_named net (buf q) ≡ true
unfolding find_interface
find_interface_lem buf net zero p q e = absurd cc
find_interface_lem buf net (suc n) p q e = elim (Bool-cases (is_named net (buf p))) [
  | inl here ↦
      let at : (p, true) ≡ (q, true) =
        ap (λ b. if b then (p, true) else find_interface buf net n (p + 1)) (sym here) ∙ e in
      let same_place : q ≡ p = ap (λ t. t.0) (sym at) in rw same_place here
  | inr past ↦
      find_interface_lem buf net n (p + 1) q
        (ap (λ b. if b then (p, true) else find_interface buf net n (p + 1)) (sym past) ∙ e)
]

-- The server `i` has the address of an interface that has the name of one of the servers `ns`.
pub record Located (buf : ℕ → Interface) (servers ns : List NetInfo) (i : ℕ) : Type 0 where
  pub position : ℕ
  pub named : ℕ
  pub by : NetInfo
  pub in_list : get_elem? ns named ≡ some by
  pub no_loopback : (buf position).loopback ≡ false
  pub is_up : (buf position).up ≡ true
  pub has_name : (buf position).name ≡ by.nic_name
  pub server : NetInfo
  pub slot : get_elem? servers i ≡ some server
  pub address : server.addr ≡ (buf position).addr

Located-later :
    (buf : ℕ → Interface) (servers ns : List NetInfo) (n : NetInfo) (i : ℕ)
    → Located buf servers ns i
    → Located buf servers (n ∷ ns) i
Located-later buf servers ns n i l = record {
  position = l.position;
  named = suc l.named;
  by = l.by;
  in_list = l.in_list;
  no_loopback = l.no_loopback;
  is_up = l.is_up;
  has_name = l.has_name;
  server = l.server;
  slot = l.slot;
  address = l.address;
}

search_servers-Located :
    (buf : ℕ → Interface) (dev_num : ℕ) (servers ns : List NetInfo) (p : ℕ)
    → Returns (Located buf servers ns) (search_servers buf dev_num servers ns p)
unfolding search_servers is_named
search_servers-Located buf dev_num servers [] p = record {}
search_servers-Located buf dev_num servers (n ∷ ns) p =
    let P = Located buf servers (n ∷ ns) in
    let q : ℕ = (find_interface buf n dev_num p).0 in
    let rest : Returns P (search_servers buf dev_num servers ns q) =
      Returns-map (Located buf servers ns) P (search_servers buf dev_num servers ns q)
        (Located-later buf servers ns n) (search_servers-Located buf dev_num servers ns q) in
    if-holds (Returns P) (find_interface buf n dev_num p).1 _ _
      (λ found. elim (Option-cases (find_server (buf q).addr servers 0)) [
        | inl nowhere ↦ rw nowhere rest
        | inr (i, at) ↦
            let (k, server, is_k, slot, equal) = find_server_lem (buf q).addr servers 0 i at in
            let index : i ≡ k = omega arith in
            let usable : is_named n (buf q) ≡ true =
              find_interface_lem buf n dev_num p q (ap (λ (b : Bool). (q, b)) found) in
            rw at (record {
              position = q;
              named = 0;
              by = n;
              in_list = refl;
              no_loopback = ground (arith, usable);
              is_up = ground (arith, usable);
              has_name = default_equal→eq (buf q).name n.nic_name (ground (arith, usable));
              server = server;
              slot = rw index slot;
              address = default_equal→eq server.addr (buf q).addr equal;
            })
      ])
      (λ lost. rest)

-- When `dhmp_set_curnode_id` returns, the node takes itself for a server whose address is that of an
-- interface in the buffer, and this interface is up, is no loopback and has the name that the
-- configuration gives for a server. The interface may stand behind those that the system reported.
pub dhmp_set_curnode_id-Located :
    (buf : ℕ → Interface) (dev_num : ℕ) (servers : List NetInfo) (c c' : Config)
    → dhmp_set_curnode_id buf dev_num servers c ≡ some c'
    → (i : ℕ) × (c'.curnet_id ≡ some i) × Located buf servers servers i
unfolding dhmp_set_curnode_id
dhmp_set_curnode_id-Located buf dev_num servers c c' e =
    let search = search_servers buf dev_num servers servers 0 in
    let P = λ (d : Config). (i : ℕ) × (d.curnet_id ≡ some i) × Located buf servers servers i in
    Returns-some P (search >>= λ (i : ℕ). some (record c { curnet_id = some i })) c' e (
      bind-Returns (Located buf servers servers) P search _
        (search_servers-Located buf dev_num servers servers 0) (λ i l. (i, refl, l)))
