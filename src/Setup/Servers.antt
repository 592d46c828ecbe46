-- ===== src/Setup/Servers.antt =====
-- src/dhmp_config.c: the servers of a configuration file.
use rdma_middleware.Prelude.{
  ℕ, ◌+◌, ◌≤◌, ◌<◌, ◌≡◌, refl, ap, sym, ◌∙◌, Option, some, none, List, [], ◌∷◌, ◌++◌, map, length,
  set, length-set, lt→ltb, le→ltb_false, drop, arith,
}
use rdma_middleware.Setup.Slots.{
  overlay, overlay-nil, overlay-set, overlay-drop, change-set, change-in, length-map,
}
use rdma_middleware.Setup.Config.{
  NetInfo, SimuInfo, MemInfo, Config, Text, nic_name, addr, port, rdelay, wdelay, knum, dram_node,
  nvm_node, Element, server, server_node_num, nic_name_len, addr_len, fitting, number_in,
  change_net, change_simu, change_mem, parse_server_field, parse_fields, parse_elements,
  dhmp_config_parse,
}

-- What a file says of a server.
pub record ServerInfo : Type 0 where
  pub net : NetInfo
  pub simu : SimuInfo
  pub mem : MemInfo

abbrev value : ℕ → Option Text
value n = some (record { chars = []; number = n })

abbrev string : List ℕ → Option Text
string s = some (record { chars = s; number = 0 })

-- The element of a server, all of its fields given; the numbers' texts stand for what `atoi` reads.
abbrev pub server_of : ServerInfo → Element
server_of s = server (
    nic_name (string s.net.nic_name)
    ∷ addr (string s.net.addr)
    ∷ port (value s.net.port)
    ∷ rdelay (value s.simu.rdelay)
    ∷ wdelay (value s.simu.wdelay)
    ∷ knum (value s.simu.knum)
    ∷ dram_node (value s.mem.dram_node)
    ∷ nvm_node (value s.mem.nvm_node)
    ∷ [])

pub record IsServer (s : ServerInfo) : Type 0 where
  pub name_fits : length s.net.nic_name < nic_name_len
  pub addr_fits : length s.net.addr < addr_len

abbrev pub AreServers : List ServerInfo → Type 0
AreServers [] = Unit {0}
AreServers (s ∷ ss) = IsServer s × AreServers ss

-- The three arrays have their slots.
pub record IsConfig (c : Config) : Type 0 where
  pub nets : length c.net_infos ≡ server_node_num
  pub simus : length c.simu_infos ≡ server_node_num
  pub mems : length c.mem_infos ≡ server_node_num

-- The configuration with a server in its slots.
abbrev with_server : Config → ℕ → ServerInfo → Config
with_server c i s = record c {
  net_infos = set c.net_infos i s.net;
  simu_infos = set c.simu_infos i s.simu;
  mem_infos = set c.mem_infos i s.mem;
}

parse_server :
    (c : Config) (i : ℕ) (s : ServerInfo) (es : List Element)
    → IsConfig c
    → IsServer s
    → i < server_node_num
    → parse_elements c i (server_of s ∷ es)
      ≡ parse_elements (record (with_server c i s) { nets_cnt = c.nets_cnt + 1 }) (i + 1) es
unfolding parse_elements parse_fields parse_server_field fitting number_in change_net change_simu
    change_mem
parse_server c i s es v k h =
    let name = lt→ltb (length s.net.nic_name) nic_name_len k.name_fits in
    let address = lt→ltb (length s.net.addr) addr_len k.addr_fits in
    let in_nets : i < length c.net_infos = omega (arith, v.nets) in
    let in_simus : i < length c.simu_infos = omega (arith, v.simus) in
    let in_mems : i < length c.mem_infos = omega (arith, v.mems) in
    let (n, net) =
      change-in (λ (n : NetInfo). record n { nic_name = s.net.nic_name }) c.net_infos i in_nets in
    let (u, simu) =
      change-in (λ (n : SimuInfo). record n { rdelay = s.simu.rdelay }) c.simu_infos i in_simus in
    let (m, mem) =
      change-in (λ (n : MemInfo). record n { dram_node = s.mem.dram_node }) c.mem_infos i in_mems in
    rw
      (
        name,
        net,
        address,
        change-set (λ (n : NetInfo). record n { addr = s.net.addr }) c.net_infos i _ in_nets,
        change-set (λ (n : NetInfo). record n { port = s.net.port }) c.net_infos i _ in_nets,
        simu,
        change-set (λ (n : SimuInfo). record n { wdelay = s.simu.wdelay }) c.simu_infos i _
            in_simus,
        change-set (λ (n : SimuInfo). record n { knum = s.simu.knum }) c.simu_infos i _ in_simus,
        mem,
        change-set (λ (n : MemInfo). record n { nvm_node = s.mem.nvm_node }) c.mem_infos i _
            in_mems,
      )
      refl

-- The configuration with servers in the slots from `i` on.
abbrev with_servers : Config → ℕ → List ServerInfo → Config
with_servers c i ss = record c {
  net_infos = overlay c.net_infos i (map (λ (s : ServerInfo). s.net) ss);
  simu_infos = overlay c.simu_infos i (map (λ (s : ServerInfo). s.simu) ss);
  mem_infos = overlay c.mem_infos i (map (λ (s : ServerInfo). s.mem) ss);
  nets_cnt = c.nets_cnt + length ss;
}

with_server-IsConfig :
    (c : Config) (i : ℕ) (s : ServerInfo) → IsConfig c → IsConfig (with_server c i s)
with_server-IsConfig c i s v = record {
  nets = length-set c.net_infos i s.net ∙ v.nets;
  simus = length-set c.simu_infos i s.simu ∙ v.simus;
  mems = length-set c.mem_infos i s.mem ∙ v.mems;
}

same_config :
    (c : Config) {a a' : List NetInfo} {b b' : List SimuInfo} {d d' : List MemInfo} {n n' : ℕ}
    → a ≡ a'
    → b ≡ b'
    → d ≡ d'
    → n ≡ n'
    → some (record c { net_infos = a; simu_infos = b; mem_infos = d; nets_cnt = n })
      ≡ some (record c { net_infos = a'; simu_infos = b'; mem_infos = d'; nets_cnt = n' })
same_config c ea eb ed en = rw (ea, eb, ed, en) refl

parse_servers :
    (c : Config) (i : ℕ) (ss : List ServerInfo)
    → IsConfig c
    → AreServers ss
    → i + length ss ≤ server_node_num
    → parse_elements c i (map server_of ss) ≡ some (with_servers c i ss)
unfolding parse_elements
parse_servers c i [] v k h =
    same_config c (sym (overlay-nil c.net_infos i)) (sym (overlay-nil c.simu_infos i))
      (sym (overlay-nil c.mem_infos i)) (omega arith)
parse_servers c i (s ∷ ss) v (k, ks) h =
    let c1 : Config = record (with_server c i s) { nets_cnt = c.nets_cnt + 1 } in
    let v1 : IsConfig (with_server c i s) = with_server-IsConfig c i s v in
    let still : IsConfig c1 = record { nets = v1.nets; simus = v1.simus; mems = v1.mems } in
    parse_server c i s (map server_of ss) v k (omega arith)
    ∙ parse_servers c1 (i + 1) ss still ks (omega arith)
    ∙ same_config c
        (overlay-set c.net_infos i s.net (map (λ (t : ServerInfo). t.net) ss)
          (omega (arith, v.nets)))
        (overlay-set c.simu_infos i s.simu (map (λ (t : ServerInfo). t.simu) ss)
          (omega (arith, v.simus)))
        (overlay-set c.mem_infos i s.mem (map (λ (t : ServerInfo). t.mem) ss)
          (omega (arith, v.mems)))
        (omega arith)

-- A file with at most three servers, whose names and addresses fit their fields, is read as it was
-- written: the first slots of the three arrays hold what it says of the servers, in their order, the
-- other slots are as before, and the servers are counted. Assumed of the library is that the texts
-- of a server's numbers are read as these numbers.
pub dhmp_config_parse-server_of :
    (c : Config) (ss : List ServerInfo)
    → IsConfig c
    → AreServers ss
    → length ss ≤ server_node_num
    → dhmp_config_parse c (map server_of ss)
      ≡ some (record c {
        net_infos = map (λ (s : ServerInfo). s.net) ss ++ drop (length ss) c.net_infos;
        simu_infos = map (λ (s : ServerInfo). s.simu) ss ++ drop (length ss) c.simu_infos;
        mem_infos = map (λ (s : ServerInfo). s.mem) ss ++ drop (length ss) c.mem_infos;
        curnet_id = none;
        nets_cnt = length ss;
      })
unfolding dhmp_config_parse
dhmp_config_parse-server_of c ss v ks h =
    let start : Config = record c { nets_cnt = 0; curnet_id = none } in
    let valid : IsConfig start = record { nets = v.nets; simus = v.simus; mems = v.mems } in
    let count : 0 + length ss ≡ length ss = omega arith in
    let nets = length-map (λ (s : ServerInfo). s.net) ss in
    let simus = length-map (λ (s : ServerInfo). s.simu) ss in
    let mems = length-map (λ (s : ServerInfo). s.mem) ss in
    rw
      (
        parse_servers start 0 ss valid ks (omega arith),
        count,
        le→ltb_false server_node_num (length ss) h,
      )
      (same_config start
        (overlay-drop c.net_infos (map (λ (s : ServerInfo). s.net) ss) (omega (arith, nets, v.nets))
          ∙ ap (λ n. map (λ (s : ServerInfo). s.net) ss ++ drop n c.net_infos) nets)
        (overlay-drop c.simu_infos (map (λ (s : ServerInfo). s.simu) ss)
            (omega (arith, simus, v.simus))
          ∙ ap (λ n. map (λ (s : ServerInfo). s.simu) ss ++ drop n c.simu_infos) simus)
        (overlay-drop c.mem_infos (map (λ (s : ServerInfo). s.mem) ss) (omega (arith, mems, v.mems))
          ∙ ap (λ n. map (λ (s : ServerInfo). s.mem) ss ++ drop n c.mem_infos) mems)
        refl)
