-- ===== src/Setup/Config.antt =====
-- src/dhmp_config.c: the configuration read from the elements of an XML file. The parser is a library:
-- its tree is a parameter, an element's name being told by its constructor, and `atoi` of a text is given
-- with it. `none` is undefined behaviour: a text that is missing, a name that is longer than its field,
-- or a server past the three that the arrays hold.
use rdma_middleware.Prelude.{
  ℕ, ◌+◌, Option, some, none, List, [], ◌∷◌, length, get_elem?, set, if◌then◌else◌, ltb,
}
use rdma_middleware.Prelude.Results.{◌>>=◌}

-- `DHMP_SERVER_NODE_NUM`, `DHMA_NIC_NAME_LEN` and `DHMP_ADDR_LEN`
abbrev pub server_node_num : ℕ
server_node_num = 3

abbrev pub nic_name_len : ℕ
nic_name_len = 10

abbrev pub addr_len : ℕ
addr_len = 18

-- `dhmp_net_info`, `dhmp_simu_info` and `dhmp_mem_info`; a string without its terminating zero.
pub record NetInfo : Type 0 where
  pub nic_name : List ℕ
  pub addr : List ℕ
  pub port : ℕ

pub record SimuInfo : Type 0 where
  pub rdelay : ℕ
  pub wdelay : ℕ
  pub knum : ℕ

pub record MemInfo : Type 0 where
  pub dram_node : ℕ
  pub nvm_node : ℕ

-- `dhmp_config`, and `global_log_level`; `curnet_id` is `none` for -1.
pub record Config : Type 0 where
  pub net_infos : List NetInfo
  pub simu_infos : List SimuInfo
  pub mem_infos : List MemInfo
  pub curnet_id : Option ℕ
  pub nets_cnt : ℕ
  pub watcher_addr : List ℕ
  pub watcher_port : ℕ
  pub log_level : ℕ

-- A child's text, with its value as a number.
pub record Text : Type 0 where
  pub chars : List ℕ
  pub number : ℕ

-- A child of an element, by its name.
pub data Field : Type 0 where
  nic_name addr port rdelay wdelay knum dram_node nvm_node log_level other : Option Text → Field

-- An element below the root, by its name.
pub data Element : Type 0 where
  watcher client server unknown : List Field → Element

-- The slot `i` of an array changed; past its end it is no slot.
unfoldable pub change : {A : Type 0} → (A → A) → List A → ℕ → Option (List A)
change f xs i = get_elem? xs i >>= λ a. some (set xs i (f a))

-- A string copied into a field of so many bytes.
unfoldable pub fitting : ℕ → Option Text → Option (List ℕ)
fitting len text = text >>= λ (t : Text). if ltb (length t.chars) len then some t.chars else none

unfoldable pub number_in : Option Text → Option ℕ
number_in text = text >>= λ (t : Text). some t.number

unfoldable pub change_net : (NetInfo → NetInfo) → Config → ℕ → Option Config
change_net f c index =
    change f c.net_infos index >>= λ (infos : List NetInfo). some (record c { net_infos = infos })

unfoldable pub change_simu : (SimuInfo → SimuInfo) → Config → ℕ → Option Config
change_simu f c index = change f c.simu_infos index >>= λ (infos : List SimuInfo).
    some (record c { simu_infos = infos })

unfoldable pub change_mem : (MemInfo → MemInfo) → Config → ℕ → Option Config
change_mem f c index =
    change f c.mem_infos index >>= λ (infos : List MemInfo). some (record c { mem_infos = infos })

-- One round of the loop of `dhmp_parse_server_node`.
unfoldable pub parse_server_field : ℕ → Config → Field → Option Config
parse_server_field index c (nic_name t) =
    fitting nic_name_len t >>= λ (s : List ℕ). change_net (λ n. record n { nic_name = s }) c index
parse_server_field index c (addr t) =
    fitting addr_len t >>= λ (s : List ℕ). change_net (λ n. record n { addr = s }) c index
parse_server_field index c (port t) =
    number_in t >>= λ (k : ℕ). change_net (λ n. record n { port = k }) c index
parse_server_field index c (rdelay t) =
    number_in t >>= λ (k : ℕ). change_simu (λ n. record n { rdelay = k }) c index
parse_server_field index c (wdelay t) =
    number_in t >>= λ (k : ℕ). change_simu (λ n. record n { wdelay = k }) c index
parse_server_field index c (knum t) =
    number_in t >>= λ (k : ℕ). change_simu (λ n. record n { knum = k }) c index
parse_server_field index c (dram_node t) =
    number_in t >>= λ (k : ℕ). change_mem (λ n. record n { dram_node = k }) c index
parse_server_field index c (nvm_node t) =
    number_in t >>= λ (k : ℕ). change_mem (λ n. record n { nvm_node = k }) c index
parse_server_field index c _ = some c

-- One round of the loop of `dhmp_parse_watcher_node`.
unfoldable pub parse_watcher_field : Config → Field → Option Config
parse_watcher_field c (addr t) =
    fitting addr_len t >>= λ (s : List ℕ). some (record c { watcher_addr = s })
parse_watcher_field c (port t) = number_in t >>= λ (k : ℕ). some (record c { watcher_port = k })
parse_watcher_field c _ = some c

-- One round of the loop of `dhmp_parse_client_node`.
unfoldable pub parse_client_field : Config → Field → Option Config
parse_client_field c (log_level t) = number_in t >>= λ (k : ℕ). some (record c { log_level = k })
parse_client_field c _ = some c

-- The loop over the children, by what a round does.
unfoldable pub parse_fields : (Config → Field → Option Config) → Config → List Field → Option Config
parse_fields parse c [] = some c
parse_fields parse c (f ∷ fs) = parse c f >>= λ (d : Config). parse_fields parse d fs

-- The loop of `dhmp_config_init` over the elements; `index` and `nets_cnt` count the servers.
unfoldable pub parse_elements : Config → ℕ → List Element → Option Config
parse_elements c index [] = some c
parse_elements c index (watcher fs ∷ es) =
    parse_fields parse_watcher_field c fs >>= λ (d : Config). parse_elements d index es
parse_elements c index (client fs ∷ es) =
    parse_fields parse_client_field c fs >>= λ (d : Config). parse_elements d index es
parse_elements c index (server fs ∷ es) =
    parse_fields (parse_server_field index) c fs >>= λ (d : Config).
    parse_elements (record d { nets_cnt = d.nets_cnt + 1 }) (index + 1) es
parse_elements c index (unknown fs ∷ es) = parse_elements c index es

-- `dhmp_config_init` as far as the parsing goes, of a file whose root is as it should be, with
-- `dhmp_print_config`, which reads the slots of all the servers.
unfoldable pub dhmp_config_parse : Config → List Element → Option Config
dhmp_config_parse c es =
    parse_elements (record c { nets_cnt = 0; curnet_id = none }) 0 es >>= λ (d : Config).
    if ltb server_node_num d.nets_cnt then none else some d
