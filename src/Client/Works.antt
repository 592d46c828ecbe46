-- ===== src/Client/Works.antt =====
-- src/mid_client_work.c, src/mid_rdma_top_api.c, src/mid_rdma_utils.c, src/mid_rdma_recv_handler.c,
-- src/mid_rdma_transport.c: the client's calls and the handlers of its work thread, which runs one
-- work at a time. The caller waits until its work is done, so a call is its checks and then the
-- handler. `none` is a call that never returns, or undefined behaviour.
use rdma_middleware.Prelude.{
  ℕ, ◌+◌, ◌*◌, ◌%◌, ◌^◌, Bool, true, false, Option, some, none, List, [], ◌∷◌, if◌then◌else◌, ◌==◌,
  ◌&&◌, leb, length, get_elem?, take,
}
use rdma_middleware.Prelude.Memory.{write_at}
use rdma_middleware.HashMap.{◌>>=◌}
use rdma_middleware.Client.Addresses.{
  word, shifted, dhmp_get_node_index_from_addr, dhmp_transfer_normal_addr, dhmp_transfer_dhmp_addr,
  dhmp_hash_in_client,
}
use rdma_middleware.Client.Table.{
  AddrInfo, find_addr, modify_addr, remove_addr, Table, set_bucket, Remote, remote_write,
  remote_read,
}

-- What a one-sided request comes to: its completion arrives without an error, it returns -1, or the call
-- does not come back, since it ends the process or waits for a completion that never comes.
pub data Request : Type 0 where
  completes refused hangs : Request

-- `struct dhmp_client`, and what it sees of the connections and the servers: `connected` tells that a
-- connection's state is CONNECTED, `rdma` what a request over a connection for an address and a length
-- comes to, and `answers` whether a message that the posted receives can hold is received and answered.
pub record Client : Type 0 where
  pub connect_trans : List (Option ℕ)
  pub connected : ℕ → Bool
  pub rdma : ℕ → ℕ → ℕ → Request
  pub answers : ℕ → Bool
  pub table : Table
  pub remote : Remote

unfoldable pub dhmp_get_addr_info_from_ht : Client → ℕ → ℕ → Option AddrInfo
dhmp_get_addr_info_from_ht c index dhmp_addr =
    find_addr (c.table index) (dhmp_transfer_normal_addr dhmp_addr)

unfoldable pub dhmp_addr_info_insert_ht : Client → ℕ → AddrInfo → Client
dhmp_addr_info_insert_ht c dhmp_addr info =
    let index = dhmp_hash_in_client dhmp_addr in
    record c { table = set_bucket c.table index (info ∷ c.table index) }

-- An assignment through the entry that `dhmp_get_addr_info_from_ht` returned.
unfoldable pub update_info : (AddrInfo → AddrInfo) → Client → ℕ → Client
update_info f c dhmp_addr =
    let index = dhmp_hash_in_client dhmp_addr in
    let chain = modify_addr f (c.table index) (dhmp_transfer_normal_addr dhmp_addr) in
    record c { table = set_bucket c.table index chain }

-- The counters are `int`s.
abbrev pub bump_read : AddrInfo → AddrInfo
bump_read i = record i { read_cnt = (i.read_cnt + 1) % 2 ^ 32 }

abbrev pub bump_write : AddrInfo → AddrInfo
bump_write i = record i { write_cnt = (i.write_cnt + 1) % 2 ^ 32 }

abbrev pub set_flag : Bool → AddrInfo → AddrInfo
set_flag b i = record i { write_flag = b }

-- `dhmp_node_select_by_id`: `none` past the slots, `some none` for NULL.
unfoldable pub dhmp_node_select_by_id : Client → ℕ → Option (Option ℕ)
dhmp_node_select_by_id c node_id = get_elem? c.connect_trans node_id >>= λ (slot : Option ℕ).
    some (elim slot [ none ↦ none | some t ↦ if c.connected t then some t else none ])

-- `dhmp_get_trans_from_addr`, with the callers' test of the connection.
unfoldable pub dhmp_get_trans_from_addr : Client → ℕ → Option (Option ℕ)
dhmp_get_trans_from_addr c dhmp_addr = dhmp_node_select_by_id c (shifted dhmp_addr)

-- `dhmp_malloc_work_handler` with the handlers of the request and the response. `allocated` is the
-- address of the block that the server allocates and registers, `none` if it cannot: it answers with
-- an error, which the client ignores. Without an answer, or with one of length 0, the wait never ends.
unfoldable pub dhmp_malloc_work_handler : Client → ℕ → ℕ → Option ℕ → Option (Client × ℕ)
dhmp_malloc_work_handler c trans len none = none
dhmp_malloc_work_handler c trans len (some addr) =
    let res_addr = dhmp_transfer_dhmp_addr c.connect_trans trans addr in
    let info : AddrInfo = record {
      read_cnt = 0;
      write_cnt = 0;
      node_index = dhmp_get_node_index_from_addr res_addr;
      write_flag = false;
      nvm_addr = addr;
      nvm_length = len;
    } in
    if c.connected trans
    then (if len == 0
        then none
        else if addr == 0
        then some (c, 0)
        else some (dhmp_addr_info_insert_ht c res_addr info, res_addr))
    else none

-- `dhmp_malloc`; 0 is NULL.
unfoldable pub dhmp_malloc : Client → ℕ → ℕ → Option ℕ → Option (Client × ℕ)
dhmp_malloc c len node_id allocated =
    if len == 0
    then some (c, 0)
    else (dhmp_node_select_by_id c node_id >>= λ (selected : Option ℕ). elim selected [
      | none ↦ some (c, 0)
      | some trans ↦ dhmp_malloc_work_handler c trans len allocated
    ])

-- A `size_t` as the `int` that `dhmp_rdma_read` and `dhmp_rdma_write` take, and the 32 bits of a request's
-- length.
abbrev pub request_length : ℕ → ℕ
request_length len = len % 2 ^ 32

-- `dhmp_read_work_handler`, with the caller's buffer before and after. An address that is not in the
-- table, or a request that is refused, leaves the buffer as it was.
unfoldable pub dhmp_read_work_handler : Client → ℕ → ℕ → List ℕ → ℕ → ℕ → Option (Client × List ℕ)
dhmp_read_work_handler c trans dhmp_addr local len offset =
    elim (dhmp_get_addr_info_from_ht c (dhmp_hash_in_client dhmp_addr) dhmp_addr) [
      | none ↦ some (c, local)
      | some info ↦
          let at = (info.nvm_addr + offset) % word in
          let bumped = update_info bump_read c dhmp_addr in
          let n = request_length len in
          let read : Option (Client × List ℕ) = elim (c.rdma trans at n) [
            | completes ↦ some (bumped, write_at local 0 (remote_read c.remote trans at n))
            | refused ↦ some (bumped, local)
            | hangs ↦ none
          ] in
          if info.write_flag then none else read
    ]

-- `dhmp_write_work_handler`. The handler of the completion resets the flag; after a request that is
-- refused it stays.
unfoldable pub dhmp_write_work_handler : Client → ℕ → ℕ → List ℕ → ℕ → Option Client
dhmp_write_work_handler c trans dhmp_addr bytes offset =
    elim (dhmp_get_addr_info_from_ht c (dhmp_hash_in_client dhmp_addr) dhmp_addr) [
      | none ↦ some c
      | some info ↦
          let at = (info.nvm_addr + offset) % word in
          let n = request_length (length bytes) in
          let marked = update_info (λ i. bump_write (set_flag true i)) c dhmp_addr in
          let written = record marked { remote = remote_write c.remote trans at (take n bytes) } in
          let sent : Option Client = elim (c.rdma trans at n) [
            | completes ↦ some (update_info (set_flag false) written dhmp_addr)
            | refused ↦ some marked
            | hangs ↦ none
          ] in
          if info.write_flag then none else sent
    ]

-- `dhmp_send_request_handler` at the server: the payload copied to the block, or a copy of the block
-- for the response.
unfoldable pub dhmp_send_request_handler : Remote → ℕ → ℕ → Bool → ℕ → List ℕ → Remote × List ℕ
dhmp_send_request_handler remote trans server_addr is_write len payload =
    if is_write
    then (remote_write remote trans server_addr payload, [])
    else (remote, remote_read remote trans server_addr len)

-- `dhmp_send_response_handler` at the client: what the caller's buffer holds afterwards.
unfoldable pub dhmp_send_response_handler : Bool → List ℕ → List ℕ → List ℕ
dhmp_send_response_handler is_write local payload =
    if is_write then local else write_at local 0 payload

-- The bytes of a message of a send before its payload: the type, the size, and `dhmp_send_request`.
abbrev pub send_head : ℕ
send_head = 4 + 8 + 40

-- The length of a posted receive.
abbrev pub receive_length : ℕ
receive_length = 64 * 1024

-- `dhmp_send_work_handler` and `dhmp_rdma_send`. A message that is longer than a posted receive fails, and
-- the wait for its answer does not end; the one with the payload is the request or the answer. An address
-- that is not in the table goes to code that dereferences NULL.
unfoldable pub dhmp_send_work_handler :
    Client → ℕ → ℕ → List ℕ → ℕ → Bool → Option (Client × List ℕ)
dhmp_send_work_handler c trans dhmp_addr local len is_write =
    elim (dhmp_get_addr_info_from_ht c (dhmp_hash_in_client dhmp_addr) dhmp_addr) [
      | none ↦ none
      | some info ↦
          let count = λ (i : AddrInfo). (if is_write then bump_write i else bump_read i) in
          let marked = update_info (λ i. count (set_flag true i)) c dhmp_addr in
          let (remote, payload) =
            dhmp_send_request_handler c.remote trans (info.nvm_addr) is_write len
              (if is_write then take len local else []) in
          let answered = record marked { remote = remote } in
          if info.write_flag
          then none
          else if leb (send_head + len) receive_length && (c.connected trans && c.answers trans)
          then some (
            update_info (set_flag false) answered dhmp_addr,
            dhmp_send_response_handler is_write local payload,
          )
          else none
    ]

-- `dhmp_read`, `dhmp_write` and `dhmp_send`, with the result: true is the return value 0, false -1.
unfoldable pub dhmp_read : Client → ℕ → List ℕ → ℕ → ℕ → Option (Client × List ℕ × Bool)
dhmp_read c dhmp_addr local len offset =
    dhmp_get_trans_from_addr c dhmp_addr >>= λ (found : Option ℕ). elim found [
      | none ↦ some (c, local, false)
      | some trans ↦
          dhmp_read_work_handler c trans dhmp_addr local len offset >>= λ (r : Client × List ℕ).
          some (r.0, r.1, true)
    ]

unfoldable pub dhmp_write : Client → ℕ → List ℕ → ℕ → Option (Client × Bool)
dhmp_write c dhmp_addr bytes offset = dhmp_get_trans_from_addr c dhmp_addr >>= λ (found : Option ℕ).
    elim found [
      | none ↦ some (c, false)
      | some trans ↦
          dhmp_write_work_handler c trans dhmp_addr bytes offset >>= λ (r : Client). some (r, true)
    ]

unfoldable pub dhmp_send : Client → ℕ → List ℕ → ℕ → Bool → Option (Client × List ℕ × Bool)
dhmp_send c dhmp_addr local len is_write =
    dhmp_get_trans_from_addr c dhmp_addr >>= λ (found : Option ℕ). elim found [
      | none ↦ some (c, local, false)
      | some trans ↦
          dhmp_send_work_handler c trans dhmp_addr local len is_write >>= λ (r : Client × List ℕ).
          some (r.0, r.1, true)
    ]

-- `dhmp_free_work_handler`. The server's handler of the request is empty, so the wait for its answer
-- ends only if an answer comes from elsewhere: `answered`.
unfoldable pub dhmp_free_work_handler : Client → ℕ → Bool → Option Client
dhmp_free_work_handler c dhmp_addr answered =
    let index = dhmp_hash_in_client dhmp_addr in
    let chain = remove_addr (c.table index) (dhmp_transfer_normal_addr dhmp_addr) in
    elim (dhmp_get_addr_info_from_ht c index dhmp_addr) [
      | none ↦ some c
      | some info ↦
          if answered then some (record c { table = set_bucket c.table index chain }) else none
    ]
