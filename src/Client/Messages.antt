-- ===== src/Client/Messages.antt =====
-- src/mid_client_work.c, src/mid_rdma_recv_handler.c: a write by message does what a write by RDMA does.
use rdma_middleware.Prelude.{
  ℕ, ◌+◌, ◌%◌, ◌≤◌, ◌<◌, leb, ◌≡◌, refl, ap, ◌∙◌, arith, true, false, some, List, length,
}
use rdma_middleware.Client.Addresses.{word}
use rdma_middleware.Client.Table.{AddrInfo}
use rdma_middleware.Client.Works.{
  Client, update_info, set_flag, dhmp_get_trans_from_addr, dhmp_send_request_handler,
  dhmp_send_response_handler, dhmp_send_work_handler, dhmp_write, dhmp_send, send_head,
  receive_length,
}
use rdma_middleware.Client.Idle.{IsIdleClient, lookup-idle, write_found, posted, take-length}
use rdma_middleware.Client.Access.{entry_of, dhmp_write_live, Carries}

module _ (c : Client) (trans addr : ℕ) (idle : IsIdleClient c) where
  sent_write :
      (info : AddrInfo) (bytes : List ℕ)
      → entry_of c addr ≡ some info
      → c.connected trans ≡ true
      → c.answers trans ≡ true
      → send_head + length bytes ≤ receive_length
      → dhmp_send_work_handler c trans addr bytes (length bytes) true
        ≡ some (update_info (set_flag false) (posted c trans addr bytes info.nvm_addr) addr, bytes)
  unfolding dhmp_send_work_handler dhmp_send_request_handler dhmp_send_response_handler update_info
  sent_write info bytes e up heard fits =
      let held : leb (send_head + length bytes) receive_length ≡ true = ground arith in
      rw
        (
          dhmp_send_work_handler,
          e,
          lookup-idle c addr info idle e,
          held,
          up,
          heard,
          dhmp_send_request_handler,
          take-length bytes,
        )
        refl

  -- On an idle client, for an address of its table over a live connection on which the requests inside the
  -- block complete and messages are answered, and for bytes that fit in the block and, behind the head of
  -- their message, in a receive of 64 KiB: `dhmp_send` of a write and `dhmp_write` at offset 0 both
  -- succeed, and leave the same table and the same servers' memory; the sender's buffer stays as it was.
  pub dhmp_send-dhmp_write :
      (info : AddrInfo) (bytes : List ℕ)
      → entry_of c addr ≡ some info
      → info.nvm_addr < word
      → dhmp_get_trans_from_addr c addr ≡ some (some trans)
      → c.connected trans ≡ true
      → c.answers trans ≡ true
      → Carries c trans info
      → length bytes ≤ info.nvm_length
      → send_head + length bytes ≤ receive_length
      → (r : Client) × (dhmp_write c addr bytes 0 ≡ some (r, true))
        × (dhmp_send c addr bytes (length bytes) true ≡ some (r, bytes, true))
  unfolding dhmp_send
  dhmp_send-dhmp_write info bytes e small live up heard carries inside fits =
      let runs = carries 0 (length bytes) (omega (arith, fits)) (omega (arith, inside)) in
      let at : (info.nvm_addr + 0) % word ≡ info.nvm_addr = omega arith in
      let done = λ (a : ℕ). update_info (set_flag false) (posted c trans addr bytes a) addr in
      (
        done info.nvm_addr,
        dhmp_write_live c trans addr bytes 0 _ live (
            write_found c trans addr bytes 0 info idle e (omega (arith, fits)) runs
            ∙ ap (λ a. some (done a)) at),
        rw (dhmp_send, live, sent_write info bytes e up heard fits) refl,
      )
