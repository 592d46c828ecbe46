-- ===== src/Buffers/Initial.antt =====
-- src/log_buffer.c: the link between two nodes that have returned from `buff_init`.
use rdma_middleware.Prelude.{
  ℕ, ◌+◌, ◌≡◌, refl, Bool, true, ◌||◌, Option, some, none, List, [], arith, ◌==◌, replicate,
  if◌then◌else◌, if-holds,
}
use rdma_middleware.Prelude.Results.{◌>>=◌, Returns, bind-Returns, always, Returns-some}
use rdma_middleware.Queue.{init_queue}
use rdma_middleware.Queue.Idle.{IsIdle, init_queue-IsIdle}
use rdma_middleware.Log.Marks.{IsClear, create_hash_map-IsClear}
use rdma_middleware.HashMap.{HashMap, create_hash_map}
use rdma_middleware.Log.Geometry.{total_size}
use rdma_middleware.Log.Reader.{NodeClass, head, normal, tail, Ptr}
use rdma_middleware.Log.Writer.{Link, LocalRingbuff, Outgoing}
use rdma_middleware.Log.Reserve.{IsLink}
use rdma_middleware.Log.System.{System}
use rdma_middleware.Log.Reachable.{IsSound}
use rdma_middleware.Client.Works.{Client}
use rdma_middleware.Connection.Resources.{dhmp_memory_register}
use rdma_middleware.Buffers.Start.{set_up, link_to}
use rdma_middleware.Buffers.{
  Thread, started_threads, Answer, dhmp_buff_malloc, RemoteRingbuff, Buffers, buff_init, empty_ring,
  queue_size, Outcomes, Receiving, nothing_held, dhmp_malloc_buff_request_handler,
}

abbrev pub cleared : LocalRingbuff
cleared = empty_ring (replicate total_size 0)

-- The link to it as `buff_init` makes it.
abbrev pub new_link : Bool → Link
new_link up = record {
  rb = record { wr_pointer = 0; rd_pointer = 0; size = total_size };
  peer = cleared;
  connected = up;
}

pub new_link-IsLink : (up : Bool) → IsLink (new_link up)
new_link-IsLink up = record {
  sized = record { log = 6; small = omega arith; is_pow = refl };
  wide = refl;
  wr_in = omega arith;
  rd_in = omega arith;
  agreed = (refl, refl);
}

pub granted_ring :
    (o : Outcomes) (held : Receiving) (ring : LocalRingbuff)
    → dhmp_malloc_buff_request_handler o nothing_held ≡ some (held, true)
    → held.ring ≡ some ring
    → ring ≡ cleared
unfolding dhmp_malloc_buff_request_handler dhmp_memory_register
granted_ring o held ring grant is_ring = ground arith

-- What `buff_init` leaves whenever it returns.
pub record AtStart {A : Type 0} (b : Buffers A) : Type 0 where
  pub pending : IsIdle b.pending
  pub executing : IsIdle b.executing
  pub sending : IsIdle b.sending
  pub dirty : IsIdle b.dirty
  pub remote :
      (l : RemoteRingbuff)
      → b.remote_buff ≡ some l
      → l.rb ≡ record { wr_pointer = 0; rd_pointer = 0; size = total_size }
  pub map : (m : HashMap Ptr ℕ) → b.dirty_map ≡ some m → IsClear m

module _ {A : Type 0} (slot : A) (junk id : ℕ) (c : Client) (answer : Option Answer) where
  queue_idle : IsIdle (init_queue slot queue_size)
  queue_idle = init_queue-IsIdle slot queue_size (omega arith)

  new_map : IsClear (create_hash_map Ptr ℕ (some 1024))
  new_map = create_hash_map-IsClear 1024 (omega arith) (omega arith)

  is_new : (m : HashMap Ptr ℕ) → some (create_hash_map Ptr ℕ (some 1024)) ≡ some m → IsClear m
  is_new m e = let same : m ≡ create_hash_map Ptr ℕ (some 1024) = cc in rw same new_map

  set_up-AtStart :
      (map : Option (HashMap Ptr ℕ)) (threads : List Thread) (next mate ring : ℕ)
      → ((m : HashMap Ptr ℕ) → map ≡ some m → IsClear m)
      → AtStart (set_up slot map threads (link_to next mate ring))
  set_up-AtStart map threads next mate ring clear = record {
    pending = queue_idle;
    executing = queue_idle;
    sending = queue_idle;
    dirty = queue_idle;
    remote = λ l e. ground arith;
    map = clear;
  }

  connected :
      (map : Option (HashMap Ptr ℕ)) (threads : List Thread)
      → ((m : HashMap Ptr ℕ) → map ≡ some m → IsClear m)
      → Returns
          (λ (r : Client × Buffers A). AtStart r.1)
          (dhmp_buff_malloc junk c (id + 1) (0, 0) answer >>= λ (t : Client × ℕ × ℕ).
            if (t.1 == 0) || (t.2 == 0)
            then none
            else some (t.0, set_up slot map threads (link_to (id + 1) t.1 t.2)))
  connected map threads clear =
      let P = λ (r : Client × Buffers A). AtStart r.1 in
      bind-Returns (λ _. Unit {0}) P (dhmp_buff_malloc junk c (id + 1) (0, 0) answer) _ (always _)
        (λ t _.
          if-holds (Returns P) ((t.1 == 0) || (t.2 == 0)) _ _ (λ refused. record {})
            (λ given. set_up-AtStart map threads (id + 1) t.1 t.2 clear))

  pub buff_init-AtStart :
      (class : NodeClass)
      → Returns (λ (r : Client × Buffers A). AtStart r.1) (buff_init slot junk class id c answer)
  unfolding buff_init
  buff_init-AtStart tail = record {
    pending = queue_idle;
    executing = queue_idle;
    sending = queue_idle;
    dirty = queue_idle;
    remote = λ l e. absurd cc;
    map = is_new;
  }
  buff_init-AtStart head = connected none (started_threads head) (λ m e. absurd cc)
  buff_init-AtStart normal =
      connected (some (create_hash_map Ptr ℕ (some 1024))) (started_threads normal) is_new

-- Two nodes after `buff_init`: the writing one `b`, with its view `l` of the ring that the reading one
-- `q` has granted.
abbrev pub both_started :
    RemoteRingbuff
    → Buffers Outgoing
    → Buffers ℕ
    → Bool
    → HashMap Ptr ℕ
    → LocalRingbuff
    → NodeClass
    → System
both_started l b q up map ring class = record {
  sender = record { link = record { rb = l.rb; peer = ring; connected = up }; sending = b.sending };
  receiver = record {
    ring = ring;
    blocks = [];
    logs = [];
    pending = q.pending;
    executing = q.executing;
    sending = q.sending;
    dirty = q.dirty;
    dirty_map = map;
    node_class = class;
  };
}

-- When the reading node has granted its ring and both nodes have returned from `buff_init`, the
-- writing one being no tail node, the two are connected by a link whose ends agree and all queues
-- are well formed.
buff_init-IsSound :
    (slot : Outgoing) (slot' junk id id' : ℕ) (class class' : NodeClass) (c c' d d' : Client)
    (answer answer' : Option Answer) (b : Buffers Outgoing) (q : Buffers ℕ) (l : RemoteRingbuff)
    (map : HashMap Ptr ℕ) (up : Bool) (o : Outcomes) (held : Receiving) (ring : LocalRingbuff)
    → buff_init slot junk class id c answer ≡ some (d, b)
    → b.remote_buff ≡ some l
    → buff_init slot' junk class' id' c' answer' ≡ some (d', q)
    → dhmp_malloc_buff_request_handler o nothing_held ≡ some (held, true)
    → held.ring ≡ some ring
    → IsSound (both_started l b q up map ring class')
buff_init-IsSound slot slot' junk id id' class class' c c' d d' answer answer' b q l map up o held
      ring run has run' grant is_ring =
    let start : AtStart b =
      Returns-some _ _ (d, b) run (buff_init-AtStart slot junk id c answer class) in
    let start' : AtStart q =
      Returns-some _ _ (d', q) run' (buff_init-AtStart slot' junk id' c' answer' class') in
    let ring_is : ring ≡ cleared = granted_ring o held ring grant is_ring in
    let view = start.remote l has in
    rw (ring_is, view)
      (record {
        link = new_link-IsLink up;
        shared = refl;
        to_send = start.sending.valid;
        pending = start'.pending.valid;
        executing = start'.executing.valid;
        sending = start'.sending.valid;
        dirty = start'.dirty.valid;
      })
