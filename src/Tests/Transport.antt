-- ===== src/Tests/Transport.antt =====
-- The shared-memory transport at concrete states.
use native.Mathlib.Nat.{mod_self}
use gbx.Prelude.{
  ℕ, ◌+◌, ◌*◌, ◌%◌, ◌≤◌, ◌<◌, ◌≡◌, ◌⊎◌, refl, sym, ap, ◌∙◌, arith, ◌==◌, if◌then◌else◌,
}
use gbx.Prelude.{Option, true, none, some, List, [], ◌∷◌}
use gbx.Transport.Region.{
  Platform, SharedRegion, TransportResult, new_aligned, allocate_backing, mmap_backing,
  is_power_below,
}
use gbx.Transport.Region.Bounds.{HeapAligns}
use gbx.Transport.IndexRing
use gbx.Transport.IndexRing.{IndexRing, fill_sequential, fill_loop, push, pop}
use gbx.Transport.SlotPool
use gbx.Transport.SlotPool.{
  SlotPool, SlotPoolConfig, SlotPush, SlotPop, slot_mut, try_acquire_free, push_ready, pop_ready,
  release_free, free_len, ready_len,
}
use gbx.Transport.SlotPool.Config.{HasLayout, slot_mut_lem}
use gbx.Transport.SlotPool.Lifecycle.{System, Reach, here, next, acquire, publish, receive}
use gbx.Transport.SlotPool.Lifecycle.Counts.{count}
use gbx.Transport.SlotPool.Lifecycle.Ownership.{
  start, slots_exclusive, held_publishes, IsUnheld, popped,
}
use gbx.Transport.MsgRing
use gbx.Transport.MsgRing.{MsgRing, Envelope, Record}
use gbx.Transport.MsgRing.Layout.{span}
use gbx.Transport.MsgRing.Reserve.{in_use}
use gbx.Transport.MsgRing.Window.{Holds}
use gbx.Transport.Mailbox
use gbx.Transport.Mailbox.{Mailbox, MailboxSend, take_latest, pack_envelope, unpack_envelope}
use gbx.Transport.Mailbox.Latest
use gbx.Transport.Mailbox.Latest.{unpack_envelope-pack_envelope, try_send-Holds, take_latest-Holds}
use gbx.Transport.Port.{
  lossless, best_effort, coalesce, PortClass, SubmitOutcome, FabricResult, no_metrics,
  count_outcome,
}
use gbx.Transport.Port
use gbx.Transport.Port.Fifo.{ring_port, refusal, try_send-ring}
use gbx.Transport.Port.History.{Call, send, drain, History, Fifo, run, run_in_order, new-Holds}
use gbx.Transport.Port.History

-- Every mapping succeeds at a page, and every heap block starts at its alignment.
abbrev pub platform : Platform
platform = record {
  map_anon = λ _. some 8192;
  valid_layout = λ _ _. true;
  alloc = λ _ alignment. some alignment;
}

pub platform_aligns : HeapAligns platform
platform_aligns len alignment base h =
    let same : alignment ≡ base = ground arith in
    ap (λ (k : ℕ). k % alignment) (sym same) ∙ mod_self alignment

abbrev region : SharedRegion
region = record { len = 100; alignment = 64; base = 8192 }

abbrev config : SlotPoolConfig
config = record { slot_count = 2; slot_size = 64 }

abbrev ring_region : SharedRegion
ring_region = record { len = 40; alignment = 8; base = 8192 }

abbrev ready_ring : IndexRing
ready_ring = record { region = ring_region; capacity = 2; head = 0; tail = 0; entries = λ _. 0 }

abbrev pool : SlotPool
pool = record {
  slots = record { len = 128; alignment = 4096; base = 8192 };
  free_ring = fill_sequential ready_ring;
  ready_ring = ready_ring;
  slot_size = 64;
  slot_count = 2;
}

created : SlotPool.new (λ _. platform) config ≡ TransportResult.ok pool
unfolding SlotPool.new IndexRing.new new_aligned allocate_backing mmap_backing is_power_below
created = refl

-- The writer has acquired the first slot.
abbrev system : System
system = record { pool = (try_acquire_free pool).1; writing = 0 ∷ []; reading = [] }

acquired : try_acquire_free pool ≡ (some 0, system.pool)
unfolding try_acquire_free pop fill_sequential fill_loop
acquired = refl

reached : Reach (start pool) system
reached = next here (acquire (start pool) 0 system.pool acquired)

slots_exclusive_example :
    (count 1 (0 ∷ []) + count 1 [] ≤ 1)
    × IsUnheld 2 system (try_acquire_free system.pool).0
    × IsUnheld 2 system (popped (pop_ready system.pool).0)
slots_exclusive_example =
    slots_exclusive (λ _. platform) config pool system platform_aligns (omega arith) (omega arith)
      created reached 1

held_publishes_example : (p : SlotPool) × (push_ready system.pool 0 ≡ some (SlotPush.ok, p))
held_publishes_example =
    held_publishes (λ _. platform) config pool system platform_aligns (omega arith) (omega arith)
      created reached [] 0 [] refl

abbrev pushed : Option (SlotPush × SlotPool) → SlotPool
pushed none = pool
pushed (some (_, p)) = p

-- The slot is published, then received by the reader.
abbrev sent_system : System
sent_system = record { pool = pushed (push_ready system.pool 0); writing = []; reading = [] }

abbrev received_system : System
received_system = record { pool = (pop_ready sent_system.pool).1; writing = []; reading = 0 ∷ [] }

published : push_ready system.pool 0 ≡ some (SlotPush.ok, sent_system.pool)
unfolding push_ready push try_acquire_free pop fill_sequential fill_loop
published = refl

received : pop_ready sent_system.pool ≡ (SlotPop.ok 0, received_system.pool)
unfolding pop_ready push_ready push try_acquire_free pop fill_sequential fill_loop
received = refl

received_reached : Reach (start pool) received_system
received_reached =
    next (next reached (publish system [] 0 [] sent_system.pool refl published))
      (receive sent_system 0 received_system.pool received)

pool-HasLayout : HasLayout pool
pool-HasLayout = record { some_bytes = omega arith; whole_lines = refl; length = refl; page = refl }

slot_mut_lem_example :
    (slot_mut pool 0 ≡ some (0, 64))
    × (slot_mut pool 1 ≡ some (64, 128))
    × (8192 % 64 ≡ 0)
    × ((8192 + 64) % 64 ≡ 0)
    × (64 ≤ 64)
    × (64 + 64 ≤ 128)
    × (slot_mut pool 2 ≡ none)
slot_mut_lem_example =
    slot_mut_lem pool 0 1 2 pool-HasLayout (omega arith) (omega arith) (omega arith)

abbrev pub env : Envelope
env = record { tag = 7; ver = 1; flags = 0 }

abbrev hello : Record
hello = record { envelope = env; payload = 104 ∷ 105 ∷ [] }

abbrev pub ring : MsgRing
ring = record {
  capacity = 64;
  head = 0;
  tail = 0;
  bytes = λ _. 0;
  default_envelope = env;
  consumer_meta = none;
}

ring_created : MsgRing.new platform 64 env ≡ TransportResult.ok ring
unfolding MsgRing.new new_aligned allocate_backing mmap_backing is_power_below
ring_created = refl

abbrev calls : List Call
calls = send hello ∷ send hello ∷ drain 1 ∷ []

run_in_order_example :
    (end : History) × (run calls (History.start lossless ring) ≡ FabricResult.ok end)
    × Fifo lossless end
run_in_order_example =
    run_in_order platform 64 env ring lossless calls ring_created (λ e. cc) (omega arith)

pub ring-Holds : Holds ring []
ring-Holds = (new-Holds platform 64 env ring ring_created).0

try_send-ring_example :
    ((q : MsgRing) × (Port.try_send (ring_port best_effort ring no_metrics) env (104 ∷ 105 ∷ [])
        ≡ FabricResult.ok (
          SubmitOutcome.accepted,
          ring_port best_effort q (count_outcome no_metrics SubmitOutcome.accepted),
        ))
      × Holds q (hello ∷ []))
    ⊎ ((Port.try_send (ring_port best_effort ring no_metrics) env (104 ∷ 105 ∷ [])
          ≡ FabricResult.ok (
            refusal best_effort,
            ring_port best_effort ring (count_outcome no_metrics (refusal best_effort)),
          ))
        × (64 < in_use ring + 2 * span hello))
try_send-ring_example =
    try_send-ring best_effort (λ e. cc) no_metrics ring [] hello ring-Holds (omega arith)

abbrev pub slot : Mailbox
slot = record {
  payload_capacity = 8;
  write_seq = 4294967295;
  read_seq = 4294967294;
  payload_len = 1;
  envelope_packed = pack_envelope env;
  bytes = λ _. 9;
  default_envelope = env;
}

abbrev nine : Record
nine = record { envelope = env; payload = 9 ∷ [] }

env-IsEnvelope : Latest.IsEnvelope env
env-IsEnvelope = record { tag = omega arith; ver = omega arith; flags = omega arith }

slot-Holds : Latest.Holds slot 1 nine
unfolding MsgRing.slice
slot-Holds = record {
  few = omega arith;
  read_in = omega arith;
  seq = refl;
  latest = (refl, unpack_envelope-pack_envelope env env-IsEnvelope);
}

-- The write sequence wraps to 0.
try_send-Holds_example :
    (q : Mailbox) × (Mailbox.try_send slot (104 ∷ 105 ∷ []) (some env)
      ≡ TransportResult.ok (if 1 == 0 then MailboxSend.accepted else MailboxSend.coalesced, q))
    × Latest.Holds q 2 hello
try_send-Holds_example =
    try_send-Holds slot 1 nine hello slot-Holds (omega arith) env-IsEnvelope (omega arith)
      (omega arith)
