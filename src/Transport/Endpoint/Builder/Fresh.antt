-- ===== src/Transport/Endpoint/Builder/Fresh.antt =====
-- The ports of a service as `build_service` leaves them (builder.rs).
use gbx.Prelude.{ℕ, ◌+◌, ◌≤◌, ◌≡◌, ◌≢◌, refl, sym, arith, Option, none, some, List, [], ◌∷◌}
use gbx.Transport.Region.{Platform, TransportResult}
use mathlib.Core.Path.{subst}
use gbx.Transport.SlotPool
use gbx.Transport.SlotPool.{SlotPool, SlotPoolConfig}
use gbx.Transport.MsgRing
use gbx.Transport.MsgRing.{MsgRing, Envelope}
use gbx.Transport.MsgRing.Window.{Holds}
use gbx.Transport.Mailbox
use gbx.Transport.Mailbox.{Mailbox, align_capacity}
use gbx.Transport.Port.{
  PortClass, mailbox, FabricResult, ok, err, panicked, SharedPort, new_ring, new_mailbox,
  no_metrics,
}
use gbx.Transport.Port.Fifo.{ring_port}
use gbx.Transport.Port.History.{new-Holds, new-fields}
use gbx.Transport.Endpoint.{Endpoint}
use gbx.Transport.Endpoint.Priority.{IsReady, absent, over_ring, over_mailbox}
use gbx.Transport.Endpoint.Builder.{
  RingSpec, MailboxSpec, ServiceSpec, ◌>>=◌, from_transport, spec_envelope, build_ring,
  build_mailbox, build_if, build_pools, build_service,
}

-- A chain of results that ends well passed through the first.
pub bind-cases :
    {A B : Type 0} (m : FabricResult A) (f : A → FabricResult B) (b : B)
    → (m >>= f) ≡ ok b
    → (a : A) × (m ≡ ok a) × (f a ≡ ok b)
bind-cases (ok a) f b h = (a, refl, h)
bind-cases (err e) f b h = cc
bind-cases panicked f b h = cc

from_transport-cases :
    {A : Type 0} (m : TransportResult A) (a : A)
    → from_transport m ≡ ok a
    → m ≡ TransportResult.ok a
from_transport-cases (TransportResult.ok b) a h = cc
from_transport-cases (TransportResult.err e) a h = cc

-- A port over a ring that has the capacity asked for, and holds no record.
abbrev pub FreshRing : PortClass → RingSpec → SharedPort → Type 0
FreshRing class spec port =
    (r : MsgRing) × (port ≡ ring_port class r no_metrics)
    × Holds r []
    × (spec.capacity_bytes ≤ r.capacity)
    × (r.head ≡ 0)
    × (r.tail ≡ 0)

build_ring-FreshRing :
    (os : Platform) (class : PortClass) (spec : RingSpec) (port : SharedPort)
    → build_ring os class spec ≡ ok port
    → FreshRing class spec port
unfolding build_ring new_ring
build_ring-FreshRing os class spec port h =
    let (r, made, done) =
      bind-cases
        (from_transport (MsgRing.new os spec.capacity_bytes (spec_envelope spec.envelope_tag))) _
        port h in
    let created = from_transport-cases _ r made in
    let (holds, large) =
      new-Holds os spec.capacity_bytes (spec_envelope spec.envelope_tag) r created in
    let (_, head, tail, _, _) =
      new-fields os spec.capacity_bytes (spec_envelope spec.envelope_tag) r created in
    (r, cc, holds, large, head, tail)

-- A mailbox that takes the payloads asked for, and has no record.
abbrev pub FreshMailbox : MailboxSpec → SharedPort → Type 0
FreshMailbox spec port =
    (slot : Mailbox) × (port
      ≡ record { class = PortClass.coalesce; backend = mailbox slot; metrics = no_metrics })
    × (spec.payload_bytes ≤ slot.payload_capacity)
    × (slot.write_seq ≡ slot.read_seq)

mailbox-fields :
    (os : Platform) (payload_bytes : ℕ) (envelope : Envelope) (slot : Mailbox)
    → Mailbox.new os payload_bytes envelope ≡ TransportResult.ok slot
    → (payload_bytes ≤ slot.payload_capacity) × (slot.write_seq ≡ slot.read_seq)
unfolding Mailbox.new align_capacity
mailbox-fields os payload_bytes envelope slot h = ground arith

build_mailbox-FreshMailbox :
    (os : Platform) (spec : MailboxSpec) (port : SharedPort)
    → build_mailbox os spec ≡ ok port
    → FreshMailbox spec port
unfolding build_mailbox new_mailbox
build_mailbox-FreshMailbox os spec port h =
    let (slot, made, done) =
      bind-cases
        (from_transport (Mailbox.new os spec.payload_bytes (spec_envelope spec.envelope_tag))) _
        port h in
    let (large, same) =
      mailbox-fields os spec.payload_bytes (spec_envelope spec.envelope_tag) slot
        (from_transport-cases _ slot made) in
    (slot, cc, large, same)

-- A port is there exactly if it was asked for, and as asked for.
pub data BuiltAs {Spec : Type 0} (P : Spec → SharedPort → Type 0)
    : Option Spec → Option SharedPort → Type 0 where
  left_out : BuiltAs P none none
  built : (spec : Spec) (port : SharedPort) → P spec port → BuiltAs P (some spec) (some port)

build_if-BuiltAs :
    {Spec : Type 0} (P : Spec → SharedPort → Type 0) (build : Spec → FabricResult SharedPort)
    (builds : (spec : Spec) (port : SharedPort) → build spec ≡ ok port → P spec port)
    (spec : Option Spec) (found : Option SharedPort)
    → build_if build spec ≡ ok found
    → BuiltAs P spec found
unfolding build_if
build_if-BuiltAs P build builds none found h =
    let same : none ≡ found = cc in subst (λ p. BuiltAs P none p) same left_out
build_if-BuiltAs P build builds (some spec) found h =
    let (port, made, done) = bind-cases (build spec) _ found h in
    let same : some port ≡ found = cc in
    subst (λ p. BuiltAs P (some spec) p) same (built spec port (builds spec port made))

-- Each pool is a new one of its configuration.
pub data NewPools : List SlotPoolConfig → List SlotPool → Type 0 where
  no_pools : NewPools [] []
  new_pool :
      (os : ℕ → Platform) (config : SlotPoolConfig) (pool : SlotPool)
      (configs : List SlotPoolConfig) (pools : List SlotPool)
      → SlotPool.new os config ≡ TransportResult.ok pool
      → NewPools configs pools
      → NewPools (config ∷ configs) (pool ∷ pools)

build_pools-NewPools :
    (os : ℕ → Platform) (configs : List SlotPoolConfig) (pools : List SlotPool)
    → build_pools os configs ≡ ok pools
    → NewPools configs pools
unfolding build_pools
build_pools-NewPools os [] pools h =
    let same : [] ≡ pools = cc in subst (λ l. NewPools [] l) same no_pools
build_pools-NewPools os (config ∷ configs) pools h =
    let (pool, made, h) = bind-cases (from_transport (SlotPool.new os config)) _ pools h in
    let (rest, more, done) = bind-cases (build_pools (λ i. os (i + 3)) configs) _ pools h in
    let same : pool ∷ rest ≡ pools = cc in
    subst (λ l. NewPools (config ∷ configs) l) same
      (new_pool os config pool configs rest (from_transport-cases _ pool made)
        (build_pools-NewPools (λ i. os (i + 3)) configs rest more))

-- A service that is built has just the ports that were asked for, of the classes and at least the
-- sizes asked for, each with no record in it, and a new pool for each configuration.
pub build_service_lem :
    (os : ℕ → Platform) (spec : ServiceSpec) (e : Endpoint) (pools : List SlotPool)
    → build_service os spec ≡ ok (e, pools)
    → BuiltAs (FreshRing PortClass.lossless) spec.lossless e.lossless
      × BuiltAs (FreshRing PortClass.best_effort) spec.best_effort e.best_effort
      × BuiltAs FreshMailbox spec.coalesce e.coalesce
      × FreshRing spec.reply_policy spec.replies e.replies
      × NewPools spec.slot_pools pools
unfolding build_service
build_service_lem os spec e pools h =
    let (lossless, made_lossless, h) = bind-cases _ _ (e, pools) h in
    let (best, made_best, h) = bind-cases _ _ (e, pools) h in
    let (coalesce, made_coalesce, h) = bind-cases _ _ (e, pools) h in
    let (replies, made_replies, h) = bind-cases _ _ (e, pools) h in
    let (made, made_pools, h) = bind-cases _ _ (e, pools) h in
    let whole : Endpoint = record {
      lossless = lossless;
      best_effort = best;
      coalesce = coalesce;
      replies = replies;
    } in
    let same : (whole, made) ≡ (e, pools) = cc in
    subst
      (λ (r : Endpoint × List SlotPool).
        BuiltAs (FreshRing PortClass.lossless) spec.lossless r.0.lossless
        × BuiltAs (FreshRing PortClass.best_effort) spec.best_effort r.0.best_effort
        × BuiltAs FreshMailbox spec.coalesce r.0.coalesce
        × FreshRing spec.reply_policy spec.replies r.0.replies
        × NewPools spec.slot_pools r.1)
      same
      (
        build_if-BuiltAs (FreshRing PortClass.lossless) _
            (build_ring-FreshRing (os 0) PortClass.lossless) spec.lossless lossless made_lossless,
        build_if-BuiltAs (FreshRing PortClass.best_effort) _
            (build_ring-FreshRing (os 1) PortClass.best_effort) spec.best_effort best made_best,
        build_if-BuiltAs FreshMailbox _ (build_mailbox-FreshMailbox (os 2)) spec.coalesce coalesce
            made_coalesce,
        build_ring-FreshRing (os 3) spec.reply_policy spec.replies replies made_replies,
        build_pools-NewPools (λ i. os (i + 4)) spec.slot_pools made made_pools,
      )

-- A port built over a ring, or left out, is ready to drain.
pub ring-IsReady :
    (class : PortClass) {spec : Option RingSpec} {port : Option SharedPort}
    → class ≢ PortClass.coalesce
    → BuiltAs (FreshRing class) spec port
    → IsReady port
ring-IsReady class c left_out = absent
ring-IsReady class c (built spec port (r, e, holds, large, head, tail)) =
    subst (λ p. IsReady (some p)) (sym e) (over_ring class r no_metrics [] c holds)

-- So is a port built over a mailbox, or left out.
pub mailbox-IsReady :
    {spec : Option MailboxSpec} {port : Option SharedPort}
    → BuiltAs FreshMailbox spec port
    → IsReady port
mailbox-IsReady left_out = absent
mailbox-IsReady (built spec port (slot, e, large, same)) =
    subst (λ p. IsReady (some p)) (sym e) (over_mailbox PortClass.coalesce slot no_metrics)
