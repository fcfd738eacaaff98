-- ===== src/Transport/Endpoint/Builder.antt =====
-- `build_service` of crates/01-transport/transport-fabric/src/builder.rs, on a host that is not
-- wasm: the layout is then empty. The allocations are numbered in their order, `os` gives what the
-- system answers to each; a port that is not asked for leaves its number unused.
pub mod Fresh
use gbx.Prelude.{ℕ, ◌+◌, Option, none, some, List, [], ◌∷◌}
use gbx.Transport.Region.{Platform, TransportResult}
use gbx.Transport.SlotPool
use gbx.Transport.SlotPool.{SlotPool, SlotPoolConfig}
use gbx.Transport.MsgRing
use gbx.Transport.MsgRing.{MsgRing, Envelope}
use gbx.Transport.Mailbox
use gbx.Transport.Mailbox.{Mailbox}
use gbx.Transport.Port.{
  PortClass, FabricError, FabricResult, ok, err, panicked, SharedPort, new_ring, new_mailbox,
}
use gbx.Transport.Endpoint.{Endpoint}

pub record RingSpec : Type 0 where
  pub capacity_bytes : ℕ
  pub envelope_tag : ℕ

pub record MailboxSpec : Type 0 where
  pub payload_bytes : ℕ
  pub envelope_tag : ℕ

-- The codec stands beside the endpoint, and is left out.
pub record ServiceSpec : Type 0 where
  pub lossless : Option RingSpec
  pub best_effort : Option RingSpec
  pub coalesce : Option MailboxSpec
  pub replies : RingSpec
  pub reply_policy : PortClass
  pub slot_pools : List SlotPoolConfig

infixl 5 ◌>>=◌
abbrev pub ◌>>=◌ {ℓ κ} :
    {A : Type ℓ} {B : Type κ} → FabricResult A → (A → FabricResult B) → FabricResult B
ok a >>= f = f a
err e >>= f = err e
panicked >>= f = panicked

-- The conversion of the operator `?`.
abbrev pub from_transport : {A : Type 0} → TransportResult A → FabricResult A
from_transport (TransportResult.ok a) = ok a
from_transport (TransportResult.err e) = err (FabricError.transport e)

-- `Envelope::new` for the version of the schema, `SCHEMA_VERSION_V1`
abbrev pub spec_envelope : ℕ → Envelope
spec_envelope tag = record { tag = tag; ver = 1; flags = 0 }

unfoldable pub build_ring : Platform → PortClass → RingSpec → FabricResult SharedPort
build_ring os class spec = do
  ring ← from_transport (MsgRing.new os spec.capacity_bytes (spec_envelope spec.envelope_tag))
  ok (new_ring class ring)

unfoldable pub build_mailbox : Platform → MailboxSpec → FabricResult SharedPort
build_mailbox os spec = do
  slot ← from_transport (Mailbox.new os spec.payload_bytes (spec_envelope spec.envelope_tag))
  ok (new_mailbox slot)

-- A port that may be left out.
unfoldable pub build_if :
    {Spec : Type 0}
    → (Spec → FabricResult SharedPort)
    → Option Spec
    → FabricResult (Option SharedPort)
build_if build none = ok none
build_if build (some spec) = do port ← build spec; ok (some port)

-- The loop over the slot pools, each of which allocates three times.
unfoldable pub build_pools : (ℕ → Platform) → List SlotPoolConfig → FabricResult (List SlotPool)
build_pools os [] = ok []
build_pools os (config ∷ configs) = do
  pool ← from_transport (SlotPool.new os config)
  pools ← build_pools (λ i. os (i + 3)) configs
  ok (pool ∷ pools)

unfoldable pub build_service :
    (ℕ → Platform) → ServiceSpec → FabricResult (Endpoint × List SlotPool)
build_service os spec = do
  lossless ← build_if (build_ring (os 0) PortClass.lossless) spec.lossless
  best_effort ← build_if (build_ring (os 1) PortClass.best_effort) spec.best_effort
  coalesce ← build_if (build_mailbox (os 2)) spec.coalesce
  replies ← build_ring (os 3) spec.reply_policy spec.replies
  pools ← build_pools (λ i. os (i + 4)) spec.slot_pools
  ok (
    record {
      lossless = lossless;
      best_effort = best_effort;
      coalesce = coalesce;
      replies = replies;
    },
    pools,
  )
