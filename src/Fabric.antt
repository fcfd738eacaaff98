-- ===== src/Fabric.antt =====
-- The services over the transport, crates/03-driver/services-fabric/src/lib.rs: their
-- specifications and `TransportServices::new`. The adapters of the scheduler share the endpoints,
-- and the codecs have no state. Each build has the answers of the system to its own allocations.
pub mod Delivery
use gbx.Prelude.{ℕ, ◌*◌, Option, none, some, List, [], ◌∷◌}
use gbx.Transport.Region.{Platform}
use gbx.Transport.SlotPool.{SlotPool, SlotPoolConfig}
use gbx.Transport.Port.{PortClass, FabricResult, ok}
use gbx.Transport.Endpoint.{Endpoint}
use gbx.Transport.Endpoint.Builder.{RingSpec, MailboxSpec, ServiceSpec, ◌>>=◌, build_service}
use gbx.Codecs.Schema.{
  tag_kernel_cmd, tag_fs_cmd, tag_gpu_cmd, tag_audio_cmd, tag_kernel_rep, tag_fs_rep, tag_gpu_rep,
  tag_audio_rep,
}

abbrev pub frame_pool_config : SlotPoolConfig
frame_pool_config = record { slot_count = 8; slot_size = 128 * 1024 }

abbrev pub audio_pool_config : SlotPoolConfig
audio_pool_config = record { slot_count = 6; slot_size = 16 * 1024 }

abbrev pub kernel_spec : ServiceSpec
kernel_spec = record {
  lossless = some (record { capacity_bytes = 128 * 1024; envelope_tag = tag_kernel_cmd });
  best_effort = some (record { capacity_bytes = 64 * 1024; envelope_tag = tag_kernel_cmd });
  coalesce = some (record { payload_bytes = 64 * 1024; envelope_tag = tag_kernel_cmd });
  replies = record { capacity_bytes = 512 * 1024; envelope_tag = tag_kernel_rep };
  reply_policy = PortClass.lossless;
  slot_pools = frame_pool_config ∷ audio_pool_config ∷ [];
}

-- A service with a ring for its commands and one for its reports.
abbrev pub two_rings : ℕ → ℕ → ℕ → ℕ → ServiceSpec
two_rings commands cmd_tag replies rep_tag = record {
  lossless = some (record { capacity_bytes = commands; envelope_tag = cmd_tag });
  best_effort = none;
  coalesce = none;
  replies = record { capacity_bytes = replies; envelope_tag = rep_tag };
  reply_policy = PortClass.lossless;
  slot_pools = [];
}

abbrev pub fs_spec : ServiceSpec
fs_spec = two_rings (32 * 1024) tag_fs_cmd (64 * 1024) tag_fs_rep

abbrev pub gpu_spec : ServiceSpec
gpu_spec = two_rings (64 * 1024) tag_gpu_cmd (64 * 1024) tag_gpu_rep

abbrev pub audio_spec : ServiceSpec
audio_spec = two_rings (32 * 1024) tag_audio_cmd (32 * 1024) tag_audio_rep

pub record TransportServices : Type 0 where
  pub kernel : Endpoint
  pub kernel_pools : List SlotPool
  pub fs : Endpoint
  pub gpu : Endpoint
  pub audio : Endpoint

-- `TransportServices::new`
unfoldable pub new : (ℕ → ℕ → Platform) → FabricResult TransportServices
new os = do
  kernel ← build_service (os 0) kernel_spec
  fs ← build_service (os 1) fs_spec
  gpu ← build_service (os 2) gpu_spec
  audio ← build_service (os 3) audio_spec
  ok (record {
    kernel = kernel.0;
    kernel_pools = kernel.1;
    fs = fs.0;
    gpu = gpu.0;
    audio = audio.0;
  })
