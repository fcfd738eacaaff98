-- ===== src/Fabric/Delivery.antt =====
-- The first command over new services (services-fabric).
use gbx.Prelude.{
  ℕ, zero, suc, ◌*◌, ◌≤◌, ◌<◌, ◌≡◌, inl, inr, refl, ◌∙◌, ap, arith, Option, some, List, [], ◌∷◌,
  ◌++◌,
}
use gbx.App.Abi.{KernelCmd}
use gbx.Transport.Region.{Platform}
use gbx.Transport.MsgRing.{MsgRing, Record}
use gbx.Transport.MsgRing.Layout.{span}
use gbx.Transport.MsgRing.Window.{Holds}
use gbx.Transport.Port.{PortClass, SubmitOutcome, ok, SharedPort, no_metrics}
use gbx.Transport.Port.Fifo.{ring_port}
use gbx.Transport.Endpoint.{Encoded, Endpoint, decode_records, submit, drain_commands}
use gbx.Transport.Endpoint.RoundTrip.{carrier}
use gbx.Transport.Endpoint.Builder.{build_service}
use gbx.Transport.Endpoint.Builder.Fresh.{
  FreshRing, BuiltAs, built, bind-cases, build_service_lem, ring-IsReady, mailbox-IsReady,
}
use gbx.Codecs.{Archive, IsReadable}
use gbx.Codecs.Schema.{KernelCmdV1, KernelRepV1}
use gbx.Codecs.Kernel.{default_kernel_policy, encode_cmd, kernel_codec}
use gbx.Codecs.Kernel.RoundTrip.{received_cmd}
use gbx.Codecs.Delivery.{drain_commands-kernel_codec}
use gbx.Fabric
use gbx.Fabric.{kernel_spec, fs_spec, gpu_spec, audio_spec, TransportServices}

-- The kernel's part of new services.
kernel_built :
    (os : ℕ → ℕ → Platform) (services : TransportServices)
    → Fabric.new os ≡ ok services
    → build_service (os 0) kernel_spec ≡ ok (services.kernel, services.kernel_pools)
unfolding Fabric.new
kernel_built os services h =
    let (kernel, made, h) = bind-cases (build_service (os 0) kernel_spec) _ services h in
    let (fs, made_fs, h) = bind-cases (build_service (os 1) fs_spec) _ services h in
    let (gpu, made_gpu, h) = bind-cases (build_service (os 2) gpu_spec) _ services h in
    let (audio, made_audio, h) = bind-cases (build_service (os 3) audio_spec) _ services h in
    let whole : TransportServices = record {
      kernel = kernel.0;
      kernel_pools = kernel.1;
      fs = fs.0;
      gpu = gpu.0;
      audio = audio.0;
    } in
    let same : whole ≡ services = cc in
    made ∙ ap (λ (s : TransportServices). ok (s.kernel, s.kernel_pools)) same

-- The lossless port of the kernel's commands.
lossless_ring :
    {port : Option SharedPort}
    → BuiltAs (FreshRing PortClass.lossless) kernel_spec.lossless port
    → (r : MsgRing) × (port ≡ some (ring_port PortClass.lossless r no_metrics))
      × Holds r []
      × (128 * 1024 ≤ r.capacity)
      × (r.head ≡ 0)
      × (r.tail ≡ 0)
lossless_ring (built spec port (r, e, holds, large, head, tail)) =
    (r, ap some e, holds, large, head, tail)

decode_records-nil :
    {A : Type 0} (decode : Record → Option A) (max : ℕ) → decode_records decode max [] ≡ []
unfolding decode_records
decode_records-nil decode zero = refl
decode_records-nil decode (suc max) = refl

module _ (cmds : Archive KernelCmdV1) (reps : Archive KernelRepV1) (reads : IsReadable cmds) where
  -- Over new services, and with an archive that gives back what it was given, the first kernel
  -- command, if it is lossless, can be encoded and takes at most 64 KiB of a ring, is accepted. The
  -- worker's next drain of one command or more gives it, for group 0 if it is a ROM.
  pub first_delivered :
      (os : ℕ → ℕ → Platform) (services : TransportServices) (cmd : KernelCmd) (encoded : Encoded)
      (max : ℕ)
      → Fabric.new os ≡ ok services
      → encode_cmd cmds reps cmd ≡ ok encoded
      → default_kernel_policy cmd ≡ PortClass.lossless
      → span (carrier encoded) ≤ 64 * 1024
      → 0 < max
      → (sent : Endpoint) × (rest : List KernelCmd) × (end : Endpoint) × (submit
            (kernel_codec cmds reps)
            cmd
            services.kernel
          ≡ ok (SubmitOutcome.accepted, sent))
        × (drain_commands (kernel_codec cmds reps) max sent ≡ ok (received_cmd cmd ∷ rest, end))
  first_delivered os services cmd encoded max created encodes lossless small some_room =
      let (ring, best, mailbox, _, _) =
        build_service_lem (os 0) kernel_spec services.kernel services.kernel_pools
          (kernel_built os services created) in
      let (r, over, holds, large, head, tail) = lossless_ring ring in
      elim (drain_commands-kernel_codec cmds reps reads services.kernel r no_metrics [] over holds
        (mailbox-IsReady mailbox) (ring-IsReady PortClass.best_effort (λ p. cc) best) cmd encoded
        max encodes lossless some_room) [
          | inl (sent, rest, end, taken, drained) ↦ (
            sent,
            rest,
            end,
            taken,
            drained
                ∙ ap (λ l. ok (l ++ received_cmd cmd ∷ rest, end))
                    (decode_records-nil (kernel_codec cmds reps).decode_cmd max),
          )
          | inr (same, refused, full) ↦ absurd (ground arith)
        ]
