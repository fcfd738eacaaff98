-- ===== src/Tests/Codecs.antt =====
-- The kernel codec with a small archive.
use gbx.Prelude.{ℕ, zero, suc, ◌≡◌, refl, ap, sym, ◌∙◌, arith, Option, none, some, List, [], ◌∷◌}
use gbx.App.Abi.{TickPurpose, KernelCmd, KernelRep}
use gbx.Transport.Port.{PortClass, SubmitOutcome, ok}
use gbx.Transport.Endpoint
use gbx.Transport.Endpoint.{Encoded, submit, drain_commands, decode_records}
use gbx.Transport.Endpoint.RoundTrip.{carrier}
use gbx.Codecs.{Archive, IsReadable, envelope_v1, encoded, serialize}
use gbx.Codecs.Schema.{TickPurposeV1, KernelCmdV1, KernelRepV1, tag_kernel_cmd, tag_kernel_rep}
use gbx.Codecs.Kernel.{
  default_kernel_policy, encode_purpose, cmd_schema, rep_schema, encode_cmd, decode_cmd, encode_rep,
  decode_rep, kernel_codec,
}
use gbx.Codecs.Kernel.RoundTrip.{decode_cmd-encode_cmd, decode_rep-encode_rep}
use gbx.Tests.Endpoint.{endpoint}
use gbx.Tests.Transport.{platform}
use gbx.Transport.Port.{FabricResult, err, panicked}
use gbx.Transport.Region.{new_aligned, allocate_backing, mmap_backing, is_power_below}
use gbx.Transport.SlotPool
use gbx.Transport.SlotPool.{validate_config, slots_len}
use gbx.Transport.IndexRing
use gbx.Transport.MsgRing
use gbx.Transport.MsgRing.{align_up}
use gbx.Transport.Mailbox
use gbx.Transport.Mailbox.{align_capacity}
use gbx.Transport.Endpoint.Builder.{build_service, build_if, build_ring, build_mailbox, build_pools}
use gbx.Fabric
use gbx.Fabric.{TransportServices, gpu_spec}
use gbx.Transport.Endpoint.Builder.Fresh.{
  BuiltAs, FreshRing, FreshMailbox, NewPools, build_service_lem,
}
use gbx.Fabric.Delivery.{first_delivered}

-- An archive of ticks and of ROMs, which fails for other commands.
abbrev purpose_byte : TickPurposeV1 → ℕ
purpose_byte TickPurposeV1.display = 0
purpose_byte TickPurposeV1.exploration = 1

abbrev write_cmd : KernelCmdV1 → Option (List ℕ)
write_cmd (KernelCmdV1.tick t) = some (purpose_byte t.purpose ∷ t.budget ∷ [])
write_cmd (KernelCmdV1.load_rom l) = some (2 ∷ l.bytes)
write_cmd (KernelCmdV1.set_inputs s) = none
write_cmd (KernelCmdV1.terminate t) = none
write_cmd (KernelCmdV1.debug cmd) = none

abbrev read_tick : TickPurposeV1 → List ℕ → Option KernelCmdV1
read_tick purpose [] = none
read_tick purpose (budget ∷ rest) =
    some (KernelCmdV1.tick (record { purpose = purpose; budget = budget }))

abbrev read_cmd : List ℕ → Option KernelCmdV1
read_cmd [] = none
read_cmd (zero ∷ bytes) = read_tick TickPurposeV1.display bytes
read_cmd (suc zero ∷ bytes) = read_tick TickPurposeV1.exploration bytes
read_cmd (suc (suc n) ∷ bytes) = some (KernelCmdV1.load_rom (record { bytes = bytes }))

read_cmd-tick :
    (purpose : TickPurposeV1) (budget : ℕ)
    → read_cmd (purpose_byte purpose ∷ budget ∷ [])
      ≡ some (KernelCmdV1.tick (record { purpose = purpose; budget = budget }))
read_cmd-tick TickPurposeV1.display budget = refl
read_cmd-tick TickPurposeV1.exploration budget = refl

some_injective : {A : Type 0} (a b : A) → some a ≡ some b → a ≡ b
some_injective a b h = cc

abbrev cmds : Archive KernelCmdV1
cmds = record { to_bytes = write_cmd; access = read_cmd }

cmds-IsReadable : IsReadable cmds
cmds-IsReadable (KernelCmdV1.tick t) bytes h =
    ap read_cmd (sym (some_injective _ bytes h)) ∙ read_cmd-tick t.purpose t.budget
cmds-IsReadable (KernelCmdV1.load_rom l) bytes h = ap read_cmd (sym (some_injective _ bytes h))
cmds-IsReadable (KernelCmdV1.set_inputs s) bytes h = cc
cmds-IsReadable (KernelCmdV1.terminate t) bytes h = cc
cmds-IsReadable (KernelCmdV1.debug cmd) bytes h = cc

-- An archive of the length of a ROM.
abbrev write_rep : KernelRepV1 → Option (List ℕ)
write_rep (KernelRepV1.tick_done purpose budget) = none
write_rep (KernelRepV1.lane_frame lane frame_id slots pixels) = none
write_rep (KernelRepV1.rom_loaded bytes_len) = some (bytes_len ∷ [])
write_rep (KernelRepV1.audio_ready group slots) = none
write_rep (KernelRepV1.debug rep) = none

abbrev read_rep : List ℕ → Option KernelRepV1
read_rep [] = none
read_rep (n ∷ ns) = some (KernelRepV1.rom_loaded n)

abbrev reps : Archive KernelRepV1
reps = record { to_bytes = write_rep; access = read_rep }

reps-IsReadable : IsReadable reps
reps-IsReadable (KernelRepV1.tick_done purpose budget) bytes h = cc
reps-IsReadable (KernelRepV1.lane_frame lane frame_id slots pixels) bytes h = cc
reps-IsReadable (KernelRepV1.rom_loaded bytes_len) bytes h =
    ap read_rep (sym (some_injective _ bytes h))
reps-IsReadable (KernelRepV1.audio_ready group slots) bytes h = cc
reps-IsReadable (KernelRepV1.debug rep) bytes h = cc

abbrev sent_tick : Encoded
sent_tick = record {
  class = PortClass.coalesce;
  envelope = envelope_v1 tag_kernel_cmd;
  payload = 0 ∷ 70224 ∷ [];
}

-- A tick of group 3 is decoded as one of group 0.
decode_cmd-encode_cmd_example :
    (sent_tick.class ≡ PortClass.coalesce)
    × (sent_tick.envelope ≡ envelope_v1 tag_kernel_cmd)
    × (decode_cmd cmds reps (carrier sent_tick) ≡ ok (KernelCmd.tick 0 TickPurpose.display 70224))
unfolding encode_cmd encoded serialize default_kernel_policy cmd_schema encode_purpose
decode_cmd-encode_cmd_example =
    decode_cmd-encode_cmd cmds reps cmds-IsReadable (KernelCmd.tick 3 TickPurpose.display 70224)
      sent_tick refl

abbrev sent_length : Encoded
sent_length = record {
  class = PortClass.lossless;
  envelope = envelope_v1 tag_kernel_rep;
  payload = 32768 ∷ [];
}

decode_rep-encode_rep_example :
    decode_rep cmds reps (carrier sent_length) ≡ ok (KernelRep.rom_loaded 0 32768)
unfolding encode_rep encoded serialize rep_schema
decode_rep-encode_rep_example =
    decode_rep-encode_rep cmds reps reps-IsReadable (KernelRep.rom_loaded 3 32768) sent_length refl

abbrev sent_rom : Encoded
sent_rom = record {
  class = PortClass.lossless;
  envelope = envelope_v1 tag_kernel_cmd;
  payload = 2 ∷ 0x3E ∷ 0x12 ∷ [];
}

-- New services, on a system where every allocation succeeds.
abbrev no_services : TransportServices
no_services = record {
  kernel = endpoint;
  kernel_pools = [];
  fs = endpoint;
  gpu = endpoint;
  audio = endpoint;
}

abbrev services_of : FabricResult TransportServices → TransportServices
services_of (ok services) = services
services_of (err e) = no_services
services_of panicked = no_services

abbrev services : TransportServices
services = services_of (Fabric.new (λ _ _. platform))

services_created : Fabric.new (λ _ _. platform) ≡ ok services
unfolding Fabric.new build_service build_if build_ring build_mailbox build_pools MsgRing.new
    Mailbox.new SlotPool.new IndexRing.new validate_config slots_len new_aligned allocate_backing
    mmap_backing is_power_below align_up align_capacity
services_created = refl

first_delivered_example :
    (sent : Endpoint.Endpoint) × (rest : List KernelCmd) × (end : Endpoint.Endpoint) × (submit
        (kernel_codec cmds reps)
        (KernelCmd.load_rom 3 (0x3E ∷ 0x12 ∷ []))
        services.kernel
      ≡ ok (SubmitOutcome.accepted, sent))
    × (drain_commands (kernel_codec cmds reps) 4 sent
        ≡ ok (KernelCmd.load_rom 0 (0x3E ∷ 0x12 ∷ []) ∷ rest, end))
unfolding encode_cmd encoded serialize default_kernel_policy cmd_schema align_up
first_delivered_example =
    first_delivered cmds reps cmds-IsReadable (λ _ _. platform) services
      (KernelCmd.load_rom 3 (0x3E ∷ 0x12 ∷ [])) sent_rom 4 services_created refl refl (omega arith)
      (omega arith)

build_service_lem_example :
    BuiltAs (FreshRing PortClass.lossless) gpu_spec.lossless services.gpu.lossless
    × BuiltAs (FreshRing PortClass.best_effort) gpu_spec.best_effort services.gpu.best_effort
    × BuiltAs FreshMailbox gpu_spec.coalesce services.gpu.coalesce
    × FreshRing PortClass.lossless gpu_spec.replies services.gpu.replies
    × NewPools [] []
unfolding Fabric.new build_service build_if build_ring build_mailbox build_pools MsgRing.new
    Mailbox.new SlotPool.new IndexRing.new validate_config slots_len new_aligned allocate_backing
    mmap_backing is_power_below align_up align_capacity
build_service_lem_example = build_service_lem (λ _. platform) gpu_spec services.gpu [] refl
