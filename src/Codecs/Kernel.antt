-- ===== src/Codecs/Kernel.antt =====
-- `KernelCodec` (transport-codecs). Debug has the messages of the debugger.
pub mod Debug
pub mod RoundTrip
use gbx.Prelude.{ℕ, ◌==◌, if◌then◌else◌, u32, Option, none, some, List, [], ◌∷◌, length, Bool}
use gbx.App.Abi.{
  SlotSpan, FrameSpan, AudioSpan, TickPurpose, DebugRep, snapshot, mem_window, stepped,
  submit_policy, KernelCmd, KernelRep,
}
use gbx.Transport.MsgRing.{Record}
use gbx.Transport.Port.{PortClass, FabricError, FabricResult, ok, err, panicked}
use gbx.Transport.Endpoint.{Codec, Encoded}
use gbx.Codecs.{
  Archive, encoded, decoded, to_option, class_from_policy, default_frame_span, default_audio_span,
}
use gbx.Codecs.Schema.{
  tag_kernel_cmd, tag_kernel_rep, TickPurposeV1, KernelCmdV1, SlotSpanV1, KernelRepV1,
}
use gbx.Codecs.Kernel.Debug.{encode_debug_cmd, decode_debug_cmd, encode_debug_rep, decode_debug_rep}

unfoldable pub default_kernel_policy : KernelCmd → PortClass
unfolding class_from_policy submit_policy
default_kernel_policy (KernelCmd.tick group TickPurpose.display budget) = PortClass.coalesce
default_kernel_policy (KernelCmd.tick group TickPurpose.exploration budget) = PortClass.best_effort
default_kernel_policy (KernelCmd.load_rom group bytes) = PortClass.lossless
default_kernel_policy (KernelCmd.set_inputs group lanes_mask joypad) = PortClass.lossless
default_kernel_policy (KernelCmd.terminate group) = PortClass.lossless
default_kernel_policy (KernelCmd.debug cmd) = class_from_policy (submit_policy cmd)

unfoldable pub encode_purpose : TickPurpose → TickPurposeV1
encode_purpose TickPurpose.display = TickPurposeV1.display
encode_purpose TickPurpose.exploration = TickPurposeV1.exploration

unfoldable pub decode_purpose : TickPurposeV1 → TickPurpose
decode_purpose TickPurposeV1.display = TickPurpose.display
decode_purpose TickPurposeV1.exploration = TickPurpose.exploration

-- The `schema` of `encode_cmd`.
unfoldable pub cmd_schema : KernelCmd → KernelCmdV1
unfolding encode_purpose
cmd_schema (KernelCmd.tick group purpose budget) =
    KernelCmdV1.tick (record { purpose = encode_purpose purpose; budget = budget })
cmd_schema (KernelCmd.load_rom group bytes) = KernelCmdV1.load_rom (record { bytes = bytes })
cmd_schema (KernelCmd.set_inputs group lanes_mask joypad) =
    KernelCmdV1.set_inputs (record { group = group; lanes_mask = lanes_mask; joypad = joypad })
cmd_schema (KernelCmd.terminate group) = KernelCmdV1.terminate (record { group = group })
cmd_schema (KernelCmd.debug cmd) = KernelCmdV1.debug (encode_debug_cmd cmd)

-- The match of `decode_cmd`.
unfoldable pub cmd_of : KernelCmdV1 → KernelCmd
unfolding decode_purpose
cmd_of (KernelCmdV1.tick t) = KernelCmd.tick 0 (decode_purpose t.purpose) t.budget
cmd_of (KernelCmdV1.load_rom l) = KernelCmd.load_rom 0 l.bytes
cmd_of (KernelCmdV1.set_inputs s) = KernelCmd.set_inputs s.group s.lanes_mask s.joypad
cmd_of (KernelCmdV1.terminate t) = KernelCmd.terminate t.group
cmd_of (KernelCmdV1.debug cmd) = KernelCmd.debug (decode_debug_cmd cmd)

-- `encode_slot_span` and `encode_audio_slot_span`, which do the same.
unfoldable pub encode_slot_span : Option SlotSpan → SlotSpanV1
encode_slot_span none = record { start_idx = 0; count = 0 }
encode_slot_span (some slot) = record { start_idx = slot.start_idx; count = slot.count }

unfoldable pub decode_slot_span : SlotSpanV1 → Option SlotSpan
decode_slot_span span =
    if span.count == 0
    then none
    else some (record { start_idx = span.start_idx; count = span.count })

unfoldable pub frame_span_from_parts : SlotSpanV1 → List ℕ → FrameSpan
unfolding decode_slot_span
frame_span_from_parts span pixels = record default_frame_span {
  width = 160;
  height = 144;
  pixels = pixels;
  slot_span = decode_slot_span span;
}

unfoldable pub audio_span_from_slot : SlotSpanV1 → AudioSpan
unfolding decode_slot_span
audio_span_from_slot span = record default_audio_span { slot_span = decode_slot_span span }

unfoldable pub debug_class : DebugRep → PortClass
debug_class (snapshot vm) = PortClass.coalesce
debug_class (mem_window space base bytes) = PortClass.lossless
debug_class (stepped kind cycles pc disasm) = PortClass.lossless

-- The class and the schema of `encode_rep`.
unfoldable pub rep_schema : KernelRep → FabricResult (PortClass × KernelRepV1)
unfolding encode_slot_span debug_class
rep_schema (KernelRep.tick_done group lanes_mask cycles_done) =
    ok (PortClass.lossless, KernelRepV1.tick_done TickPurposeV1.display 0)
rep_schema (KernelRep.lane_frame group lane span frame_id) = ok (
  PortClass.lossless,
  KernelRepV1.lane_frame lane frame_id (encode_slot_span span.slot_span) span.pixels,
)
rep_schema (KernelRep.rom_loaded group bytes_len) =
    ok (PortClass.lossless, KernelRepV1.rom_loaded (u32 bytes_len))
rep_schema (KernelRep.audio_ready group span) =
    ok (PortClass.lossless, KernelRepV1.audio_ready group (encode_slot_span span.slot_span))
rep_schema (KernelRep.dropped_thumb group count) = err FabricError.unsupported
rep_schema (KernelRep.debug rep) = ok (debug_class rep, KernelRepV1.debug (encode_debug_rep rep))

-- The match of `decode_rep`.
unfoldable pub rep_of : KernelRepV1 → KernelRep
unfolding frame_span_from_parts audio_span_from_slot
rep_of (KernelRepV1.tick_done purpose budget) = KernelRep.tick_done 0 0 0
rep_of (KernelRepV1.lane_frame lane frame_id span pixels) =
    KernelRep.lane_frame 0 lane (frame_span_from_parts span pixels) frame_id
rep_of (KernelRepV1.rom_loaded bytes_len) = KernelRep.rom_loaded 0 bytes_len
rep_of (KernelRepV1.audio_ready group span) =
    KernelRep.audio_ready group (audio_span_from_slot span)
rep_of (KernelRepV1.debug rep) = KernelRep.debug (decode_debug_rep rep)

module _ (cmds : Archive KernelCmdV1) (reps : Archive KernelRepV1) where
  unfoldable pub encode_cmd : KernelCmd → FabricResult Encoded
  encode_cmd cmd = encoded cmds (default_kernel_policy cmd) tag_kernel_cmd (cmd_schema cmd)

  unfoldable pub decode_cmd : Record → FabricResult KernelCmd
  decode_cmd = decoded cmds tag_kernel_cmd cmd_of

  unfoldable pub encode_rep : KernelRep → FabricResult Encoded
  encode_rep rep = elim (rep_schema rep) [
    | panicked ↦ panicked
    | err e ↦ err e
    | ok (class, schema) ↦ encoded reps class tag_kernel_rep schema
  ]

  unfoldable pub decode_rep : Record → FabricResult KernelRep
  decode_rep = decoded reps tag_kernel_rep rep_of

  abbrev pub kernel_codec : Codec KernelCmd KernelRep
  kernel_codec = record {
    encode_cmd = encode_cmd;
    decode_cmd = λ m. to_option (decode_cmd m);
    encode_rep = encode_rep;
    decode_rep = λ m. to_option (decode_rep m);
  }
