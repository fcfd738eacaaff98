-- ===== src/Codecs/Kernel/RoundTrip.antt =====
-- What of a kernel command or report arrives (transport-codecs).
use gbx.Prelude.{◌≡◌, ◌==◌, if◌then◌else◌, u32, refl, ap, sym, ◌∙◌, Option, none, some, []}
use gbx.App.Abi.{SlotSpan, TickPurpose, KernelCmd, KernelRep}
use gbx.Transport.Port.{PortClass, FabricResult, ok, err, panicked}
use gbx.Transport.Endpoint.{Encoded}
use gbx.Transport.Endpoint.RoundTrip.{carrier}
use gbx.Codecs.{Archive, IsReadable, encoded, default_audio_span, envelope_v1}
use gbx.Codecs.RoundTrip.{decoded-encoded}
use gbx.Codecs.Schema.{TickPurposeV1, KernelCmdV1, KernelRepV1, tag_kernel_cmd, tag_kernel_rep}
use gbx.Codecs.Kernel.{
  default_kernel_policy, encode_purpose, decode_purpose, cmd_schema, cmd_of, encode_slot_span,
  decode_slot_span, frame_span_from_parts, audio_span_from_slot, rep_schema, rep_of, encode_cmd,
  decode_cmd, encode_rep, decode_rep,
}
use gbx.Codecs.Kernel.Debug.{
  encode_debug_rep, decode_debug_cmd-encode_debug_cmd, decode_debug_rep-encode_debug_rep,
}

-- A tick and a ROM arrive for group 0, whatever their group is.
abbrev pub received_cmd : KernelCmd → KernelCmd
received_cmd (KernelCmd.tick group purpose budget) = KernelCmd.tick 0 purpose budget
received_cmd (KernelCmd.load_rom group bytes) = KernelCmd.load_rom 0 bytes
received_cmd (KernelCmd.set_inputs group lanes_mask joypad) =
    KernelCmd.set_inputs group lanes_mask joypad
received_cmd (KernelCmd.terminate group) = KernelCmd.terminate group
received_cmd (KernelCmd.debug cmd) = KernelCmd.debug cmd

-- A span of no slots arrives as none.
abbrev pub received_slots : Option SlotSpan → Option SlotSpan
received_slots none = none
received_slots (some slots) = if slots.count == 0 then none else some slots

-- Of the end of a tick nothing arrives but that it ended, and groups arrive as 0 but for audio. A
-- frame has the pixels or the slots that it was sent with, and the size of the screen; audio has
-- its slots and no samples.
abbrev pub received_rep : KernelRep → KernelRep
received_rep (KernelRep.tick_done group lanes_mask cycles_done) = KernelRep.tick_done 0 0 0
received_rep (KernelRep.lane_frame group lane span frame_id) =
    KernelRep.lane_frame 0 lane
      (record {
        width = 160;
        height = 144;
        pixels = span.pixels;
        slot_span = received_slots span.slot_span;
      })
      frame_id
received_rep (KernelRep.rom_loaded group bytes_len) = KernelRep.rom_loaded 0 (u32 bytes_len)
received_rep (KernelRep.audio_ready group span) = KernelRep.audio_ready group (record {
  samples = [];
  channels = 2;
  sample_rate_hz = 48000;
  slot_span = received_slots span.slot_span;
})
received_rep (KernelRep.dropped_thumb group count) = KernelRep.dropped_thumb group count
received_rep (KernelRep.debug rep) = KernelRep.debug rep

decode_purpose-encode_purpose :
    (purpose : TickPurpose) → decode_purpose (encode_purpose purpose) ≡ purpose
unfolding decode_purpose encode_purpose
decode_purpose-encode_purpose TickPurpose.display = refl
decode_purpose-encode_purpose TickPurpose.exploration = refl

cmd_of-cmd_schema : (cmd : KernelCmd) → cmd_of (cmd_schema cmd) ≡ received_cmd cmd
unfolding cmd_of cmd_schema
cmd_of-cmd_schema (KernelCmd.tick group purpose budget) =
    ap (λ p. KernelCmd.tick 0 p budget) (decode_purpose-encode_purpose purpose)
cmd_of-cmd_schema (KernelCmd.load_rom group bytes) = refl
cmd_of-cmd_schema (KernelCmd.set_inputs group lanes_mask joypad) = refl
cmd_of-cmd_schema (KernelCmd.terminate group) = refl
cmd_of-cmd_schema (KernelCmd.debug cmd) = ap KernelCmd.debug (decode_debug_cmd-encode_debug_cmd cmd)

decode_slot_span-encode_slot_span :
    (slots : Option SlotSpan) → decode_slot_span (encode_slot_span slots) ≡ received_slots slots
unfolding decode_slot_span encode_slot_span
decode_slot_span-encode_slot_span none = refl
decode_slot_span-encode_slot_span (some slots) = refl

-- A report that has a schema arrives so.
rep_of-rep_schema :
    (rep : KernelRep) (class : PortClass) (schema : KernelRepV1)
    → rep_schema rep ≡ ok (class, schema)
    → rep_of schema ≡ received_rep rep
unfolding rep_of rep_schema frame_span_from_parts audio_span_from_slot
rep_of-rep_schema (KernelRep.tick_done group lanes_mask cycles_done) class schema h =
    let same : KernelRepV1.tick_done TickPurposeV1.display 0 ≡ schema = cc in ap rep_of (sym same)
rep_of-rep_schema (KernelRep.lane_frame group lane span frame_id) class schema h =
    let same : KernelRepV1.lane_frame lane frame_id (encode_slot_span span.slot_span) span.pixels
        ≡ schema =
      cc in
    ap rep_of (sym same)
    ∙ ap
        (λ s.
          KernelRep.lane_frame 0 lane
            (record { width = 160; height = 144; pixels = span.pixels; slot_span = s }) frame_id)
        (decode_slot_span-encode_slot_span span.slot_span)
rep_of-rep_schema (KernelRep.rom_loaded group bytes_len) class schema h =
    let same : KernelRepV1.rom_loaded (u32 bytes_len) ≡ schema = cc in ap rep_of (sym same)
rep_of-rep_schema (KernelRep.audio_ready group span) class schema h =
    let same : KernelRepV1.audio_ready group (encode_slot_span span.slot_span) ≡ schema = cc in
    ap rep_of (sym same)
    ∙ ap (λ s. KernelRep.audio_ready group (record default_audio_span { slot_span = s }))
        (decode_slot_span-encode_slot_span span.slot_span)
rep_of-rep_schema (KernelRep.dropped_thumb group count) class schema h = cc
rep_of-rep_schema (KernelRep.debug rep) class schema h =
    let same : KernelRepV1.debug (encode_debug_rep rep) ≡ schema = cc in
    ap rep_of (sym same) ∙ ap KernelRep.debug (decode_debug_rep-encode_debug_rep rep)

module _ (cmds : Archive KernelCmdV1) (reps : Archive KernelRepV1) where
  -- With an archive that gives back what it was given, a command that is encoded has the class of
  -- its policy and the tag of kernel commands. It is decoded as it was, but for the group of a tick
  -- and of a ROM, which becomes 0.
  pub decode_cmd-encode_cmd :
      (reads : IsReadable cmds) (cmd : KernelCmd) (e : Encoded)
      → encode_cmd cmds reps cmd ≡ ok e
      → (e.class ≡ default_kernel_policy cmd)
        × (e.envelope ≡ envelope_v1 tag_kernel_cmd)
        × (decode_cmd cmds reps (carrier e) ≡ ok (received_cmd cmd))
  unfolding encode_cmd decode_cmd
  decode_cmd-encode_cmd reads cmd e h =
      let (class, envelope, back) =
        decoded-encoded cmds (default_kernel_policy cmd) tag_kernel_cmd (cmd_schema cmd) reads
          cmd_of e h in
      (class, envelope, back ∙ ap ok (cmd_of-cmd_schema cmd))

  -- With an archive that gives back what it was given, a report that is encoded is decoded with its
  -- debug message, lane, frame number, pixels and slots as they were, the length of a ROM modulo
  -- 2 ^ 32, and each of its other fields as a constant; of the end of a tick all three.
  pub decode_rep-encode_rep :
      (reads : IsReadable reps) (rep : KernelRep) (e : Encoded)
      → encode_rep cmds reps rep ≡ ok e
      → decode_rep cmds reps (carrier e) ≡ ok (received_rep rep)
  unfolding encode_rep decode_rep
  decode_rep-encode_rep reads rep e h = arrive (rep_schema rep) refl h
    where
      arrive :
          (found : FabricResult (PortClass × KernelRepV1))
          → rep_schema rep ≡ found
          → elim found [
            | panicked ↦ panicked
            | err error ↦ err error
            | ok (class, schema) ↦ encoded reps class tag_kernel_rep schema
          ]
            ≡ ok e
          → decode_rep cmds reps (carrier e) ≡ ok (received_rep rep)
      arrive panicked s h = cc
      arrive (err error) s h = cc
      arrive (ok (class, schema)) s h =
          (decoded-encoded reps class tag_kernel_rep schema reads rep_of e h).2
          ∙ ap ok (rep_of-rep_schema rep class schema s)
