-- ===== src/Codecs/Audio.antt =====
-- `AudioCodec` (transport-codecs): of the samples only the number of frames is in the message.
use gbx.Prelude.{ℕ, ◌/◌, u32, max, length}
use gbx.App.Abi.{AudioSpan, AudioCmd, AudioRep}
use gbx.Transport.MsgRing.{Record}
use gbx.Transport.Port.{PortClass, FabricResult}
use gbx.Transport.Endpoint.{Codec, Encoded}
use gbx.Codecs.{Archive, encoded, decoded, to_option, default_audio_span}
use gbx.Codecs.Schema.{tag_audio_cmd, tag_audio_rep, AudioCmdV1, AudioRepV1}

unfoldable pub audio_frames : AudioSpan → ℕ
audio_frames span = length span.samples / max span.channels 1

module _ (cmds : Archive AudioCmdV1) (reps : Archive AudioRepV1) where
  unfoldable pub cmd_schema : AudioCmd → AudioCmdV1
  unfolding audio_frames
  cmd_schema (AudioCmd.submit span) = AudioCmdV1.submit_samples (u32 (audio_frames span))

  unfoldable pub encode_cmd : AudioCmd → FabricResult Encoded
  unfolding cmd_schema
  encode_cmd cmd = encoded cmds PortClass.lossless tag_audio_cmd (cmd_schema cmd)

  unfoldable pub cmd_of : AudioCmdV1 → AudioCmd
  cmd_of (AudioCmdV1.submit_samples frames) = AudioCmd.submit default_audio_span

  unfoldable pub decode_cmd : Record → FabricResult AudioCmd
  decode_cmd = decoded cmds tag_audio_cmd cmd_of

  unfoldable pub rep_schema : AudioRep → AudioRepV1
  rep_schema (AudioRep.played frames) = AudioRepV1.played (u32 frames)
  rep_schema AudioRep.underrun = AudioRepV1.underrun

  unfoldable pub encode_rep : AudioRep → FabricResult Encoded
  unfolding rep_schema
  encode_rep rep = encoded reps PortClass.lossless tag_audio_rep (rep_schema rep)

  unfoldable pub rep_of : AudioRepV1 → AudioRep
  rep_of (AudioRepV1.played frames) = AudioRep.played frames
  rep_of AudioRepV1.underrun = AudioRep.underrun

  unfoldable pub decode_rep : Record → FabricResult AudioRep
  decode_rep = decoded reps tag_audio_rep rep_of

  abbrev pub audio_codec : Codec AudioCmd AudioRep
  audio_codec = record {
    encode_cmd = encode_cmd;
    decode_cmd = λ m. to_option (decode_cmd m);
    encode_rep = encode_rep;
    decode_rep = λ m. to_option (decode_rep m);
  }
