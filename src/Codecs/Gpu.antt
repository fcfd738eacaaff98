-- ===== src/Codecs/Gpu.antt =====
-- `GpuCodec` (transport-codecs): the frame of an upload is not in the message.
use gbx.App.Abi.{GpuCmd, upload_frame, GpuRep}
use gbx.Transport.MsgRing.{Record}
use gbx.Transport.Port.{PortClass, FabricResult}
use gbx.Transport.Endpoint.{Codec, Encoded}
use gbx.Codecs.{Archive, encoded, decoded, to_option, default_frame_span}
use gbx.Codecs.Schema.{tag_gpu_cmd, tag_gpu_rep, GpuCmdV1, GpuRepV1}

module _ (cmds : Archive GpuCmdV1) (reps : Archive GpuRepV1) where
  unfoldable pub cmd_schema : GpuCmd → GpuCmdV1
  cmd_schema (upload_frame lane span) = GpuCmdV1.upload_frame lane 0

  unfoldable pub encode_cmd : GpuCmd → FabricResult Encoded
  unfolding cmd_schema
  encode_cmd cmd = encoded cmds PortClass.lossless tag_gpu_cmd (cmd_schema cmd)

  unfoldable pub cmd_of : GpuCmdV1 → GpuCmd
  cmd_of (GpuCmdV1.upload_frame lane frame_id) = upload_frame lane default_frame_span

  unfoldable pub decode_cmd : Record → FabricResult GpuCmd
  decode_cmd = decoded cmds tag_gpu_cmd cmd_of

  unfoldable pub rep_schema : GpuRep → GpuRepV1
  rep_schema (GpuRep.frame_shown lane frame_id) = GpuRepV1.frame_presented lane frame_id

  unfoldable pub encode_rep : GpuRep → FabricResult Encoded
  unfolding rep_schema
  encode_rep rep = encoded reps PortClass.lossless tag_gpu_rep (rep_schema rep)

  unfoldable pub rep_of : GpuRepV1 → GpuRep
  rep_of (GpuRepV1.frame_presented lane frame_id) = GpuRep.frame_shown lane frame_id

  unfoldable pub decode_rep : Record → FabricResult GpuRep
  decode_rep = decoded reps tag_gpu_rep rep_of

  abbrev pub gpu_codec : Codec GpuCmd GpuRep
  gpu_codec = record {
    encode_cmd = encode_cmd;
    decode_cmd = λ m. to_option (decode_cmd m);
    encode_rep = encode_rep;
    decode_rep = λ m. to_option (decode_rep m);
  }
