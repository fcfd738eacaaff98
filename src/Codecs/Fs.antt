-- ===== src/Codecs/Fs.antt =====
-- `FsCodec` (transport-codecs). `display` is the text of a path, which for a path that is not
-- Unicode is not the path.
use gbx.Prelude.{ℕ, List}
use gbx.App.Abi.{FsCmd, persist, FsRep}
use gbx.Transport.MsgRing.{Record}
use gbx.Transport.Port.{PortClass, FabricResult}
use gbx.Transport.Endpoint.{Codec, Encoded}
use gbx.Codecs.{Archive, encoded, decoded, to_option}
use gbx.Codecs.Schema.{tag_fs_cmd, tag_fs_rep, FsCmdV1, FsRepV1}

module _ (display : List ℕ → List ℕ) (cmds : Archive FsCmdV1) (reps : Archive FsRepV1) where
  unfoldable pub cmd_schema : FsCmd → FsCmdV1
  cmd_schema (persist path bytes) = FsCmdV1.persist (record { key = display path; payload = bytes })

  unfoldable pub encode_cmd : FsCmd → FabricResult Encoded
  unfolding cmd_schema
  encode_cmd cmd = encoded cmds PortClass.lossless tag_fs_cmd (cmd_schema cmd)

  unfoldable pub cmd_of : FsCmdV1 → FsCmd
  cmd_of (FsCmdV1.persist p) = persist p.key p.payload

  unfoldable pub decode_cmd : Record → FabricResult FsCmd
  decode_cmd = decoded cmds tag_fs_cmd cmd_of

  unfoldable pub rep_schema : FsRep → FsRepV1
  rep_schema (FsRep.saved path ok) = FsRepV1.saved (display path) ok

  unfoldable pub encode_rep : FsRep → FabricResult Encoded
  unfolding rep_schema
  encode_rep rep = encoded reps PortClass.lossless tag_fs_rep (rep_schema rep)

  unfoldable pub rep_of : FsRepV1 → FsRep
  rep_of (FsRepV1.saved key ok) = FsRep.saved key ok

  unfoldable pub decode_rep : Record → FabricResult FsRep
  decode_rep = decoded reps tag_fs_rep rep_of

  abbrev pub fs_codec : Codec FsCmd FsRep
  fs_codec = record {
    encode_cmd = encode_cmd;
    decode_cmd = λ m. to_option (decode_cmd m);
    encode_rep = encode_rep;
    decode_rep = λ m. to_option (decode_rep m);
  }
