-- ===== src/Codecs.antt =====
-- The codecs of the services, crates/03-driver/transport-codecs/src/lib.rs: what they share. The
-- archive format is that of the crate rkyv, which is a parameter for each type of message.
pub mod Schema
pub mod Kernel
pub mod Fs
pub mod Gpu
pub mod Audio
pub mod RoundTrip
pub mod Delivery
use gbx.Prelude.{
  ℕ, ◌≡◌, ◌==◌, not, if◌then◌else◌, Option, none, some, List, [], ◌∷◌, refl, sym, ap, Bool-cases,
  inl, inr,
}
use gbx.App.Abi.{SubmitPolicy, AudioSpan, FrameSpan}
use gbx.Transport.MsgRing.{Envelope, Record}
use gbx.Transport.Port.{PortClass, FabricError, FabricResult, ok, err, panicked}
use gbx.Transport.Endpoint.{Encoded}
use gbx.Codecs.Schema.{schema_version_v1}

-- `to_bytes` and `access` of rkyv; both can fail.
pub record Archive (V : Type 0) : Type 0 where
  pub to_bytes : V → Option (List ℕ)
  pub access : List ℕ → Option V

-- Documented of rkyv: what is serialized is accessed again as it was.
abbrev pub IsReadable : {V : Type 0} → Archive V → Type 0
IsReadable {V = V} archive =
    (v : V) (bytes : List ℕ) → archive.to_bytes v ≡ some bytes → archive.access bytes ≡ some v

-- `Envelope::new` for the version of the schema
abbrev pub envelope_v1 : ℕ → Envelope
envelope_v1 tag = record { tag = tag; ver = schema_version_v1; flags = 0 }

unfoldable pub class_from_policy : SubmitPolicy → PortClass
class_from_policy SubmitPolicy.must = PortClass.lossless
class_from_policy SubmitPolicy.lossless = PortClass.lossless
class_from_policy SubmitPolicy.coalesce = PortClass.coalesce
class_from_policy SubmitPolicy.best_effort = PortClass.best_effort

-- `ensure_tag`
unfoldable pub ensure_tag : Envelope → ℕ → FabricResult (Unit {0})
ensure_tag envelope expected =
    if not (envelope.tag == expected)
    then err FabricError.codec
    else if not (envelope.ver == schema_version_v1)
    then err FabricError.codec
    else ok tt

-- `FrameSpan::default` and `AudioSpan::empty` of service-abi
abbrev pub default_frame_span : FrameSpan
default_frame_span = record { width = 0; height = 0; pixels = []; slot_span = none }

abbrev pub default_audio_span : AudioSpan
default_audio_span = record { samples = []; channels = 2; sample_rate_hz = 48000; slot_span = none }

module _ {V : Type 0} (archive : Archive V) where
  -- `serialize`, and the `Encoded` that each encoder makes of it.
  unfoldable pub serialize : V → FabricResult (List ℕ)
  serialize v = elim (archive.to_bytes v) [ none ↦ err FabricError.codec | some bytes ↦ ok bytes ]

  unfoldable pub encoded : PortClass → ℕ → V → FabricResult Encoded
  encoded class tag v = elim (serialize v) [
    | panicked ↦ panicked
    | err e ↦ err e
    | ok payload ↦ ok (record { class = class; envelope = envelope_v1 tag; payload = payload })
  ]

  unfoldable pub archived_root : List ℕ → FabricResult V
  archived_root payload = elim (archive.access payload) [
    | none ↦ err FabricError.codec
    | some v ↦ ok v
  ]

  -- A decoder: the test of the envelope, the access, and what it makes of the message.
  unfoldable pub decoded : {A : Type 0} → ℕ → (V → A) → Record → FabricResult A
  decoded tag make m = elim (ensure_tag m.envelope tag) [
    | panicked ↦ panicked
    | err e ↦ err e
    | ok u ↦ elim (archived_root m.payload) [
      | panicked ↦ panicked
      | err e ↦ err e
      | ok v ↦ ok (make v)
    ]
  ]

-- What the endpoints, which log an error on decoding and go on, see of a result.
abbrev pub to_option : {A : Type 0} → FabricResult A → Option A
to_option (ok a) = some a
to_option (err e) = none
to_option panicked = none
