-- ===== src/Transport/Endpoint.antt =====
-- The two ends of a service over ports, crates/01-transport/transport-fabric/src/endpoint.rs, with
-- the codecs of codec.rs there. The handle of the scheduler and the endpoint of the worker share
-- the ports, which are the state here. A codec is a parameter; a payload that does not decode is
-- logged and left out, so what a codec says on decoding is an `Option`. `drained` is the length of
-- what is handed over.
pub mod Priority
pub mod RoundTrip
pub mod Builder
use gbx.Prelude.{
  ℕ, zero, suc, ◌+◌, ◌-◌, leb, if◌then◌else◌, Option, none, some, List, [], ◌∷◌, ◌++◌, length,
}
use gbx.Transport.MsgRing.{Envelope, Record}
use gbx.Transport.Port.{
  PortClass, lossless, best_effort, coalesce, SubmitOutcome, closed, FabricResult, ok, err,
  panicked, invalid_config, SharedPort, try_send, drain_records,
}

pub record Encoded : Type 0 where
  pub class : PortClass
  pub envelope : Envelope
  pub payload : List ℕ

pub record Codec (Cmd Rep : Type 0) : Type 0 where
  pub encode_cmd : Cmd → FabricResult Encoded
  pub decode_cmd : Record → Option Cmd
  pub encode_rep : Rep → FabricResult Encoded
  pub decode_rep : Record → Option Rep

pub record Endpoint : Type 0 where
  pub lossless : Option SharedPort
  pub best_effort : Option SharedPort
  pub coalesce : Option SharedPort
  pub replies : SharedPort

unfoldable pub port_for : Endpoint → PortClass → Option SharedPort
port_for e PortClass.lossless = e.lossless
port_for e PortClass.best_effort = e.best_effort
port_for e PortClass.coalesce = e.coalesce

abbrev pub replace_port : Endpoint → PortClass → SharedPort → Endpoint
replace_port e PortClass.lossless port = record e { lossless = some port }
replace_port e PortClass.best_effort port = record e { best_effort = some port }
replace_port e PortClass.coalesce port = record e { coalesce = some port }

-- What decodes, up to `room` of it; the callback returns at once for the records after these.
unfoldable pub decode_records : {A : Type 0} → (Record → Option A) → ℕ → List Record → List A
decode_records decode zero ms = []
decode_records decode (suc room) [] = []
decode_records decode (suc room) (m ∷ ms) = elim (decode m) [
  | none ↦ decode_records decode (suc room) ms
  | some a ↦ a ∷ decode_records decode room ms
]

module _ {Cmd Rep : Type 0} (codec : Codec Cmd Rep) where
  unfoldable pub submit : Cmd → Endpoint → FabricResult (SubmitOutcome × Endpoint)
  submit cmd e = elim (codec.encode_cmd cmd) [
    | panicked ↦ panicked
    | err error ↦ err error
    | ok encoded ↦ elim (port_for e encoded.class) [
      | none ↦ err invalid_config
      | some port ↦ elim (try_send port encoded.envelope encoded.payload) [
        | panicked ↦ panicked
        | err error ↦ err error
        | ok (outcome, sent) ↦ ok (outcome, replace_port e encoded.class sent)
      ]
    ]
  ]

  unfoldable pub drain_reports : ℕ → Endpoint → FabricResult (List Rep × Endpoint)
  drain_reports max e = elim (drain_records e.replies max) [
    | panicked ↦ panicked
    | err error ↦ err error
    | ok (records, drained) ↦
        ok (decode_records codec.decode_rep max records, record e { replies = drained })
  ]

  unfoldable pub publish_report : Rep → Endpoint → FabricResult (SubmitOutcome × Endpoint)
  publish_report rep e = elim (codec.encode_rep rep) [
    | panicked ↦ panicked
    | err error ↦ err error
    | ok encoded ↦ elim (try_send e.replies encoded.envelope encoded.payload) [
      | panicked ↦ panicked
      | err error ↦ err error
      | ok (outcome, sent) ↦ ok (outcome, record e { replies = sent })
    ]
  ]

  unfoldable pub drain_port : ℕ → Option SharedPort → FabricResult (List Cmd × Option SharedPort)
  drain_port max none = ok ([], none)
  drain_port max (some port) = elim (drain_records port max) [
    | panicked ↦ panicked
    | err error ↦ err error
    | ok (records, drained) ↦ ok (decode_records codec.decode_cmd max records, some drained)
  ]

  -- The commands in the order in which `f` is given them.
  unfoldable pub drain_commands : ℕ → Endpoint → FabricResult (List Cmd × Endpoint)
  drain_commands max e = elim (drain_port max e.lossless) [
    | panicked ↦ panicked
    | err error ↦ err error
    | ok (first, one) ↦
        if leb max (length first)
        then ok (first, record e { lossless = one })
        else elim (drain_port (max - length first) e.coalesce) [
          | panicked ↦ panicked
          | err error ↦ err error
          | ok (second, two) ↦
              if leb max (length first + length second)
              then ok (first ++ second, record e { lossless = one; coalesce = two })
              else elim (drain_port (max - (length first + length second)) e.best_effort) [
                | panicked ↦ panicked
                | err error ↦ err error
                | ok (third, three) ↦ ok (
                  (first ++ second) ++ third,
                  record e { lossless = one; coalesce = two; best_effort = three },
                )
              ]
        ]
  ]

  -- `ServiceAdapter::try_submit`
  unfoldable pub try_submit : Cmd → Endpoint → FabricResult (SubmitOutcome × Endpoint)
  try_submit cmd e = elim (submit cmd e) [
    | panicked ↦ panicked
    | err error ↦ ok (closed, e)
    | ok (outcome, sent) ↦ ok (outcome, sent)
  ]

  -- `ServiceAdapter::drain`
  unfoldable pub drain : ℕ → Endpoint → FabricResult (List Rep × Endpoint)
  drain max e = elim (drain_reports max e) [
    | panicked ↦ panicked
    | err error ↦ ok ([], e)
    | ok (reports, drained) ↦ ok (reports, drained)
  ]
