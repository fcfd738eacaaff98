-- ===== src/Codecs/Delivery.antt =====
-- A kernel command on its way from the scheduler to the worker (transport-codecs, and endpoint.rs).
use gbx.Prelude.{ℕ, ◌+◌, ◌*◌, ◌<◌, ◌≡◌, ◌⊎◌, ◌∙◌, ap, arith, some, List, ◌∷◌, ◌++◌, length}
use gbx.App.Abi.{KernelCmd}
use gbx.Transport.MsgRing.{Envelope, MsgRing, Record}
use gbx.Transport.MsgRing.Layout.{span}
use gbx.Transport.MsgRing.Reserve.{in_use}
use gbx.Transport.MsgRing.Window.{Holds}
use gbx.Transport.Port.{PortClass, SubmitOutcome, ok, PortMetrics}
use gbx.Transport.Port.Fifo.{ring_port}
use gbx.Transport.Endpoint.{Encoded, Endpoint, decode_records, submit, drain_commands}
use gbx.Transport.Endpoint.Priority.{IsReady}
use gbx.Transport.Endpoint.RoundTrip.{carrier, drain_commands-submit}
use gbx.Codecs.{Archive, IsReadable, to_option}
use gbx.Codecs.Schema.{KernelCmdV1, KernelRepV1}
use gbx.Codecs.Kernel.{default_kernel_policy, encode_cmd, kernel_codec}
use gbx.Codecs.Kernel.RoundTrip.{received_cmd, decode_cmd-encode_cmd}

module _ (cmds : Archive KernelCmdV1) (reps : Archive KernelRepV1) (reads : IsReadable cmds)
    (e : Endpoint) (r : MsgRing) (metrics : PortMetrics) (ms : List Record)
    (is_lossless : e.lossless ≡ some (ring_port PortClass.lossless r metrics)) (h : Holds r ms)
    (ready_coalesce : IsReady e.coalesce) (ready_best : IsReady e.best_effort) where
  -- A lossless kernel command that the archive can hold is submitted to a ring. If the ring takes
  -- it, the worker's drain of more commands than the ring held records gives it after those before
  -- it, for group 0 if it is a ROM; if not, the caller is told to try again and twice the record
  -- and the bytes in use exceed the capacity.
  pub drain_commands-kernel_codec :
      (cmd : KernelCmd) (encoded : Encoded) (max : ℕ)
      → encode_cmd cmds reps cmd ≡ ok encoded
      → default_kernel_policy cmd ≡ PortClass.lossless
      → length ms < max
      → ((sent : Endpoint) × (rest : List KernelCmd) × (end : Endpoint) × (submit
              (kernel_codec cmds reps)
              cmd
              e
            ≡ ok (SubmitOutcome.accepted, sent))
          × (drain_commands (kernel_codec cmds reps) max sent
              ≡ ok (
                decode_records (kernel_codec cmds reps).decode_cmd max ms
                    ++ received_cmd cmd ∷ rest,
                end,
              )))
        ⊎ ((same : Endpoint) × (submit (kernel_codec cmds reps) cmd e
              ≡ ok (SubmitOutcome.would_block, same))
            × (r.capacity < in_use r + 2 * span (carrier encoded)))
  drain_commands-kernel_codec cmd encoded max encodes lossless few =
      let (class, envelope, decodes) = decode_cmd-encode_cmd cmds reps reads cmd encoded encodes in
      drain_commands-submit (kernel_codec cmds reps) e r metrics ms is_lossless h ready_coalesce
        ready_best cmd (received_cmd cmd) encoded max encodes (class ∙ lossless)
        (ap to_option decodes) (omega (arith, ap (λ (v : Envelope). v.flags) envelope)) few
