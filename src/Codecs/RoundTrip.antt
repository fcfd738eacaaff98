-- ===== src/Codecs/RoundTrip.antt =====
-- A message that was encoded is decoded as it was (transport-codecs).
use gbx.Prelude.{ℕ, List, ◌≡◌, refl, ap, sym, arith, some, Option-cases, inl, inr}
use mathlib.Core.Path.{subst}
use gbx.Transport.Port.{PortClass, ok}
use gbx.Transport.Endpoint.{Encoded}
use gbx.Transport.Endpoint.RoundTrip.{carrier}
use gbx.Codecs.{
  Archive, IsReadable, envelope_v1, ensure_tag, serialize, encoded, archived_root, decoded,
}

ensure_tag_lem : (tag : ℕ) → ensure_tag (envelope_v1 tag) tag ≡ ok tt
unfolding ensure_tag
ensure_tag_lem tag = ground arith

module _ {V : Type 0} (archive : Archive V) (class : PortClass) (tag : ℕ) (v : V) where
  abbrev message : List ℕ → Encoded
  message bytes = record { class = class; envelope = envelope_v1 tag; payload = bytes }

  encoded-cases :
      (e : Encoded)
      → encoded archive class tag v ≡ ok e
      → (bytes : List ℕ) × (archive.to_bytes v ≡ some bytes) × (message bytes ≡ e)
  unfolding encoded serialize
  encoded-cases e h = elim (Option-cases (archive.to_bytes v)) [
    | inl failed ↦ ground (arith, failed, h)
    | inr (bytes, written) ↦ (bytes, written, ground (arith, written, h))
  ]

  -- What an encoder that succeeds hands over, and what a decoder then makes of it.
  pub decoded-encoded :
      {A : Type 0} (reads : IsReadable archive) (make : V → A) (e : Encoded)
      → encoded archive class tag v ≡ ok e
      → (e.class ≡ class)
        × (e.envelope ≡ envelope_v1 tag)
        × (decoded archive tag make (carrier e) ≡ ok (make v))
  unfolding decoded archived_root
  decoded-encoded {A = A} reads make e h =
      let (bytes, written, same) = encoded-cases e h in
      let back : decoded archive tag make (carrier (message bytes)) ≡ ok (make v) =
        rw (decoded, ensure_tag_lem tag, reads v bytes written) refl in
      (
        ap (λ (e : Encoded). e.class) (sym same),
        ap (λ (e : Encoded). e.envelope) (sym same),
        subst (λ (e : Encoded). decoded archive tag make (carrier e) ≡ ok (make v)) same back,
      )
