-- ===== src/Entry/RoundTrip.antt =====
-- pkg/entry/entry.go: Marshal followed by UnmarshalEntry.
use mathlib.Core.List.{append-nil}
use recovery_stencil.Prelude.{
  ℕ, ◌/◌, ◌≡◌, refl, some, List, [], ◌++◌, arith, length, replicate, length-append, take-append,
  drop-append,
}
use recovery_stencil.Prelude.Int.{IsInt64}
use recovery_stencil.Entry.Varint.{varint}
use recovery_stencil.Entry.Varint.RoundTrip.{varint-put_varint}
use recovery_stencil.Entry.{Entry, marshal, unmarshal_entry}

-- Key and value are values of `int64`.
pub record InRange (e : Entry) : Type 0 where
  pub key : IsInt64 e.key
  pub value : IsInt64 e.value

unmarshal_halves :
    (a b : List ℕ)
    → length a ≡ 10
    → length b ≡ 10
    → unmarshal_entry (a ++ b) ≡ record { key = varint a; value = varint b }
unfolding unmarshal_entry
unmarshal_halves a b ha hb =
    let half : length (a ++ b) / 2 ≡ length a = omega (arith, length-append a b) in
    rw (half, take-append, drop-append)

-- Every entry of two int64 values marshals to 20 bytes, without a panic, and unmarshals to
-- itself.
pub unmarshal_entry-marshal :
    (e : Entry)
    → InRange e
    → (out : List ℕ) × (marshal e ≡ some out) × (length out ≡ 20) × (unmarshal_entry out ≡ e)
unfolding marshal
unmarshal_entry-marshal e h =
    let (a, run_a, len_a, back_a) = varint-put_varint (replicate 10 0) [] e.key refl h.key in
    let (b, run_b, len_b, back_b) = varint-put_varint (replicate 10 0) [] e.value refl h.value in
    let read_a : varint a ≡ e.key = rw append-nil at back_a in
    let read_b : varint b ≡ e.value = rw append-nil at back_b in
    (
      a ++ b,
      rw (run_a, run_b),
      omega (arith, length-append a b),
      rw (unmarshal_halves a b len_a len_b, read_a, read_b),
    )
