-- ===== src/Entry/Varint/RoundTrip.antt =====
-- encoding/binary: PutVarint followed by Varint.
use recovery_stencil.Prelude.{
  ℕ, ◌+◌, ◌*◌, ◌/◌, ◌%◌, ◌^◌, ◌<◌, ◌≡◌, refl, ap, some, List, [], ◌∷◌, ◌++◌, arith, length, inl,
  inr, Bool-cases, ltb,
}
use native.Mathlib.Nat.{pow-suc}
use native.Mathlib.Numerals.{towards_suc}
use recovery_stencil.Prelude.Int.{ℤ, pos, negsuc, IsInt64}
use recovery_stencil.Entry.Varint.{zigzag, unzigzag, put_uvarint, put_varint, uvarint_from, varint}

zigzag-lt : (x : ℤ) → IsInt64 x → zigzag x < 2 ^ 64
unfolding zigzag
zigzag-lt (pos n) h = omega arith
zigzag-lt (negsuc n) h = omega arith

unzigzag-zigzag : (x : ℤ) → IsInt64 x → unzigzag (zigzag x) ≡ x
unfolding zigzag unzigzag
unzigzag-zigzag (pos n) h = ground arith
unzigzag-zigzag (negsuc n) h = ground arith

split_product : (x m : ℕ) → x * m ≡ x / 128 * (m * 128) + x % 128 * m
split_product x m =
    let e : x ≡ 128 * (x / 128) + x % 128 = omega arith in omega (arith, ap (λ (t : ℕ). t * m) e)

-- at the tenth byte seven bits times nine are used up, and one is left
last_byte : (i m x : ℕ) → i ≡ 9 → m ≡ 128 ^ i → x * m < 2 ^ 64 → x < 2
last_byte i m x hi hm hx =
    let e : m ≡ 2 ^ 63 = rw (hm, hi) in let h : x * 2 ^ 63 < 2 ^ 64 = rw (← e) hx in omega arith

next_power : (i m : ℕ) → m ≡ 128 ^ i → m * 128 ≡ 128 ^ (i + 1)
next_power i m hm = simp (towards_suc, pow-suc) (omega (arith, hm))

uvarint_from-put_uvarint :
    (buf rest : List ℕ) (i m x acc : ℕ)
    → i + length buf ≡ 10
    → m ≡ 128 ^ i
    → 0 < length buf
    → x * m < 2 ^ 64
    → (out : List ℕ) × (put_uvarint buf x ≡ some out)
      × (length out ≡ length buf)
      × (uvarint_from i m acc (out ++ rest) ≡ acc + x * m)
unfolding put_uvarint uvarint_from
uvarint_from-put_uvarint [] rest i m x acc hi hm hl hx = absurd (omega arith)
uvarint_from-put_uvarint (b ∷ buf) rest i m x acc hi hm hl hx = elim (Bool-cases (ltb x 128)) [
  | inl small ↦ (x ∷ buf, rw small, omega arith, ground (arith, last_byte i m x))
  | inr big ↦
      let room : 0 < length buf = ground (arith, last_byte i m x) in
      let fits : x / 128 * (m * 128) < 2 ^ 64 = omega (arith, split_product x m) in
      let (out, run, len, back) =
        uvarint_from-put_uvarint buf rest (i + 1) (m * 128) (x / 128) (acc + x % 128 * m % 2 ^ 64)
          (omega arith) (next_power i m hm) room fits in
      ((x % 128 + 128) ∷ out, rw (big, run), omega arith, ground (arith, back, split_product x m))
]

-- What PutVarint writes at the front of a ten-byte buffer, Varint reads, whatever follows.
pub varint-put_varint :
    (buf rest : List ℕ) (x : ℤ)
    → length buf ≡ 10
    → IsInt64 x
    → (out : List ℕ) × (put_varint buf x ≡ some out)
      × (length out ≡ 10)
      × (varint (out ++ rest) ≡ x)
unfolding put_varint varint
varint-put_varint buf rest x h hx =
    let (out, run, len, back) =
      uvarint_from-put_uvarint buf rest 0 1 (zigzag x) 0 (omega arith) refl (omega arith)
        (omega (arith, zigzag-lt x hx)) in
    let e : uvarint_from 0 1 0 (out ++ rest) ≡ zigzag x = omega arith in
    (out, run, omega arith, rw e (unzigzag-zigzag x hx))
