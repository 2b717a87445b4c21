-- ===== src/Entry/Varint.antt =====
-- Go's encoding/binary, as far as the source uses it: signed variable-length integers of an `int64`
-- in a buffer of `binary.MaxVarintLen64` bytes. A byte is a number below 256.
pub mod RoundTrip
use mathlib.Core.Option
use recovery_stencil.Prelude.{
  ℕ, suc, ◌+◌, ◌-◌, ◌*◌, ◌/◌, ◌%◌, ◌^◌, Option, none, some, List, [], ◌∷◌, ltb, if◌then◌else◌, ◌==◌,
  ◌&&◌,
}
use recovery_stencil.Prelude.Int.{ℤ, pos, negsuc}

-- binary.MaxVarintLen64
abbrev pub max_varint_len : ℕ
max_varint_len = 10

-- uint64(x) << 1, with all bits flipped where x < 0
unfoldable pub zigzag : ℤ → ℕ
zigzag (pos n) = 2 * n % 2 ^ 64
zigzag (negsuc n) = 2 ^ 64 - 1 - 2 * (2 ^ 64 - 1 - n) % 2 ^ 64

-- int64(ux >> 1), with all bits flipped where ux is odd
unfoldable pub unzigzag : ℕ → ℤ
unzigzag ux = if ux % 2 == 0 then pos (ux / 2) else negsuc (ux / 2)

-- binary.PutUvarint: the buffer with the code written over its front; a short buffer panics
unfoldable pub put_uvarint : List ℕ → ℕ → Option (List ℕ)
put_uvarint [] x = none
put_uvarint (b ∷ buf) x =
    let rest = put_uvarint buf (x / 128) in
    if ltb x 128 then some (x ∷ buf) else Option.map (λ t. (x % 128 + 128) ∷ t) rest

unfoldable pub put_varint : List ℕ → ℤ → Option (List ℕ)
unfolding put_uvarint zigzag
put_varint buf x = put_uvarint buf (zigzag x)

-- binary.Uvarint from byte number i, with x read so far and m = 2 ^ s; on an overflow, or when the
-- buffer ends within a number, the value is 0. The bits of x are below those of b << s, so that the
-- source's `|` is a sum.
unfoldable pub uvarint_from : ℕ → ℕ → ℕ → List ℕ → ℕ
uvarint_from i m x [] = 0
uvarint_from i m x (b ∷ buf) =
    let rest = uvarint_from (i + 1) (m * 128) (x + b % 128 * m % 2 ^ 64) buf in
    if i == 10
    then 0
    else if ltb b 128
    then (if (i == 9) && ltb 1 b then 0 else x + b * m % 2 ^ 64)
    else rest

-- binary.Varint, whose second result the source ignores
unfoldable pub varint : List ℕ → ℤ
unfolding uvarint_from unzigzag
varint buf = unzigzag (uvarint_from 0 1 0 buf)
