-- ===== src/Entry.antt =====
-- pkg/entry/entry.go: key-value pairs and their serialized form of two ten-byte halves.
pub mod Varint
pub mod RoundTrip
pub mod Find
use recovery_stencil.Prelude.{
  ℕ, zero, suc, ◌/◌, Option, none, some, List, [], ◌++◌, length, take, drop, replicate, ◌>>=◌,
}
use recovery_stencil.Prelude.Int.{ℤ}
use recovery_stencil.Entry.Varint.{max_varint_len, put_varint, varint}

pub record Entry : Type 0 where
  pub key : ℤ
  pub value : ℤ

unfoldable pub new : ℤ → ℤ → Entry
new key value = record { key = key; value = value }

-- each half is written over a fresh buffer of zeros
unfoldable pub marshal : Entry → Option (List ℕ)
marshal entry = do
  newdata ← put_varint (replicate max_varint_len 0) entry.key
  bin ← put_varint (replicate max_varint_len 0) entry.value
  some (newdata ++ bin)

unfoldable pub unmarshal_entry : List ℕ → Entry
unmarshal_entry bytes = record {
  key = varint (take (length bytes / 2) bytes);
  value = varint (drop (length bytes / 2) bytes);
}
