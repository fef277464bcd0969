-- ===== src/Common/Numbers.antt =====
-- Little-endian fields in a memory of bytes, and the rows of a table that is stored in one piece.
use Prim.Native.Nat.{ℕ, ◌+◌, ◌*◌, ◌^◌, ◌<◌, ◌≤◌}
use native.Mathlib.Omega.{arith}

abbrev pub le16 : (ℕ → ℕ) → ℕ → ℕ
le16 m a = m a + 256 * m (a + 1)

abbrev pub le32 : (ℕ → ℕ) → ℕ → ℕ
le32 m a = le16 m a + 65536 * le16 m (a + 2)

abbrev pub le64 : (ℕ → ℕ) → ℕ → ℕ
le64 m a = le32 m a + 2 ^ 32 * le32 m (a + 4)

-- A row ends before a later one begins.
pub row_below : (i e width : ℕ) → i < e → i * width + width ≤ e * width
row_below i e width lt = grind arith
