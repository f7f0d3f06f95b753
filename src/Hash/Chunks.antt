-- ===== src/Hash/Chunks.antt =====
-- The chunks of 10240 bytes in which `GetDataCRC32`, `GetDataMD5` and `GetDataSHA1` read a text.
use ashe.Base.{ℕ, ◌+◌, ◌-◌, ◌≤◌, ◌<◌, Bool-cases, inl, inr, ltb, ltb→lt, if◌then◌else◌, arith}

-- What is read at an offset of a text of this size.
abbrev pub chunk : ℕ → ℕ → ℕ
chunk size offset = if ltb size (offset + 10240) then size - offset else 10240

pub chunk_within :
    (size offset : ℕ)
    → offset < size
    → (0 < chunk size offset) × (offset + chunk size offset ≤ size) × (chunk size offset < 10241)
chunk_within size offset more = elim (Bool-cases (ltb size (offset + 10240))) [
  | inl last ↦
      let less = ltb→lt size (offset + 10240) last in
      simp last (omega (arith, more), omega (arith, more), omega (arith, less))
  | inr full ↦ simp full (omega arith, ground (arith, full), omega arith)
]
