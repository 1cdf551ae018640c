-- ===== src/Base/Int.antt =====
-- Python's integers: `negsuc n` is -(n + 1).
use pgs_search_engine.Base.Names.{ℕ}

pub data ℤ : Type 0 where
  pos : ℕ → ℤ
  negsuc : ℕ → ℤ

-- A positive number, or 0.
abbrev pub positive : ℤ → ℕ
positive (pos n) = n
positive (negsuc _) = 0
