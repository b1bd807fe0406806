-- ===== src/Base/Int.antt =====
-- Signed changes of a count.
use dreamux.Base.{ℕ, suc, ◌+◌, ◌-◌, ◌≡◌}

-- `negsuc n` is -(n + 1).
pub data ℤ : Type 0 where
  pos : ℕ → ℤ
  negsuc : ℕ → ℤ

-- A total after a change that it covers.
abbrev pub changed_by : ℕ → ℤ → ℕ
changed_by total (pos n) = total + n
changed_by total (negsuc n) = total - suc n

-- Of two costs, the second is the first and the change.
abbrev pub IsChanged : ℕ → ℤ → ℕ → Type 0
IsChanged before (pos n) after = after ≡ before + n
IsChanged before (negsuc n) after = after + suc n ≡ before
