-- ===== src/Prelude/Vectors.antt =====
-- A C++ vector as its size and what stands at each index. A slot past the end holds any value, as
-- an unchecked read in the source may find; theorems range over all of them.
use Prim.Native.Nat.{ℕ, ◌+◌, ◌-◌}
use maiden.Prelude.Tests.{◌==◌, if◌then◌else◌}

pub record Vector {ℓ} (A : Type ℓ) : Type ℓ where
  pub size : ℕ
  pub at : ℕ → A

module _ {ℓ} {A : Type ℓ} where
  -- `v[i] = x`
  abbrev pub write : Vector A → ℕ → A → Vector A
  write v i x = record v { at = λ j. if i == j then x else v.at j }

  abbrev pub push_back : Vector A → A → Vector A
  push_back v x = record { size = v.size + 1; at = λ j. if v.size == j then x else v.at j }

  abbrev pub pop_back : Vector A → Vector A
  pop_back v = record v { size = v.size - 1 }

  -- Only the size changes: what the new slots hold is left open.
  abbrev pub resize : Vector A → ℕ → Vector A
  resize v n = record v { size = n }
