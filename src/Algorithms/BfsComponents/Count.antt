-- ===== src/Algorithms/BfsComponents/Count.antt =====
-- osrm-backend/algorithms/bfs_components.hpp: how many nodes have an index.
use maiden.Prelude.{
  ℕ, zero, suc, ◌+◌, ◌≤◌, ◌<◌, ◌≡◌, ◌≢◌, refl, ap, Bool, ◌==◌, if◌then◌else◌, arith, Bool-cases,
  inl, inr,
}
use maiden.Algorithms.BfsComponents.{set_index}

abbrev pub one_if : Bool → ℕ
one_if b = if b then 1 else 0

-- How many of the first nodes have the index.
unfoldable pub count : (ℕ → ℕ) → ℕ → ℕ → ℕ
count index c zero = 0
count index c (suc n) = count index c n + one_if (index n == c)

pub count-le : (index : ℕ → ℕ) (c n : ℕ) → count index c n ≤ n
unfolding count
count-le index c zero = omega arith
count-le index c (suc n) = ground (arith, count-le index c n)

pub count-cong :
    (f g : ℕ → ℕ) (c n : ℕ) → ((x : ℕ) → (f x == c) ≡ (g x == c)) → count f c n ≡ count g c n
unfolding count
count-cong f g c zero same = refl
count-cong f g c (suc n) same = ground (arith, count-cong f g c n same, same n)

count-above :
    (index : ℕ → ℕ) (c w x n : ℕ) → n ≤ w → count (set_index index w x) c n ≡ count index c n
unfolding count
count-above index c w x zero le = refl
count-above index c w x (suc n) le = ground (arith, count-above index c w x n)

-- Setting one index moves a node from one count to the other.
pub count-set_index :
    (index : ℕ → ℕ) (c w x n : ℕ)
    → w < n
    → count (set_index index w x) c n + one_if (index w == c) ≡ count index c n + one_if (x == c)
unfolding count
count-set_index index c w x zero lt = absurd (omega arith)
count-set_index index c w x (suc n) lt = elim (Bool-cases (w == n)) [
  | inl here ↦
      let at : w ≡ n = ground arith in
      let value : index w ≡ index n = ap index at in
      ground (arith, count-above index c w x n (omega arith), value)
  | inr apart ↦ ground (arith, count-set_index index c w x n (ground arith))
]

pub count-none : (index : ℕ → ℕ) (c n : ℕ) → ((x : ℕ) → index x ≢ c) → count index c n ≡ 0
unfolding count
count-none index c zero h = refl
count-none index c (suc n) h = ground (arith, count-none index c n h, h n)
