-- ===== src/Server/Budget/Laws.antt =====
-- What the budget for large adds guarantees.
use download_gateway.Prelude.{ℕ, ◌+◌, ◌≤◌, ◌<◌, none, some, ◌≡◌, ◌↔◌, arith}
use download_gateway.Prelude.Int.{ℤ, pos, negsuc}
use download_gateway.Server.Budget.{
  max_add_body, add_body_budget, small_add_body, reserved, admit_add, release_add,
}

-- When what is in flight is within the budget, an admitted add keeps it there, reserves at most the
-- largest body, and gives back all that it reserved.
pub admit_add-within :
    (n : ℤ) (in_flight after amount : ℕ)
    → in_flight ≤ add_body_budget
    → admit_add n in_flight ≡ some (after, amount)
    → (after ≤ add_body_budget) × (amount ≤ max_add_body) × (release_add amount after ≡ in_flight)
unfolding admit_add release_add
admit_add-within (pos n) in_flight after amount b h = ground arith
admit_add-within (negsuc n) in_flight after amount b h = ground arith

-- A declared length that is not that of a small body; a negative one is undeclared.
abbrev pub IsLarge : ℤ → Type 0
IsLarge (pos n) = small_add_body < n
IsLarge (negsuc n) = Unit

-- An add is refused exactly when its body is not small and does not fit next to those in flight,
-- where an undeclared or too long body counts as the largest.
admit_add-refused_iff :
    (n : ℤ) (in_flight : ℕ)
    → (admit_add n in_flight ≡ none) ↔ (IsLarge n × (add_body_budget < in_flight + reserved n))
unfolding admit_add
admit_add-refused_iff (pos n) in_flight = ground arith
admit_add-refused_iff (negsuc n) in_flight = ground arith
