-- ===== src/Adapters/Http/Laws.antt =====
-- Calls in sequence: what success says of their parts, and how many requests they make.
use native.Mathlib.Omega.{arith}
use download_gateway.Prelude.{
  ℕ, ◌+◌, ◌≤◌, Bool, true, false, Str, ◌≡◌, refl, if◌then◌else◌, inl, inr, ◌⊎◌, Bool-cases,
}
use download_gateway.Adapters.Failure.{Failure, Outcome, ok, fail}
use download_gateway.Adapters.Http.{
  Call, returns, raise, ◌>>=◌, proceed, named_result, named, attempt, lift,
}

pub Outcome-cases :
    {A : Type 0} (r : Outcome A) → ((a : A) × (r ≡ ok a)) ⊎ ((f : Failure) × (r ≡ fail f))
Outcome-cases (ok a) = inl (a, refl)
Outcome-cases (fail f) = inr (f, refl)

module _ {W : Type 0} where
  proceed-eq-ok :
      {A C : Type 0} (next : A → Call W C) (r : Outcome A × W) (c : C)
      → (proceed next r).0 ≡ ok c
      → (a : A) × (r.0 ≡ ok a) × ((next a r.1).0 ≡ ok c)
  proceed-eq-ok next (ok a, w) c h = (a, refl, h)
  proceed-eq-ok next (fail f, w) c h = absurd (cc)

  -- A sequence succeeds where both parts do.
  pub >>=-eq-ok :
      {A C : Type 0} (call : Call W A) (next : A → Call W C) (w : W) (c : C)
      → ((call >>= next) w).0 ≡ ok c
      → (a : A) × ((call w).0 ≡ ok a) × ((next a (call w).1).0 ≡ ok c)
  >>=-eq-ok call next w c h = proceed-eq-ok next (call w) c h

  named_result-eq-ok :
      {A : Type 0} (s : Str) (r : Outcome A × W) (a : A) → (named_result s r).0 ≡ ok a → r.0 ≡ ok a
  named_result-eq-ok s (ok a, w) c h = h
  named_result-eq-ok s (fail f, w) c h = absurd (cc)

  pub named-eq-ok :
      {A : Type 0} (s : Str) (call : Call W A) (w : W) (a : A)
      → (named s call w).0 ≡ ok a
      → (call w).0 ≡ ok a
  named-eq-ok s call w a h = named_result-eq-ok s (call w) a h

-- The requests that calls make, by a count of those sent.
module _ {W : Type 0} (sent : W → ℕ) where
  -- At most n requests, from any state.
  unfoldable pub Makes : {A : Type 0} → ℕ → Call W A → Type 0
  Makes n call = (w : W) → sent (call w).1 ≤ sent w + n

  proceed-Makes :
      {A C : Type 0} (n k : ℕ) (next : A → Call W C) (w : W) (r : Outcome A × W)
      → sent r.1 ≤ sent w + n
      → ((a : A) → Makes k (next a))
      → sent (proceed next r).1 ≤ sent w + (n + k)
  unfolding Makes
  proceed-Makes n k next w (ok a, v) h g = omega (arith, g a v)
  proceed-Makes n k next w (fail f, v) h g = omega (arith, h)

  pub >>=-Makes :
      {A C : Type 0} (n k : ℕ) (call : Call W A) (next : A → Call W C)
      → Makes n call
      → ((a : A) → Makes k (next a))
      → Makes (n + k) (call >>= next)
  unfolding Makes
  >>=-Makes n k call next h g w = proceed-Makes n k next w (call w) (h w) g

  named_result-Makes :
      {A : Type 0} (n : ℕ) (s : Str) (w : W) (r : Outcome A × W)
      → sent r.1 ≤ sent w + n
      → sent (named_result s r).1 ≤ sent w + n
  unfolding Makes
  named_result-Makes n s w (ok a, v) h = h
  named_result-Makes n s w (fail f, v) h = h

  pub named-Makes :
      {A : Type 0} (n : ℕ) (s : Str) (call : Call W A) → Makes n call → Makes n (named s call)
  unfolding Makes
  named-Makes n s call h w = named_result-Makes n s w (call w) (h w)

  pub if-Makes :
      {A : Type 0} (n : ℕ) (b : Bool) (yes_ no_ : Call W A)
      → Makes n yes_
      → Makes n no_
      → Makes n (if b then yes_ else no_)
  if-Makes n true yes_ no_ h g = h
  if-Makes n false yes_ no_ h g = g

  -- What makes none.
  pub returns-Makes : {A : Type 0} (n : ℕ) (a : A) → Makes n (returns a)
  unfolding Makes
  returns-Makes n a w = omega arith

  pub raise-Makes : (A : Type 0) (n : ℕ) (f : Failure) → Makes n (raise {A = A} f)
  unfolding Makes
  raise-Makes A n f w = omega arith

  pub lift-Makes : {A : Type 0} (n : ℕ) (r : Outcome A) → Makes n (lift r)
  unfolding Makes
  lift-Makes n r w = omega arith

  pub attempt-Makes : {A : Type 0} (n : ℕ) (call : Call W A) → Makes n call → Makes n (attempt call)
  unfolding Makes
  attempt-Makes n call h w = h w

  pub Makes-le : {A : Type 0} (n k : ℕ) (call : Call W A) → n ≤ k → Makes n call → Makes k call
  unfolding Makes
  Makes-le n k call le h w = omega (arith, h w)

  pub when-Makes :
      {A : Type 0} (n : ℕ) (test : W → Bool) (yes_ no_ : Call W A)
      → Makes n yes_
      → Makes n no_
      → Makes n (λ w. if test w then yes_ w else no_ w)
  unfolding Makes
  when-Makes n test yes_ no_ h g w = elim (Bool-cases (test w)) [
    | inl e ↦ rw (e) (h w)
    | inr e ↦ rw (e) (g w)
  ]
