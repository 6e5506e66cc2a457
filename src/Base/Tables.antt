-- ===== src/Base/Tables.antt =====
-- Tables of rows with a primary key: look up, overwrite and append.
use Prim.Native.Nat.{ℕ}
use mathlib.Core.Path.{◌≡◌, ap, refl}
use mathlib.Core.Bool.{Bool, true, false≢true}
use mathlib.Core.Logic.{◌⊎◌, inl, inr}
use mathlib.Core.Option
use mathlib.Core.Option.{Option, none, some, some-injective}
use mathlib.Core.List.{map, List, [], ◌∷◌, ◌++◌}
use native.Mathlib.Omega.{arith}
use agentops_workflow_platfo.Base.Tests.{◌==◌, ==→eq, if◌then◌else◌, is_some, Bool-cases}
use agentops_workflow_platfo.Base.Lists.{any}

module _ {ℓ} {R : Type ℓ} (key : R → ℕ) where
  -- SELECT ... WHERE id = i
  unfoldable pub find : ℕ → List R → Option R
  find i [] = none
  find i (r ∷ rs) = if key r == i then some r else find i rs

  -- UPDATE ... WHERE id = key r; a primary key names one row.
  unfoldable pub put : R → List R → List R
  put r [] = []
  put r (x ∷ xs) = if key x == key r then r ∷ xs else x ∷ put r xs

  pub find-key : (i : ℕ) (rs : List R) {r : R} → find i rs ≡ some r → key r ≡ i
  unfolding find
  find-key i [] h = absurd (false≢true (ap is_some h))
  find-key i (x ∷ xs) h = elim (Bool-cases (key x == i)) [
    | inl hit ↦ ground (arith, some-injective (rw hit at h), ==→eq (key x) i)
    | inr miss ↦ find-key i xs (rw miss at h)
  ]

  pub find-put :
      (j : ℕ) (r : R) (rs : List R)
      → find j (put r rs)
        ≡ (if key r == j then (if is_some (find j rs) then some r else none) else find j rs)
  unfolding find put
  find-put j r [] = ground arith
  find-put j r (x ∷ xs) = ground (arith, find-put j r xs)

  pub find-append :
      (j : ℕ) (rs : List R) (r : R)
      → find j (rs ++ r ∷ [])
        ≡ (if is_some (find j rs) then find j rs else if key r == j then some r else none)
  unfolding find
  find-append j [] r = ground arith
  find-append j (x ∷ xs) r = ground (arith, find-append j xs r)

  -- What is found after a write or an insertion is the new row, or was found before.
  pub find-put_cases :
      (j : ℕ) (r : R) (rs : List R) {t : R}
      → find j (put r rs) ≡ some t
      → ((key r ≡ j) × (r ≡ t)) ⊎ (find j rs ≡ some t)
  find-put_cases j r rs h = elim (Bool-cases (key r == j)) [
    | inl hit ↦ inl (==→eq (key r) j hit, ground (arith, find-put j r rs))
    | inr miss ↦ inr (ground (arith, find-put j r rs))
  ]

  pub find-append_cases :
      (j : ℕ) (rs : List R) (r : R) {t : R}
      → find j (rs ++ r ∷ []) ≡ some t
      → ((key r ≡ j) × (r ≡ t)) ⊎ (find j rs ≡ some t)
  find-append_cases j rs r h = elim (Bool-cases (is_some (find j rs))) [
    | inl old ↦ inr (ground (arith, find-append j rs r))
    | inr new ↦ elim (Bool-cases (key r == j)) [
      | inl hit ↦ inl (==→eq (key r) j hit, ground (arith, find-append j rs r))
      | inr miss ↦ absurd (ground (arith, find-append j rs r))
    ]
  ]

  -- A pass over the whole table that leaves the keys alone.
  pub find-map :
      (f : R → R)
      → ((r : R) → key (f r) ≡ key r)
      → (i : ℕ) (rs : List R) → find i (map f rs) ≡ Option.map f (find i rs)
  unfolding find
  find-map f k i [] = refl
  find-map f k i (x ∷ xs) = ground (arith, k x, find-map f k i xs)

-- A test that held of the row that is overwritten may hold after the write, and no other.
module _ {ℓ} {R : Type ℓ} (key : R → ℕ) (p : R → Bool) where
  pub any-find :
      (i : ℕ) (rs : List R) {x : R} → find key i rs ≡ some x → p x ≡ true → any p rs ≡ true
  unfolding find
  any-find i [] h t = cc
  any-find i (y ∷ ys) h t = elim (Bool-cases (key y == i)) [
    | inl hit ↦ ground (arith, some-injective (rw hit at h))
    | inr miss ↦ ground (arith, any-find i ys (rw miss at h) t)
  ]

  pub any-put :
      (r : R) (rs : List R) {x : R}
      → find key (key r) rs ≡ some x
      → (p r ≡ true → p x ≡ true)
      → any p (put key r rs) ≡ true
      → any p rs ≡ true
  unfolding find put
  any-put r [] h k t = cc
  any-put r (y ∷ ys) {x} h k t = elim (Bool-cases (key y == key r)) [
    | inl hit ↦ ground (arith, k, some-injective (rw hit at h))
    | inr miss ↦ ground (arith, any-put r ys {x = x} (rw miss at h) k)
  ]

  pub any-put_back :
      (r : R) (rs : List R) {x : R}
      → find key (key r) rs ≡ some x
      → (p x ≡ true → p r ≡ true)
      → any p rs ≡ true
      → any p (put key r rs) ≡ true
  unfolding find put
  any-put_back r [] h k t = cc
  any-put_back r (y ∷ ys) {x} h k t = elim (Bool-cases (key y == key r)) [
    | inl hit ↦ ground (arith, k, some-injective (rw hit at h))
    | inr miss ↦ ground (arith, any-put_back r ys {x = x} (rw miss at h) k)
  ]
