-- ===== src/Common/Store.antt =====
-- Memory: objects of one C type, by their addresses, and the `tasks` array by index.
use Prim.Native.Nat.{ℕ, suc}
use mathlib.Core.List.{List, [], ◌∷◌}
use mathlib.Core.Path.{◌≡◌, fun_ext}
use mathlib.Core.Logic.{◌≢◌, inl, inr}
use native.Mathlib.Omega.{arith}
use just_rt.Common.Tests.{◌==◌, if◌then◌else◌, Bool-cases}

module _ {ℓ} {A : Type ℓ} where
  abbrev pub update : (ℕ → A) → ℕ → A → ℕ → A
  update f p v q = if q == p then v else f q

  pub update_self : (f : ℕ → A) (p : ℕ) (v : A) → update f p v p ≡ v
  update_self f p v = ground arith

  pub update_ne : (f : ℕ → A) (p q : ℕ) (v : A) → q ≢ p → update f p v q ≡ f q
  update_ne f p q v h = ground arith

  pub update_same : (f : ℕ → A) (p : ℕ) → update f p (f p) ≡ f
  update_same f p = fun_ext (λ q. ground arith)

  -- A write keeps what holds of every object, if it holds of the value written.
  pub update-All {κ} :
      (P : A → Type κ) (f : ℕ → A) (p : ℕ) (v : A)
      → ((q : ℕ) → P (f q))
      → P v
      → (q : ℕ) → P (update f p v q)
  update-All P f p v h hv q = elim (Bool-cases (q == p)) [ inl e ↦ rw e hv | inr e ↦ rw e (h q) ]

module _ {ℓ} {A : Type ℓ} where
  abbrev pub length : List A → ℕ
  length [] = 0
  length (_ ∷ xs) = suc (length xs)
