-- ===== src/Intrusive/Chain.antt =====
-- A null-terminated list of nodes, and the membership walk over it.
use just_rt.Common.{
  ℕ, zero, suc, ◌≤◌, ◌≡◌, ◌≢◌, refl, ap, Bool, true, false, inl, inr, Bool-cases, arith, ◌==◌, ◌||◌,
  List, [], ◌∷◌, length, update,
}
use just_rt.Intrusive.{linked_from}

-- The nodes from `p` on are `xs`, and the last one's `next` is null.
abbrev pub Chain : (ℕ → ℕ) → ℕ → List ℕ → Type 0
Chain next p [] = p ≡ 0
Chain next p (x ∷ xs) = (p ≡ x) × (x ≢ 0) × Chain next (next x) xs

-- The test that a node is in a list.
abbrev pub contains : List ℕ → ℕ → Bool
contains [] a = false
contains (x ∷ xs) a = x == a || contains xs a

-- An address begins at most one chain.
pub Chain-unique :
    (next : ℕ → ℕ) (p : ℕ) (xs ys : List ℕ) → Chain next p xs → Chain next p ys → xs ≡ ys
Chain-unique next p [] [] u v = refl
Chain-unique next p [] (y ∷ ys) u (e, ne, v) = absurd (omega arith)
Chain-unique next p (x ∷ xs) [] (e, ne, u) v = absurd (omega arith)
Chain-unique next p (x ∷ xs) (y ∷ ys) (e, ne, u) (f, nf, v) =
    let q : y ≡ x = omega arith in
    rw q (ap (λ zs. x ∷ zs) (Chain-unique next (next x) xs ys u (rw q at v)))

-- Enough rounds are as many as there are nodes: the walk tells exactly the nodes of the chain.
pub linked_from_lem :
    (next : ℕ → ℕ) (object p fuel : ℕ) (xs : List ℕ)
    → Chain next p xs
    → length xs ≤ fuel
    → linked_from next object fuel p ≡ contains xs object
unfolding linked_from
linked_from_lem next object p zero [] c h = refl
linked_from_lem next object p (suc fuel) [] c h = rw c
linked_from_lem next object p zero (x ∷ xs) c h = absurd (omega arith)
linked_from_lem next object p (suc fuel) (x ∷ xs) (e, ne, c) h =
    ground (arith, linked_from_lem next object (next x) fuel xs c (omega arith))

-- A write to a node outside a chain leaves it a chain.
pub Chain-update :
    (next : ℕ → ℕ) (p q v : ℕ) (xs : List ℕ)
    → contains xs q ≡ false
    → Chain next p xs
    → Chain (update next q v) p xs
Chain-update next p q v [] n c = c
Chain-update next p q v (x ∷ xs) n (e, ne, c) =
    let apart : (x == q) ≡ false = ground arith in
    (e, ne, rw apart (Chain-update next (next x) q v xs (ground arith) c))

-- A node of a chain begins a chain that is no longer.
contains-Chain :
    (next : ℕ → ℕ) (p a : ℕ) (xs : List ℕ)
    → Chain next p xs
    → contains xs a ≡ true
    → (ys : List ℕ) × Chain next a ys × (length ys ≤ length xs)
contains-Chain next p a [] c h = absurd (ground arith)
contains-Chain next p a (x ∷ xs) (e, ne, c) h = elim (Bool-cases (x == a)) [
  | inl met ↦ let q : a ≡ x = ground arith in (x ∷ xs, (q, ne, c), omega arith)
  | inr apart ↦
      let (ys, d, l) = contains-Chain next (next x) a xs c (ground arith) in (ys, d, omega arith)
]

-- A node stands in a null-terminated list only once.
pub Chain-apart :
    (next : ℕ → ℕ) (p x : ℕ) (xs : List ℕ) → Chain next p (x ∷ xs) → contains xs x ≡ false
Chain-apart next p x xs (e, ne, c) = elim (Bool-cases (contains xs x)) [
  | inl again ↦
      let (ys, d, l) = contains-Chain next (next x) x xs c again in
      absurd (omega (arith, ap length (Chain-unique next x ys (x ∷ xs) d (refl, ne, c))))
  | inr apart ↦ apart
]
