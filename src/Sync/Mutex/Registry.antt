-- ===== src/Sync/Mutex/Registry.antt =====
-- The registered list of mutexes of sync.c: creation keeps it a null-terminated list, and
-- `sync_invariant_check` over it.
use just_rt.Common.{
  ℕ, zero, suc, ◌+◌, ◌<◌, ◌≡◌, ◌≢◌, ◌⊎◌, inl, inr, refl, true, false, arith, ◌==◌, ◌!=◌, ◌||◌, leb,
  if◌then◌else◌, update, Bool-cases, ==_refl, ==_of_ne, update_same, u32_max, Option, none, some,
  List, [], ◌∷◌, length, fun_ext,
}
use just_rt.Kernel.{Kernel}
use just_rt.Kernel.Objects
use just_rt.Kernel.InvariantCode
use just_rt.Intrusive.{cycle_from}
use just_rt.Intrusive.Chain.{Chain, contains, linked_from_lem, Chain-update}
use just_rt.Intrusive.Cycle.{cycle_from_sound}
use just_rt.Sync.Mutex.{set_mutex, create, link, is_linked}
use just_rt.Sync.Mutex.State.{MutexOk}

-- The tests that the second loop of `sync_invariant_check` makes of one mutex.
unfoldable pub mutex_code : ℕ → Objects.Mutex → ℕ
mutex_code task_count v =
    if v.locked == 0
    then (if (v.owner != u32_max) || (v.recursion != 0)
        then InvariantCode.mutex_unlocked_state
        else InvariantCode.ok)
    else (if leb task_count v.owner
        then InvariantCode.mutex_owner
        else (if v.recursion == 0 then InvariantCode.mutex_recursion else InvariantCode.ok))

-- The second loop, with the rounds allowed (`none` if they do not suffice).
unfoldable pub scan_mutexes : (ℕ → Objects.Mutex) → ℕ → ℕ → ℕ → Option (ℕ × ℕ)
scan_mutexes mutexes task_count zero p = none
scan_mutexes mutexes task_count (suc fuel) p =
    let rest = scan_mutexes mutexes task_count fuel (mutexes p).next in
    let code = mutex_code task_count (mutexes p) in
    if p == 0
    then some (InvariantCode.ok, 0)
    else (if code == InvariantCode.ok then rest else some (code, p))

-- `sync_invariant_check`: the code, and the object stored through `object`.
unfoldable pub sync_invariant_check : Kernel → ℕ → Option (ℕ × ℕ)
sync_invariant_check k task_count =
    elim (cycle_from (λ p. (k.mutexes p).next) (k.mutex_nodes + 1) k.mutex_list k.mutex_list) [
      | none ↦ none
      | some (some p) ↦ some (InvariantCode.mutex_list_cycle, p)
      | some none ↦ scan_mutexes k.mutexes task_count (k.mutex_nodes + 1) k.mutex_list
    ]

-- `xs` are the registered mutexes in the order of their links.
pub record Registered (k : Kernel) (xs : List ℕ) : Type 0 where
  pub chain : Chain (λ p. (k.mutexes p).next) k.mutex_list xs
  pub counted : k.mutex_nodes ≡ length xs

pub is_linked-contains :
    (k : Kernel) (m : ℕ) (xs : List ℕ) → Registered k xs → is_linked k m ≡ contains xs m
unfolding is_linked
is_linked-contains k m xs r =
    linked_from_lem (λ p. (k.mutexes p).next) m k.mutex_list k.mutex_nodes xs r.chain
      (omega (arith, r.counted))

next-set_mutex :
    (k : Kernel) (m : ℕ) (v : Objects.Mutex)
    → (λ p. ((set_mutex k m v).mutexes p).next) ≡ update (λ p. (k.mutexes p).next) m v.next
next-set_mutex k m v = fun_ext (λ p. ground arith)

-- Writing a mutex that is not registered, or leaves its link.
set_mutex-Registered :
    (k : Kernel) (m : ℕ) (v : Objects.Mutex) (xs : List ℕ)
    → (contains xs m ≡ false) ⊎ (v.next ≡ (k.mutexes m).next)
    → Registered k xs
    → Registered (set_mutex k m v) xs
set_mutex-Registered k m v xs (inl new) r = record {
  chain =
      rw (next-set_mutex k m v)
        (Chain-update (λ p. (k.mutexes p).next) k.mutex_list m v.next xs new r.chain);
  counted = r.counted;
}
set_mutex-Registered k m v xs (inr e) r = record {
  chain = rw (next-set_mutex k m v, e, update_same (λ p. (k.mutexes p).next) m) r.chain;
  counted = r.counted;
}

link-Registered :
    (k : Kernel) (m : ℕ) (xs : List ℕ)
    → m ≢ 0
    → Registered k xs
    → Registered (link k m) (if contains xs m then xs else m ∷ xs)
unfolding link
link-Registered k m xs h r = rw (is_linked-contains k m xs r) (elim (Bool-cases (contains xs m)) [
  | inl old ↦ rw old r
  | inr new ↦
      let linked =
        set_mutex-Registered k m (record (k.mutexes m) { next = k.mutex_list }) xs (inl new) r in
      rw new (record {
        chain = (refl, h, rw (==_refl m) linked.chain);
        counted = omega (arith, r.counted);
      })
])

-- `JRT_MutexCreateRecursiveStatic` keeps the registered list null-terminated and counted: a mutex
-- that is in it stays at its place, another one becomes its head.
pub create-Registered :
    (k : Kernel) (m : ℕ) (xs : List ℕ)
    → m ≢ 0
    → Registered k xs
    → Registered (create k m) (if contains xs m then xs else m ∷ xs)
unfolding create
create-Registered k m xs h r =
    let next : ℕ = if is_linked k m then (k.mutexes m).next else 0 in
    let v : Objects.Mutex = record { locked = 0; owner = u32_max; recursion = 0; next = next } in
    link-Registered (set_mutex k m v) m xs h
      (set_mutex-Registered k m v xs (keeps (Bool-cases (contains xs m))) r)
  where
    keeps :
        (contains xs m ≡ true) ⊎ (contains xs m ≡ false)
        → (contains xs m ≡ false)
          ⊎ ((if is_linked k m then (k.mutexes m).next else 0) ≡ (k.mutexes m).next)
    keeps (inl old) = inr (rw (is_linked-contains k m xs r, old))
    keeps (inr new) = inl new

mutex_code-ok :
    (task_count : ℕ) (v : Objects.Mutex) → MutexOk task_count v → mutex_code task_count v ≡ 0
unfolding mutex_code
mutex_code-ok task_count v h = ground arith

-- Every mutex of the list is in an accepted state.
abbrev pub AllOk : ℕ → (ℕ → Objects.Mutex) → List ℕ → Type 0
AllOk task_count mutexes [] = Unit {0}
AllOk task_count mutexes (x ∷ xs) = MutexOk task_count (mutexes x) × AllOk task_count mutexes xs

scan_mutexes-ok :
    (mutexes : ℕ → Objects.Mutex) (task_count fuel p : ℕ) (xs : List ℕ)
    → Chain (λ q. (mutexes q).next) p xs
    → length xs < fuel
    → AllOk task_count mutexes xs
    → scan_mutexes mutexes task_count fuel p ≡ some (0, 0)
unfolding scan_mutexes
scan_mutexes-ok mutexes task_count zero p xs c h v = absurd (omega arith)
scan_mutexes-ok mutexes task_count (suc fuel) p [] c h v = rw c
scan_mutexes-ok mutexes task_count (suc fuel) p (x ∷ xs) (e, ne, c) h v =
    rw (e, ==_of_ne x 0 ne, mutex_code-ok task_count (mutexes x) v.0)
      (scan_mutexes-ok mutexes task_count fuel (mutexes x).next xs c (omega arith) v.1)

-- `sync_invariant_check` ends and reports nothing, if the registered list is null-terminated and
-- all its mutexes are in an accepted state.
pub sync_invariant_check-ok :
    (k : Kernel) (task_count : ℕ) (xs : List ℕ)
    → Registered k xs
    → AllOk task_count k.mutexes xs
    → sync_invariant_check k task_count ≡ some (InvariantCode.ok, 0)
unfolding sync_invariant_check
sync_invariant_check-ok k task_count xs r v =
    rw
      (
        cycle_from_sound (λ p. (k.mutexes p).next) k.mutex_list (k.mutex_nodes + 1) xs r.chain
            (omega (arith, r.counted)),
        sync_invariant_check,
      )
      (scan_mutexes-ok k.mutexes task_count (k.mutex_nodes + 1) k.mutex_list xs r.chain
        (omega (arith, r.counted)) v)
