-- ===== src/System/Mutexes.antt =====
-- The calls of mutexes of sync.c keep the state of the whole kernel.
use just_rt.Common.{
  ==→eq, subst, ℕ, ◌<◌, ◌≡◌, ◌≢◌, ◌⊎◌, inl, inr, true, ◌==◌, if◌then◌else◌, if_intro, u32_max,
  arith, refl, List, [], ◌∷◌, Bool-cases, ◌∙◌, sym, fun_ext,
}
use just_rt.Kernel.{Kernel}
use just_rt.Kernel.Objects
use just_rt.Wait.{Deadline, outcome_kernel}
use just_rt.Intrusive.Chain.{contains}
use just_rt.Sync.Mutex.{create, link, is_linked, lock, unlock}
use just_rt.Sync.Mutex.State.{MutexOk, lock-MutexOk, unlock-MutexOk}
use just_rt.Sync.Mutex.Registry.{AllOk, create-Registered}
use just_rt.Sync.Mutex.Registry
use just_rt.System.Moves.{Moves-refl}
use just_rt.System.State.{
  idle_index, Moved, SameTimers, SystemOk, SystemOk-Moved, SameTimers-TimersOk,
}
use just_rt.System.Locked.{Locked, lock-Locked, unlock-Locked}

AllOk-map :
    (count count' : ℕ) (mutexes mutexes' : ℕ → Objects.Mutex) (xs : List ℕ)
    → ((p : ℕ) → MutexOk count (mutexes p) → MutexOk count' (mutexes' p))
    → AllOk count mutexes xs
    → AllOk count' mutexes' xs
AllOk-map count count' mutexes mutexes' [] f ok = tt
AllOk-map count count' mutexes mutexes' (x ∷ xs) f (v, ok) =
    (f x v, AllOk-map count count' mutexes mutexes' xs f ok)

AllOk-contains :
    (count : ℕ) (mutexes : ℕ → Objects.Mutex) (xs : List ℕ) (p : ℕ)
    → AllOk count mutexes xs
    → contains xs p ≡ true
    → MutexOk count (mutexes p)
AllOk-contains count mutexes [] p ok h = cc
AllOk-contains count mutexes (x ∷ xs) p (v, ok) h = elim (Bool-cases (x == p)) [
  | inl e ↦ subst (λ q. MutexOk count (mutexes q)) (==→eq x p e) v
  | inr e ↦ AllOk-contains count mutexes xs p ok (rw e at h)
]

Locked-SystemOk :
    (k k' : Kernel)
    → SystemOk k
    → Locked k k'
    → ((p : ℕ) → MutexOk k.task_count (k.mutexes p) → MutexOk k'.task_count (k'.mutexes p))
    → SystemOk k'
Locked-SystemOk k k' ok l f =
    let (xs, r, all) = ok.checked.mutexes in
    SystemOk-Moved k k' ok l.moved
      (
        xs,
        record { chain = rw (fun_ext l.next, l.list) r.chain; counted = l.nodes ∙ r.counted },
        AllOk-map k.task_count k'.task_count k.mutexes k'.mutexes xs f all,
      )
      (SameTimers-TimersOk k k' l.timers ok.checked.timers)

registered-MutexOk :
    (k : Kernel) (m : ℕ) → SystemOk k → is_linked k m ≡ true → MutexOk k.task_count (k.mutexes m)
registered-MutexOk k m ok h =
    let (xs, r, all) = ok.checked.mutexes in
    AllOk-contains k.task_count k.mutexes xs m all (sym (Registry.is_linked-contains k m xs r) ∙ h)

-- `JRT_MutexLock` of a registered mutex that is not held 2 ^ 32 - 1 times.
pub lock-SystemOk :
    (k : Kernel) (m timeout : ℕ) (d : Deadline)
    → SystemOk k
    → k.current ≢ idle_index k
    → m ≢ 0
    → is_linked k m ≡ true
    → (k.mutexes m).recursion < u32_max
    → SystemOk (outcome_kernel (lock k m timeout d))
lock-SystemOk k m timeout d ok hi hm linked hr =
    Locked-SystemOk k _ ok (lock-Locked k m timeout d hi hm)
      (λ p. lock-MutexOk k m timeout p d ok.inside hr (registered-MutexOk k m ok linked))

pub unlock-SystemOk :
    (k : Kernel) (m : ℕ) → SystemOk k → is_linked k m ≡ true → SystemOk (unlock k m).0
unlock-SystemOk k m ok linked =
    Locked-SystemOk k _ ok (unlock-Locked k m)
      (λ p. unlock-MutexOk k m p ok.size (registered-MutexOk k m ok linked))

create-MutexOk :
    (k : Kernel) (m p count : ℕ)
    → (p ≡ m) ⊎ MutexOk count (k.mutexes p)
    → MutexOk count ((create k m).mutexes p)
unfolding create link
create-MutexOk k m p count (inl e) =
    if_intro (λ (after : Kernel). MutexOk count (after.mutexes p)) (is_linked _ m)
      (λ _. ground (arith, e)) (λ _. ground (arith, e))
create-MutexOk k m p count (inr v) =
    if_intro (λ (after : Kernel). MutexOk count (after.mutexes p)) (is_linked _ m)
      (λ _. ground (arith, v)) (λ _. ground (arith, v))

create-Moved : (k : Kernel) (m : ℕ) → Moved k (create k m) × SameTimers k (create k m)
unfolding create link
create-Moved k m =
    if_intro (λ (after : Kernel). Moved k after × SameTimers k after) (is_linked _ m) (λ _. kept)
      (λ _. kept)
  where
    kept :
        {mutexes : ℕ → Objects.Mutex} {list nodes : ℕ}
        → let after : Kernel = record k {
          mutexes = mutexes;
          mutex_list = list;
          mutex_nodes = nodes;
        } in
          Moved k after × SameTimers k after
    kept = (
      record {
        tasks = Moves-refl (idle_index k) k.tasks;
        task_count = refl;
        application = refl;
        current = refl;
      },
      record { timers = refl; list = refl; nodes = refl },
    )

-- `JRT_MutexCreateRecursiveStatic`, also of a mutex that is registered already.
pub create-SystemOk : (k : Kernel) (m : ℕ) → SystemOk k → m ≢ 0 → SystemOk (create k m)
create-SystemOk k m ok hm =
    let (xs, r, all) = ok.checked.mutexes in
    let (moved, timers) = create-Moved k m in
    let kept : AllOk (create k m).task_count (create k m).mutexes xs =
      AllOk-map k.task_count _ k.mutexes _ xs
        (λ p v. create-MutexOk k m p _ (inr (rw moved.task_count v))) all in
    SystemOk-Moved k (create k m) ok moved
      (
        if contains xs m then xs else m ∷ xs,
        create-Registered k m xs hm r,
        if_intro (AllOk (create k m).task_count (create k m).mutexes) (contains xs m) (λ _. kept)
            (λ _. (create-MutexOk k m m _ (inl refl), kept)),
      )
      (SameTimers-TimersOk k (create k m) timers ok.checked.timers)
