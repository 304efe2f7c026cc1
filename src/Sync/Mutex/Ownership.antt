-- ===== src/Sync/Mutex/Ownership.antt =====
-- Who owns a mutex of sync.c after a lock and an unlock.
use just_rt.Common.{ℕ, ◌<◌, ◌≡◌, ◌⊎◌, inl, inr, refl, true, arith, ◌!=◌, update, u32_max}
use just_rt.Kernel.{Kernel}
use just_rt.Kernel.WaitKind
use just_rt.Wait.{wait_end}
use just_rt.Wait.Select.{IsBest, NoWaiter}
use just_rt.Wait.Wake.{wake_get_id_lem}
use just_rt.Priority.{restore_priority}
use just_rt.Priority.Unchanged.{
  OnlyPriorities, OnlyPriorities-trans, restore_priority-OnlyPriorities,
}
use just_rt.Sync.Mutex.{set_mutex, hand_over, release}

-- What the last unlock leaves: `r` is the kernel after it.
pub record HandedTo (k r : Kernel) (m s : ℕ) : Type 0 where
  pub best : IsBest k.tasks m WaitKind.mutex k.task_count s
  pub owned :
      r.mutexes ≡ update k.mutexes m (record (k.mutexes m) { owner = s; locked = 1; recursion = 1 })
  pub woken : OnlyPriorities (wait_end k s 1).tasks r.tasks
  pub frame : r ≡ record k { tasks = r.tasks; mutexes = r.mutexes }

pub record Freed (k r : Kernel) (m : ℕ) : Type 0 where
  pub quiet : NoWaiter k.tasks m WaitKind.mutex k.task_count
  pub free :
      r.mutexes
      ≡ update k.mutexes m (record (k.mutexes m) { owner = u32_max; locked = 0; recursion = 0 })
  pub alone : OnlyPriorities k.tasks r.tasks
  pub frame : r ≡ record k { tasks = r.tasks; mutexes = r.mutexes }

-- The last unlock of a mutex hands it to the highest-priority waiter, whose wait ends with result
-- 1 and who then owns it once, or frees it if no configured task waits for it. Nothing else of any
-- task changes but effective priorities, and nothing else of the kernel changes.
pub release_lem :
    (k : Kernel) (m : ℕ)
    → k.task_count < 4294967296
    → ((s : ℕ) × HandedTo k (release k m) m s) ⊎ Freed k (release k m) m
unfolding release hand_over
release_lem k m h = elim (wake_get_id_lem k m WaitKind.mutex) [
  | inl (e, quiet) ↦ inr (
      rw (e, release)
        (record {
          quiet = quiet;
          free = refl;
          alone = restore_priority-OnlyPriorities (hand_over k m u32_max) (k.mutexes m).owner;
          frame = refl;
        }))
  | inr (s, e, best) ↦
      let n : (s != u32_max) ≡ true = ground (arith, best.inside) in
      let given =
        set_mutex (wait_end k s 1) m
          (record (k.mutexes m) { owner = s; locked = 1; recursion = 1 }) in
      inl (
        s,
        rw (e, release, n)
            (record {
              best = best;
              owned = refl;
              woken =
                  OnlyPriorities-trans (restore_priority-OnlyPriorities given (k.mutexes m).owner) (
                    restore_priority-OnlyPriorities (restore_priority given (k.mutexes m).owner) s);
              frame = refl;
            }),
      )
]
