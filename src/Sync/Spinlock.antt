-- ===== src/Sync/Spinlock.antt =====
-- `thread_func1` and `thread_func2` of sync/sync_lab3_spinlock.c, interleaved. `ldd_global_variable++` is a load and
-- a store.
use ldd_samples.Prelude.{ℕ, ◌≡◌, Bool, true, false}
use ldd_samples.Kernel.Word.{add64}

-- A thread is outside, or holds the lock before its load, before its store, or before its unlock.
pub data Thread : Type 0 where
  outside locked loaded stored : Thread

-- `ldd_spinlock` and `ldd_global_variable`; each thread's place, what it has loaded, and its finished rounds, as
-- an `unsigned long` would count them.
pub record Sys : Type 0 where
  pub ldd_spinlock : Bool
  pub ldd_global_variable : ℕ
  pub thread1 : Thread
  pub thread2 : Thread
  pub loaded1 : ℕ
  pub loaded2 : ℕ
  pub rounds1 : ℕ
  pub rounds2 : ℕ

abbrev pub started : Sys
started = record {
  ldd_spinlock = false;
  ldd_global_variable = 0;
  thread1 = outside;
  thread2 = outside;
  loaded1 = 0;
  loaded2 = 0;
  rounds1 = 0;
  rounds2 = 0;
}

-- `spin_lock` gets the lock where it is free, and spins otherwise.
abbrev pub lock1 : Sys → Sys
lock1 s = record s { ldd_spinlock = true; thread1 = locked }

abbrev pub load1 : Sys → Sys
load1 s = record s { loaded1 = s.ldd_global_variable; thread1 = loaded }

abbrev pub store1 : Sys → Sys
store1 s = record s { ldd_global_variable = add64 s.loaded1 1; thread1 = stored }

abbrev pub unlock1 : Sys → Sys
unlock1 s = record s { ldd_spinlock = false; rounds1 = add64 s.rounds1 1; thread1 = outside }

abbrev pub lock2 : Sys → Sys
lock2 s = record s { ldd_spinlock = true; thread2 = locked }

abbrev pub load2 : Sys → Sys
load2 s = record s { loaded2 = s.ldd_global_variable; thread2 = loaded }

abbrev pub store2 : Sys → Sys
store2 s = record s { ldd_global_variable = add64 s.loaded2 1; thread2 = stored }

abbrev pub unlock2 : Sys → Sys
unlock2 s = record s { ldd_spinlock = false; rounds2 = add64 s.rounds2 1; thread2 = outside }

pub data Step : Sys → Sys → Type 0 where
  locks1 : (s : Sys) → s.thread1 ≡ outside → s.ldd_spinlock ≡ false → Step s (lock1 s)
  loads1 : (s : Sys) → s.thread1 ≡ locked → Step s (load1 s)
  stores1 : (s : Sys) → s.thread1 ≡ loaded → Step s (store1 s)
  unlocks1 : (s : Sys) → s.thread1 ≡ stored → Step s (unlock1 s)
  locks2 : (s : Sys) → s.thread2 ≡ outside → s.ldd_spinlock ≡ false → Step s (lock2 s)
  loads2 : (s : Sys) → s.thread2 ≡ locked → Step s (load2 s)
  stores2 : (s : Sys) → s.thread2 ≡ loaded → Step s (store2 s)
  unlocks2 : (s : Sys) → s.thread2 ≡ stored → Step s (unlock2 s)

pub data Reach (s : Sys) : Sys → Type 0 where
  here : Reach s s
  next : {t u : Sys} → Reach s t → Step t u → Reach s u
