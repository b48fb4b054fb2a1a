-- ===== src/Gates/Tokens.antt =====
-- `mycdrv_read` and `mycdrv_write` of ioctl/lab4_semaphore.c and lab4_complete.c, interleaved: any number of
-- readers and writers. A semaphore and a completion both keep a count that a write raises and a reader that gets
-- through lowers.
use ldd_samples.Prelude.{
  ℕ, zero, suc, ◌+◌, ◌-◌, ◌≤◌, ◌≡◌, ◌≢◌, refl, ◌⊎◌, inl, inr, Bool, true, false, arith,
}

-- What the labs differ in: the count that `DEFINE_SEMAPHORE` and `DECLARE_COMPLETION` begin with, and whether a
-- signal ends the wait.
pub record Lab : Type 0 where
  pub begins_with : ℕ
  pub interruptible : Bool

abbrev pub semaphore_lab : Lab
semaphore_lab = record { begins_with = 1; interruptible = true }

abbrev pub complete_lab : Lab
complete_lab = record { begins_with = 0; interruptible = false }

-- The count, the readers in their wait, those that have got through and those that a signal sent back with
-- ERESTARTSYS, and the writes, those under way in front of their last call apart.
pub record Sys : Type 0 where
  pub count : ℕ
  pub waiting : ℕ
  pub passed : ℕ
  pub restarted : ℕ
  pub writing : ℕ
  pub writes : ℕ

abbrev pub loaded : Lab → Sys
loaded l = record {
  count = l.begins_with;
  waiting = 0;
  passed = 0;
  restarted = 0;
  writing = 0;
  writes = 0;
}

abbrev pub enter : Sys → Sys
enter s = record s { waiting = s.waiting + 1 }

-- `down_interruptible` or `wait_for_completion` gets a count.
abbrev pub take : Sys → Sys
take s = record s { count = s.count - 1; waiting = s.waiting - 1; passed = s.passed + 1 }

abbrev pub restart : Sys → Sys
restart s = record s { waiting = s.waiting - 1; restarted = s.restarted + 1 }

-- `mycdrv_generic_write`
abbrev pub begin_write : Sys → Sys
begin_write s = record s { writing = s.writing + 1 }

-- `up` or `complete`
abbrev pub post : Sys → Sys
post s = record s { count = s.count + 1; writing = s.writing - 1; writes = s.writes + 1 }

pub data Step (l : Lab) : Sys → Sys → Type 0 where
  enters : (s : Sys) → Step l s (enter s)
  takes : (s : Sys) → s.waiting ≢ 0 → s.count ≢ 0 → Step l s (take s)
  restarts : (s : Sys) → s.waiting ≢ 0 → l.interruptible ≡ true → Step l s (restart s)
  begins : (s : Sys) → Step l s (begin_write s)
  posts : (s : Sys) → s.writing ≢ 0 → Step l s (post s)

pub data Reach (l : Lab) (s : Sys) : Sys → Type 0 where
  here : Reach l s s
  next : {t u : Sys} → Reach l s t → Step l t u → Reach l s u

Step-count :
    {l : Lab} {s t : Sys} (n : ℕ)
    → Step l s t
    → s.passed + s.count ≡ s.writes + n
    → t.passed + t.count ≡ t.writes + n
Step-count n (enters s) e = e
Step-count n (takes s a b) e = omega (arith, b, e)
Step-count n (restarts s a b) e = e
Step-count n (begins s) e = e
Step-count n (posts s a) e = omega (arith, e)

Reach-count :
    (l : Lab) (t : Sys) → Reach l (loaded l) t → t.passed + t.count ≡ t.writes + l.begins_with
Reach-count l t here = refl
Reach-count l t (next r step) = Step-count l.begins_with step (Reach-count l _ r)

-- Through any interleaving from the load on, the readers that have got through are at most as many as the writes
-- that are over and the count that the lab begins with. None waits for nothing: either no reader waits, or as
-- many as that have got through, or a reader can take a count at once.
pub reads-counted :
    (l : Lab) (t : Sys)
    → Reach l (loaded l) t
    → (t.passed ≤ t.writes + l.begins_with)
      × ((t.waiting ≡ 0)
          ⊎ ((t.passed ≡ t.writes + l.begins_with)
              ⊎ ((u : Sys) × Step l t u × (u.passed ≡ t.passed + 1) × (u.waiting + 1 ≡ t.waiting))))
reads-counted l t r =
    let e = Reach-count l t r in (omega (arith, e), choose t.waiting t.count refl refl e)
  where
    choose :
        (w c : ℕ)
        → t.waiting ≡ w
        → t.count ≡ c
        → t.passed + t.count ≡ t.writes + l.begins_with
        → (t.waiting ≡ 0)
          ⊎ ((t.passed ≡ t.writes + l.begins_with)
              ⊎ ((u : Sys) × Step l t u × (u.passed ≡ t.passed + 1) × (u.waiting + 1 ≡ t.waiting)))
    choose zero c at left e = inl at
    choose (suc w) zero at left e = inr (inl (omega (arith, left, e)))
    choose (suc w) (suc c) at left e = inr (
        inr (
          take t,
          takes t (λ z. omega (arith, at, z)) (λ z. omega (arith, left, z)),
          refl,
          omega (arith, at),
        ))
