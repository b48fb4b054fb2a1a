-- ===== src/Jiq/Filling.antt =====
-- How the runs of timers/lab8_jiq.c fill the page of the reader, and that they end.
use ldd_samples.Prelude.{
  ℕ, zero, suc, ◌+◌, ◌≤◌, ◌<◌, ◌≡◌, ◌≢◌, refl, Bool, true, false, arith, if◌then◌else◌,
}
use ldd_samples.Jiq.Client.{
  limit, Client, Line, jiq_print, Run, ended, queued, after_print, runs, prepared, timedout,
  read_run_timer,
}

-- A title and a line of less than 128 bytes each, and a line of one at least.
pub record IsLine (l : Line) : Type 0 where
  pub title : l.title < 128
  pub text : l.text < 128
  pub some_text : l.text ≢ 0

-- What was printed, and the 0 behind it, lies in the page, and the place to print at is behind it.
pub record IsPaged (c : Client) : Type 0 where
  pub place : c.buf ≡ c.len
  pub page : c.len + 1 ≤ 4096

pub jiq_print-IsPaged : (l : Line) (c : Client) → IsLine l → IsPaged c → IsPaged (jiq_print l c).0
unfolding jiq_print
jiq_print-IsPaged l c line paged = ground arith

-- A run prints a line, or finds the limit passed.
pub jiq_print-grows :
    (l : Line) (c : Client)
    → IsLine l
    → (jiq_print l c).1 ≡ true
    → c.len + 1 ≤ (jiq_print l c).0.len
unfolding jiq_print
jiq_print-grows l c line again = ground arith

pub jiq_print-stops :
    (l : Line) (c : Client) → (jiq_print l c).1 ≡ false → (limit < c.len) × ((jiq_print l c).0 ≡ c)
unfolding jiq_print
jiq_print-stops l c stop = ground arith

pub jiq_print-limit : (l : Line) (c : Client) → (jiq_print l c).1 ≡ true → c.len ≤ limit
unfolding jiq_print
jiq_print-limit l c again = ground arith

-- A run that has ended within the page, past the limit.
pub record IsFull (c : Client) : Type 0 where
  pub paged : IsPaged c
  pub past : limit < c.len

abbrev IsServed : Run → Type 0
IsServed (ended c) = IsFull c
IsServed (queued c) = ⊥

after_print-IsServed :
    (again : Client → Run) (c : Client) (r : Client × Bool)
    → (r.1 ≡ true → IsServed (again r.0))
    → (r.1 ≡ false → IsFull r.0)
    → IsServed (after_print again r)
unfolding after_print
after_print-IsServed again c (d, true) more stop = more refl
after_print-IsServed again c (d, false) more stop = stop refl

runs-IsServed :
    (fuel i : ℕ) (lines : ℕ → Line) (c : Client)
    → ((j : ℕ) → IsLine (lines j))
    → IsPaged c
    → limit + 2 ≤ fuel + c.len
    → fuel ≢ 0
    → IsServed (runs fuel i lines c)
unfolding runs
runs-IsServed zero i lines c all paged enough some_fuel = absurd (some_fuel refl)
runs-IsServed (suc fuel) i lines c all paged enough some_fuel =
    after_print-IsServed (λ c'. runs fuel (i + 1) lines c') c (jiq_print (lines i) c)
      (λ again.
        let grown = jiq_print-grows (lines i) c (all i) again in
        let room = jiq_print-limit (lines i) c again in
        runs-IsServed fuel (i + 1) lines (jiq_print (lines i) c).0 all
          (jiq_print-IsPaged (lines i) c (all i) paged) (omega arith) (omega arith))
      (λ stop.
        let full = jiq_print-stops (lines i) c stop in
        rw full.1 (record { paged = paged; past = full.0 }))

IsServed-ended : (r : Run) → IsServed r → (c : Client) × (r ≡ ended c) × IsFull c
IsServed-ended (ended c) full = (c, refl, full)
IsServed-ended (queued c) none = absurd none

-- Where every title and line has less than 128 bytes and every line has one, the runs that a read starts end
-- after 3970 at most; what was printed then is more than the limit, and lies in the page of the reader together
-- with the 0 behind it.
pub runs-IsFull :
    (fuel now delay : ℕ) (lines : ℕ → Line)
    → ((j : ℕ) → IsLine (lines j))
    → limit + 2 ≤ fuel
    → (c : Client) × (runs fuel 0 lines (prepared now delay) ≡ ended c) × IsFull c
runs-IsFull fuel now delay lines all enough =
    IsServed-ended (runs fuel 0 lines (prepared now delay)) (
      runs-IsServed fuel 0 lines (prepared now delay) all
        (record { place = refl; page = omega arith }) (omega arith) (omega arith))

-- A read through the timer returns a title and one line, and a second line where the timer expired, in the
-- page of the reader, for titles and lines of less than 128 bytes and lines of one at least.
pub read_run_timer-IsPaged :
    (now : ℕ) (expired : Bool) (first second : Line)
    → IsLine first
    → IsLine second
    → IsPaged (read_run_timer now expired first second)
      × ((read_run_timer now expired first second).len
          ≡ first.title + first.text + (if expired then second.text else 0))
unfolding read_run_timer timedout jiq_print
read_run_timer-IsPaged now expired first second one two = ground arith
