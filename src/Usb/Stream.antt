-- ===== src/Usb/Stream.antt =====
-- The reading side of usb/usb-skeleton.c as a stream of bytes: what the device sent, what the callers have
-- got, and what still lies in the buffer.
use ldd_samples.Prelude.{
  ℕ, ◌+◌, ◌-◌, ◌≤◌, ◌≡◌, refl, ap, ◌∙◌, Bool, true, false, Option, none, some, List, [], ◌∷◌, ◌++◌,
  append-nil, arith, ltb, ◌==◌, if-holds, min,
}
use ldd_samples.Kernel.{Errno, Ret, ret, fail}
use ldd_samples.Kernel.Memory.{Mem, CopyFn}
use ldd_samples.Kernel.Slice.{slice, slice-append, IsWhole, copied-slice}
use ldd_samples.Usb.Dev.{Dev}
use ldd_samples.Usb.Read.{
  Pass, retry, finished, pass, do_read_io, started, deliver, size_sub, after_errors, Turn, Outcome,
  waiting, returned, after_pass, round, read_rounds, read,
}
use ldd_samples.Usb.Invariant.{IsSound}
use ldd_samples.Usb.Rounds.{pass_dev, pass-IsKept, outcome_dev}

-- What is read ahead and not delivered yet.
unfoldable pub unread : Dev → List ℕ
unfolding slice
unread d = slice d.bulk_in_buffer d.bulk_in_copied (d.bulk_in_filled - d.bulk_in_copied)

-- What a caller has got.
unfoldable pub got : Mem → ℕ → Ret → List ℕ
unfolding slice
got user buffer (ret n) = slice user buffer n
got user buffer (fail e) = []

pass_got : ℕ → Pass → List ℕ
unfolding got
pass_got buffer (retry d) = []
pass_got buffer (finished d user r) = got user buffer r

unfoldable pub outcome_got : ℕ → Outcome → List ℕ
unfolding got
outcome_got buffer (waiting d) = []
outcome_got buffer (returned d user r) = got user buffer r

size_sub-le : (a b : ℕ) → b ≤ a → size_sub a b ≡ a - b
size_sub-le a b le = ground (arith, le)

pub empty-unread : (d : Dev) → d.bulk_in_filled - d.bulk_in_copied ≡ 0 → unread d ≡ []
unfolding unread
empty-unread d e = rw e refl

module _ (copy : CopyFn) (is_whole : IsWhole copy) where
  -- A read that starts anew loses nothing where nothing is left.
  started-stream :
      (submit : Option Errno) (d : Dev) (user : Mem) (buffer count : ℕ)
      → d.bulk_in_filled - d.bulk_in_copied ≡ 0
      → let p = started user (do_read_io submit count d) in
        unread d ≡ pass_got buffer p ++ unread (pass_dev p)
  unfolding do_read_io started pass_got got unread
  started-stream none d user buffer count nothing = rw nothing refl
  started-stream (some e) d user buffer count nothing = rw nothing refl

  read_ahead-unread :
      (submit : Option Errno) (d : Dev) (count : ℕ) → unread (do_read_io submit count d).0 ≡ []
  unfolding do_read_io unread
  read_ahead-unread none d count = refl
  read_ahead-unread (some e) d count = refl

  deliver-stream :
      (submit : Option Errno) (d : Dev) (user : Mem) (buffer count : ℕ)
      → d.bulk_in_copied ≤ d.bulk_in_filled
      → let p = deliver copy submit (d.bulk_in_filled - d.bulk_in_copied) d user buffer count in
        unread d ≡ pass_got buffer p ++ unread (pass_dev p)
  unfolding deliver pass_got got unread
  deliver-stream submit d user buffer count fits =
      let available : ℕ = d.bulk_in_filled - d.bulk_in_copied in
      let chunk : ℕ = min available count in
      rw
        (
          is_whole.whole user buffer d.bulk_in_buffer d.bulk_in_copied chunk,
          copied-slice copy is_whole user d.bulk_in_buffer buffer d.bulk_in_copied chunk,
        )
        (if-holds (λ d'. unread d ≡ slice d.bulk_in_buffer d.bulk_in_copied chunk ++ unread d')
          (ltb available count) _ _
          (λ more.
            rw
              (
                read_ahead-unread submit (record d { bulk_in_copied = d.bulk_in_copied + chunk })
                    (count - chunk),
                append-nil (slice d.bulk_in_buffer d.bulk_in_copied chunk),
              )
              (ap (slice d.bulk_in_buffer d.bulk_in_copied) (all_of more)))
          (λ _.
            ap (slice d.bulk_in_buffer d.bulk_in_copied) rest
            ∙ slice-append d.bulk_in_buffer d.bulk_in_copied chunk
                (d.bulk_in_filled - (d.bulk_in_copied + chunk))))
    where
      all_of :
          ltb (d.bulk_in_filled - d.bulk_in_copied) count ≡ true
          → d.bulk_in_filled - d.bulk_in_copied ≡ min (d.bulk_in_filled - d.bulk_in_copied) count
      all_of more = ground arith

      rest :
          let chunk = min (d.bulk_in_filled - d.bulk_in_copied) count in
          d.bulk_in_filled - d.bulk_in_copied
          ≡ chunk + (d.bulk_in_filled - (d.bulk_in_copied + chunk))
      rest = omega arith

  errors-stream :
      (submit : Option Errno) (errors : Option Errno) (d : Dev) (user : Mem) (buffer count : ℕ)
      → d.bulk_in_copied ≤ d.bulk_in_filled
      → let p = after_errors copy submit errors d user buffer count in
        unread d ≡ pass_got buffer p ++ unread (pass_dev p)
  unfolding after_errors pass_got got unread
  errors-stream submit (some e) d user buffer count fits = refl
  errors-stream submit none d user buffer count fits =
      if-holds Streams (d.bulk_in_filled == 0) _ _
        (λ empty. started-stream submit d user buffer count (ground arith))
        (λ _. rw (size_sub-le d.bulk_in_filled d.bulk_in_copied fits) (
          if-holds Streams (d.bulk_in_filled - d.bulk_in_copied == 0) _ _
            (λ used. started-stream submit d user buffer count (ground arith))
            (λ _. deliver-stream submit d user buffer count fits)))
    where
      Streams : Pass → Type 0
      Streams p = unread d ≡ pass_got buffer p ++ unread (pass_dev p)

  pass-stream :
      (submit : Option Errno) (d : Dev) (user : Mem) (buffer count : ℕ)
      → d.bulk_in_copied ≤ d.bulk_in_filled
      → let p = pass copy submit d user buffer count in
        unread d ≡ pass_got buffer p ++ unread (pass_dev p)
  unfolding pass
  pass-stream submit d user buffer count fits =
      errors-stream submit d.errors d user buffer count fits

  after_pass-stream :
      (next : Dev → Mem → Outcome) (p : Pass) (d : Dev) (user : Mem) (buffer : ℕ)
      → unread d ≡ pass_got buffer p ++ unread (pass_dev p)
      → (unread (pass_dev p)
          ≡ outcome_got buffer (next (pass_dev p) user)
            ++ unread (outcome_dev (next (pass_dev p) user)))
      → let o = after_pass next user p in unread d ≡ outcome_got buffer o ++ unread (outcome_dev o)
  unfolding after_pass pass_got outcome_got
  after_pass-stream next (retry d') d user buffer here later = here ∙ later
  after_pass-stream next (finished d' user' r) d user buffer here later = here

  rounds-stream :
      (turns : List Turn) (d : Dev) (user : Mem) (buffer count : ℕ)
      → IsSound d
      → d.disconnected ≡ false
      → let o = read_rounds copy true turns d user buffer count in
        unread d ≡ outcome_got buffer o ++ unread (outcome_dev o)
  unfolding read_rounds round outcome_got got
  rounds-stream [] d user buffer count s here = refl
  rounds-stream (t ∷ rest) d user buffer count s here =
      if-holds (λ o. unread d ≡ outcome_got buffer o ++ unread (outcome_dev o)) d.ongoing_read _ _
        (λ _. refl)
        (λ idle.
          let p : Pass = pass copy t.submit d user buffer count in
          let kept = pass-IsKept copy t.submit d user buffer count s idle here in
          after_pass-stream (λ d' user'. read_rounds copy true rest d' user' buffer count) p d user
            buffer (pass-stream t.submit d user buffer count s.copied)
            (rounds-stream rest (pass_dev p) user buffer count kept.sound
              (kept.same.disconnected ∙ here)))

  pub read-stream :
      (locked : Bool) (turns : List Turn) (d : Dev) (user : Mem) (buffer count : ℕ)
      → IsSound d
      → let o = read copy true locked turns d user buffer count in
        unread d ≡ outcome_got buffer o ++ unread (outcome_dev o)
  unfolding read outcome_got got slice
  read-stream locked turns d user buffer count s =
      if-holds Streams (count == 0) _ _ (λ _. refl)
        (λ _.
          if-holds Streams locked _ _
            (λ _.
              if-holds Streams d.disconnected _ _ (λ _. refl)
                (λ here. rounds-stream turns d user buffer count s here))
            (λ _. refl))
    where
      Streams : Outcome → Type 0
      Streams o = unread d ≡ outcome_got buffer o ++ unread (outcome_dev o)
