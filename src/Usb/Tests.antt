-- ===== src/Usb/Tests.antt =====
-- Runs of usb/usb-skeleton.c at concrete inputs.
use ldd_samples.Prelude.{◌+◌, ◌≡◌, refl, true, false, none, some, inl, List, [], ◌∷◌, arith}
use ldd_samples.Kernel.{ret, fail, epipe}
use ldd_samples.Kernel.Memory.{Mem, whole_copy, whole_copy-IsCopy}
use ldd_samples.Kernel.Slice.{IsWhole, slice}
use ldd_samples.Usb.Dev.{Dev, writes_in_flight}
use ldd_samples.Usb.Read.{Turn, interrupted, returned, pass, read}
use ldd_samples.Usb.Write.{Answers, write}
use ldd_samples.Usb.Control.{open_dev, release, disconnect, suspend, pre_reset, post_reset}
use ldd_samples.Usb.Invariant.{IsSound}
use ldd_samples.Usb.Session.{
  System, Op, opens, reads, writes, read_completes, suspends, disconnects, releases, perform,
  perform_all, IsSafe, perform_all-IsSafe,
}
use ldd_samples.Usb.Stream.{unread, outcome_got}
use ldd_samples.Usb.Flow.{Flow, Event, payload, steps, IsStream, steps-IsStream}
use ldd_samples.Usb.Blocking.{arrival, arrivals, read-arrival}
use ldd_samples.Usb.Reports.{reset-reported}

abbrev memory : Mem
memory a = a + 1

-- A device after its probe, with a read buffer of 64 bytes.
abbrev fresh : Dev
fresh = record {
  limit_sem = 8;
  submitted = [];
  buffers = 0;
  reading = none;
  bulk_in_buffer = memory;
  bulk_in_size = 64;
  bulk_in_filled = 0;
  bulk_in_copied = 0;
  errors = none;
  ongoing_read = false;
  disconnected = false;
  attached = true;
  kref = 1;
  deleted = false;
}

-- The same with a read under way that asks for three bytes.
abbrev busy : Dev
busy = record fresh { reading = some 3; ongoing_read = true }

fresh-IsSound : IsSound fresh
fresh-IsSound = record {
  slots = refl;
  held = refl;
  ongoing = refl;
  copied = omega arith;
  filled = omega arith;
  idle = λ on. refl;
  asked = tt;
  gone = λ off. (refl, refl);
}

busy-IsSound : IsSound busy
busy-IsSound = record {
  slots = refl;
  held = refl;
  ongoing = refl;
  copied = omega arith;
  filled = omega arith;
  idle = λ on. refl;
  asked = omega arith;
  gone = λ off. ground arith;
}

abbrev system : System
system = record { dev = fresh; files = 0 }

system-IsSafe : IsSafe 64 system
system-IsSafe = record {
  sound = fresh-IsSound;
  counted = record { refs = refl; bound = refl; last = refl };
  buffer = refl;
}

abbrev taken : Answers
taken = record { alloc_urb = true; alloc_buffer = true; fresh = memory; submit = none }

abbrev idle_turn : Turn
idle_turn = record { wait = interrupted; submit = none }

abbrev ops : List Op
ops =
    opens true none
    ∷ reads false true (idle_turn ∷ idle_turn ∷ []) memory 0 5
    ∷ writes false false taken memory 0 100
    ∷ read_completes none 5 memory
    ∷ suspends []
    ∷ disconnects
    ∷ releases
    ∷ []

abbrev last : System
last = perform_all whole_copy whole_copy system ops

session_run : (last.dev.deleted ≡ true) × (last.dev.limit_sem ≡ 8) × (last.files ≡ 0)
unfolding perform_all perform suspend open_dev write read pass whole_copy release disconnect
session_run = (refl, refl, refl)

perform_all-IsSafe_example : IsSafe 64 (perform_all whole_copy whole_copy system ops)
perform_all-IsSafe_example =
    perform_all-IsSafe whole_copy whole_copy 64 system ops system-IsSafe
      (tt, ((tt, (tt, tt)), (tt, (omega arith, (tt, (tt, (tt, tt)))))))

is_whole : IsWhole whole_copy
unfolding whole_copy
is_whole = record { is_copy = whole_copy-IsCopy; whole = λ dst to src from n. refl }

abbrev flow : Flow
flow = record { dev = fresh; sent = []; received = [] }

flow-IsStream : IsStream 64 flow
unfolding unread
flow-IsStream = record { sound = fresh-IsSound; buffer = refl; order = refl }

-- A read that starts the first packet of five bytes, one of two bytes, one of the rest that reads ahead,
-- and a packet of four.
abbrev events : List Event
events =
    Event.reads true (idle_turn ∷ idle_turn ∷ []) memory 0 5
    ∷ Event.completes none 5 memory
    ∷ Event.reads true (idle_turn ∷ []) memory 0 2
    ∷ Event.reads true (idle_turn ∷ []) memory 0 9
    ∷ Event.completes none 4 memory
    ∷ []

flow_run :
    ((steps whole_copy flow events).sent ≡ 1 ∷ 2 ∷ 3 ∷ 4 ∷ 5 ∷ 1 ∷ 2 ∷ 3 ∷ 4 ∷ [])
    × ((steps whole_copy flow events).received ≡ 1 ∷ 2 ∷ 3 ∷ 4 ∷ 5 ∷ [])
unfolding steps pass payload outcome_got whole_copy
flow_run = (refl, refl)

steps-IsStream_example : IsStream 64 (steps whole_copy flow events)
steps-IsStream_example =
    steps-IsStream whole_copy is_whole 64 flow events flow-IsStream
      ((tt, (tt, tt)), (omega arith, ((tt, tt), ((tt, tt), (omega arith, tt)))))

read-arrival_example :
    (d' : Dev) × (user' : Mem) × (read whole_copy false true
        (record { wait = interrupted; submit = none }
          ∷ arrivals (memory ∷ memory ∷ []) (arrival 7 memory))
        fresh
        memory
        10
        5
      ≡ returned d' user' (ret 5))
    × (slice user' 10 5 ≡ slice memory 0 5)
read-arrival_example =
    read-arrival whole_copy 10 5 is_whole interrupted (memory ∷ memory ∷ []) 7 memory fresh memory
      (omega arith) refl refl refl (inl refl) (omega arith)

reset-reported_example :
    ((post_reset (pre_reset [] busy)).limit_sem ≡ writes_in_flight)
    × ((post_reset (pre_reset [] busy)).submitted ≡ [])
    × ((post_reset (pre_reset [] busy)).reading ≡ none)
    × (read whole_copy true true (idle_turn ∷ []) (post_reset (pre_reset [] busy)) memory 0 5
        ≡ returned (record (post_reset (pre_reset [] busy)) { errors = none }) memory (fail epipe))
    × (write whole_copy taken true false (post_reset (pre_reset [] busy)) memory 0 5
        ≡ some (record (post_reset (pre_reset [] busy)) { errors = none }, fail epipe))
reset-reported_example =
    reset-reported whole_copy whole_copy taken true false [] idle_turn [] busy memory 0 5
      busy-IsSound refl (omega arith)
