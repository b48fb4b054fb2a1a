-- ===== src/Net/Driver.antt =====
-- `printline`, `my_start_xmit`, `my_rx` and the configuration calls of network/lab3_transmit.c and lab4_receive.c.
use ldd_samples.Prelude.{
  ℕ, zero, suc, ◌+◌, ◌-◌, ◌/◌, ◌%◌, ◌^◌, Bool, true, false, Option, none, some, List, [], ◌∷◌, ◌++◌,
  length, take, drop, ltb, if◌then◌else◌,
}
use ldd_samples.Kernel.Word.{add64, to_int}
use ldd_samples.Kernel.{Ret, ret, fail, ebusy, eperm}

-- A `struct sk_buff`: the kernel's number for it, and the `len` bytes at its `data`.
pub record Skb : Type 0 where
  pub id : ℕ
  pub bytes : List ℕ

-- The counters that the drivers touch, and what has become of the buffers, the last first: freed, or handed to
-- `netif_rx`. Whether the queue runs and IFF_UP is set.
pub record Net : Type 0 where
  pub tx_packets : ℕ
  pub rx_packets : ℕ
  pub collisions : ℕ
  pub freed : List ℕ
  pub received : List Skb
  pub log : List (List ℕ)
  pub queue_runs : Bool
  pub up : Bool

-- `%x` of a number below 16, as a character.
abbrev pub digit : ℕ → ℕ
digit n = if ltb n 10 then b'0' + n else b'a' + (n - 10)

-- `sprintf(entry, " %2x", byte)`
abbrev pub entry : ℕ → List ℕ
entry byte = b' ' ∷ (if ltb byte 16 then b' ' else digit (byte / 16)) ∷ digit (byte % 16) ∷ []

-- The line that `printline` puts together from its bytes.
unfoldable pub printline : List ℕ → List ℕ
printline [] = []
printline (byte ∷ rest) = entry byte ++ printline rest

-- The loop of `my_start_xmit` from `i` on: 16 bytes a line, or the fewer that are left. On fuel: `none` where
-- it does not last, and where the `int` that `i` is has come to be negative while `skb->len`, which the test
-- compares it with as an `unsigned int`, is above it: `&skb->data[i]` is then in front of the bytes.
unfoldable pub print_lines : ℕ → (i : ℕ) → (bytes : List ℕ) → Option (List (List ℕ))
unfolding printline
print_lines zero i bytes = none
print_lines (suc fuel) i bytes =
    let rest = print_lines fuel (to_int (i + 16)) bytes in
    let len = length bytes in
    if ltb i len
    then (if ltb i (2 ^ 31)
        then elim rest [
          | none ↦ none
          | some lines ↦
              some
                (printline (take (if ltb (len - i) 16 then len - i else 16) (drop i bytes)) ∷ lines)
        ]
        else none)
    else some []

-- `dev_kfree_skb`
abbrev pub kfree_skb : Skb → Net → Net
kfree_skb skb n = record n { freed = skb.id ∷ n.freed }

-- `netif_rx`, which takes the buffer over.
abbrev pub netif_rx : Skb → Net → Net
netif_rx skb n = record n { received = skb ∷ n.received }

-- `my_rx` of network/lab4_receive.c
abbrev pub my_rx : Skb → Net → Net
my_rx skb n = netif_rx skb (record n { rx_packets = add64 n.rx_packets 1 })

-- `my_start_xmit` of network/lab3_transmit.c
unfoldable pub transmit : ℕ → Skb → Net → Option (Net × Ret)
unfolding print_lines
transmit fuel skb n = elim (print_lines fuel 0 skb.bytes) [
  | none ↦ none
  | some lines ↦
      (let n' = kfree_skb skb (record n { log = n.log ++ lines }) in
        some (record n' { tx_packets = add64 n'.tx_packets 1 }, ret 0))
]

-- `my_start_xmit` of network/lab4_receive.c
unfoldable pub loop_back : ℕ → Skb → Net → Option (Net × Ret)
unfolding print_lines
loop_back fuel skb n = elim (print_lines fuel 0 skb.bytes) [
  | none ↦ none
  | some lines ↦
      some (my_rx skb (record n { log = n.log ++ lines; tx_packets = add64 n.tx_packets 1 }), ret 0)
]

-- `my_do_ioctl`, and `my_change_mtu`, which both refuse.
pub do_ioctl : Ret
do_ioctl = fail eperm

pub config : Net → Ret
config n = if n.up then fail ebusy else ret 0

pub open_net : Net → Net × Ret
open_net n = (record n { queue_runs = true }, ret 0)

pub close : Net → Net × Ret
close n = (record n { queue_runs = false }, ret 0)

-- `dev_addr` behind the loop of `my_setup`, byte by byte.
pub setup_addr : ℕ → List ℕ
setup_addr zero = []
setup_addr (suc j) = setup_addr j ++ (j ∷ [])

-- What `my_setup` leaves of the counters.
abbrev pub setup : Net → Net
setup n = record n { collisions = 50 }
