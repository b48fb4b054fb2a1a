-- ===== src/Net/Traffic.antt =====
-- Packets one after the other through network/lab3_transmit.c and network/lab4_receive.c.
use ldd_samples.Prelude.{
  ℕ, suc, ◌+◌, ◌%◌, ◌^◌, ◌≤◌, ◌<◌, ◌≡◌, refl, ◌∙◌, ap, Option, none, some, List, [], ◌∷◌, ◌++◌,
  length, arith,
}
use ldd_samples.Kernel.{Ret, ret}
use ldd_samples.Kernel.Word.{add64}
use ldd_samples.Net.Driver.{Skb, Net, kfree_skb, my_rx, transmit, loop_back}
use ldd_samples.Net.Printing.{print_lines-whole}

-- A driver's `my_start_xmit`.
abbrev pub Xmit : Type 0
Xmit = ℕ → Skb → Net → Option (Net × Ret)

-- The packets in their order; `none` if the fuel does not last for one.
pub xmit_all : Xmit → ℕ → List Skb → Net → Option Net
xmit_all xmit fuel [] n = some n
xmit_all xmit fuel (skb ∷ skbs) n = elim (xmit fuel skb n) [
  | none ↦ none
  | some (n', r) ↦ xmit_all xmit fuel skbs n'
]

-- Packets that the loop can print.
abbrev pub ArePackets : ℕ → List Skb → Type 0
ArePackets fuel [] = Unit
ArePackets fuel (skb ∷ skbs) =
    (length skb.bytes + 16 < 2 ^ 31) × (length skb.bytes + 1 ≤ fuel) × ArePackets fuel skbs

-- What is done with the packets, the last first.
abbrev pub ids_back : List Skb → List ℕ → List ℕ
ids_back [] old = old
ids_back (skb ∷ skbs) old = ids_back skbs (skb.id ∷ old)

abbrev pub skbs_back : List Skb → List Skb → List Skb
skbs_back [] old = old
skbs_back (skb ∷ skbs) old = skbs_back skbs (skb ∷ old)

transmit-one :
    (fuel : ℕ) (skb : Skb) (n : Net)
    → length skb.bytes + 16 < 2 ^ 31
    → length skb.bytes + 1 ≤ fuel
    → (n' : Net) × (transmit fuel skb n ≡ some (n', ret 0))
      × (n'.tx_packets ≡ add64 n.tx_packets 1)
      × (n'.freed ≡ skb.id ∷ n.freed)
      × (n'.received ≡ n.received)
      × (n'.rx_packets ≡ n.rx_packets)
unfolding transmit
transmit-one fuel skb n small enough =
    let (lines, runs, whole, fit) = print_lines-whole fuel skb.bytes small enough in
    (
      record (kfree_skb skb (record n { log = n.log ++ lines })) {
        tx_packets = add64 n.tx_packets 1;
      },
      ap
          (λ (o : Option (List (List ℕ))). elim o [
            | none ↦ none
            | some ls ↦ some (
              record (kfree_skb skb (record n { log = n.log ++ ls })) {
                tx_packets = add64 n.tx_packets 1;
              },
              ret 0,
            )
          ])
          runs,
      refl,
      refl,
      refl,
      refl,
    )

loop_back-one :
    (fuel : ℕ) (skb : Skb) (n : Net)
    → length skb.bytes + 16 < 2 ^ 31
    → length skb.bytes + 1 ≤ fuel
    → (n' : Net) × (loop_back fuel skb n ≡ some (n', ret 0))
      × (n'.tx_packets ≡ add64 n.tx_packets 1)
      × (n'.freed ≡ n.freed)
      × (n'.received ≡ skb ∷ n.received)
      × (n'.rx_packets ≡ add64 n.rx_packets 1)
unfolding loop_back
loop_back-one fuel skb n small enough =
    let (lines, runs, whole, fit) = print_lines-whole fuel skb.bytes small enough in
    (
      my_rx skb (record n { log = n.log ++ lines; tx_packets = add64 n.tx_packets 1 }),
      ap
          (λ (o : Option (List (List ℕ))). elim o [
            | none ↦ none
            | some ls ↦ some (
              my_rx skb (record n { log = n.log ++ ls; tx_packets = add64 n.tx_packets 1 }),
              ret 0,
            )
          ])
          runs,
      refl,
      refl,
      refl,
      refl,
    )

xmit_all-step :
    (xmit : Xmit) (fuel : ℕ) (skb : Skb) (skbs : List Skb) (n n' : Net) (r : Ret)
    → xmit fuel skb n ≡ some (n', r)
    → xmit_all xmit fuel (skb ∷ skbs) n ≡ xmit_all xmit fuel skbs n'
unfolding xmit_all
xmit_all-step xmit fuel skb skbs n n' r e =
    ap
      (λ (o : Option (Net × Ret)). elim o [ none ↦ none | some (m, q) ↦ xmit_all xmit fuel skbs m ])
      e

count_on : (x y k : ℕ) → y ≡ add64 x 1 → (y + k) % 2 ^ 64 ≡ (x + suc k) % 2 ^ 64
count_on x y k e = omega (arith, e)

-- Any packets of less than 2 ^ 31 - 16 bytes are all transmitted, with fuel for the longest: each buffer is freed
-- once, in the order of the packets, none is received, and the counter goes up by their number, in 64 bits.
pub transmit-all :
    (skbs : List Skb) (fuel : ℕ) (n : Net)
    → ArePackets fuel skbs
    → n.tx_packets < 2 ^ 64
    → (n' : Net) × (xmit_all transmit fuel skbs n ≡ some n')
      × (n'.tx_packets ≡ (n.tx_packets + length skbs) % 2 ^ 64)
      × (n'.freed ≡ ids_back skbs n.freed)
      × (n'.received ≡ n.received)
      × (n'.rx_packets ≡ n.rx_packets)
unfolding xmit_all
transmit-all [] fuel n packets small = (n, refl, omega (arith, small), refl, refl, refl)
transmit-all (skb ∷ skbs) fuel n (short, enough, packets) small =
    let (m, one, tx, freed, received, rx) = transmit-one fuel skb n short enough in
    let (n', all, txs, freeds, receiveds, rxs) =
      transmit-all skbs fuel m packets (omega (arith, tx)) in
    (
      n',
      xmit_all-step transmit fuel skb skbs n m (ret 0) one ∙ all,
      txs ∙ count_on n.tx_packets m.tx_packets (length skbs) tx,
      freeds ∙ ap (ids_back skbs) freed,
      receiveds ∙ received,
      rxs ∙ rx,
    )

-- Any packets of less than 2 ^ 31 - 16 bytes each, with fuel of one more than the bytes of the longest and counters
-- below 2 ^ 64, all come back through the driver that loops back: each buffer is received once, in the order of the
-- packets, none is freed, and both counters go up by their number, in 64 bits.
pub loop_back-all :
    (skbs : List Skb) (fuel : ℕ) (n : Net)
    → ArePackets fuel skbs
    → n.tx_packets < 2 ^ 64
    → n.rx_packets < 2 ^ 64
    → (n' : Net) × (xmit_all loop_back fuel skbs n ≡ some n')
      × (n'.tx_packets ≡ (n.tx_packets + length skbs) % 2 ^ 64)
      × (n'.freed ≡ n.freed)
      × (n'.received ≡ skbs_back skbs n.received)
      × (n'.rx_packets ≡ (n.rx_packets + length skbs) % 2 ^ 64)
unfolding xmit_all
loop_back-all [] fuel n packets small small' =
    (n, refl, omega (arith, small), refl, refl, omega (arith, small'))
loop_back-all (skb ∷ skbs) fuel n (short, enough, packets) small small' =
    let (m, one, tx, freed, received, rx) = loop_back-one fuel skb n short enough in
    let (n', all, txs, freeds, receiveds, rxs) =
      loop_back-all skbs fuel m packets (omega (arith, tx)) (omega (arith, rx)) in
    (
      n',
      xmit_all-step loop_back fuel skb skbs n m (ret 0) one ∙ all,
      txs ∙ count_on n.tx_packets m.tx_packets (length skbs) tx,
      freeds ∙ freed,
      receiveds ∙ ap (skbs_back skbs) received,
      rxs ∙ count_on n.rx_packets m.rx_packets (length skbs) rx,
    )
