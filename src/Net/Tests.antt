-- ===== src/Net/Tests.antt =====
-- Packets through the two network drivers.
use ldd_samples.Prelude.{ℕ, ◌≡◌, refl, true, some, List, [], ◌∷◌, arith}
use ldd_samples.Net.Driver
use ldd_samples.Net.Printing
use ldd_samples.Net.Traffic

abbrev quiet : Driver.Net
quiet = record {
  tx_packets = 2;
  rx_packets = 7;
  collisions = 50;
  freed = [];
  received = [];
  log = [];
  queue_runs = true;
  up = true;
}

abbrev ping : Driver.Skb
ping = record { id = 1; bytes = 0x45 ∷ 3 ∷ [] }

abbrev pong : Driver.Skb
pong = record { id = 2; bytes = [] }

printline_test : Driver.printline ping.bytes ≡ b' ' ∷ b'4' ∷ b'5' ∷ b' ' ∷ b' ' ∷ b'3' ∷ []
unfolding Driver.printline
printline_test = refl

print_lines-whole_example :
    (lines : List (List ℕ)) × (Driver.print_lines 3 0 ping.bytes ≡ some lines)
    × (Printing.concat lines ≡ Driver.printline ping.bytes)
    × Printing.Fit lines
print_lines-whole_example = Printing.print_lines-whole 3 ping.bytes (omega arith) (omega arith)

abbrev are_packets : Traffic.ArePackets 3 (ping ∷ pong ∷ [])
are_packets = (omega arith, omega arith, (omega arith, omega arith, tt))

loop_back-all_example :
    (n' : Driver.Net) × (Traffic.xmit_all Driver.loop_back 3 (ping ∷ pong ∷ []) quiet ≡ some n')
    × (n'.tx_packets ≡ 4)
    × (n'.freed ≡ [])
    × (n'.received ≡ pong ∷ ping ∷ [])
    × (n'.rx_packets ≡ 9)
loop_back-all_example =
    Traffic.loop_back-all (ping ∷ pong ∷ []) 3 quiet are_packets (omega arith) (omega arith)
