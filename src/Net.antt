-- ===== src/Net.antt =====
-- The network drivers of network/lab3_transmit.c, which prints and frees what it is to send, and of
-- network/lab4_receive.c, which prints it and receives it again.
pub mod Driver
pub mod Printing
pub mod Traffic
mod Tests
