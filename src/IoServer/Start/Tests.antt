-- ===== src/IoServer/Start/Tests.antt =====
-- Tests of the start of the I/O server of src/io_server/io_server.c on COM2.
use armv4_kernel.Prelude.{ℕ, inr, refl}
use armv4_kernel.CString.{Bytes}
use armv4_kernel.Bwio.{com2}
use armv4_kernel.IoServer.Start.Agree.{Agrees, main_of, rx_of, tx_of, io_server_main_start-Agrees}

io_server_main_start-Agrees_example :
    (name : Bytes) × (base : ℕ) × Agrees com2 5 6 name base
      (main_of 1 4 5 6 9 com2)
      (rx_of 1 4 5 6 9 com2)
      (tx_of 1 4 5 6 9 com2)
io_server_main_start-Agrees_example = io_server_main_start-Agrees 1 4 5 6 9 com2 (inr refl)
