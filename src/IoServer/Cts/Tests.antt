-- ===== src/IoServer/Cts/Tests.antt =====
-- Tests of the handshake on COM1 of src/io_server/io_server.c: one byte is written, after one message.
use armv4_kernel.Prelude.{◌+◌, ◌≤◌, refl, false, none, [], ◌∷◌}
use armv4_kernel.CString.{Bytes}
use armv4_kernel.Bwio.{com1}
use armv4_kernel.EventHandler.{event_uart1_tx}
use armv4_kernel.Kernel.Device.{uart1_base}
use armv4_kernel.IoServer.Start.{Call}
use armv4_kernel.IoServer.Cts.{CtsRound, TxRound, io_server_notifier_cts_main, tx_loop, cts_loop}
use armv4_kernel.IoServer.Cts.Pace.{Joint, cts_paced}

abbrev quiet : TxRound
quiet = record { await_failed = λ i. false; sender = λ i. 7; answer = none }

abbrev a_round : CtsRound
a_round = record { cur_time = 3; await_failed = false; flag = 0; send_failed = false }

abbrev letter : Bytes
letter i = 65

-- The CTS notifier sends its first message, which the transmit notifier receives; this one then writes
-- its byte.
one_byte :
    Joint
      (io_server_notifier_cts_main 5 false (a_round ∷ []))
      (tx_loop uart1_base event_uart1_tx com1 4 1 letter (quiet ∷ []))
      (cts_loop 5 (a_round ∷ []))
      (Call.send_msg 4 ∷ Call.panic ∷ [])
      0
      1
unfolding io_server_notifier_cts_main tx_loop
one_byte = Joint.tx_step {x = Call.write uart1_base 65} refl (
    Joint.tx_step {x = Call.reply_empty 7} refl (
      Joint.meet {t = 5} (
        Joint.tx_step {x = Call.await_event event_uart1_tx} refl (
          Joint.cts_step {x = Call.reply_empty 5} refl
            (Joint.cts_step {x = Call.receive_empty} refl (Joint.cts_step refl Joint.begin))))))

cts_paced_example : 1 ≤ 1 + 0
cts_paced_example =
    cts_paced uart1_base event_uart1_tx 4 5 false (a_round ∷ []) (quiet ∷ []) 1 letter one_byte
