-- ===== src/Adapter/Tests.antt =====
-- Runs of the adapter on services that write down what is sent.
use ccc_upgrade.Base.{
  zero, ◌≤◌, ◌≡◌, refl, ◌≢◌, ◌⊎◌, true, false, none, some, List, [], ◌∷◌, ◌++◌, arith, length,
  replicate, length-replicate,
}
use ccc_upgrade.Base.Bytes.{Bytes, codes, ok, fault, ◌>>=◌, c_string}
use ccc_upgrade.Base.Int.{pos}
use ccc_upgrade.Protocol.{Pdu, parse_packet2, memchr, parse_header}
use ccc_upgrade.Protocol.Frame.{frame}
use ccc_upgrade.Packet.{Packet, type_normal}
use ccc_upgrade.Configure.{password}
use ccc_upgrade.Services.{Services}
use ccc_upgrade.Answers.{send_reply, send_reply_to_client, send_one_ip, send_reply_to_udp}
use ccc_upgrade.Adapter.{process_protocol_client_login}
use ccc_upgrade.Adapter.Reply.{field, send_reply-frame, client_login-answer, send_one_ip-fields}
use ccc_upgrade.Adapter.Stream.{
  handle_enabled, with_pdu, process_loop, protocol_adapter_process_data,
}
use ccc_upgrade.Adapter.Stream.Frames.{Message, wires, handle_all, process_data-wires}
use ccc_upgrade.Adapter.Stream.Login.{with_files, process_data-not_logged_in}
use ccc_upgrade.Adapter.Stream.Bounds.{process_data-le}

abbrev a_pdu : Bytes → Pdu
a_pdu block = record {
  cmd = 0xE1;
  cmd_ex = 1;
  block = some block;
  data_len = pos (length block);
  checksum1 = 0;
  checksum2 = 0;
  b_enable = true;
}

abbrev room : Bytes
room = replicate 4096 0

abbrev a_packet : Packet
a_packet = record {
  data_type = type_normal;
  un_pdu = a_pdu room;
  buffer = some room;
  buffer_size = 4096;
  data_len = 0;
  private_data1 = pos 0;
  private_data2 = pos 0;
  private_data3 = pos 0;
}

-- The state is what was sent, the last first; a login is written down as an empty sending.
abbrev recorder : Services (List Bytes)
recorder = record {
  packet_pool_get_buffer = λ size w. ok (some a_packet, w);
  packet_pool_get_pdu_buf = λ size w. ok (some a_packet, w);
  packet_pool_set = λ p w. ok (true, w);
  network_manager_client_send = λ handle data_ w. ok (true, data_ ∷ w);
  network_manager_client_set_login = λ handle w. ok (true, [] ∷ w);
  udp_server_send = λ handle data_ w. ok (true, data_ ∷ w);
  file_upload_open = λ dir title w. ok (true, w);
  file_upload_write = λ offset data_ w. ok (true, data_ ∷ w);
  file_upload_single_finish = λ md5sum w. ok (true, w);
  file_execute_script = λ dir title w. ok (0, w);
  reboot_device = λ w. ok w;
  malloc = λ size w. (true, w);
  getifaddrs = λ w. (some [], w);
  gethostname = λ w. (some [], w);
}

send_reply-frame_example :
    send_reply recorder (λ data_ w. ok (true, data_ ∷ w)) 0xE2 1 (0xFE ∷ []) []
    ≡ ok (true, frame 0xE2 1 (0xFE ∷ []) ∷ [])
send_reply-frame_example =
    send_reply-frame recorder (λ data_ w. ok (true, data_ ∷ w)) 0xE2 1 (0xFE ∷ []) room a_packet []
      [] refl refl (omega (arith, length-replicate {0} 4096 zero)) (omega arith)

client_login-answer_example :
    ((codes "jikong" ≡ password)
      × (process_protocol_client_login recorder (pos 0) (a_pdu (codes "jikong")) []
          ≡ send_reply_to_client recorder (pos 0) 0xE1 1 (0xFE ∷ []) ([] ∷ [])))
    ⊎ ((codes "jikong" ≢ password)
        × (process_protocol_client_login recorder (pos 0) (a_pdu (codes "jikong")) []
            ≡ send_reply_to_client recorder (pos 0) 0xE1 1 (0xFF ∷ []) []))
unfolding c_string
client_login-answer_example =
    client_login-answer recorder (pos 0) (a_pdu (codes "jikong")) (codes "jikong") 6 [] [] refl refl
      (omega arith) (omega arith) refl

send_one_ip-fields_example : send_one_ip recorder (pos 0) (codes "host") (codes "10.0.0.1") [] ≡ (do
  (_, w1) ←
      send_reply_to_udp recorder
        (pos 0)
        0xE0
        1
        (field (codes "10.0.0.1") ++ field (codes "host"))
        []
  ok w1)
send_one_ip-fields_example =
    send_one_ip-fields recorder (pos 0) (codes "host") (codes "10.0.0.1") [] (omega arith)
      (omega arith)

abbrev two_messages : List Message
two_messages =
    record { cmd = 0xE1; cmd_ex = 1; payload = codes "jikong" }
    ∷ record { cmd = 0xE2; cmd_ex = 1; payload = [] }
    ∷ []

process_data-wires_example :
    protocol_adapter_process_data recorder none (pos 0) (wires two_messages) true [] ≡ (do
      (pdu, w2) ← handle_all recorder none (pos 0) true two_messages a_packet.un_pdu room []
      (_, w3) ← recorder.packet_pool_set (with_pdu a_packet pdu) w2
      ok (length (wires two_messages), w3))
process_data-wires_example =
    process_data-wires recorder none (pos 0) true two_messages a_packet room [] [] refl refl (
      (omega (arith, length-replicate {0} 4096 zero), omega arith),
      ((omega (arith, length-replicate {0} 4096 zero), omega arith), tt),
    )

process_data-not_logged_in_example :
    protocol_adapter_process_data
      (with_files
        (λ d t w. fault)
        (λ o b w. fault)
        (λ m w. fault)
        (λ d t w. fault)
        (λ w. fault)
        recorder)
      none
      (pos 0)
      (wires two_messages)
      false
      []
    ≡ protocol_adapter_process_data recorder none (pos 0) (wires two_messages) false []
process_data-not_logged_in_example =
    process_data-not_logged_in (λ d t w. fault) (λ o b w. fault) (λ m w. fault) (λ d t w. fault)
      (λ w. fault) recorder none (pos 0) (wires two_messages) []

-- Bytes without a header byte are used up.
process_garbage :
    protocol_adapter_process_data recorder none (pos 0) (1 ∷ 2 ∷ []) false [] ≡ ok (2, [])
unfolding protocol_adapter_process_data process_loop parse_packet2 memchr handle_enabled
process_garbage = refl

process_data-le_example : 2 ≤ 2
process_data-le_example =
    process_data-le recorder none (pos 0) (1 ∷ 2 ∷ []) false [] process_garbage

-- A header byte and a command are no packet yet.
parse_part :
    parse_packet2 (0x7e ∷ 1 ∷ []) (record a_packet.un_pdu { b_enable = false })
    ≡ ok (0, record a_packet.un_pdu { b_enable = false })
unfolding parse_packet2 memchr parse_header
parse_part = refl
