-- ===== src/Program/StepTests.antt =====
-- A run of the program: a connection comes, and sends a request for an upload without a login.
use ccc_upgrade.Base.{
  ℕ, ◌≡◌, refl, subst, inl, inr, false, Option, none, some, [], arith, Option-cases,
}
use ccc_upgrade.Base.Bytes.{Bytes, Run, ok, fault, store, store_at}
use ccc_upgrade.Pool.{
  packet_pool_get_pdu_buf, packet_pool_get_buffer, internal_packet_pool_get_from_head,
  packet_pool_set, internal_packet_pool_save_from_tail, put_behind_tail,
  internal_packet_pool_node_add, internal_packet_pool_node_insert, set_next, set_pkt, read, write,
  trim, Heap,
}
use ccc_upgrade.Packet.{cccpacket_check_buffer, grow_buffer}
use ccc_upgrade.Protocol.{
  parse_packet2, memchr, parse_header, parse_data, parse_checksum, calcu_data_length,
  calcu_checksum, checksum_loop,
}
use ccc_upgrade.Util.Words.{four_bytes_to_int, join_four}
use ccc_upgrade.Adapter.{process_protocol_pdu}
use ccc_upgrade.Adapter.Stream.{process_loop, handle_enabled, protocol_adapter_process_data}
use ccc_upgrade.Protocol.Frame.{frame}
use ccc_upgrade.Pool.Keeps.{IsSound, IsFresh}
use ccc_upgrade.Client.{first, get, client_manager_init}
use ccc_upgrade.Files.{no_upload}
use ccc_upgrade.Program.{Machine, World, callback_by_network_manager, set_packet}
use ccc_upgrade.Program.Tests.{machine, world, idle-IsRing}
use ccc_upgrade.Program.Steps.{Step, receiving, received, start, later}
use ccc_upgrade.Program.Safe.{IsSafe, MallocsNew, Reach-IsSafe}
use ccc_upgrade.Program.Outsider.{Step-upload}

-- One node, which is given as long as it is free.
abbrev pub first_free : Heap → Option ℕ
first_free heap = elim (heap 1) [ none ↦ some 1 | some n ↦ none ]

abbrev pub small_machine : Machine Bytes
small_machine = record machine { fresh_node = λ heap x. (first_free heap, x) }

pub first_free-IsFresh : (heap : Heap) → IsFresh (first_free heap) heap
first_free-IsFresh heap x e = elim (Option-cases (heap 1)) [
  | inl free ↦ subst (λ a. heap a ≡ none) (given free) free
  | inr (n, used) ↦ refuse used
]
  where
    given : heap 1 ≡ none → ◌≡◌ {A = ℕ} 1 x
    given free = cc (free, e)

    refuse : {n : _} → heap 1 ≡ some n → heap x ≡ none
    refuse used = cc (used, e)

small-MallocsNew : MallocsNew small_machine
small-MallocsNew heap x = first_free-IsFresh heap

-- The start of an upload, without a title.
abbrev pub request : Bytes
request = frame 0xE2 2 []

abbrev result_of : {A : Type 0} → A → Run A → A
result_of other fault = other
result_of other (ok a) = a

abbrev pub started : World Bytes
started = record world { clients = client_manager_init world.clients }

abbrev handled : Run (ℕ × World Bytes)
handled =
    callback_by_network_manager small_machine none (get started.clients first).ix request
      (get started.clients first).b_login started

abbrev pub after_request : World Bytes
after_request = (result_of (0, started) handled).1

pub handled_lem : handled ≡ ok (9, after_request)
unfolding client_manager_init callback_by_network_manager protocol_adapter_process_data
    packet_pool_get_pdu_buf packet_pool_get_buffer internal_packet_pool_get_from_head
    cccpacket_check_buffer grow_buffer process_loop parse_packet2 memchr parse_header parse_data
    parse_checksum calcu_data_length four_bytes_to_int join_four calcu_checksum checksum_loop
    store_at store handle_enabled process_protocol_pdu set_packet packet_pool_set
    internal_packet_pool_save_from_tail put_behind_tail internal_packet_pool_node_add
    internal_packet_pool_node_insert set_next set_pkt read write trim
handled_lem = refl

request-Step : Step small_machine none (receiving first) started after_request
request-Step = received first request handled_lem

no_login : (get started.clients first).b_login ≡ false
unfolding client_manager_init
no_login = refl

Step-upload_example : after_request.upload ≡ no_upload
Step-upload_example = Step-upload small_machine none (receiving first) request-Step no_login

idle-IsSound : IsSound world.pool
idle-IsSound = record {
  full = [];
  spare = [];
  ring = idle-IsRing;
  bounded = omega arith;
  room = omega arith;
}

Reach-IsSafe_example : IsSafe after_request
Reach-IsSafe_example =
    Reach-IsSafe small_machine small-MallocsNew none idle-IsSound
      (later (receiving first) start request-Step)
