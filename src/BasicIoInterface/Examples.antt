-- ===== src/BasicIoInterface/Examples.antt =====
-- Instances of the io interface, with TCP io handlers.
use chops.Prelude.{
  ℕ, ◌≡◌, refl, true, false, none, some, List, [], ◌∷◌, ◌==◌, length, if◌then◌else◌,
}
use chops.OutputQueue.{SharedBuffer, add_element, get_queue_stats}
use chops.IoCommon.{start_write_setup}
use chops.TcpIo.{TcpIo}
use chops.TcpIo
use chops.WeakPtr.{Heap, returns}
use chops.BasicIoInterface.{BasicIoInterface, get_output_queue_stats, get_socket, send}
use chops.BasicIoInterface.Handlers.{tcp_handler, tcp_sender}
use chops.BasicIoInterface.Buffers.{MakeBuffer, send_bytes}

-- A handler at the address 3, whose io is started.
abbrev handlers : Heap (TcpIo ℕ ℕ)
handlers p =
    if p == 3
    then some (record {
      is_open = true;
      io_common = record {
        io_started = true;
        write_in_progress = false;
        outq = record { output_queue = []; queue_size = 0; current_num_bytes = 0 };
      };
      remote_endp = 80;
      byte_vec = [];
      read_size = 0;
      delimiter = [];
    })
    else none

socket_of_three : get_socket handlers (record { ioh_wptr = some 3 }) ≡ returns 3
socket_of_three = refl

-- Buffers as lists of bytes.
instance abbrev bytes : SharedBuffer (List ℕ)
bytes = record { size = length }

abbrev copies : MakeBuffer (List ℕ) (List ℕ)
copies = record {
  copy_bytes = λ xs. xs;
  from_mutable = λ xs. xs;
  bytes_of = λ xs. xs;
  mutable_bytes = λ xs. xs;
  copy_bytes-bytes_of = λ xs. refl;
  from_mutable-bytes_of = λ xs. refl;
  size-bytes_of = λ xs. refl;
}

-- A handler whose write is in progress.
abbrev writing : TcpIo (List ℕ) ℕ
writing = record {
  is_open = true;
  io_common = record {
    io_started = true;
    write_in_progress = true;
    outq = record { output_queue = (7 ∷ [], none) ∷ []; queue_size = 1; current_num_bytes = 1 };
  };
  remote_endp = 80;
  byte_vec = [];
  read_size = 0;
  delimiter = [];
}

bytes_sent :
    let i : BasicIoInterface = record { ioh_wptr = some 3 } in
    let hp = (send_bytes tcp_sender copies (λ p. some writing) i (4 ∷ 5 ∷ 6 ∷ []) 2).1 in
    (get_output_queue_stats hp i).0
    ≡ returns (record { output_queue_size = 2; bytes_in_output_queue = 3 })
unfolding get_output_queue_stats send_bytes send TcpIo.send tcp_sender tcp_handler add_element
    start_write_setup get_queue_stats TcpIo.get_output_queue_stats
bytes_sent = refl
