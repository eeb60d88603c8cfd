-- ===== src/BasicNetEntity/Examples.antt =====
-- Instances of the net entity interface, with TCP connectors.
use chops.Prelude.{ℕ, true, false, none, some, [], ◌∷◌, ◌==◌, if◌then◌else◌}
use chops.TcpConnector.{TcpConnector}
use chops.WeakPtr.{Heap}
use chops.Prelude.{refl, ◌≡◌}
use chops.NetIpError.{make_error_code, weak_ptr_expired}
use chops.WeakPtr.{throws}
use chops.BasicNetEntity.{BasicNetEntity, equals, less, get_socket}

-- A started connector at the address 3.
abbrev connectors : Heap (TcpConnector ℕ ℕ ℕ)
connectors p =
    if p == 3
    then some (record {
      entity_common = record { started = true; io_state_chg_cb = some 1; error_cb = some 2 };
      io_handler = none;
      endpoints = 80 ∷ [];
      reconn_time = 500;
      remote_host = [];
      remote_port = [];
      shutting_down = false;
      heap = λ p. record {
        is_open = true;
        io_common = record {
          io_started = true;
          write_in_progress = false;
          outq = record { output_queue = []; queue_size = 0; current_num_bytes = 0 };
        };
        remote_endp = 80;
        byte_vec = [];
        read_size = 0;
        delimiter = [];
      };
      next_address = 0;
      failed_assert = false;
      calls = [];
    })
    else none

abbrev at_three : BasicNetEntity
at_three = record { eh_wptr = some 3 }

abbrev at_four : BasicNetEntity
at_four = record { eh_wptr = some 4 }

equal_to_itself : equals connectors at_three at_three ≡ true
equal_to_itself = refl

expired_less : less connectors at_four at_three ≡ true
expired_less = refl

socket_of_expired : get_socket connectors at_four ≡ throws (make_error_code weak_ptr_expired)
socket_of_expired = refl
