-- ===== src/NetIpError.antt =====
-- net_ip/net_ip_error.hpp: the error codes of the library, their category and their messages.
-- A `std::error_code` is a number and the category that it belongs to; it converts to `true`
-- exactly when the number is not 0. The categories of the networking library are `other`.
mod Examples
use Prim.Native.String.{String}
use text.Mathlib.Text.{◌==◌ as str_eq}
use chops.Prelude.{ℕ, ◌≡◌, refl, Bool, not, Option, none, some, ◌==◌, if◌then◌else◌}

pub data NetIpErrc : Type 0 where
  message_handler_terminated weak_ptr_expired tcp_io_handler_stopped udp_io_handler_stopped
        tcp_acceptor_stopped tcp_connector_stopped udp_entity_stopped :
      NetIpErrc

-- `static_cast<int>` of an enumerator.
abbrev pub errc_value : NetIpErrc → ℕ
errc_value message_handler_terminated = 1
errc_value weak_ptr_expired = 2
errc_value tcp_io_handler_stopped = 3
errc_value udp_io_handler_stopped = 4
errc_value tcp_acceptor_stopped = 5
errc_value tcp_connector_stopped = 6
errc_value udp_entity_stopped = 7

-- `net_ip_err_category::message`, the `switch` on the value of the code.
pub message : ℕ → String
message val =
    if val == 1
    then "message handler terminated"
    else if val == 2
    then "weak pointer expired"
    else if val == 3
    then "tcp io handler stopped"
    else if val == 4
    then "udp io handler stopped"
    else if val == 5
    then "tcp acceptor stopped"
    else if val == 6
    then "tcp connector stopped"
    else if val == 7
    then "udp entity stopped"
    else "(unknown error)"

pub data ErrorCategory : Type 0 where
  net_ip_err_category other : ErrorCategory

pub record ErrorCode : Type 0 where
  pub value : ℕ
  pub category : ErrorCategory

-- `make_error_code`.
abbrev pub make_error_code : NetIpErrc → ErrorCode
make_error_code e = record { value = errc_value e; category = net_ip_err_category }

-- `error_code::operator bool`, which the handlers test by `if (err)`.
abbrev pub is_error : ErrorCode → Bool
is_error e = not (e.value == 0)

-- The code of an operation that went well.
abbrev pub no_error : ErrorCode
no_error = record { value = 0; category = other }

-- The enumerator that a message names.
errc_of_message : String → Option NetIpErrc
errc_of_message s =
    if str_eq s "message handler terminated"
    then some message_handler_terminated
    else if str_eq s "weak pointer expired"
    then some weak_ptr_expired
    else if str_eq s "tcp io handler stopped"
    then some tcp_io_handler_stopped
    else if str_eq s "udp io handler stopped"
    then some udp_io_handler_stopped
    else if str_eq s "tcp acceptor stopped"
    then some tcp_acceptor_stopped
    else if str_eq s "tcp connector stopped"
    then some tcp_connector_stopped
    else if str_eq s "udp entity stopped"
    then some udp_entity_stopped
    else none

errc_of_message-message : (e : NetIpErrc) → errc_of_message (message (errc_value e)) ≡ some e
unfolding errc_of_message message
errc_of_message-message message_handler_terminated = refl
errc_of_message-message weak_ptr_expired = refl
errc_of_message-message tcp_io_handler_stopped = refl
errc_of_message-message udp_io_handler_stopped = refl
errc_of_message-message tcp_acceptor_stopped = refl
errc_of_message-message tcp_connector_stopped = refl
errc_of_message-message udp_entity_stopped = refl

-- The message of a code made by `make_error_code` determines the enumerator: codes of two
-- enumerators with one message are of the same enumerator.
pub message-injective :
    (a b : NetIpErrc)
    → message (make_error_code a).value ≡ message (make_error_code b).value
    → a ≡ b
message-injective a b h = cc (errc_of_message-message a, errc_of_message-message b)
