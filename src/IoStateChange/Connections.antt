-- ===== src/IoStateChange/Connections.antt =====
-- The function objects of net_ip/component/io_state_change.hpp over the connections of a net entity.
use chops.Prelude.{ℕ, Bool, true, false, List, [], ◌∷◌, ◌++◌, map}
use chops.BasicIoInterface.{BasicIoInterface}
use chops.IoStateChange.{
  Movable, StartIo, IoStateChange, simple_framed, framed, delimited, sized, sending, with_endp,
  sending_with_endp, simple_variable_len_msg_frame, msg_frame, delimiter_read, read, send_only,
  default_endp, send_only_default_endp, call,
}

-- An io state change: the interface, the number of handlers, and whether it starts.
abbrev pub Change : Type 0
Change = BasicIoInterface × ℕ × Bool

-- The interfaces of the changes that start.
abbrev pub started : List Change → List BasicIoInterface
started [] = []
started ((io, _, true) ∷ cs) = io ∷ started cs
started ((_, _, false) ∷ cs) = started cs

module _ {E H F : Type 0} ⦃h : Movable H⦄ ⦃f : Movable F⦄ where
  unfoldable pub run : IoStateChange E H F → List Change → List (StartIo E H F)
  run s [] = []
  run s ((io, num, starting) ∷ cs) = let (c, s') = call s io num starting in c ++ run s' cs

  -- What the maker of a function object promises of `start_io`: the overload, and the arguments that
  -- the maker was given. The message handler and the frame are those that are left: all of them for
  -- the first connection, and as one `std::move` left them for the others.
  abbrev pub promised : (H → H) → (F → F) → IoStateChange E H F → BasicIoInterface → StartIo E H F
  promised lh lf (simple_variable_len_msg_frame hdr_size hd_func mh) io =
      simple_framed io hdr_size (lh mh) (record { hdr_processed = false; func = hd_func })
  promised lh lf (msg_frame hdr_size mh mf) io = framed io hdr_size (lh mh) (lf mf)
  promised lh lf (delimiter_read delim mh) io = delimited io delim (lh mh)
  promised lh lf (read rd_size mh) io = sized io rd_size (lh mh)
  promised lh lf send_only io = sending io
  promised lh lf (default_endp endp max_size mh) io = with_endp io endp max_size (lh mh)
  promised lh lf (send_only_default_endp endp) io = sending_with_endp io endp

  abbrev pub first_then_moved : IoStateChange E H F → List BasicIoInterface → List (StartIo E H F)
  first_then_moved s [] = []
  first_then_moved s (io ∷ ios) =
      promised (λ mh. mh) (λ mf. mf) s io ∷ map (promised h.moved f.moved s) ios
