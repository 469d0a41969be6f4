-- ===== src/RawSocketReceiver/Tests.antt =====
-- src/raw_socket_receiver.cpp: runs of the receiver.
use dnsmeter.Base.{◌+◌, ◌≤◌, ◌≡◌, ◌⊎◌, refl, true, [], ◌∷◌, none, some, arith}
use dnsmeter.Pplib.{ByteArray}
use dnsmeter.Pplib.Samples.{zeros, ones, ones-IsBytes}
use dnsmeter.Query.{TimeVal}
use dnsmeter.RawSocketSender.{IpAddress}
use dnsmeter.RawSocketReceiver.{
  Counter, clear, new_raw_socket_receiver, set_source, count_packet, receive, read_buffer,
}
use dnsmeter.RawSocketReceiver.Filter.{IsFrom, receive-IsFrom}
use dnsmeter.RawSocketReceiver.Bpf.{read_buffer-Chunks}

abbrev none_yet : Counter
none_yet = clear (record {
  num_pkgs = 0;
  bytes_rcv = 0;
  rcodes = zeros;
  truncated = 0;
  rtt_total = 0;
  rtt_min = 0;
  rtt_max = 0;
})

abbrev server : IpAddress
server = record { is_ipv4 = true; addr = 16777343 }

abbrev frame : ByteArray
frame = record { bytes = ones; size = 60 }

abbrev clock : TimeVal
clock = record { tv_sec = 1; tv_usec = 0 }

receive-IsFrom_example :
    (IsFrom server 53 frame
      × ((receive
            (set_source (new_raw_socket_receiver zeros) server 53)
            (some frame)
            (some clock)
            none_yet).1
          ≡ count_packet none_yet (some clock) ones 0 60))
    ⊎ ((IsFrom server 53 frame → ⊥)
        × ((receive
              (set_source (new_raw_socket_receiver zeros) server 53)
              (some frame)
              (some clock)
              none_yet).1
            ≡ none_yet))
receive-IsFrom_example =
    receive-IsFrom (new_raw_socket_receiver zeros) server 53 frame (some clock) none_yet
      (omega arith) ones-IsBytes (omega arith) (omega arith)

-- A buffer with one packet of 60 bytes behind a header of 18 bytes.
read_buffer-Chunks_example :
    (c' : Counter) × (read_buffer
        (λ _ _. 60)
        (λ _ _. 18)
        (λ _ _. 60)
        (λ n. n + 2)
        (none ∷ [])
        zeros
        0
        0
        80
        none_yet
      ≡ some c')
    × (c'.num_pkgs ≡ none_yet.num_pkgs + 1)
    × (none_yet.bytes_rcv + 18 ≤ c'.bytes_rcv)
    × (c'.bytes_rcv ≤ none_yet.bytes_rcv + 25)
read_buffer-Chunks_example =
    read_buffer-Chunks (λ _ _. 60) (λ _ _. 18) (λ _ _. 60) (λ n. n + 2) (none ∷ []) zeros 0 0 80
      (0 ∷ []) none_yet (refl, omega arith, (omega arith, omega arith), omega arith)
      ((refl, omega arith, omega arith, omega arith), tt) (omega arith)
