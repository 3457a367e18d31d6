-- ===== src/Tests/Daemon.antt =====
-- A server with one client, and the theorems on its event loop applied to it.
use ps3_memorycard_adapter.Prelude.{
  suc, ◌≡◌, refl, arith, true, false, none, some, [], ◌∷◌, replicate, ok,
}
use ps3_memorycard_adapter.Dict.{nat_key}
use ps3_memorycard_adapter.Nbd.Wire.{Device, World, on_device, recv, sendall, recv_rest, recvall}
use ps3_memorycard_adapter.Struct.{big}
use ps3_memorycard_adapter.Nbd.Request.{outside}
use ps3_memorycard_adapter.Nbd.Options.{recv_value, recv_option}
use ps3_memorycard_adapter.Nbd.Greet.{
  greet, negotiate, option_loop, answer_option, answer_export_name,
}
use ps3_memorycard_adapter.Daemon.{
  nbd_sock, nbd_server, sock_key, accept_client, handle_of, Client, Daemon, Event, set_client,
  start, register, accept, call, on_event, on_events,
}
use ps3_memorycard_adapter.Daemon.Handled.{
  IsConsistent, construct-Consistent, add_server-Consistent,
}
use ps3_memorycard_adapter.Daemon.Events.{start-IsConsistent, on_events-start}
use ps3_memorycard_adapter.Daemon.Ended.{Forgotten, on_event-Forgotten}

-- A device of zeros.
abbrev zeros : Device (Unit {0})
zeros = record {
  get_size = λ d. (ok (some 1024), d);
  get_page_size = λ d. (ok (some 512), d);
  read = λ offset len d. (ok (replicate len 0), d);
  write = λ offset b d. (ok tt, d);
}

abbrev silent : World (Unit {0})
silent = record {
  device = tt;
  arrivals = [];
  sent = [];
  closed = false;
  shutdown_error = none;
  buffer = [];
}

abbrev five : Client
five = record { number = 5; wire = silent }

-- A connection on the socket 3, from a client that knows both handshake flags and asks for the
-- device by NBD_OPT_EXPORT_NAME.
abbrev connection : Event
connection = record {
  fd = 3;
  only_in = true;
  number = 5;
  wire = record silent {
    arrivals =
        (0 ∷ 0 ∷ 0 ∷ 3 ∷ [])
        ∷ (b'I' ∷ b'H' ∷ b'A' ∷ b'V' ∷ b'E' ∷ b'O' ∷ b'P' ∷ b'T' ∷ [])
        ∷ (0 ∷ 0 ∷ 0 ∷ 1 ∷ 0 ∷ 0 ∷ 0 ∷ 0 ∷ [])
        ∷ [];
  };
}

abbrev hangup : Event
hangup = record { fd = 5; only_in = false; number = 0; wire = silent }

on_events-start_example :
    IsConsistent ((on_events zeros 9 9 (connection ∷ hangup ∷ []) (start tt (λ id. five) 3)).1)
on_events-start_example = on_events-start zeros 9 9 (connection ∷ hangup ∷ []) tt (λ id. five) 3

-- The loop with the socket 3 and a server on the socket 5.
abbrev one_client : Daemon (Unit {0})
one_client = record {
  reader = tt;
  clients = set_client 0 five (λ id. five);
  made = suc 0;
  own_number = 3;
  own_closed = false;
  socket_dict = (3, nbd_sock) ∷ (5, nbd_server 0) ∷ [];
  handler_dict = (nbd_sock, accept_client) ∷ (nbd_server 0, handle_of 0) ∷ [];
  registered = 5 ∷ 3 ∷ [];
}

one_client-IsConsistent : IsConsistent one_client
unfolding start
one_client-IsConsistent =
    let before = start tt (λ id. five) 3 in
    add_server-Consistent before.socket_dict before.handler_dict (set_client 0 five (λ id. five))
      (suc 0) 3 0 5 refl (omega arith)
      (construct-Consistent before.socket_dict before.handler_dict (λ id. five) 0 3 five
        (start-IsConsistent {D = Unit {0}} tt (λ id. five) 3))

on_event-Forgotten_example : Forgotten 5 0 ((on_event zeros 9 9 hangup one_client).1)
on_event-Forgotten_example =
    on_event-Forgotten zeros 9 9 hangup one_client 0 one_client-IsConsistent refl refl refl refl

-- The client of `connection` is taken in.
connected :
    (on_events zeros 9 9 (connection ∷ []) (start tt (λ id. five) 3)).1.socket_dict
    ≡ one_client.socket_dict
unfolding on_events on_event call accept start greet register negotiate option_loop answer_option
    answer_export_name recv_value recv_option on_device recv sendall recv_rest recvall big outside
connected = refl
