-- ===== src/Daemon.antt =====
-- The event loop of nbd/main.py, over the sockets of its clients and the reader that they share.
pub mod Handled
pub mod Events
pub mod Ended
use ps3_memorycard_adapter.Prelude.{
  ℕ, suc, ◌+◌, ◌≡◌, refl, ap, ◌↔◌, Bool, true, false, not, ◌||◌, Option, none, some, List, [], ◌∷◌,
  ◌==◌, ==_iff, if◌then◌else◌, value_error, key_error, os_error, Outcome, ok, raised, Action, pure,
  raise, or_raise, and_then, ◌>>=◌, ◌>>◌,
}
use ps3_memorycard_adapter.Dict.{Key, nat_key, Dict, lookup, insert, remove}
use ps3_memorycard_adapter.Nbd.Wire.{Device, World, close}
use ps3_memorycard_adapter.Nbd.Handle.{handle}
use ps3_memorycard_adapter.Nbd.Greet.{greet}

-- The values of `socket_dict`: `nbd_sock`, or an `NBDServer`, by when it was constructed.
pub data Sock : Type 0 where
  nbd_sock : Sock
  nbd_server : (id : ℕ) → Sock

abbrev pub sock_same : Sock → Sock → Bool
sock_same nbd_sock nbd_sock = true
sock_same nbd_sock (nbd_server i) = false
sock_same (nbd_server i) nbd_sock = false
sock_same (nbd_server i) (nbd_server j) = i == j

nbd_server-injective : {i j : ℕ} → nbd_server i ≡ nbd_server j → i ≡ j
nbd_server-injective h = cc

pub sock_same_iff : (a b : Sock) → (sock_same a b ≡ true) ↔ (a ≡ b)
sock_same_iff nbd_sock nbd_sock = (λ h. refl, λ h. refl)
sock_same_iff nbd_sock (nbd_server j) = (λ h. cc, λ h. cc)
sock_same_iff (nbd_server i) nbd_sock = (λ h. cc, λ h. cc)
sock_same_iff (nbd_server i) (nbd_server j) =
    (λ h. ap nbd_server ((==_iff i j).0 h), λ h. (==_iff i j).1 (nbd_server-injective h))

instance abbrev pub sock_key : Key Sock
sock_key = record { same = sock_same; same_iff = sock_same_iff }

-- The values of `handler_dict`: `accept`, or the method `handle` of a server.
pub data Handler : Type 0 where
  accept_client : Handler
  handle_of : (id : ℕ) → Handler

-- An `NBDServer`: the number of its socket, and its world but for the reader.
pub record Client : Type 0 where
  pub number : ℕ
  pub wire : World (Unit {0})

-- `reader` stands for the device of all servers, `clients` for the servers that were constructed,
-- `made` of them, `registered` for what epoll watches. `own_number` is the number of `nbd_sock`.
pub record Daemon (D : Type 0) : Type 0 where
  pub reader : D
  pub clients : ℕ → Client
  pub made : ℕ
  pub own_number : ℕ
  pub own_closed : Bool
  pub socket_dict : Dict ℕ Sock
  pub handler_dict : Dict Sock Handler
  pub registered : List ℕ

-- An event of `epoll.poll`; `only_in` is `event == select.EPOLLIN`. `number` and `wire` are the
-- connection that `nbd_sock.accept` returns if it is called.
pub record Event : Type 0 where
  pub fd : ℕ
  pub only_in : Bool
  pub number : ℕ
  pub wire : World (Unit {0})

abbrev pub watches : ℕ → List ℕ → Bool
watches n [] = false
watches n (k ∷ ks) = (n == k) || watches n ks

abbrev pub without : ℕ → List ℕ → List ℕ
without n [] = []
without n (k ∷ ks) = let rest = without n ks in if n == k then rest else k ∷ rest

abbrev pub set_client : ℕ → Client → (ℕ → Client) → ℕ → Client
set_client id c clients j = if j == id then c else clients j

-- epoll does not watch a socket that is closed.
abbrev pub watched : Client → List ℕ → List ℕ
watched c registered = if c.wire.closed then without c.number registered else registered

-- `socket_dict.values()`
abbrev pub values : Dict ℕ Sock → List Sock
values [] = []
values ((fd, sock) ∷ d) = sock ∷ values d

module _ {D : Type 0} where
  abbrev pub with_reader : D → World (Unit {0}) → World D
  with_reader d w = record {
    device = d;
    arrivals = w.arrivals;
    sent = w.sent;
    closed = w.closed;
    shutdown_error = w.shutdown_error;
    buffer = w.buffer;
  }

  abbrev pub without_reader : World D → World (Unit {0})
  without_reader w = record {
    device = tt;
    arrivals = w.arrivals;
    sent = w.sent;
    closed = w.closed;
    shutdown_error = w.shutdown_error;
    buffer = w.buffer;
  }

  -- epoll.register
  unfoldable pub register : ℕ → Action (Daemon D) (Unit {0})
  register n s =
      if watches n s.registered
      then (raised (os_error 17), s)
      else (ok tt, record s { registered = n ∷ s.registered })

  -- epoll.unregister; a socket that is closed has the number -1.
  unfoldable pub unregister : Option ℕ → Action (Daemon D) ℕ
  unregister none s = (raised value_error, s)
  unregister (some n) s =
      if watches n s.registered
      then (ok n, record s { registered = without n s.registered })
      else (raised (os_error 2), s)

  -- `sock.fileno()`
  abbrev pub fileno : Sock → Daemon D → Option ℕ
  fileno nbd_sock s = if s.own_closed then none else some s.own_number
  fileno (nbd_server id) s =
      if (s.clients id).wire.closed then none else some ((s.clients id).number)

  -- A server after a call of it.
  abbrev pub keep : {A : Type 0} → ℕ → ℕ → Outcome A × World D → Action (Daemon D) A
  keep id number x s =
      let c : Client = record { number = number; wire = without_reader (x.1) } in
      (
        x.0,
        record s {
          reader = x.1.device;
          clients = set_client id c s.clients;
          registered = watched c s.registered;
        },
      )

  abbrev pub on_server : {A : Type 0} → ℕ → Action (World D) A → Action (Daemon D) A
  on_server id m s = let c = s.clients id in keep id c.number (m (with_reader s.reader c.wire)) s

  -- A new server, for a connection.
  abbrev pub construct : ℕ → World (Unit {0}) → Action (Daemon D) ℕ
  construct number wire s = (
    ok s.made,
    record s {
      clients = set_client s.made (record { number = number; wire = wire }) s.clients;
      made = suc s.made;
    },
  )

  abbrev pub add_server : ℕ → ℕ → Action (Daemon D) (Unit {0})
  add_server id number s = (
    ok tt,
    record s {
      socket_dict = insert number (nbd_server id) s.socket_dict;
      handler_dict = insert (nbd_server id) (handle_of id) s.handler_dict;
    },
  )

  -- `del socket_dict[...]` and `del handler_dict[sock]`
  unfoldable pub del_socket : ℕ → Action (Daemon D) (Unit {0})
  del_socket n s =
      (do
        or_raise (lookup n s.socket_dict) key_error
        λ s'. (ok tt, record s' { socket_dict = remove n s'.socket_dict }))
        s

  unfoldable pub del_handler : Sock → Action (Daemon D) (Unit {0})
  del_handler sock s =
      (do
        or_raise (lookup sock s.handler_dict) key_error
        λ s'. (ok tt, record s' { handler_dict = remove sock s'.handler_dict }))
        s

  -- `sock.close()`; to shut down a closed socket is EBADF.
  unfoldable pub close_sock : Sock → Action (Daemon D) (Unit {0})
  close_sock nbd_sock s = (ok tt, record s { own_closed = true })
  close_sock (nbd_server id) s =
      if (s.clients id).wire.closed then (raised (os_error 9), s) else on_server id close s

  -- An event that is not only input ends a connection.
  unfoldable pub end_sock : Sock → Action (Daemon D) (Unit {0})
  end_sock sock = do
    n ← λ s. unregister (fileno sock s) s
    del_socket n
    del_handler sock
    close_sock sock

  abbrev pub close_all : List Sock → Action (Daemon D) (Unit {0})
  close_all [] = pure tt
  close_all (sock ∷ socks) = do close_sock sock; close_all socks

  -- The `finally` of `main`.
  unfoldable pub finish : Action (Daemon D) (Unit {0})
  finish = do
    n ← λ s. or_raise (fileno nbd_sock s) key_error s
    del_socket n
    close_sock nbd_sock
    λ s. close_all (values s.socket_dict) s

  -- The state before the loop, with the number of `nbd_sock`.
  unfoldable pub start : D → (ℕ → Client) → ℕ → Daemon D
  start d clients n = record {
    reader = d;
    clients = clients;
    made = 0;
    own_number = n;
    own_closed = false;
    socket_dict = (n, nbd_sock) ∷ [];
    handler_dict = (nbd_sock, accept_client) ∷ [];
    registered = n ∷ [];
  }

  module _ (dev : Device D) (rounds fuel : ℕ) where
    -- `accept`, inside `main`
    unfoldable pub accept : ℕ → World (Unit {0}) → Action (Daemon D) (Unit {0})
    accept number wire = do
      id ← construct number wire
      greeted ← on_server id (greet dev false rounds fuel)
      if greeted then (do add_server id number; register number) else pure tt

    -- `handler_dict[sock]()`: what `handle` of a server returns is not looked at.
    unfoldable pub call : Handler → Event → Action (Daemon D) (Unit {0})
    call accept_client e = accept e.number e.wire
    call (handle_of id) e = do on_server id (handle dev false fuel); pure tt

    -- One round of `for fd, event in epoll.poll()`.
    unfoldable pub on_event : Event → Action (Daemon D) (Unit {0})
    on_event e = do
      sock ← λ s. or_raise (lookup e.fd s.socket_dict) key_error s
      if e.only_in
          then (do handler ← λ s. or_raise (lookup sock s.handler_dict) key_error s; call handler e)
          else end_sock sock

    unfoldable pub on_events : List Event → Action (Daemon D) (Unit {0})
    on_events [] = pure tt
    on_events (e ∷ es) = do on_event e; on_events es
