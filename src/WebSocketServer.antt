-- ===== src/WebSocketServer.antt =====
-- Communication/Media/WebSocketServer.h (under TCommEspTest/lib/ControlLibrary): a server that makes a
-- handler and a subscriber for each connection. What the operating system answers is an argument of
-- each call. A handler and a subscriber are known by their pointers.
pub mod Clients
use tcomm_tests.Common.{
  ℕ, ◌+◌, Bool, true, false, not, List, [], ◌∷◌, ◌++◌, map, Option, none, some, ◌==◌, if◌then◌else◌,
  length, drop, get_elem?, remove_if,
}
use tcomm_tests.Communicator.{Communicator, add_subscriber, remove_subscriber}
use tcomm_tests.ClientHandler
use tcomm_tests.ClientHandler.{ClientHandler, is_closed}

-- The members of `WebSocketServer`: the handlers with what their pointers reach, and the subscribers with
-- their ports; and the communicator and the next free pointer.
pub record WebSocketServer : Type 0 where
  pub listen_socket : Option ℕ
  pub client_handlers : List (ℕ × ClientHandler)
  pub subscribers : List (ℕ × ℕ)
  pub comm : Communicator
  pub next_pointer : ℕ

-- What the operating system answers to `begin`.
pub record Answers : Type 0 where
  pub starts_up : Bool
  pub has_address : Bool
  pub new_socket : Option ℕ
  pub binds : Bool
  pub listens : Bool

-- `cleanup`: the socket that it closes, if any, stays in the member.
abbrev pub cleanup : WebSocketServer → List ℕ
cleanup w = elim w.listen_socket [ none ↦ [] | some socket ↦ socket ∷ [] ]

-- `begin`: whether it was successful, and the sockets that it closed.
unfoldable pub begin_listening : WebSocketServer → Answers → WebSocketServer × Bool × List ℕ
begin_listening w a =
    let w' = record w { listen_socket = a.new_socket } in
    let bound = elim a.new_socket as (λ o. WebSocketServer × Bool × List ℕ) [
      | none ↦ (w', false, cleanup w')
      | some socket ↦
          if not a.binds
          then (w', false, cleanup w')
          else if not a.listens
          then (w', false, cleanup w')
          else (w', true, [])
    ] in
    if not a.starts_up
    then (w, false, [])
    else if not a.has_address
    then (w, false, cleanup w)
    else bound

-- `handleClients` with the answers of `select` and `accept`.
unfoldable pub handle_clients : WebSocketServer → Bool → Option ℕ → WebSocketServer
handle_clients w ready accepted = elim accepted [
  | none ↦ w
  | some socket ↦
      if ready
      then record w {
        client_handlers =
            w.client_handlers
            ++ (w.next_pointer, record { client_socket = some socket; read_buffer = [] }) ∷ [];
        subscribers = w.subscribers ++ (w.next_pointer + 1, w.next_pointer) ∷ [];
        comm = add_subscriber w.comm (w.next_pointer + 1);
        next_pointer = w.next_pointer + 2;
      }
      else w
]

-- The subscribers with this port are deleted, which takes them from the communicator.
abbrev pub has_port : ℕ → ℕ × ℕ → Bool
has_port handler (subscriber, port) = port == handler

unfoldable pub delete_subscribers : ℕ → List (ℕ × ℕ) → Communicator → Communicator
delete_subscribers handler [] c = c
delete_subscribers handler ((subscriber, port) ∷ rest) c =
    let c' = if port == handler then remove_subscriber c subscriber else c in
    delete_subscribers handler rest c'

-- `CleanUpClients`, from a handler on: the handlers that are left, and the subscribers.
unfoldable pub clean_up_from :
    List (ℕ × ClientHandler)
    → List (ℕ × ℕ)
    → Communicator
    → List (ℕ × ClientHandler) × List (ℕ × ℕ) × Communicator
unfolding delete_subscribers
clean_up_from [] subs c = ([], subs, c)
clean_up_from ((p, h) ∷ rest) subs c =
    let gone = clean_up_from rest (remove_if (has_port p) subs) (delete_subscribers p subs c) in
    let (handlers, subs', c') = clean_up_from rest subs c in
    if is_closed h then gone else ((p, h) ∷ handlers, subs', c')

unfoldable pub clean_up_clients : WebSocketServer → WebSocketServer
unfolding clean_up_from
clean_up_clients w =
    let (handlers, subs, c) = clean_up_from w.client_handlers w.subscribers w.comm in
    record w { client_handlers = handlers; subscribers = subs; comm = c }

-- `RemoveClient`, which nothing calls, as `onClose` is never called: `remove_if` moves those to be kept to the front, and
-- the first one behind them is deleted and erased, whichever that is.
abbrev pub erase_one {ℓ} : {A : Type ℓ} → List A → List A → List A
erase_one kept all = if length kept == length all then all else kept ++ drop (length kept + 1) all

unfoldable pub remove_client : WebSocketServer → ℕ → WebSocketServer
remove_client w handler =
    let kept = remove_if (has_port handler) w.subscribers in
    let others = remove_if (λ (h : ℕ × ClientHandler). h.0 == handler) w.client_handlers in
    record w {
      client_handlers = erase_one others w.client_handlers;
      subscribers = erase_one kept w.subscribers;
      comm = elim (get_elem? w.subscribers (length kept)) [
        | none ↦ w.comm
        | some (subscriber, port) ↦ remove_subscriber w.comm subscriber
      ];
    }

-- `Run`.
unfoldable pub run : WebSocketServer → Bool → Option ℕ → WebSocketServer
unfolding handle_clients clean_up_clients
run w ready accepted = clean_up_clients (handle_clients w ready accepted)

-- `Close`, with the sockets that it closes.
abbrev pub open_sockets : List (ℕ × ClientHandler) → List ℕ
open_sockets [] = []
open_sockets ((p, h) ∷ rest) = elim h.client_socket [
  | none ↦ open_sockets rest
  | some socket ↦ socket ∷ open_sockets rest
]

abbrev pub delete_all : List (ℕ × ℕ) → Communicator → Communicator
delete_all [] c = c
delete_all ((subscriber, port) ∷ rest) c = delete_all rest (remove_subscriber c subscriber)

unfoldable pub close : WebSocketServer → WebSocketServer × List ℕ
close w = (
  record w {
    client_handlers = [];
    subscribers = [];
    comm = delete_all w.subscribers w.comm;
    listen_socket = none;
  },
  open_sockets w.client_handlers ++ cleanup w,
)
