-- ===== src/WebSocketServer/Clients.antt =====
-- The clients of Communication/Media/WebSocketServer.h (under TCommEspTest/lib/ControlLibrary): handlers and
-- subscribers stay in step.
use tcomm_tests.Common.{
  ℕ, suc, ◌+◌, ◌≤◌, ◌<◌, ◌≡◌, refl, Bool, true, false, List, [], ◌∷◌, ◌++◌, Option, none, some,
  arith, ==_refl, ==_ne, remove_if, Bool-cases, inl, inr, ◌∙◌, ap,
}
use mathlib.Core.List.{append_assoc}
use tcomm_tests.Communicator.{Communicator}
use tcomm_tests.ClientHandler.{ClientHandler, is_closed}
use tcomm_tests.WebSocketServer.{
  WebSocketServer, has_port, clean_up_from, clean_up_clients, handle_clients, run,
  delete_subscribers,
}

abbrev Handlers : Type 0
Handlers = List (ℕ × ClientHandler)

abbrev Subscribers : Type 0
Subscribers = List (ℕ × ℕ)

-- Each subscriber's port is the handler at its place, and pointers rise from the bound on.
unfoldable pub InStep : ℕ → Handlers → Subscribers → Type 0
InStep n [] [] = Unit {0}
InStep n [] (s ∷ ss) = ⊥
InStep n (h ∷ hs) [] = ⊥
InStep n ((p, h) ∷ hs) ((s, q) ∷ ss) = (q ≡ p) × (n ≤ p) × InStep (suc p) hs ss

unfoldable pub Under : ℕ → Handlers → Type 0
Under n [] = Unit {0}
Under n ((p, h) ∷ hs) = (p < n) × Under n hs

Below : ℕ → Subscribers → Type 0
Below n [] = Unit {0}
Below n ((s, q) ∷ ss) = (q < n) × Below n ss

abbrev pub closed_one : ℕ × ClientHandler → Bool
closed_one (p, h) = is_closed h

InStep-weaken :
    (n m : ℕ) (hs : Handlers) (ss : Subscribers) → m ≤ n → InStep n hs ss → InStep m hs ss
unfolding InStep
InStep-weaken n m [] [] le i = tt
InStep-weaken n m [] (s ∷ ss) le i = i
InStep-weaken n m (h ∷ hs) [] le i = i
InStep-weaken n m ((p, h) ∷ hs) ((s, q) ∷ ss) le (e, low, rest) = (e, omega (arith, le, low), rest)

Below-weaken : (n m : ℕ) (ss : Subscribers) → n ≤ m → Below n ss → Below m ss
unfolding Below
Below-weaken n m [] le b = tt
Below-weaken n m ((s, q) ∷ ss) le (low, rest) =
    (omega (arith, le, low), Below-weaken n m ss le rest)

remove_if-Below : (p : ℕ) (ss : Subscribers) → Below p ss → remove_if (has_port p) ss ≡ ss
unfolding Below
remove_if-Below p [] b = refl
remove_if-Below p ((s, q) ∷ ss) (low, rest) =
    rw (==_ne q p (λ e. omega (arith, e, low))) (ap (λ r. (s, q) ∷ r) (remove_if-Below p ss rest))

remove_if-InStep :
    (n p : ℕ) (hs : Handlers) (ss : Subscribers)
    → p < n
    → InStep n hs ss
    → remove_if (has_port p) ss ≡ ss
unfolding InStep
remove_if-InStep n p [] [] lt i = refl
remove_if-InStep n p [] (s ∷ ss) lt i = absurd i
remove_if-InStep n p (h ∷ hs) [] lt i = absurd i
remove_if-InStep n p ((p', h) ∷ hs) ((s, q) ∷ ss) lt (e, low, rest) =
    rw (==_ne q p (λ e'. omega (arith, e, e', low, lt)))
      (ap (λ r. (s, q) ∷ r) (remove_if-InStep (suc p') p hs ss (omega (arith, low, lt)) rest))

remove_if-append :
    {A : Type 0} (f : A → Bool) (xs ys : List A)
    → remove_if f (xs ++ ys) ≡ remove_if f xs ++ remove_if f ys
remove_if-append f [] ys = refl
remove_if-append f (x ∷ xs) ys = elim (Bool-cases (f x)) [
  | inl e ↦ rw (e) (remove_if-append f xs ys)
  | inr e ↦ rw (e) (ap (λ r. x ∷ r) (remove_if-append f xs ys))
]

Below-snoc : (n : ℕ) (ss : Subscribers) (s q : ℕ) → Below n ss → q < n → Below n (ss ++ (s, q) ∷ [])
unfolding Below
Below-snoc n [] s q b lt = (lt, tt)
Below-snoc n ((s', q') ∷ ss) s q (low, rest) lt = (low, Below-snoc n ss s q rest lt)

-- What cleaning up leaves behind subscribers of earlier handlers.
record Cleaned (n : ℕ) (done : Subscribers) (hs : Handlers)
    (r : Handlers × Subscribers × Communicator) : Type 0 where
  rest : Subscribers
  subscribers : r.1 ≡ done ++ rest
  in_step : InStep n r.0 rest
  open_ones : r.0 ≡ remove_if closed_one hs

remove_if-one :
    (n p s q : ℕ) (done : Subscribers) (hs : Handlers) (ss : Subscribers)
    → Below n done
    → n ≤ p
    → q ≡ p
    → InStep (suc p) hs ss
    → remove_if (has_port p) (done ++ (s, q) ∷ ss) ≡ done ++ ss
remove_if-one n p s q done hs ss b low e i =
    let head : remove_if (has_port p) ((s, q) ∷ ss) ≡ ss =
      rw (e, ==_refl p) (remove_if-InStep (suc p) p hs ss (omega arith) i) in
    remove_if-append (has_port p) done ((s, q) ∷ ss)
    ∙ ap (λ xs. xs ++ remove_if (has_port p) ((s, q) ∷ ss))
        (remove_if-Below p done (Below-weaken n p done low b))
    ∙ ap (λ ys. done ++ ys) head

clean_up_from-Cleaned :
    (n : ℕ) (done : Subscribers) (hs : Handlers) (ss : Subscribers) (c : Communicator)
    → Below n done
    → InStep n hs ss
    → Cleaned n done hs (clean_up_from hs (done ++ ss) c)
unfolding clean_up_from InStep
clean_up_from-Cleaned n done [] [] c b i = record {
  rest = [];
  subscribers = refl;
  in_step = tt;
  open_ones = refl;
}
clean_up_from-Cleaned n done [] (s ∷ ss) c b i = absurd i
clean_up_from-Cleaned n done (h ∷ hs) [] c b i = absurd i
clean_up_from-Cleaned n done ((p, h) ∷ hs) ((s, q) ∷ ss) c b (e, low, i) =
    elim (Bool-cases (is_closed h)) [
      | inl closed ↦
          (let c' = delete_subscribers p (done ++ (s, q) ∷ ss) c in
            let rest =
              clean_up_from-Cleaned n done hs ss c' b
                (InStep-weaken (suc p) n hs ss (omega (arith, low)) i) in
            rw (closed) (
              rw (remove_if-one n p s q done hs ss b low e i) (record {
                rest = rest.rest;
                subscribers = rest.subscribers;
                in_step = rest.in_step;
                open_ones = rw (closed) rest.open_ones;
              })))
      | inr opened ↦
          (let rest =
              clean_up_from-Cleaned (suc p) (done ++ (s, q) ∷ []) hs ss c
                (Below-snoc (suc p) done s q (Below-weaken n (suc p) done (omega (arith, low)) b)
                  (omega (arith, e)))
                i in
            let rest' = rw (append_assoc done ((s, q) ∷ []) ss) at rest in
            rw (opened) (record {
              rest = (s, q) ∷ rest'.rest;
              subscribers = rest'.subscribers ∙ append_assoc done ((s, q) ∷ []) rest'.rest;
              in_step = (e, low, rest'.in_step);
              open_ones = rw (opened) (ap (λ r. (p, h) ∷ r) rest'.open_ones);
            }))
    ]

InStep-snoc :
    (n : ℕ) (hs : Handlers) (ss : Subscribers) (p s : ℕ) (h : ClientHandler)
    → InStep n hs ss
    → Under p hs
    → n ≤ p
    → InStep n (hs ++ (p, h) ∷ []) (ss ++ (s, p) ∷ [])
unfolding InStep Under
InStep-snoc n [] [] p s h i u le = (refl, le, tt)
InStep-snoc n [] (s' ∷ ss) p s h i u le = absurd i
InStep-snoc n (h' ∷ hs) [] p s h i u le = absurd i
InStep-snoc n ((p', h') ∷ hs) ((s', q) ∷ ss) p s h (e, low, i) (lt, u) le =
    (e, low, InStep-snoc (suc p') hs ss p s h i u (omega (arith, lt)))

Under-snoc :
    (n m : ℕ) (hs : Handlers) (p : ℕ) (h : ClientHandler)
    → Under n hs
    → n ≤ m
    → p < m
    → Under m (hs ++ (p, h) ∷ [])
unfolding Under
Under-snoc n m [] p h u le lt = (lt, tt)
Under-snoc n m ((p', h') ∷ hs) p h (lt', u) le lt =
    (omega (arith, lt', le), Under-snoc n m hs p h u le lt)

remove_if-Under : (n : ℕ) (hs : Handlers) → Under n hs → Under n (remove_if closed_one hs)
unfolding Under
remove_if-Under n [] u = tt
remove_if-Under n ((p, h) ∷ hs) (lt, u) = elim (Bool-cases (is_closed h)) [
  | inl e ↦ rw (e) (remove_if-Under n hs u)
  | inr e ↦ rw (e) (lt, remove_if-Under n hs u)
]

-- The handlers and the subscribers of the server are in step, and the next pointer is free.
pub record IsInStep (w : WebSocketServer) : Type 0 where
  pub in_step : InStep 0 w.client_handlers w.subscribers
  pub free : Under w.next_pointer w.client_handlers

handle_clients-IsInStep :
    (w : WebSocketServer) (ready : Bool) (accepted : Option ℕ)
    → IsInStep w
    → IsInStep (handle_clients w ready accepted)
unfolding handle_clients
handle_clients-IsInStep w ready none i = i
handle_clients-IsInStep w false (some socket) i = i
handle_clients-IsInStep w true (some socket) i = record {
  in_step =
      InStep-snoc 0 w.client_handlers w.subscribers w.next_pointer (w.next_pointer + 1)
        (record { client_socket = some socket; read_buffer = [] }) i.in_step i.free (omega arith);
  free =
      Under-snoc w.next_pointer (w.next_pointer + 2) w.client_handlers w.next_pointer
        (record { client_socket = some socket; read_buffer = [] }) i.free (omega arith)
        (omega arith);
}

clean_up_clients-IsInStep :
    (w : WebSocketServer)
    → IsInStep w
    → IsInStep (clean_up_clients w)
      × ((clean_up_clients w).client_handlers ≡ remove_if closed_one w.client_handlers)
unfolding clean_up_clients Below
clean_up_clients-IsInStep w i =
    let r = clean_up_from-Cleaned 0 [] w.client_handlers w.subscribers w.comm tt i.in_step in
    (
      record {
        in_step = rw (r.subscribers) r.in_step;
        free = rw (r.open_ones) (remove_if-Under w.next_pointer w.client_handlers i.free);
      },
      r.open_ones,
    )

-- Where each subscriber's port is the handler at its place and the pointers rise, a call of `Run` keeps
-- that, whatever the operating system answers; the handlers are then those that were there, with the
-- new client's behind them if one was accepted, without those that are closed.
pub run-IsInStep :
    (w : WebSocketServer) (ready : Bool) (accepted : Option ℕ)
    → IsInStep w
    → IsInStep (run w ready accepted)
      × ((run w ready accepted).client_handlers
          ≡ remove_if closed_one (handle_clients w ready accepted).client_handlers)
unfolding run
run-IsInStep w ready accepted i =
    clean_up_clients-IsInStep (handle_clients w ready accepted)
      (handle_clients-IsInStep w ready accepted i)
