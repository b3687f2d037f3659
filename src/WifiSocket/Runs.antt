-- ===== src/WifiSocket/Runs.antt =====
-- What a socket sends over many calls: Communication/Media/WifiSocket.h (under
-- TCommEspTest/lib/ControlLibrary).
use tcomm_tests.Common.{
  ℕ, ◌≡◌, refl, Bool, true, false, List, [], ◌∷◌, ◌++◌, Bytes, ◌∙◌, sym, ap, take, length, drop,
  if◌then◌else◌, Bool-cases, inl, inr, arith, take_all,
}
use mathlib.Core.List.{append_assoc, append-nil}
use tcomm_tests.WifiSocket.{WifiSocket, Network, maintain, write, loop_socket}
use tcomm_tests.WifiSocket.Order.{pending, Works, IsInOrder, Sends, send_pending-Sends}

-- A call of the socket.
pub data Event : Type 0 where
  writes : Bytes → Event
  loops : Network → ℕ → Event

-- The bytes of a call of `write` that the socket takes.
abbrev pub taken : WifiSocket → Bytes → Bytes
taken s bs = take (write s bs).1 bs

-- The socket behind the first part of `loop`.
unfoldable pub maintained : WifiSocket → Network → ℕ → WifiSocket
maintained s n now = if s.maintain_connection then (maintain s n now).0 else s

-- The socket after the calls, what it took and what the network took.
pub run_socket : WifiSocket → List Event → WifiSocket × Bytes × Bytes
run_socket s [] = (s, [], [])
run_socket s (writes bs ∷ es) =
    let (s', took, out) = run_socket (write s bs).0 es in (s', taken s bs ++ took, out)
run_socket s (loops n now ∷ es) =
    let (s', took, out) = run_socket (loop_socket s n now).0 es in
    (s', took, (loop_socket s n now).1 ++ out)

-- The network never fails for good, nor takes more than it is offered.
unfoldable pub AllWork : WifiSocket → List Event → Type 0
AllWork s [] = Unit {0}
AllWork s (writes bs ∷ es) = AllWork (write s bs).0 es
AllWork s (loops n now ∷ es) =
    Works (maintained s n now) n.result × AllWork (loop_socket s n now).0 es

-- `MaintainConnection` leaves what is to be sent.
abbrev Same : WifiSocket → WifiSocket → Type 0
Same s s' = (pending s' ≡ pending s) × (IsInOrder s → IsInOrder s')

maintain-Same : (s : WifiSocket) (n : Network) (now : ℕ) → Same s (maintain s n now).0
unfolding maintain
maintain-Same s n now = elim (Bool-cases n.wifi_up) [
  | inl up ↦ rw (up) (refl, λ v. record { inside = v.inside; idle = v.idle })
  | inr down ↦ rw (down) (refl, λ v. record { inside = v.inside; idle = v.idle })
]

maintained-Same : (s : WifiSocket) (n : Network) (now : ℕ) → Same s (maintained s n now)
unfolding maintained
maintained-Same s n now = go s.maintain_connection
  where
    go : (b : Bool) → Same s (if b then (maintain s n now).0 else s)
    go true = maintain-Same s n now
    go false = (refl, λ v. v)

loop_socket-Sends :
    (s : WifiSocket) (n : Network) (now : ℕ)
    → IsInOrder s
    → Works (maintained s n now) n.result
    → let (s', out) = loop_socket s n now in Sends s s' out
unfolding loop_socket maintained
loop_socket-Sends s n now v w =
    let (same, keep) = maintained-Same s n now in
    let h = send_pending-Sends (maintained s n now) n (keep v) w in
    record { split = h.split ∙ same; in_order = h.in_order }

-- `write`, by whether it has a connection.
Written : WifiSocket → Bytes → WifiSocket × ℕ → Type 0
Written s bs (s', n) = pending s' ≡ pending s ++ take n bs

write-Written : (s : WifiSocket) (bs : Bytes) → Written s bs (write s bs)
unfolding write Written
write-Written s bs = go s.client_connected
  where
    go :
        (b : Bool)
        → Written s bs (if b then (record s { buffer = s.buffer ++ bs }, length bs) else (s, 0))
    go true =
        ap (λ (r : Bytes). drop s.next_index_to_write s.write_buffer ++ (s.buffer ++ r))
          (sym (take_all (length bs) bs (omega arith)))
        ∙ sym (
            append_assoc (drop s.next_index_to_write s.write_buffer) s.buffer (take (length bs) bs))
    go false = sym (append-nil (pending s))

write-pending : (s : WifiSocket) (bs : Bytes) → pending (write s bs).0 ≡ pending s ++ taken s bs
unfolding Written
write-pending s bs = write-Written s bs

write-IsInOrder : (s : WifiSocket) (bs : Bytes) → IsInOrder s → IsInOrder (write s bs).0
unfolding write
write-IsInOrder s bs v = elim (Bool-cases s.client_connected) [
  | inl on ↦ rw (on) (record { inside = v.inside; idle = v.idle })
  | inr off ↦ rw (off) (record { inside = v.inside; idle = v.idle })
]

-- Over any calls of `write` and `loop`, with any interruptions of the connection and partial sends,
-- the bytes that the network took are the first of those that the socket took, in their order, none
-- twice and none left out, and the rest is still to be sent; as long as no call of `send` fails for
-- good or returns more than it was offered.
pub run_socket-IsInOrder :
    (s : WifiSocket) (es : List Event)
    → IsInOrder s
    → AllWork s es
    → let (s', took, out) = run_socket s es in
      (out ++ pending s' ≡ pending s ++ took) × IsInOrder s'
unfolding run_socket AllWork
run_socket-IsInOrder s [] v w = (sym (append-nil (pending s)), v)
run_socket-IsInOrder s (writes bs ∷ es) v w =
    let s1 = (write s bs).0 in
    let (h, v') = run_socket-IsInOrder s1 es (write-IsInOrder s bs v) w in
    (
      h
          ∙ ap (λ (r : Bytes). r ++ (run_socket s1 es).1) (write-pending s bs)
          ∙ append_assoc (pending s) (taken s bs) (run_socket s1 es).1,
      v',
    )
run_socket-IsInOrder s (loops n now ∷ es) v (w, ws) =
    let (s1, out) = loop_socket s n now in
    let first = loop_socket-Sends s n now v w in
    let (h, v') = run_socket-IsInOrder s1 es first.in_order ws in
    let (s', took, more) = run_socket s1 es in
    (
      append_assoc out more (pending s')
          ∙ ap (λ (r : Bytes). out ++ r) h
          ∙ sym (append_assoc out (pending s1) took)
          ∙ ap (λ (r : Bytes). r ++ took) first.split,
      v',
    )
