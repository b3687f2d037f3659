-- ===== src/WifiSocket/Order.antt =====
-- The order of the bytes that a socket sends: Communication/Media/WifiSocket.h (under
-- TCommEspTest/lib/ControlLibrary).
use tcomm_tests.Common.{
  take-append-drop, ℕ, zero, suc, ◌+◌, ◌≤◌, ◌≡◌, refl, true, false, [], ◌∷◌, ◌++◌, arith, Bytes,
  length, take, drop, ◌∙◌, sym, ap, if◌then◌else◌, length-append, Bool-cases, inl, inr, leb, ◌==◌,
  not, ◌||◌,
}
use mathlib.Core.List.{append_assoc, append-nil}
use tcomm_tests.WifiSocket.{
  WifiSocket, Network, SendResult, sends, again, fails, is_empty, after_send, flush_buffer,
  send_pending,
}

-- What has been taken by `write` and not yet by the network.
abbrev pub pending : WifiSocket → Bytes
pending s = drop s.next_index_to_write s.write_buffer ++ s.buffer

-- `send` takes no more than it is offered, and does not fail for good.
abbrev pub Works : WifiSocket → SendResult → Type 0
Works s (sends n) =
    n + s.next_index_to_write ≤ length s.write_buffer + (if s.busy then 0 else length s.buffer)
Works s again = Unit {0}
Works s fails = ⊥

-- What is left to send begins inside of the buffer, and at its start while the socket is not busy.
pub record IsInOrder (s : WifiSocket) : Type 0 where
  pub inside : s.next_index_to_write ≤ length s.write_buffer
  pub idle : s.busy ≡ false → s.next_index_to_write ≡ 0

-- The network took the first of the pending bytes, and the rest is pending.
pub record Sends (s : WifiSocket) (s' : WifiSocket) (out : Bytes) : Type 0 where
  pub split : out ++ pending s' ≡ pending s
  pub in_order : IsInOrder s'

drop-nil : (n : ℕ) → drop {A = ℕ} n [] ≡ []
drop-nil zero = refl
drop-nil (suc n) = refl

drop-drop : (n i : ℕ) (bs : Bytes) → drop (i + n) bs ≡ drop n (drop i bs)
drop-drop n zero bs = ap (λ k. drop k bs) (omega arith)
drop-drop n (suc i) [] = drop-nil (suc i + n) ∙ sym (drop-nil n)
drop-drop n (suc i) (b ∷ bs) =
    let e : suc i + n ≡ suc (i + n) = omega arith in ap (λ k. drop k (b ∷ bs)) e ∙ drop-drop n i bs

take-drop : (n i : ℕ) (bs : Bytes) → take n (drop i bs) ++ drop (i + n) bs ≡ drop i bs
take-drop n i bs = rw (drop-drop n i bs) (take-append-drop n (drop i bs))

take-drop_all : (n i : ℕ) (bs : Bytes) → length bs ≤ i + n → take n (drop i bs) ≡ drop i bs
take-drop_all zero zero [] h = refl
take-drop_all (suc n) zero [] h = refl
take-drop_all zero zero (b ∷ bs) h = absurd (omega (arith, h))
take-drop_all (suc n) zero (b ∷ bs) h =
    ap (λ (r : Bytes). b ∷ r) (take-drop_all n zero bs (omega (arith, h)))
take-drop_all zero (suc i) [] h = refl
take-drop_all (suc n) (suc i) [] h = refl
take-drop_all n (suc i) (b ∷ bs) h = take-drop_all n i bs (omega (arith, h))

after_send-Sends :
    (s : WifiSocket) (r : SendResult)
    → IsInOrder s
    → s.busy ≡ true
    → Works s r
    → let (s', out) = after_send s r in Sends s s' out
unfolding after_send
after_send-Sends s again v b w = record { split = refl; in_order = v }
after_send-Sends s fails v b w = absurd w
after_send-Sends s (sends n) v b w =
    let i = s.next_index_to_write in
    elim (Bool-cases (n == 0)) [
      | inl e ↦ rw (e) (record { split = refl; in_order = v })
      | inr e ↦ elim (Bool-cases (leb (length s.write_buffer) (i + n))) [
        | inl all ↦
            rw (e, all)
              (record {
                split =
                    ap (λ (r : Bytes). r ++ s.buffer)
                      (take-drop_all n i s.write_buffer (ground arith));
                in_order = record { inside = omega arith; idle = λ h. refl };
              })
        | inr some_left ↦
            rw (e, some_left)
              (record {
                split =
                    sym (
                      append_assoc (take n (drop i s.write_buffer)) (drop (i + n) s.write_buffer)
                        s.buffer)
                    ∙ ap (λ (r : Bytes). r ++ s.buffer) (take-drop n i s.write_buffer);
                in_order = record { inside = ground arith; idle = λ h. absurd (cc (h, b)) };
              })
      ]
    ]

-- A call of `flushBuffer` keeps the order.
flush_buffer-Sends :
    (s : WifiSocket) (n : Network)
    → IsInOrder s
    → Works (record s { busy = true }) n.result
    → let (s', out) = flush_buffer s n in Sends s s' out
unfolding flush_buffer
flush_buffer-Sends s n v w = elim (Bool-cases (not s.client || is_empty s.write_buffer)) [
  | inl e ↦ rw (e) (record { split = refl; in_order = v })
  | inr e ↦ elim (Bool-cases n.ready) [
    | inl r ↦
        rw (e, r)
          (let h = after_send-Sends started n.result v' refl w in
            record { split = h.split; in_order = h.in_order })
    | inr r ↦ rw (e, r) (record { split = refl; in_order = v' })
  ]
]
  where
    started : WifiSocket
    started = record s { busy = true }

    v' : IsInOrder started
    v' = record { inside = v.inside; idle = λ h. absurd (cc h) }

drop-start : (i : ℕ) (bs cs : Bytes) → i ≡ 0 → drop i (bs ++ cs) ++ [] ≡ drop i bs ++ cs
drop-start i bs cs h = rw (h) (append-nil (bs ++ cs))

-- What follows `MaintainConnection` in the loop keeps the order.
pub send_pending-Sends :
    (s : WifiSocket) (n : Network)
    → IsInOrder s
    → Works s n.result
    → let (s', out) = send_pending s n in Sends s s' out
unfolding send_pending
send_pending-Sends s n v w = elim (Bool-cases s.client_connected) [
  | inr off ↦ rw (is_off off) (record { split = refl; in_order = v })
  | inl on ↦ elim (Bool-cases s.busy) [
    | inl b ↦ rw (is_busy on b) (flush_buffer-Sends s n v (works_on b n.result w))
    | inr b ↦ elim (Bool-cases (is_empty s.buffer)) [
      | inl e ↦ rw (is_idle on b e) (record { split = refl; in_order = v })
      | inr e ↦ rw (is_moved on b e) (
          let h = flush_buffer-Sends moved n v' (works_moved b n.result w) in
          record {
            split = h.split ∙ drop-start s.next_index_to_write s.write_buffer s.buffer (v.idle b);
            in_order = h.in_order;
          })
    ]
  ]
]
  where
    moved : WifiSocket
    moved = record s { write_buffer = s.write_buffer ++ s.buffer; buffer = [] }

    v' : IsInOrder moved
    v' = record {
      inside = omega (arith, v.inside, length-append s.write_buffer s.buffer);
      idle = v.idle;
    }

    is_off : s.client_connected ≡ false → send_pending s n ≡ (s, [])
    is_off off = rw (off) refl

    is_busy : s.client_connected ≡ true → s.busy ≡ true → send_pending s n ≡ flush_buffer s n
    is_busy on b = rw (on, b) refl

    is_idle :
        s.client_connected ≡ true
        → s.busy ≡ false
        → is_empty s.buffer ≡ true
        → send_pending s n ≡ (s, [])
    is_idle on b e = rw (on, b, e) refl

    is_moved :
        s.client_connected ≡ true
        → s.busy ≡ false
        → is_empty s.buffer ≡ false
        → send_pending s n ≡ flush_buffer moved n
    is_moved on b e = rw (on, b, e) refl

    works_on : s.busy ≡ true → (r : SendResult) → Works s r → Works (record s { busy = true }) r
    works_on b (sends k) w' = ground arith
    works_on b again w' = tt
    works_on b fails w' = w'

    works_moved :
        s.busy ≡ false → (r : SendResult) → Works s r → Works (record moved { busy = true }) r
    works_moved b (sends k) w' = ground (arith, length-append s.write_buffer s.buffer)
    works_moved b again w' = tt
    works_moved b fails w' = w'
