-- ===== src/ClientHandler/Drain.antt =====
-- `SerialSubscriber::Read` (TComm/src/SerialSubscriber.h under
-- TCommEspTest/lib/ControlLibrary/Communication) over a connection of ClientHandler.h, with the bytes
-- that wait in the operating system and how many of them each `recv` takes.
use tcomm_tests.Common.{
  ℕ, zero, suc, ◌+◌, ◌-◌, ◌<◌, ◌≡◌, ◌≢◌, refl, false, List, [], ◌∷◌, ◌++◌, Option, none, some,
  arith, ◌==◌, if◌then◌else◌, Bytes, length, take, drop, length-append, take-append-drop,
  Option-cases, inl, inr, ap,
}
use tcomm_tests.ByteSerializer.{CommunicationData, Deserializer, deserialize, cons_message, receive}
use tcomm_tests.ClientHandler.{ClientHandler, bytes_arrive, available, read, receive_more}

-- The connection with the bytes that have arrived and were not received yet.
pub record Connection : Type 0 where
  pub handler : ClientHandler
  pub waiting : Bytes

module _ (chunk : ℕ → ℕ) where
  -- `read` on a connection that is up: `recv` takes so many of the bytes that wait.
  unfoldable pub read_waiting : Connection → Connection × Option ℕ
  read_waiting k =
      let taken = take (chunk (length k.waiting)) k.waiting in
      let left = drop (chunk (length k.waiting)) k.waiting in
      let (h, b) = read k.handler (some (length k.waiting)) (bytes_arrive taken) in
      let waiting : Bytes = elim k.handler.read_buffer [ [] ↦ left | c ∷ cs ↦ k.waiting ] in
      (record { handler = h; waiting = waiting }, b)

  -- The result -1 of `read` as a byte.
  abbrev as_byte : Option ℕ → ℕ
  as_byte none = 0xFF
  as_byte (some b) = b

  -- What a run of the loop does with the result of `Deserialize`.
  abbrev passed_on :
      Option (Deserializer × Option CommunicationData)
      → Connection
      → (Deserializer → Option (Connection × Option (Deserializer × List CommunicationData)))
      → Option (Connection × Option (Deserializer × List CommunicationData))
  passed_on none k rest = some (k, none)
  passed_on (some (s', out)) k rest = elim (rest s') [
    | none ↦ none
    | some (k', result) ↦ some (k', cons_message out result)
  ]

  -- The loop of `Read`, up to so many runs: the connection afterwards, and the members of the serializer with
  -- the messages, where `none` is the write behind its buffer.
  unfoldable pub read_loop :
      ℕ
      → Deserializer
      → Connection
      → Option (Connection × Option (Deserializer × List CommunicationData))
  unfolding read_waiting
  read_loop zero s k = none
  read_loop (suc fuel) s k =
      let (h, n) = available k.handler (some (length k.waiting)) in
      let (k', b) = read_waiting (record k { handler = h }) in
      let next : Option (Connection × Option (Deserializer × List CommunicationData)) =
        passed_on (deserialize s (as_byte b)) k' (λ s'. read_loop fuel s' k') in
      if n == 0 then some (record k { handler = h }, some (s, [])) else next

  -- A connection that is up.
  abbrev pub connection : ℕ → Bytes → Bytes → Connection
  connection socket buffered waiting = record {
    handler = record { client_socket = some socket; read_buffer = buffered };
    waiting = waiting;
  }

  -- One run of the loop behind `read`.
  continued :
      ℕ
      → Deserializer
      → Connection
      → ℕ
      → Option (Connection × Option (Deserializer × List CommunicationData))
  continued fuel s k b = passed_on (deserialize s b) k (λ s'. read_loop fuel s' k)

  read_loop-buffered :
      (fuel : ℕ) (s : Deserializer) (socket b : ℕ) (bs waiting : Bytes)
      → read_loop (suc fuel) s (connection socket (b ∷ bs) waiting)
        ≡ continued fuel s (connection socket bs waiting) b
  unfolding read_loop read_waiting read available continued
  read_loop-buffered fuel s socket b bs waiting =
      let some_left : (length waiting + suc (length bs)) == 0 ≡ false = ground arith in
      rw (some_left) refl

  read_waiting-connection :
      (socket j b : ℕ) (bs : Bytes)
      → chunk (suc (length bs)) ≡ suc j
      → read_waiting (connection socket [] (b ∷ bs))
        ≡ (connection socket (take j bs) (drop j bs), some b)
  unfolding read_waiting read available receive_more
  read_waiting-connection socket j b bs e =
      let some_left : (suc (length bs) + 0) == 0 ≡ false = ground arith in rw (some_left, e) refl

  read_loop-waiting :
      (fuel : ℕ) (s : Deserializer) (socket j b : ℕ) (bs : Bytes)
      → chunk (suc (length bs)) ≡ suc j
      → read_loop (suc fuel) s (connection socket [] (b ∷ bs))
        ≡ continued fuel s (connection socket (take j bs) (drop j bs)) b
  unfolding read_loop available continued
  read_loop-waiting fuel s socket j b bs e =
      let some_left : (suc (length bs) + 0) == 0 ≡ false = ground arith in
      rw (some_left) (
        ap
          (λ (r : Connection × Option ℕ).
            passed_on (deserialize s (as_byte r.1)) r.0 (λ s'. read_loop fuel s' r.0))
          (read_waiting-connection socket j b bs e))

  -- What the loop has brought.
  pub record Drained (s : Deserializer) (socket : ℕ) (bytes : Bytes)
      (r : Option (Connection × Option (Deserializer × List CommunicationData))) : Type 0 where
    pub after : Connection
    pub result : r ≡ some (after, receive s bytes)
    pub empty : receive s bytes ≢ none → after ≡ connection socket [] []

  continued-Drained :
      (fuel : ℕ) (s : Deserializer) (socket : ℕ) (k : Connection) (b : ℕ) (bytes : Bytes)
      → ((s' : Deserializer) → Drained s' socket bytes (read_loop fuel s' k))
      → Drained s socket (b ∷ bytes) (continued fuel s k b)
  unfolding continued receive
  continued-Drained fuel s socket k b bytes rest = elim (Option-cases (deserialize s b)) [
    | inl e ↦ record {
      after = k;
      result = rw (e, continued, receive) refl;
      empty = λ h. absurd (h (rw (e, receive) refl));
    }
    | inr ((s', out), e) ↦
        (let d = rest s' in
          record {
            after = d.after;
            result = rw (e, continued, receive) (rw (d.result, passed_on) refl);
            empty = λ h. d.empty (λ h'. h (rw (e, receive) (rw (h') refl)));
          })
  ]

  module _ (takes : (n : ℕ) → 0 < n → 0 < chunk n) where
    -- A connection that is up, where `recv` takes at least one of the bytes that wait: `Read` ends after one run of its loop
    -- more than there are bytes, at the latest, and has given the serializer all of them, those that were
    -- buffered first, each once and in order. Unless the serializer wrote behind its buffer, no byte is left,
    -- and the connection is up.
    pub read_loop-Drained :
        (fuel : ℕ) (s : Deserializer) (socket : ℕ) (buffered waiting : Bytes)
        → length buffered + length waiting < fuel
        → Drained s socket
            (buffered ++ waiting)
            (read_loop fuel s (connection socket buffered waiting))
    unfolding read_loop available receive
    read_loop-Drained zero s socket buffered waiting h = absurd (omega (arith, h))
    read_loop-Drained (suc fuel) s socket [] [] h = record {
      after = connection socket [] [];
      result = refl;
      empty = λ h. refl;
    }
    read_loop-Drained (suc fuel) s socket (b ∷ bs) waiting h =
        rw (read_loop-buffered fuel s socket b bs waiting) (
          continued-Drained fuel s socket (connection socket bs waiting) b (bs ++ waiting)
            (λ s'. read_loop-Drained fuel s' socket bs waiting (omega (arith, h))))
    read_loop-Drained (suc fuel) s socket [] (b ∷ bs) h =
        let j = chunk (suc (length bs)) - 1 in
        let e : chunk (suc (length bs)) ≡ suc j =
          omega (arith, takes (suc (length bs)) (omega arith)) in
        let sizes = length-append (take j bs) (drop j bs) in
        let whole = take-append-drop j bs in
        rw (read_loop-waiting fuel s socket j b bs e) (
          continued-Drained fuel s socket (connection socket (take j bs) (drop j bs)) b bs (λ s'.
            rw (whole) at (
              read_loop-Drained fuel s' socket (take j bs) (drop j bs)
                (omega (arith, h, sizes, ap length whole)))))
