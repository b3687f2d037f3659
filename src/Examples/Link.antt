-- ===== src/Examples/Link.antt =====
-- Messages of TComm/src/ByteSerializer.h (under TCommEspTest/lib/ControlLibrary/Communication).
use tcomm_tests.Common.{
  ℕ, ◌≡◌, refl, List, [], ◌∷◌, ◌++◌, none, some, arith, Bytes, length, zero, suc, ap,
}
use tcomm_tests.ByteSerializer.{CommunicationData, fresh, receive, header}
use tcomm_tests.ByteSerializer.Frame.{IsFrame}
use tcomm_tests.ByteSerializer.Stream.{
  Chunk, AllChunks, transmit, messages, Delivers, receive-transmit,
}
use tcomm_tests.ByteSerializer.Faults.{receive_overflow, receive_stray}

-- A whole number for the object 3 of the device 2, and an empty message.
abbrev number : CommunicationData
number = record { buffer = 7 ∷ 0 ∷ 0 ∷ 0 ∷ []; device_index = 2; data_size = 4; object_index = 3 }

abbrev nothing_said : CommunicationData
nothing_said = record { buffer = []; device_index = 2; data_size = 0; object_index = 300 }

abbrev too_long : CommunicationData
too_long = record { buffer = []; device_index = 2; data_size = 505; object_index = 3 }

abbrev clear : ℕ → ℕ
clear i = 0

number-IsFrame : IsFrame number
number-IsFrame = record {
  device_fits = omega arith;
  object_fits = omega arith;
  data_fits = omega arith;
  data_present = omega arith;
}

nothing_said-IsFrame : IsFrame nothing_said
nothing_said-IsFrame = record {
  device_fits = omega arith;
  object_fits = omega arith;
  data_fits = omega arith;
  data_present = omega arith;
}

abbrev line : List Chunk
line = Chunk.noise 9 ∷ Chunk.sent number ∷ Chunk.broken_key 1 ∷ Chunk.sent nothing_said ∷ []

line-AllChunks : AllChunks line
line-AllChunks =
    (λ h. omega (arith, h), (number-IsFrame, (λ h. omega (arith, h), (nothing_said-IsFrame, tt))))

receive-transmit_example :
    (bs : Bytes) × (transmit line ≡ some bs)
    × Delivers (receive (fresh clear number) bs) (messages line)
receive-transmit_example = receive-transmit line clear number line-AllChunks

-- So many zero bytes.
zeros : ℕ → Bytes
zeros zero = []
zeros (suc n) = 0 ∷ zeros n

length-zeros : (n : ℕ) → length (zeros n) ≡ n
unfolding zeros
length-zeros zero = refl
length-zeros (suc n) = ap suc (length-zeros n)

receive_overflow_example : receive (fresh clear number) (header too_long ++ zeros 505) ≡ none
receive_overflow_example =
    receive_overflow clear number too_long (zeros 505) (omega arith) (omega arith)
      (omega (arith, length-zeros 505))

receive_stray_example :
    (m' : ℕ → ℕ) × (receive (fresh clear number) (0xFB ∷ header number ++ number.buffer)
      ≡ some (fresh m' number, []))
receive_stray_example = receive_stray clear number number number.buffer (
  λ h. omega (arith, h),
  (
    λ h. omega (arith, h),
    (
      λ h. omega (arith, h),
      (
        λ h. omega (arith, h),
        (
          λ h. omega (arith, h),
          (
            λ h. omega (arith, h),
            (
              λ h. omega (arith, h),
              (λ h. omega (arith, h), (λ h. omega (arith, h), (λ h. omega (arith, h), tt))),
            ),
          ),
        ),
      ),
    ),
  ),
)
