-- ===== src/Message/Transfer.antt =====
-- A message on its way: `Update` of the nine objects of TCommBase.h on one side and `Inject` on the
-- other (under TCommEspTest/lib/ControlLibrary/Communication/TComm/src).
use tcomm_tests.Common.{
  ℕ, ◌%◌, true, if◌then◌else◌, ◌==◌, length, ◌<◌, ◌^◌, ◌≡◌, refl, List, ◌∷◌, some, Bytes,
  Bool-cases, not, inl, inr, sym, ◌∙◌, ap,
}
use tcomm_tests.ByteSerializer.{CommunicationData}
use tcomm_tests.Object.{TemplateCommunicationObject, get_data, is_dirty, update, inject}
use tcomm_tests.Object.Types.{Codec, int, int32, word_codec, text_codec}
use tcomm_tests.Object.Sync.{IsCodec, word-IsCodec, text-IsCodec, word-small, text-small}
use tcomm_tests.Message.{
  Message, update_message, inject_message, inject_messages, inject_index, sent, replaced,
}
use tcomm_tests.Message.Slots.{arrive, inject-arrive, whole, with_zero}

-- Where an object stands: its device and its index.
abbrev pub place : {A : Type 0} → TemplateCommunicationObject A → ℕ × ℕ
place o = (o.device_index, o.object_index)

-- The device 0 and the index that each of the nine objects gets where the message is made.
pub record IsIndexed (m : Message) : Type 0 where
  pub value : place m.value ≡ (0, 0)
  pub text1 : place m.text1 ≡ (0, 1)
  pub text2 : place m.text2 ≡ (0, 2)
  pub text3 : place m.text3 ≡ (0, 3)
  pub text4 : place m.text4 ≡ (0, 4)
  pub text5 : place m.text5 ≡ (0, 5)
  pub kind : place m.kind ≡ (0, 6)
  pub testtype : place m.testtype ≡ (0, 7)
  pub echotype : place m.echotype ≡ (0, 8)

-- The words fit their 32 bits.
pub record Fits (m : Message) : Type 0 where
  pub value : m.value.value < 256 ^ 4
  pub kind : m.kind.value < 256 ^ 4
  pub testtype : m.testtype.value < 256 ^ 4
  pub echotype : m.echotype.value < 256 ^ 4

-- What is sent of a text has a size of 16 bits.
abbrev pub TextFits : TemplateCommunicationObject Bytes → Type 0
TextFits o = is_dirty text_codec o ≡ true → length o.value < 65535

pub record TextsFit (m : Message) : Type 0 where
  pub text1 : TextFits m.text1
  pub text2 : TextFits m.text2
  pub text3 : TextFits m.text3
  pub text4 : TextFits m.text4
  pub text5 : TextFits m.text5

-- The other side's message once this one's has arrived.
abbrev arrived :
    TemplateCommunicationObject ℕ → TemplateCommunicationObject ℕ → TemplateCommunicationObject ℕ
arrived o p = arrive (word_codec int) whole o p

abbrev arrived_text :
    TemplateCommunicationObject Bytes
    → TemplateCommunicationObject Bytes
    → TemplateCommunicationObject Bytes
arrived_text o p = arrive text_codec with_zero o p

unfoldable pub deliver : Message → Message → Message
deliver m n = record {
  value = arrived m.value n.value;
  text1 = arrived_text m.text1 n.text1;
  text2 = arrived_text m.text2 n.text2;
  text3 = arrived_text m.text3 n.text3;
  text4 = arrived_text m.text4 n.text4;
  text5 = arrived_text m.text5 n.text5;
  kind = arrived m.kind n.kind;
  testtype = arrived m.testtype n.testtype;
  echotype = arrived m.echotype n.echotype;
}

-- One object of the message: what is sent for it changes it alone.
inject_messages-cons :
    (n n' : Message) (d : CommunicationData) (ds : List CommunicationData)
    → inject_message n d ≡ some n'
    → inject_messages n (d ∷ ds) ≡ inject_messages n' ds
unfolding inject_messages
inject_messages-cons n n' d ds h = rw (h, inject_messages) refl

-- The address that data carry, as 16-bit numbers.
abbrev carried : ℕ × ℕ → ℕ × ℕ
carried p = (p.0 % 65536, p.1 % 65536)

get_data-place :
    {A : Type 0} (c : Codec A) (o : TemplateCommunicationObject A)
    → ◌≡◌ {A = ℕ × ℕ} ((get_data c o).device_index, (get_data c o).object_index) (carried (place o))
unfolding get_data
get_data-place c o = refl

inject_message-at :
    (n : Message) (d : CommunicationData) (i : ℕ)
    → ◌≡◌ {A = ℕ × ℕ} (d.device_index, d.object_index) (0, i)
    → inject_message n d ≡ inject_index n d i
unfolding inject_message
inject_message-at n d i h =
    let device : d.device_index ≡ 0 = ap (λ (p : ℕ × ℕ). p.0) h in
    ap (λ b. if b then inject_index n d d.object_index else some n) (ap (λ x. x == 0) device)
    ∙ ap (λ (p : ℕ × ℕ). inject_index n d p.1) h

inject_messages-sent :
    {A : Type 0} (c : Codec A) {Good : A → Type 0} (arrives : A → A) (laws : IsCodec c Good arrives)
    (o p : TemplateCommunicationObject A) (n : Message)
    (put : TemplateCommunicationObject A → Message) (ds : List CommunicationData)
    → ((d : CommunicationData)
        → ◌≡◌ {A = ℕ × ℕ} (d.device_index, d.object_index) (carried (place o))
        → inject_message n d ≡ replaced (inject c p d) put)
    → put p ≡ n
    → Good o.value
    → (is_dirty c o ≡ true → length (c.bytes o.value) < 65536)
    → inject_messages n (sent (update c o).1 ds) ≡ inject_messages (put (arrive c arrives o p)) ds
unfolding update
inject_messages-sent {A = A} c arrives laws o p n put ds reads same good small =
    elim (Bool-cases (is_dirty c o)) [
      | inl dirty ↦ rw (dirty) (
          inject_messages-cons n (put (taken o p)) (get_data c o) ds (
            reads (get_data c o) (get_data-place c o)
            ∙ ap (λ r. replaced r put)
                (rw (dirty) at (inject-arrive c arrives laws o p good (small dirty) dirty))))
      | inr clean ↦ rw (clean) (ap (λ m. inject_messages m ds) (sym same))
    ]
  where
    taken :
        TemplateCommunicationObject A
        → TemplateCommunicationObject A
        → TemplateCommunicationObject A
    taken o p = record p {
      value = arrives o.value;
      value_old = arrives o.value;
      change_received = not (c.beq (arrives o.value) p.value);
    }

-- Each of the nine, in the order in which they are sent.
module _ (m : Message) (indexed : IsIndexed m) (fits : Fits m) (texts : TextsFit m) where
  sent_value_lem :
      (n : Message) (ds : List CommunicationData)
      → inject_messages n (sent (update (word_codec int) m.value).1 ds)
        ≡ inject_messages (record n { value = arrived m.value n.value }) ds
  unfolding inject_message inject_index
  sent_value_lem n ds =
      inject_messages-sent (word_codec int) whole (word-IsCodec int) m.value n.value n
        (λ o. record n { value = o }) ds
        (λ d h. inject_message-at n d 0 (h ∙ ap carried indexed.value)) refl fits.value
        (λ h. word-small int m.value.value)

  sent_text1_lem :
      (n : Message) (ds : List CommunicationData)
      → inject_messages n (sent (update text_codec m.text1).1 ds)
        ≡ inject_messages (record n { text1 = arrived_text m.text1 n.text1 }) ds
  unfolding inject_message inject_index
  sent_text1_lem n ds =
      inject_messages-sent text_codec with_zero text-IsCodec m.text1 n.text1 n
        (λ o. record n { text1 = o }) ds
        (λ d h. inject_message-at n d 1 (h ∙ ap carried indexed.text1)) refl tt
        (λ h. text-small m.text1.value (texts.text1 h))

  sent_text2_lem :
      (n : Message) (ds : List CommunicationData)
      → inject_messages n (sent (update text_codec m.text2).1 ds)
        ≡ inject_messages (record n { text2 = arrived_text m.text2 n.text2 }) ds
  unfolding inject_message inject_index
  sent_text2_lem n ds =
      inject_messages-sent text_codec with_zero text-IsCodec m.text2 n.text2 n
        (λ o. record n { text2 = o }) ds
        (λ d h. inject_message-at n d 2 (h ∙ ap carried indexed.text2)) refl tt
        (λ h. text-small m.text2.value (texts.text2 h))

  sent_text3_lem :
      (n : Message) (ds : List CommunicationData)
      → inject_messages n (sent (update text_codec m.text3).1 ds)
        ≡ inject_messages (record n { text3 = arrived_text m.text3 n.text3 }) ds
  unfolding inject_message inject_index
  sent_text3_lem n ds =
      inject_messages-sent text_codec with_zero text-IsCodec m.text3 n.text3 n
        (λ o. record n { text3 = o }) ds
        (λ d h. inject_message-at n d 3 (h ∙ ap carried indexed.text3)) refl tt
        (λ h. text-small m.text3.value (texts.text3 h))

  sent_text4_lem :
      (n : Message) (ds : List CommunicationData)
      → inject_messages n (sent (update text_codec m.text4).1 ds)
        ≡ inject_messages (record n { text4 = arrived_text m.text4 n.text4 }) ds
  unfolding inject_message inject_index
  sent_text4_lem n ds =
      inject_messages-sent text_codec with_zero text-IsCodec m.text4 n.text4 n
        (λ o. record n { text4 = o }) ds
        (λ d h. inject_message-at n d 4 (h ∙ ap carried indexed.text4)) refl tt
        (λ h. text-small m.text4.value (texts.text4 h))

  sent_text5_lem :
      (n : Message) (ds : List CommunicationData)
      → inject_messages n (sent (update text_codec m.text5).1 ds)
        ≡ inject_messages (record n { text5 = arrived_text m.text5 n.text5 }) ds
  unfolding inject_message inject_index
  sent_text5_lem n ds =
      inject_messages-sent text_codec with_zero text-IsCodec m.text5 n.text5 n
        (λ o. record n { text5 = o }) ds
        (λ d h. inject_message-at n d 5 (h ∙ ap carried indexed.text5)) refl tt
        (λ h. text-small m.text5.value (texts.text5 h))

  sent_kind_lem :
      (n : Message) (ds : List CommunicationData)
      → inject_messages n (sent (update (word_codec int32) m.kind).1 ds)
        ≡ inject_messages (record n { kind = arrived m.kind n.kind }) ds
  unfolding inject_message inject_index
  sent_kind_lem n ds =
      inject_messages-sent (word_codec int32) whole (word-IsCodec int32) m.kind n.kind n
        (λ o. record n { kind = o }) ds
        (λ d h. inject_message-at n d 6 (h ∙ ap carried indexed.kind)) refl fits.kind
        (λ h. word-small int32 m.kind.value)

  sent_testtype_lem :
      (n : Message) (ds : List CommunicationData)
      → inject_messages n (sent (update (word_codec int32) m.testtype).1 ds)
        ≡ inject_messages (record n { testtype = arrived m.testtype n.testtype }) ds
  unfolding inject_message inject_index
  sent_testtype_lem n ds =
      inject_messages-sent (word_codec int32) whole (word-IsCodec int32) m.testtype n.testtype n
        (λ o. record n { testtype = o }) ds
        (λ d h. inject_message-at n d 7 (h ∙ ap carried indexed.testtype)) refl fits.testtype
        (λ h. word-small int32 m.testtype.value)

  sent_echotype_lem :
      (n : Message) (ds : List CommunicationData)
      → inject_messages n (sent (update (word_codec int32) m.echotype).1 ds)
        ≡ inject_messages (record n { echotype = arrived m.echotype n.echotype }) ds
  unfolding inject_message inject_index
  sent_echotype_lem n ds =
      inject_messages-sent (word_codec int32) whole (word-IsCodec int32) m.echotype n.echotype n
        (λ o. record n { echotype = o }) ds
        (λ d h. inject_message-at n d 8 (h ∙ ap carried indexed.echotype)) refl fits.echotype
        (λ h. word-small int32 m.echotype.value)

  pub transfer : (n : Message) → inject_messages n (update_message m).1 ≡ some (deliver m n)
  unfolding update_message inject_messages deliver
  transfer n =
      sent_value_lem _ _
      ∙ sent_text1_lem _ _
      ∙ sent_text2_lem _ _
      ∙ sent_text3_lem _ _
      ∙ sent_text4_lem _ _
      ∙ sent_text5_lem _ _
      ∙ sent_kind_lem _ _
      ∙ sent_testtype_lem _ _
      ∙ sent_echotype_lem _ _
