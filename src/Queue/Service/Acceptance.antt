-- ===== src/Queue/Service/Acceptance.antt =====
-- Acceptance into the queue and its limits (src/msgate/queue/service.py).
use msgate.Prelude.{
  ℕ, ◌+◌, ◌≤◌, ◌<◌, ◌≡◌, refl, sym, ap, ◌∙◌, ◌⊎◌, inl, inr, Bool, true, false, Option, none, some,
  [], ◌∷◌, ◌++◌, Text, text_eq_refl, Bool-cases, Option-cases, arith,
}
use msgate.Prelude.Base64.{IsBytes, b64encode_blank, b64encode, b64decode-b64encode}
use mathlib.Core.Option.{some-injective}
use msgate.Prelude.Results.{integrity_error, ok, raise}
use msgate.Prelude.Texts.{is_empty}
use msgate.Config.{GatewayConfig}
use msgate.Queue.Breaker.{CircuitBreaker, is_open, read_state}
use msgate.Queue.Processor.{make_request}
use msgate.Queue.Repository.{
  queued, MessageRow, SecretBox, NewMessage, Draw, get_message, new_row, new_message_id,
  insert_message, count_pending, is_ready, get_password, get_mime_bytes,
}
use msgate.Queue.Repository.Lookup.{
  DistinctIds, DistinctIds-append, get_message-append, get_message-append_old, count_pending-append,
}
use msgate.Queue.Service.{
  ServiceState, accept_result, announced, circuit_tripped, queue_full, circuit_blocks,
  check_backpressure, AcceptResult, accept_smtp,
}

-- An accepted message: the rows of the queue with one more at the end, which holds the message,
-- queued, without an attempt, and due at once.
pub record Accepts (box : SecretBox) (m : NewMessage) (d : Draw) (s s' : ServiceState)
    (r : AcceptResult) : Type 0 where
  pub row : MessageRow
  pub holds_message : row ≡ new_row box m d
  pub appended : s'.table ≡ s.table ++ (row ∷ [])
  pub keys_kept : DistinctIds s'.table
  pub stored : get_message r.message_id s'.table ≡ some row
  pub others :
      (j : Text) (old : MessageRow)
      → get_message j s.table ≡ some old
      → get_message j s'.table ≡ some old
  pub one_more : count_pending s'.table ≡ count_pending s.table + 1
  pub ready_now : is_ready d.now row ≡ true
  pub fresh :
      (row.status ≡ queued) × (row.attempts ≡ 0) × (r.status ≡ queued) × (r.delivered ≡ false)
  pub wakes : s'.woken ≡ true

due_now : (box : SecretBox) (m : NewMessage) (d : Draw) → is_ready d.now (new_row box m d) ≡ true
unfolding new_row
due_now box m d = ground arith

-- With distinct keys, a message whose identifier is new is accepted as `Accepts` says, and one whose
-- identifier is taken raises.
pub accept_smtp_cases :
    (box : SecretBox) (m : NewMessage) (d : Draw) (s : ServiceState)
    → DistinctIds s.table
    → ((r : AcceptResult) × (s' : ServiceState) × (accept_smtp box m d s ≡ ok (r, s'))
        × (get_message (new_message_id d.uuid_hex) s.table ≡ none)
        × Accepts box m d s s' r)
      ⊎ ((old : MessageRow) × (get_message (new_message_id d.uuid_hex) s.table ≡ some old)
          × (accept_smtp box m d s ≡ raise integrity_error))
unfolding accept_smtp insert_message new_row
accept_smtp_cases box m d s k =
    elim (Option-cases (get_message (new_message_id d.uuid_hex) s.table)) [
      | inr (old, e) ↦ inr (old, e, rw (e, insert_message))
      | inl e ↦ inl (
        accept_result (new_row box m d),
        announced (new_row box m d) (s.table ++ (new_row box m d ∷ [])) m d s,
        rw (e, insert_message),
        e,
        record {
          row = new_row box m d;
          holds_message = refl;
          appended = refl;
          keys_kept = DistinctIds-append s.table (new_row box m d) e k;
          stored =
              get_message-append (new_message_id d.uuid_hex) s.table (new_row box m d) e
              ∙ rw (text_eq_refl (new_message_id d.uuid_hex));
          others = λ j old h. get_message-append_old j s.table (new_row box m d) old h;
          one_more = count_pending-append s.table (new_row box m d) refl;
          ready_now = due_now box m d;
          fresh = (refl, refl, refl, refl);
          wakes = refl;
        },
      )
    ]

blank_text : (t : Text) → is_empty t ≡ true → t ≡ []
blank_text [] h = refl
blank_text (c ∷ t) h = absurd (cc)

-- A password is read back from the row of a new message.
password_kept :
    (box : SecretBox) (m : NewMessage) (d : Draw)
    → get_password (new_row box m d) box ≡ ok m.password
unfolding get_password new_row
password_kept box m d = elim (Bool-cases (is_empty token)) [
  | inl e ↦
      let same : some [] ≡ some m.password =
        sym box.decrypt_blank ∙ (ap box.decrypt (sym (blank_text token e)) ∙ law) in
      rw e (ap ok (some-injective _ _ same))
  | inr e ↦ rw (e, law)
]
  where
    token : Text
    token = box.encrypt d.nonce m.password

    law : box.decrypt token ≡ some m.password
    law = box.decrypt-encrypt d.nonce m.password

bytes_kept :
    (box : SecretBox) (m : NewMessage) (d : Draw)
    → IsBytes m.mime_bytes
    → get_mime_bytes (new_row box m d) ≡ ok m.mime_bytes
unfolding get_mime_bytes new_row
bytes_kept box m d h = elim (Bool-cases (is_empty (b64encode m.mime_bytes))) [
  | inl e ↦ rw e (ap ok (sym (b64encode_blank m.mime_bytes e)))
  | inr e ↦ rw (e, b64decode-b64encode m.mime_bytes h)
]

-- What the workers later hand to the driver is what was accepted: the request that is made of the row
-- of a new message holds its sender, recipients, bytes, user name and password. The bytes are bytes.
pub make_request-new_row :
    (box : SecretBox) (m : NewMessage) (d : Draw) (config : GatewayConfig)
    → IsBytes m.mime_bytes
    → make_request box config (new_row box m d)
      ≡ ok (record {
        auth_username = m.ews_username;
        password = m.password;
        mail_from = m.sender;
        rcpt_tos = m.recipients;
        mime_bytes = m.mime_bytes;
        default_sender = config.default_sender;
      })
unfolding make_request new_row
make_request-new_row box m d config h = rw (password_kept box m d, bytes_kept box m d h) refl

blocked_by :
    (reject : Bool) (now : ℕ) (o : Option CircuitBreaker)
    → (circuit_blocks reject now o).0 ≡ true
    → (b : CircuitBreaker) × (reject ≡ true) × (o ≡ some b) × (is_open (read_state now b).0 ≡ true)
unfolding circuit_blocks
blocked_by reject now none h = absurd (cc)
blocked_by true now (some b) h = (b, refl, refl, h)
blocked_by false now (some b) h = absurd (cc)

not_blocked :
    (reject : Bool) (now : ℕ) (o : Option CircuitBreaker) (b : CircuitBreaker)
    → (circuit_blocks reject now o).0 ≡ false
    → reject ≡ true
    → o ≡ some b
    → is_open (read_state now b).0 ≡ false
unfolding circuit_blocks
not_blocked reject now o b h e f = ground arith

-- Where the service defers, the table is as it was. Where it does not, fewer messages wait than the
-- limit allows, and the circuit, if the setting asks for it, is not open.
pub backpressure_cases :
    (reject : Bool) (now limit : ℕ) (s : ServiceState)
    → let (deferral, s') = check_backpressure reject now limit s in
      (s'.table ≡ s.table)
      × ((deferral ≡ none)
          → (count_pending s.table < limit)
            × ((b : CircuitBreaker)
                → reject ≡ true
                → s.circuit ≡ some b
                → is_open (read_state now b).0 ≡ false))
      × ((deferral ≡ some circuit_tripped)
          → (b : CircuitBreaker) × (reject ≡ true)
            × (s.circuit ≡ some b)
            × (is_open (read_state now b).0 ≡ true))
      × ((pending max_pending : ℕ)
          → deferral ≡ some (queue_full pending max_pending)
          → (pending ≡ count_pending s.table) × (max_pending ≡ limit) × (limit ≤ pending))
unfolding check_backpressure
backpressure_cases reject now limit s = (
  ground arith,
  (λ e. (ground arith, λ b f g. not_blocked reject now s.circuit b (ground arith) f g)),
  (λ e. blocked_by reject now s.circuit (ground arith)),
  λ p q e. ground arith,
)
