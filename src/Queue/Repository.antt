-- ===== src/Queue/Repository.antt =====
-- src/msgate/queue/repository.py over the table `messages` of src/msgate/db/models.py.
-- The table is the list of its rows. A session's commit is a change of the table, and a row object
-- is read again after it, so an operation takes the row and the table and gives the new table. A
-- call of `datetime.now` is an argument, in microseconds. The column `recipients` holds the list
-- itself in place of its JSON text; `status` holds the enum, whose five values are all that the
-- gateway writes. Where ORDER BY leaves a tie, the order of insertion decides.
use msgate.Prelude.{
  ℕ, zero, suc, ◌+◌, ◌*◌, Bool, true, false, ◌&&◌, ◌||◌, Option, none, some, List, [], ◌∷◌, ◌++◌,
  Text, codes, text_eq, leb, ◌==◌, if◌then◌else◌, filter, take, length, head?, is_some,
}
use msgate.Prelude.Base64.{Bytes, b64encode, b64decode}
use msgate.Prelude.Results.{
  Exception, integrity_error, invalid_token, invalid_base64, Result, ok, raise, ◌>>=◌,
}
use msgate.Prelude.Sort.{sort}
use msgate.Prelude.Texts.{is_empty}
pub mod Lookup
pub mod Totals
pub mod Rewriting
pub mod Claims

-- src/msgate/schemas/enums.py
pub data MessageStatus : Type 0 where
  queued processing sent failed retrying : MessageStatus

pub record MessageRow : Type 0 where
  pub id : Text
  pub client_ip : Text
  pub raw_auth_user : Text
  pub sanitized_user : Text
  pub sender : Text
  pub recipients : List Text
  pub subject : Text
  pub body : Text
  pub status : MessageStatus
  pub attempts : ℕ
  pub last_error : Option Text
  pub mime_payload : Option Text
  pub ews_username : Option Text
  pub ews_password_enc : Option Text
  pub next_retry_at : Option ℕ
  pub created_at : ℕ
  pub updated_at : ℕ

abbrev pub Table : Type 0
Table = List MessageRow

-- What the queue asks of src/msgate/crypto/secrets.py: a fresh nonce goes into each encryption.
pub record SecretBox : Type 0 where
  pub encrypt : Text → Text → Text
  pub decrypt : Text → Option Text
  pub decrypt-encrypt :
      (nonce plain : Text) → Path (Option Text) (decrypt (encrypt nonce plain)) (some plain)
  pub decrypt_blank : Path (Option Text) (decrypt []) (some [])

-- The keyword arguments of `insert_message`, and what it draws: the random digits of the identifier,
-- the nonce and the time.
pub record NewMessage : Type 0 where
  pub client_ip : Text
  pub raw_auth_user : Text
  pub sanitized_user : Text
  pub sender : Text
  pub recipients : List Text
  pub subject : Text
  pub mime_bytes : Bytes
  pub ews_username : Text
  pub password : Text

pub record Draw : Type 0 where
  pub uuid_hex : Text
  pub nonce : Text
  pub now : ℕ

abbrev pub new_message_id : Text → Text
new_message_id uuid_hex = codes "msg_" ++ take 12 uuid_hex

unfoldable pub get_message : Text → Table → Option MessageRow
get_message id [] = none
get_message id (r ∷ rs) = if text_eq id r.id then some r else get_message id rs

unfoldable pub new_row : SecretBox → NewMessage → Draw → MessageRow
new_row box m d = record {
  id = new_message_id d.uuid_hex;
  client_ip = m.client_ip;
  raw_auth_user = m.raw_auth_user;
  sanitized_user = m.sanitized_user;
  sender = m.sender;
  recipients = m.recipients;
  subject = m.subject;
  body = [];
  status = queued;
  attempts = 0;
  last_error = none;
  mime_payload = some (b64encode m.mime_bytes);
  ews_username = some m.ews_username;
  ews_password_enc = some (box.encrypt d.nonce m.password);
  next_retry_at = some d.now;
  created_at = d.now;
  updated_at = d.now;
}

-- The commit fails if the primary key is taken.
unfoldable pub insert_message : SecretBox → NewMessage → Draw → Table → Result (MessageRow × Table)
unfolding new_row
insert_message box m d table =
    let row = new_row box m d in
    elim (get_message row.id table) [
      | some taken ↦ raise integrity_error
      | none ↦ ok (row, table ++ (row ∷ []))
    ]

abbrev pub status_eq : MessageStatus → MessageStatus → Bool
status_eq queued queued = true
status_eq processing processing = true
status_eq sent sent = true
status_eq failed failed = true
status_eq retrying retrying = true
status_eq _ _ = false

-- `status IN ('queued', 'retrying')`
abbrev pub is_pending : MessageStatus → Bool
is_pending s = status_eq s queued || status_eq s retrying

-- `next_retry_at IS NULL OR next_retry_at <= now`
abbrev pub is_due : ℕ → Option ℕ → Bool
is_due now none = true
is_due now (some t) = leb t now

abbrev pub is_ready : ℕ → MessageRow → Bool
is_ready now r = is_pending r.status && is_due now r.next_retry_at

abbrev pub older : MessageRow → MessageRow → Bool
older a b = leb a.created_at b.created_at

abbrev pub newer : MessageRow → MessageRow → Bool
newer a b = leb b.created_at a.created_at

abbrev pub has_status : Option MessageStatus → MessageRow → Bool
has_status none r = true
has_status (some s) r = status_eq r.status s

unfoldable pub list_messages : Option MessageStatus → ℕ → Table → List MessageRow
list_messages status limit table = take limit (sort newer (filter (has_status status) table))

unfoldable pub pending_messages : ℕ → ℕ → Table → List MessageRow
pending_messages now limit table = take limit (sort older (filter (is_ready now) table))

-- `UPDATE messages SET … WHERE id = … AND …`, with the count of the rows that it matches.
unfoldable pub update_where : Text → (MessageRow → Bool) → (MessageRow → MessageRow) → Table → Table
update_where id cond change [] = []
update_where id cond change (r ∷ rs) =
    (if text_eq id r.id && cond r then change r else r) ∷ update_where id cond change rs

unfoldable pub row_count : Text → (MessageRow → Bool) → Table → ℕ
row_count id cond table = length (filter (λ r. text_eq id r.id && cond r) table)

abbrev pub can_claim : MessageRow → Bool
can_claim r = is_pending r.status

abbrev pub claimed_at : ℕ → MessageRow → MessageRow
claimed_at now r = record r { status = processing; attempts = r.attempts + 1; updated_at = now }

-- The conditional update of `claim_next` and what follows it.
unfoldable pub claim : Text → ℕ → Table → Option MessageRow × Table
unfolding update_where row_count get_message
claim id now table =
    let table' = update_where id can_claim (claimed_at now) table in
    if row_count id can_claim table == 1 then (get_message id table', table') else (none, table')

-- The readings of the clock are those of `pending_messages` and of `claim_next`.
unfoldable pub claim_next : ℕ → ℕ → Table → Option MessageRow × Table
unfolding claim pending_messages
claim_next now now' table = elim (head? (pending_messages now 1 table)) [
  | none ↦ (none, table)
  | some row ↦ claim row.id now' table
]

unfoldable pub count_pending : Table → ℕ
count_pending table = length (filter can_claim table)

abbrev pub always : MessageRow → Bool
always r = true

-- A commit of changed attributes is an update of those columns, by primary key.
unfoldable pub mark_processing : MessageRow → ℕ → Table → Table
unfolding update_where
mark_processing row now table =
    update_where row.id always
      (λ r. record r { status = processing; attempts = row.attempts + 1; updated_at = now }) table

unfoldable pub mark_sent : MessageRow → ℕ → Table → Table
unfolding update_where
mark_sent row now table =
    update_where row.id always
      (λ r. record r { status = sent; last_error = none; next_retry_at = none; updated_at = now })
      table

abbrev pub microseconds : ℕ → ℕ
microseconds seconds = seconds * 1000000

unfoldable pub mark_retry : MessageRow → Text → ℕ → ℕ → ℕ → Table → Table
unfolding update_where
mark_retry row error delay_seconds now now' table =
    update_where row.id always
      (λ r. record r {
        status = retrying;
        last_error = some (take 2000 error);
        next_retry_at = some (now + microseconds delay_seconds);
        updated_at = now';
      })
      table

unfoldable pub mark_failed : MessageRow → Text → ℕ → Table → Table
unfolding update_where
mark_failed row error now table =
    update_where row.id always
      (λ r. record r {
        status = failed;
        last_error = some (take 2000 error);
        next_retry_at = none;
        updated_at = now;
      })
      table

abbrev or_raise {ℓ} : {A : Type ℓ} → Option A → Exception → Result A
or_raise none e = raise e
or_raise (some a) e = ok a

unfoldable pub get_password : MessageRow → SecretBox → Result Text
get_password row box = elim row.ews_password_enc [
  | none ↦ ok []
  | some token ↦ if is_empty token then ok [] else or_raise (box.decrypt token) invalid_token
]

unfoldable pub get_mime_bytes : MessageRow → Result Bytes
get_mime_bytes row = elim row.mime_payload [
  | none ↦ ok []
  | some payload ↦ if is_empty payload then ok [] else or_raise (b64decode payload) invalid_base64
]
