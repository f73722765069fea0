-- ===== src/Orders/Json/Request.antt =====
-- orders/order.rs: the derived `Deserialize` of the requests over parsed JSON, and their `Serialize`.
use artos_nautilus_server.Prelude.{
  ℕ, ◌-◌, ◌^◌, Option, none, some, List, [], ◌∷◌, Bytes, codes, leb, if◌then◌else◌,
}
use artos_nautilus_server.Serde.Json.{
  Json, null, pos_int, text, array, object, Items, nil, cons, Entries, entry, end,
}
use artos_nautilus_server.Orders.Types.{
  OrderAction, initiate, deposit, release, refund, OrderRequest, OrderV2Fields,
}
use artos_nautilus_server.Orders.Json.{action_name, skip_none, fields_json}
use artos_nautilus_server.Server.Health.Map.{bytes_eq}

infixl 5 ◌>>=◌
abbrev ◌>>=◌ {ℓ κ} : {A : Type ℓ} {B : Type κ} → Option A → (A → Option B) → Option B
none >>= f = none
some a >>= f = f a

-- `u8` and `u64`: a number without a sign and a fraction, in range.
unfoldable pub decode_number : ℕ → Json → Option ℕ
decode_number max (pos_int n) = if leb n max then some n else none
decode_number max _ = none

unfoldable pub decode_text : Json → Option Bytes
decode_text (text t) = some t
decode_text _ = none

unfoldable pub decode_action_name : Bytes → Option OrderAction
decode_action_name t =
    if bytes_eq t (action_name initiate)
    then some initiate
    else (if bytes_eq t (action_name deposit)
        then some deposit
        else (if bytes_eq t (action_name release)
            then some release
            else (if bytes_eq t (action_name refund) then some refund else none)))

-- A variant is written as its name, or as an object from its name to `null`.
unfoldable pub decode_action : Json → Option OrderAction
decode_action (text t) = decode_action_name t
decode_action (object (entry t null end)) = decode_action_name t
decode_action _ = none

unfoldable pub decode_option : {A : Type 0} → (Json → Option A) → Json → Option (Option A)
decode_option decode null = some none
decode_option decode j = decode j >>= λ a. some (some a)

-- The values under a key.
unfoldable pub occurrences : Bytes → Entries → List Json
occurrences name end = []
occurrences name (entry key j es) =
    let rest = occurrences name es in if bytes_eq key name then j ∷ rest else rest

-- A field that must be there, once.
unfoldable pub required : {A : Type 0} → (Json → Option A) → List Json → Option A
required decode (j ∷ []) = decode j
required decode _ = none

-- An option may be missing.
unfoldable pub optional : {A : Type 0} → (Json → Option A) → List Json → Option (Option A)
optional decode [] = some none
optional decode (j ∷ []) = decode_option decode j
optional decode _ = none

-- The elements of an array as the fields with these names, none missing and none left over.
unfoldable pub named : List Bytes → Items → Option Entries
named [] nil = some end
named (name ∷ names) (cons j js) = named names js >>= λ es. some (entry name j es)
named [] (cons j js) = none
named (name ∷ names) nil = none

unfoldable pub read_fields : Entries → Option OrderV2Fields
read_fields es = do
  escrow_id ← required decode_text (occurrences (codes "escrow_id") es)
  recipient ← required decode_text (occurrences (codes "recipient") es)
  nonce ← required decode_text (occurrences (codes "nonce") es)
  expiry_ms ← required (decode_number (2 ^ 64 - 1)) (occurrences (codes "expiry_ms") es)
  some (record {
    escrow_id = escrow_id;
    recipient = recipient;
    nonce = nonce;
    expiry_ms = expiry_ms;
  })

abbrev fields_names : List Bytes
fields_names = codes "escrow_id" ∷ codes "recipient" ∷ codes "nonce" ∷ codes "expiry_ms" ∷ []

-- A struct is read from an object, whose other keys are ignored, or from the array of its fields.
unfoldable pub decode_fields : Json → Option OrderV2Fields
decode_fields (object es) = read_fields es
decode_fields (array js) = named fields_names js >>= read_fields
decode_fields _ = none

-- The metadata are kept as they were written.
unfoldable pub read_request : Entries → Option OrderRequest
read_request es = do
  version ← required (decode_number 255) (occurrences (codes "version") es)
  order_id ← required decode_text (occurrences (codes "order_id") es)
  customer ← required decode_text (occurrences (codes "customer") es)
  merchant ← required decode_text (occurrences (codes "merchant") es)
  amount ← required (decode_number (2 ^ 64 - 1)) (occurrences (codes "amount") es)
  currency ← required decode_text (occurrences (codes "currency") es)
  action ← required decode_action (occurrences (codes "action") es)
  client_timestamp_ms ←
      optional (decode_number (2 ^ 64 - 1)) (occurrences (codes "client_timestamp_ms") es)
  metadata ← optional some (occurrences (codes "metadata") es)
  v2 ← optional decode_fields (occurrences (codes "v2") es)
  some (record {
    version = version;
    order_id = order_id;
    customer = customer;
    merchant = merchant;
    amount = amount;
    currency = currency;
    action = action;
    client_timestamp_ms = client_timestamp_ms;
    metadata = metadata;
    v2 = v2;
  })

abbrev request_names : List Bytes → List Bytes
request_names rest =
    codes "version"
    ∷ codes "order_id"
    ∷ codes "customer"
    ∷ codes "merchant"
    ∷ codes "amount"
    ∷ codes "currency"
    ∷ codes "action"
    ∷ codes "client_timestamp_ms"
    ∷ codes "metadata"
    ∷ rest

-- In an array only `v2`, which has a default, may be missing.
unfoldable pub decode_request : Json → Option OrderRequest
decode_request (object es) = read_request es
decode_request (array js) = elim (named (request_names []) js) [
  | some es ↦ read_request es
  | none ↦ named (request_names (codes "v2" ∷ [])) js >>= read_request
]
decode_request _ = none

unfoldable pub nullable : {A : Type 0} → (A → Json) → Option A → Json
nullable write none = null
nullable write (some a) = write a

unfoldable pub request_json : OrderRequest → Json
request_json r = object (
    entry (codes "version") (pos_int r.version) (
      entry (codes "order_id") (text r.order_id) (
        entry (codes "customer") (text r.customer) (
          entry (codes "merchant") (text r.merchant) (
            entry (codes "amount") (pos_int r.amount) (
              entry (codes "currency") (text r.currency) (
                entry (codes "action") (text (action_name r.action)) (
                  entry (codes "client_timestamp_ms") (nullable pos_int r.client_timestamp_ms) (
                    entry (codes "metadata") (nullable (λ j. j) r.metadata)
                      (skip_none (codes "v2") fields_json r.v2 end))))))))))
