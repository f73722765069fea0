-- ===== src/Orders/Json/RoundTrip.antt =====
-- orders/order.rs: a request as JSON, and read again.
use artos_nautilus_server.Prelude.{
  ℕ, ◌-◌, ◌^◌, ◌≤◌, ◌≡◌, ◌≢◌, refl, Option, none, some, [], ◌∷◌, Bytes, le→leb, IsByte, IsU64,
  arith,
}
use artos_nautilus_server.Serde.Json.{
  Json, null, boolean, pos_int, neg_int, float, text, array, object,
}
use artos_nautilus_server.Orders.Types.{
  OrderAction, initiate, deposit, release, refund, OrderRequest, OrderV2Fields,
}
use artos_nautilus_server.Orders.Json.{action_name, skip_none, fields_json}
use artos_nautilus_server.Orders.Json.Request.{
  decode_number, decode_text, decode_action_name, decode_action, decode_option, occurrences,
  required, optional, read_fields, decode_fields, read_request, decode_request, nullable,
  request_json,
}
use artos_nautilus_server.Server.Health.Map.{bytes_eq}

abbrev OptionIsU64 : Option ℕ → Type 0
OptionIsU64 none = Unit {0}
OptionIsU64 (some n) = IsU64 n

abbrev V2IsU64 : Option OrderV2Fields → Type 0
V2IsU64 none = Unit {0}
V2IsU64 (some f) = IsU64 f.expiry_ms

-- The numbers are in the ranges of their types, and the metadata are not the JSON `null`, which is
-- read as no metadata.
pub record RequestInRange (r : OrderRequest) : Type 0 where
  pub version : IsByte r.version
  pub amount : IsU64 r.amount
  pub client_timestamp_ms : OptionIsU64 r.client_timestamp_ms
  pub metadata : r.metadata ≢ some null
  pub v2 : V2IsU64 r.v2

decode_number_lem : (max n : ℕ) → n ≤ max → decode_number max (pos_int n) ≡ some n
unfolding decode_number
decode_number_lem max n h = rw (le→leb n max h)

decode_action_lem : (a : OrderAction) → decode_action (text (action_name a)) ≡ some a
unfolding decode_action decode_action_name action_name bytes_eq
decode_action_lem initiate = refl
decode_action_lem deposit = refl
decode_action_lem release = refl
decode_action_lem refund = refl

optional_number_lem :
    (o : Option ℕ)
    → OptionIsU64 o
    → optional (decode_number (2 ^ 64 - 1)) (nullable pos_int o ∷ []) ≡ some o
unfolding optional nullable decode_option
optional_number_lem none h = refl
optional_number_lem (some n) h = rw (decode_number_lem (2 ^ 64 - 1) n (omega arith))

optional_metadata_lem :
    (o : Option Json) → o ≢ some null → optional some (nullable (λ j. j) o ∷ []) ≡ some o
unfolding optional nullable decode_option
optional_metadata_lem none h = refl
optional_metadata_lem (some null) h = absurd (h refl)
optional_metadata_lem (some (boolean b)) h = refl
optional_metadata_lem (some (pos_int n)) h = refl
optional_metadata_lem (some (neg_int n)) h = refl
optional_metadata_lem (some (float t)) h = refl
optional_metadata_lem (some (text t)) h = refl
optional_metadata_lem (some (array js)) h = refl
optional_metadata_lem (some (object es)) h = refl

decode_fields_lem : (f : OrderV2Fields) → IsU64 f.expiry_ms → decode_fields (fields_json f) ≡ some f
unfolding decode_fields fields_json read_fields occurrences required decode_text bytes_eq
decode_fields_lem f h = rw (decode_number_lem (2 ^ 64 - 1) f.expiry_ms (omega arith))

module _ (version : ℕ) (order_id customer merchant : Bytes) (amount : ℕ) (currency : Bytes)
    (action : OrderAction) (client_timestamp_ms : Option ℕ) (metadata : Option Json) where
  abbrev with_v2 : Option OrderV2Fields → OrderRequest
  with_v2 v2 = record {
    version = version;
    order_id = order_id;
    customer = customer;
    merchant = merchant;
    amount = amount;
    currency = currency;
    action = action;
    client_timestamp_ms = client_timestamp_ms;
    metadata = metadata;
    v2 = v2;
  }

  decode_request-with_v2 :
      (v2 : Option OrderV2Fields)
      → RequestInRange (with_v2 v2)
      → decode_request (request_json (with_v2 v2)) ≡ some (with_v2 v2)
  unfolding decode_request request_json read_request occurrences required decode_text bytes_eq
      skip_none optional decode_option fields_json
  decode_request-with_v2 none h = rw (
    decode_number_lem 255 version (let f = h.version in omega arith),
    decode_number_lem (2 ^ 64 - 1) amount (let f = h.amount in omega arith),
    decode_action_lem action,
    optional_number_lem client_timestamp_ms h.client_timestamp_ms,
    optional_metadata_lem metadata h.metadata,
  )
  decode_request-with_v2 (some f) h = rw (
    decode_number_lem 255 version (let f = h.version in omega arith),
    decode_number_lem (2 ^ 64 - 1) amount (let f = h.amount in omega arith),
    decode_action_lem action,
    optional_number_lem client_timestamp_ms h.client_timestamp_ms,
    optional_metadata_lem metadata h.metadata,
    decode_fields_lem f h.v2,
  )

-- A request with numbers in range, whose metadata are not the JSON `null`, is decoded from its own
-- JSON to itself, with and without each optional part.
pub decode_request-request_json :
    (r : OrderRequest) → RequestInRange r → decode_request (request_json r) ≡ some r
decode_request-request_json r h =
    decode_request-with_v2 r.version r.order_id r.customer r.merchant r.amount r.currency r.action
      r.client_timestamp_ms r.metadata r.v2 h
