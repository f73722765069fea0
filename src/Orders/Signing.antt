-- ===== src/Orders/Signing.antt =====
-- orders/order.rs: `make_response`, `sign_response`, `sign_v2` and `sign_response_with_v2`.
pub mod Responses
pub mod Verified
pub mod Shadow
use artos_nautilus_server.Prelude.{ℕ, ◌+◌, ◌*◌, ◌/◌, ◌%◌, ◌^◌, Option, none, some, Bytes, codes}
use artos_nautilus_server.Rust.Outcome.{
  Outcome, done, panicked, Result, ok, err, Fallible, ◌>>=◌, ◌>>=?◌,
}
use artos_nautilus_server.External.{Libraries}
use artos_nautilus_server.Orders.Types.{
  OrderAction, initiate, deposit, release, refund, OrderStatus, pending, escrowed, released,
  refunded, OrderRequest, OrderV2Fields, SignableOrderResponse, SignedOrderResponse,
}
use artos_nautilus_server.Orders.Message.{signing_message, signing_message_v2}
use artos_nautilus_server.Orders.Crypto.{Cell, public_key_base64, sign}

-- `std::time::Duration`
pub record Duration : Type 0 where
  pub secs : ℕ
  pub subsec_nanos : ℕ

-- `as_millis() as u64`; the argument is `SystemTime::now().duration_since(UNIX_EPOCH)`, and `none`
-- where the clock stands before 1970.
unfoldable pub unix_time_ms : Option Duration → ℕ
unix_time_ms none = 0
unix_time_ms (some d) = (d.secs * 1000 + d.subsec_nanos / 1_000_000) % 2 ^ 64

-- The `match` of `make_response`.
unfoldable pub status_and_notes : OrderAction → OrderStatus × Option Bytes
status_and_notes initiate = (pending, none)
status_and_notes deposit = (escrowed, none)
status_and_notes release = (released, none)
status_and_notes refund = (refunded, none)

unfoldable pub make_response : Option Duration → OrderRequest → SignableOrderResponse
unfolding status_and_notes unix_time_ms
make_response now req =
    let (status, notes) = status_and_notes req.action in
    record {
      version = req.version;
      order_id = req.order_id;
      action = req.action;
      status = status;
      amount = req.amount;
      currency = req.currency;
      server_timestamp_ms = unix_time_ms now;
      escrow_tx_id = none;
      notes = notes;
    }

module _ (l : Libraries) (key : Cell l.ed25519) where
  unfoldable pub sign_response : SignableOrderResponse → Outcome SignedOrderResponse
  sign_response resp = do
    msg ← signing_message l.bcs resp
    sig ← sign l.ed25519 key msg
    pk_b64 ← public_key_base64 l.ed25519 l.base64 key
    done (record {
      response = resp;
      signature = l.base64.encode sig;
      public_key = pk_b64;
      scheme = codes "ed25519";
      signature_v2 = none;
      v2 = none;
    })

  unfoldable pub sign_v2 : SignableOrderResponse → OrderV2Fields → Fallible Bytes Bytes
  sign_v2 resp v2 = signing_message_v2 l.bcs resp v2 >>=? λ msg.
      sign l.ed25519 key msg >>= λ sig. done (ok (l.base64.encode sig))

  -- The `match` on the result of `sign_v2`; a panic inside goes on.
  unfoldable pub add_v2 :
      SignedOrderResponse → OrderV2Fields → Fallible Bytes Bytes → Outcome SignedOrderResponse
  add_v2 signed v2_fields (done (ok sig_v2)) =
      done (record signed { signature_v2 = some sig_v2; v2 = some v2_fields })
  add_v2 signed v2_fields (done (err e)) = done signed
  add_v2 signed v2_fields panicked = panicked

  unfoldable pub sign_response_with_v2 :
      SignableOrderResponse → Option OrderV2Fields → Outcome SignedOrderResponse
  unfolding add_v2
  sign_response_with_v2 resp none = sign_response resp
  sign_response_with_v2 resp (some v2_fields) =
      sign_response resp >>= λ signed. add_v2 signed v2_fields (sign_v2 resp v2_fields)
