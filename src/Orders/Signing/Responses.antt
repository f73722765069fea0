-- ===== src/Orders/Signing/Responses.antt =====
-- orders/order.rs: the responses of `make_response`.
use artos_nautilus_server.Prelude.{
  ◌≡◌, ◌≢◌, ◌+◌, ◌*◌, ◌^◌, ◌<◌, ◌≤◌, refl, Option, none, some, arith,
}
use artos_nautilus_server.Orders.Types.{
  OrderAction, initiate, deposit, release, refund, rejected, OrderRequest, status_to_u8,
  action_to_u8, to_intent, to_intent_v2,
}
use artos_nautilus_server.Orders.Signing.{Duration, unix_time_ms, status_and_notes, make_response}

-- In the response to any request, the status code and the V1 intent equal the action code of the
-- request, the V2 intent is 16 more, and the status is not `rejected`.
pub make_response-codes :
    (now : Option Duration) (req : OrderRequest)
    → let r = make_response now req in
      (status_to_u8 r.status ≡ action_to_u8 req.action)
      × (to_intent r.action ≡ action_to_u8 req.action)
      × (to_intent_v2 r.action ≡ action_to_u8 req.action + 0x10)
      × (r.status ≢ rejected)
unfolding make_response status_to_u8 action_to_u8 to_intent to_intent_v2
make_response-codes now req = go req.action
  where
    go :
        (a : OrderAction)
        → (status_to_u8 (status_and_notes a).0 ≡ action_to_u8 a)
          × (to_intent a ≡ action_to_u8 a)
          × (to_intent_v2 a ≡ action_to_u8 a + 0x10)
          × ((status_and_notes a).0 ≢ rejected)
    go initiate = ground arith
    go deposit = ground arith
    go release = ground arith
    go refund = ground arith

-- For a clock with less than 10^9 nanoseconds beside its seconds, whose milliseconds stay below
-- 2^64, the timestamp of the response is the number of whole milliseconds since 1970: the time
-- lies at or after it and before the next millisecond; before 1970 the timestamp is 0.
pub server_timestamp_ms-make_response :
    (d : Duration) (req : OrderRequest)
    → d.subsec_nanos < 1_000_000_000
    → (d.secs + 1) * 1000 ≤ 2 ^ 64
    → let ts = (make_response (some d) req).server_timestamp_ms in
      (ts * 1_000_000 ≤ d.secs * 1_000_000_000 + d.subsec_nanos)
      × (d.secs * 1_000_000_000 + d.subsec_nanos < (ts + 1) * 1_000_000)
      × ((make_response none req).server_timestamp_ms ≡ 0)
unfolding make_response unix_time_ms
server_timestamp_ms-make_response d req hn hs = (omega arith, omega arith, refl)
