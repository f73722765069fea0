-- ===== src/Serde/Json.antt =====
-- `serde_json::Value`. An object is its entries in order.
use artos_nautilus_server.Prelude.{ℕ, Bool, Bytes}

mutual
  pub data Json : Type 0 where
    null : Json
    boolean : Bool → Json
    -- A number is a `u64`, a negative `i64` (here without its sign), or a float (its text).
    pos_int : ℕ → Json
    neg_int : ℕ → Json
    float : Bytes → Json
    text : Bytes → Json
    array : Items → Json
    object : Entries → Json

  pub data Items : Type 0 where
    nil : Items
    cons : Json → Items → Items

  pub data Entries : Type 0 where
    end : Entries
    entry : Bytes → Json → Entries → Entries
