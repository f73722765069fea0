-- ===== src/Server/Health/Status.antt =====
-- common.rs: the status map of `health_check`.
use artos_nautilus_server.Prelude.{
  ◌≡◌, refl, ◌∙◌, ◌⊎◌, Bool, true, false, ◌||◌, Option, none, some, List, [], ◌∷◌, ◌++◌, Bytes,
  if◌then◌else◌, codes, arith, Option-cases, inl, inr, append_assoc,
}
use mathlib.Core.List.{map-append}
use artos_nautilus_server.Rust.Outcome.{Result-cases, Result, ok, err}
use artos_nautilus_server.Rust.Text.{contains, starts_with}
use artos_nautilus_server.External.{Ed25519, Encoding}
use artos_nautilus_server.Server.Errors.{generic_error}
use artos_nautilus_server.Server.Attestation.{AppState}
use artos_nautilus_server.Server.Health.{
  Yaml, Network, HttpResponse, HealthCheckResponse, to_lowercase, endpoint_url, is_reachable,
  check_endpoint, check_endpoints, listed_endpoints, endpoints_of, health_check,
}
use artos_nautilus_server.Server.Health.Map.{
  bytes_eq, bytes_eq_iff, StatusMap, get, insert, get-insert,
}

abbrev pub is_some : Option Bool → Bool
is_some none = false
is_some (some v) = true

or_false : (x : Bool) → (x || false) ≡ x
or_false true = refl
or_false false = refl

module _ (y : Yaml) where
  -- The text is one of the nodes that are texts.
  unfoldable pub listed : Bytes → List y.Node → Bool
  listed k [] = false
  listed k (endpoint ∷ endpoints) = elim (y.as_str endpoint) [
    | none ↦ listed k endpoints
    | some s ↦ bytes_eq s k || listed k endpoints
  ]

  listed-skip :
      (k : Bytes) (e : y.Node) (es : List y.Node)
      → y.as_str e ≡ none
      → listed k (e ∷ es) ≡ listed k es
  unfolding listed
  listed-skip k e es h = rw (h, listed)

  listed-text :
      (k : Bytes) (e : y.Node) (es : List y.Node) (s : Bytes)
      → y.as_str e ≡ some s
      → listed k (e ∷ es) ≡ (bytes_eq s k || listed k es)
  unfolding listed
  listed-text k e es s h = rw (h, listed)

  module _ (net : Network) where
    check_endpoints-skip :
        (e : y.Node) (es : List y.Node) (m : StatusMap) (w : net.World)
        → y.as_str e ≡ none
        → check_endpoints y net (e ∷ es) m w ≡ check_endpoints y net es m w
    unfolding check_endpoints
    check_endpoints-skip e es m w h = rw (h, check_endpoints)

    check_endpoints-text :
        (e : y.Node) (es : List y.Node) (m : StatusMap) (w : net.World) (s : Bytes)
        → y.as_str e ≡ some s
        → check_endpoints y net (e ∷ es) m w
          ≡ check_endpoints y net es (check_endpoint y net s m w).0 (check_endpoint y net s m w).1
    unfolding check_endpoints
    check_endpoints-text e es m w s h = rw (h, check_endpoints)

    check_endpoint-insert :
        (s : Bytes) (m : StatusMap) (w : net.World)
        → (check_endpoint y net s m w).0
          ≡ insert s (is_reachable s (net.send (endpoint_url s) w).0) m
    unfolding check_endpoint
    check_endpoint-insert s m w = refl

    -- The map has an entry exactly for the texts in the sequence, whatever the network does.
    is_some-check_endpoints :
        (k : Bytes) (es : List y.Node) (m : StatusMap) (w : net.World)
        → is_some (get k (check_endpoints y net es m w).0) ≡ (listed k es || is_some (get k m))
    is_some-check_endpoints k [] m w = unfold check_endpoints listed in refl
    is_some-check_endpoints k (e ∷ es) m w = elim (Option-cases (y.as_str e)) [
      | inl h ↦
          rw (check_endpoints-skip e es m w h, listed-skip k e es h)
            (is_some-check_endpoints k es m w)
      | inr (s, h) ↦
          rw (check_endpoints-text e es m w s h, listed-text k e es s h)
            (is_some-check_endpoints k es _ _
              ∙ rw (check_endpoint-insert s m w, get-insert) (ground arith))
    ]

    module _ (answer : Bytes → Result Bytes HttpResponse)
        (stable : (url : Bytes) (w : net.World) → (net.send url w).0 ≡ answer url) where
      get-check_endpoints :
          (k : Bytes) (es : List y.Node) (m : StatusMap) (w : net.World)
          → get k (check_endpoints y net es m w).0
            ≡ (if listed k es then some (is_reachable k (answer (endpoint_url k))) else get k m)
      get-check_endpoints k [] m w = unfold check_endpoints listed in refl
      get-check_endpoints k (e ∷ es) m w = elim (Option-cases (y.as_str e)) [
        | inl h ↦
            rw (check_endpoints-skip e es m w h, listed-skip k e es h)
              (get-check_endpoints k es m w)
        | inr (s, h) ↦
            rw (check_endpoints-text e es m w s h, listed-text k e es s h)
              (get-check_endpoints k es _ _
                ∙ rw (check_endpoint-insert s m w, get-insert, stable (endpoint_url s) w)
                    (ground (arith, bytes_eq_iff s k)))
      ]

  -- The sequence under `endpoints` in a file; empty if there is none, or the file cannot be read.
  unfoldable pub file_endpoints : Result Bytes Bytes → List y.Node
  file_endpoints (err e) = []
  file_endpoints (ok content) = elim (y.from_str content) [
    | err e ↦ []
    | ok node ↦ elim (listed_endpoints y node) [ none ↦ [] | some es ↦ es ]
  ]

  endpoints_of-file_endpoints :
      (net : Network) (file : Result Bytes Bytes) (w : net.World)
      → endpoints_of y net file w ≡ check_endpoints y net (file_endpoints file) [] w
  unfolding endpoints_of file_endpoints check_endpoints
  endpoints_of-file_endpoints net (err e) w = refl
  endpoints_of-file_endpoints net (ok content) w = elim (Result-cases (y.from_str content)) [
    | inr (e, h) ↦ rw (h, endpoints_of, file_endpoints)
    | inl (node, h) ↦ elim (Option-cases (listed_endpoints y node)) [
      | inl g ↦ rw (h, endpoints_of, file_endpoints) (rw g)
      | inr (es, g) ↦ rw (h, endpoints_of, file_endpoints) (rw g)
    ]
  ]

  -- If the client can be built, the health check returns the hex of the ephemeral public key and a
  -- map with an entry for exactly the texts listed in the file, on any network; otherwise it
  -- returns the error of the client.
  pub health_check_keys :
      (net : Network) (e : Ed25519) (hex : Encoding) (client : Result Bytes (Unit {0}))
      (file : Result Bytes Bytes) (state : AppState e) (w : net.World)
      → ((client ≡ ok tt)
          × ((r : HealthCheckResponse) × ((health_check y net e hex client file state w).0 ≡ ok r)
              × (r.pk ≡ hex.encode (e.verifying_key state.eph_kp))
              × ((k : Bytes)
                  → is_some (get k r.endpoints_status) ≡ listed k (file_endpoints file))))
        ⊎ ((x : Bytes) × (client ≡ err x)
            × ((health_check y net e hex client file state w).0
                ≡ err (generic_error (codes "Failed to create HTTP client: " ++ x))))
  unfolding health_check get
  health_check_keys net e hex (err x) file state w = inr (x, refl, refl)
  health_check_keys net e hex (ok u) file state w = inl (
    refl,
    (
      _,
      refl,
      refl,
      λ k.
          rw (endpoints_of-file_endpoints net file w)
            (is_some-check_endpoints net k (file_endpoints file) [] w ∙ or_false _),
    ),
  )

  -- On a network whose answers do not depend on when they are asked for, the entry of each listed
  -- endpoint is the verdict on the answer of its own URL, and no other text has an entry.
  pub health_check_status :
      (net : Network) (e : Ed25519) (hex : Encoding) (answer : Bytes → Result Bytes HttpResponse)
      (file : Result Bytes Bytes) (state : AppState e) (w : net.World) (r : HealthCheckResponse)
      (k : Bytes)
      → ((url : Bytes) (w : net.World) → (net.send url w).0 ≡ answer url)
      → (health_check y net e hex (ok tt) file state w).0 ≡ ok r
      → get k r.endpoints_status ≡ (
          if listed k (file_endpoints file)
          then some (is_reachable k (answer (endpoint_url k)))
          else none)
  unfolding health_check get
  health_check_status net e hex answer file state w r k stable h =
      let same : (endpoints_of y net file w).0 ≡ r.endpoints_status = cc in
      rw (← same, endpoints_of-file_endpoints net file w)
        (get-check_endpoints net answer stable k (file_endpoints file) [] w)

starts_with-append : (p s : Bytes) → starts_with (p ++ s) p ≡ true
unfolding starts_with
starts_with-append [] [] = refl
starts_with-append [] (c ∷ s) = refl
starts_with-append (c ∷ p) s = rw (starts_with-append p s) (ground arith)

contains-append : (front p back : Bytes) → contains (front ++ (p ++ back)) p ≡ true
unfolding contains
contains-append [] [] [] = refl
contains-append [] [] (b ∷ back) = refl
contains-append [] (c ∷ p) back = rw (starts_with-append (c ∷ p) back)
contains-append (c ∷ front) p back = rw (contains-append front p back) (or_true _)
  where
    or_true : (x : Bool) → (x || true) ≡ true
    or_true true = refl
    or_true false = refl

to_lowercase-append : (s t : Bytes) → to_lowercase (s ++ t) ≡ to_lowercase s ++ to_lowercase t
unfolding to_lowercase
to_lowercase-append s t = map-append _ s t

-- An endpoint whose name contains `.amazonaws.com` counts as reachable on any HTTP status wherever
-- `unhealthy`, in either case, stands in the body.
pub is_reachable_unhealthy :
    (endpoint_str front word back : Bytes) (is_success : Bool)
    → contains endpoint_str (codes ".amazonaws.com") ≡ true
    → to_lowercase word ≡ codes "unhealthy"
    → is_reachable endpoint_str
        (ok (record { is_success = is_success; body = ok (front ++ (word ++ back)) }))
      ≡ true
unfolding is_reachable
is_reachable_unhealthy endpoint_str front word back is_success aws e =
    rw (aws, to_lowercase-append front (word ++ back), to_lowercase-append word back, e)
      (rw (← append_assoc (to_lowercase front) (codes "un") _)
        (contains-append (to_lowercase front ++ codes "un") (codes "healthy") (to_lowercase back)))
