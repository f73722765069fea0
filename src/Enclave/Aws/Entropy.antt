-- ===== src/Enclave/Aws/Entropy.antt =====
-- src/aws/src/lib.rs: the length and the content of what `get_entropy` returns.
use artos_nautilus_server.Prelude.{
  ℕ, zero, suc, ◌+◌, ◌-◌, ◌*◌, ◌%◌, ◌≤◌, ◌<◌, ◌≡◌, refl, ap, ◌∙◌, ◌⊎◌, inl, inr, true, false, none,
  some, [], ◌∷◌, ◌++◌, append_assoc, Bytes, codes, length, length-append, take, replicate, ltb,
  ltb→lt, arith, Bool-cases, Option-cases, sym, append-nil,
}
use artos_nautilus_server.Rust.Outcome.{Result, ok, err}
use artos_nautilus_server.Enclave.Aws.{Nsm, fill_buffer, entropy_loop, get_entropy}

length-take_le : (n : ℕ) (xs : Bytes) → n ≤ length xs → length (take n xs) ≡ n
length-take_le zero xs h = omega arith
length-take_le (suc n) [] h = absurd (omega arith)
length-take_le (suc n) (x ∷ xs) h = omega (arith, length-take_le n xs (omega arith))

length-fill_buffer : (written : Bytes) → length (fill_buffer written) ≡ 256
unfolding fill_buffer
length-fill_buffer written =
    length-take_le 256 (written ++ replicate 256 0)
      (omega (arith, length-append written (replicate 256 0)))

take-replicate_zeros : (n k : ℕ) → n ≤ k → take n (replicate k (let z : ℕ = 0 in z)) ≡ replicate n 0
take-replicate_zeros zero k h = refl
take-replicate_zeros (suc n) zero h = absurd (omega arith)
take-replicate_zeros (suc n) (suc k) h = ap (λ l. 0 ∷ l) (take-replicate_zeros n k (omega arith))

take-append_zeros :
    (k : ℕ) (written : Bytes) (n : ℕ)
    → length written ≤ n
    → n ≤ k
    → take n (written ++ replicate k 0) ≡ written ++ replicate (n - length written) 0
take-append_zeros k [] n h g =
    let whole : n - 0 ≡ n = omega arith in rw whole (take-replicate_zeros n k g)
take-append_zeros k (x ∷ written) zero h g = absurd (omega arith)
take-append_zeros k (x ∷ written) (suc n) h g =
    let less : suc n - suc (length written) ≡ n - length written = omega arith in
    rw less (ap (λ l. x ∷ l) (take-append_zeros k written n (omega arith) (omega arith)))

fill_buffer_zeros :
    (written : Bytes)
    → length written ≤ 256
    → fill_buffer written ≡ written ++ replicate (256 - length written) 0
unfolding fill_buffer
fill_buffer_zeros written h = take-append_zeros 256 written 256 h (omega arith)

module _ (nsm : Nsm) where
  -- Enough bytes, less than a buffer too many, and whole buffers; or the message of a failed call.
  abbrev pub EntropyResult : ℕ → Result Bytes Bytes → Type 0
  EntropyResult size (ok dest) =
      (size ≤ length dest) × (length dest < size + 256) × (length dest % 256 ≡ 0)
  EntropyResult size (err e) = e ≡ codes "Failed to get entropy from NSM device"

  entropy_loop_enough :
      (fuel size : ℕ) (dest : Bytes) (device : nsm.Device)
      → ltb (length dest) size ≡ false
      → entropy_loop nsm fuel size dest device ≡ some (ok dest)
  unfolding entropy_loop
  entropy_loop_enough zero size dest device h = rw (h, entropy_loop)
  entropy_loop_enough (suc fuel) size dest device h = rw (h, entropy_loop)

  entropy_loop_failed :
      (fuel size : ℕ) (dest : Bytes) (device : nsm.Device)
      → ltb (length dest) size ≡ true
      → (nsm.get_random device).0 ≡ none
      → entropy_loop nsm (suc fuel) size dest device
        ≡ some (err (codes "Failed to get entropy from NSM device"))
  unfolding entropy_loop
  entropy_loop_failed fuel size dest device h e = rw (h, entropy_loop) (rw e)

  entropy_loop_more :
      (fuel size : ℕ) (dest : Bytes) (device : nsm.Device) (written : Bytes)
      → ltb (length dest) size ≡ true
      → (nsm.get_random device).0 ≡ some written
      → entropy_loop nsm (suc fuel) size dest device
        ≡ entropy_loop nsm fuel size (dest ++ fill_buffer written) (nsm.get_random device).1
  unfolding entropy_loop
  entropy_loop_more fuel size dest device written h e = rw (h, entropy_loop) (rw e)

  entropy_loop_lem :
      (fuel size : ℕ) (dest : Bytes) (device : nsm.Device)
      → size ≤ length dest + fuel * 256
      → length dest < size + 256
      → length dest % 256 ≡ 0
      → (r : Result Bytes Bytes) × (entropy_loop nsm fuel size dest device ≡ some r)
        × EntropyResult size r
  entropy_loop_lem zero size dest device h lt m =
      (ok dest, entropy_loop_enough zero size dest device (ground arith), (omega arith, lt, m))
  entropy_loop_lem (suc fuel) size dest device h lt m = elim (Bool-cases (ltb (length dest) size)) [
    | inr enough ↦
        (ok dest, entropy_loop_enough (suc fuel) size dest device enough, (ground arith, lt, m))
    | inl more ↦ elim (Option-cases (nsm.get_random device).0) [
      | inl failed ↦ (
        err (codes "Failed to get entropy from NSM device"),
        entropy_loop_failed fuel size dest device more failed,
        refl,
      )
      | inr (written, e) ↦
          let longer : length (dest ++ fill_buffer written) ≡ length dest + 256 =
            omega (arith, length-append dest (fill_buffer written), length-fill_buffer written) in
          let (r, returned, good) =
            entropy_loop_lem fuel size (dest ++ fill_buffer written) (nsm.get_random device).1
              (omega arith) (omega (arith, ltb→lt _ _ more)) (omega arith) in
          (r, entropy_loop_more fuel size dest device written more e ∙ returned, good)
    ]
  ]

  get_entropy_open :
      (size : ℕ) (device : nsm.Device)
      → nsm.init ≡ some device
      → get_entropy nsm size ≡ entropy_loop nsm size size [] device
  unfolding get_entropy entropy_loop
  get_entropy_open size device e = rw (e, get_entropy)

  -- `get_entropy` ends, its fuel of `size` rounds being enough: with an error without a device,
  -- and else with an error of a call or with at least `size` bytes, fewer than `size` + 256 and a
  -- multiple of 256.
  pub get_entropy_returns :
      (size : ℕ)
      → ((nsm.init ≡ none)
          × (get_entropy nsm size ≡ some (err (codes "Failed to connect to NSM device"))))
        ⊎ ((device : nsm.Device) × (r : Result Bytes Bytes) × (nsm.init ≡ some device)
            × (get_entropy nsm size ≡ some r)
            × EntropyResult size r)
  unfolding get_entropy
  get_entropy_returns size = elim (Option-cases nsm.init) [
    | inl e ↦ inl (e, rw (e, get_entropy))
    | inr (device, e) ↦
        let (r, returned, good) =
          entropy_loop_lem size size [] device (omega arith) (omega arith) (omega arith) in
        inr (device, r, e, get_entropy_open size device e ∙ returned, good)
  ]

  entropy_loop_prefix :
      (fuel size : ℕ) (dest : Bytes) (device : nsm.Device) {out : Bytes}
      → entropy_loop nsm fuel size dest device ≡ some (ok out)
      → (rest : Bytes) × (out ≡ dest ++ rest)
  entropy_loop_prefix zero size dest device {out} h = elim (Bool-cases (ltb (length dest) size)) [
    | inl more ↦ absurd (unfold entropy_loop in ground arith)
    | inr enough ↦ ([], cc (entropy_loop_enough zero size dest device enough, append-nil dest))
  ]
  entropy_loop_prefix (suc fuel) size dest device {out} h =
      elim (Bool-cases (ltb (length dest) size)) [
        | inr enough ↦
            ([], cc (entropy_loop_enough (suc fuel) size dest device enough, append-nil dest))
        | inl more ↦ elim (Option-cases (nsm.get_random device).0) [
          | inl failed ↦ absurd (cc (entropy_loop_failed fuel size dest device more failed))
          | inr (written, e) ↦
              let (rest, same) =
                entropy_loop_prefix fuel size (dest ++ fill_buffer written)
                  (nsm.get_random device).1
                  (sym (entropy_loop_more fuel size dest device written more e) ∙ h) in
              (fill_buffer written ++ rest, same ∙ append_assoc dest (fill_buffer written) rest)
        ]
      ]

  -- For a positive `size`, if the first call writes fewer bytes than the buffer holds, the rest of
  -- the first 256 bytes of a result is zeros.
  pub get_entropy_short :
      (size : ℕ) (device : nsm.Device) (written out : Bytes)
      → 0 < size
      → length written ≤ 256
      → nsm.init ≡ some device
      → (nsm.get_random device).0 ≡ some written
      → get_entropy nsm size ≡ some (ok out)
      → (rest : Bytes) × (out ≡ (written ++ replicate (256 - length written) 0) ++ rest)
  get_entropy_short zero device written out h short i e r = absurd (omega arith)
  get_entropy_short (suc size) device written out h short i e r =
      let (rest, same) =
        entropy_loop_prefix size (suc size) (fill_buffer written) (nsm.get_random device).1 (
          sym (
            get_entropy_open (suc size) device i
            ∙ entropy_loop_more size (suc size) [] device written (ground arith) e)
          ∙ r) in
      (rest, same ∙ ap (λ l. l ++ rest) (fill_buffer_zeros written short))
