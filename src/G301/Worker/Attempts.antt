-- ===== src/G301/Worker/Attempts.antt =====
-- What reaches the bus when an operation with retries succeeds.
use clock_ha_orchestrator.Prelude.{
  ℕ, zero, suc, ◌+◌, ◌*◌, ◌^◌, ◌≡◌, refl, subst, ap, ◌∙◌, ◌⊎◌, inl, inr, ◌&&◌, some, List, [], ◌∷◌,
  ◌++◌, All, ltb, ◌==◌, ==_iff, Bool-cases, if-holds, arith,
}
use clock_ha_orchestrator.Prelude.Results.{Result, ok, err, Result-cases}
use clock_ha_orchestrator.G301.Planner.{
  RegisterWrite, ReadbackExpectation, G301Plan, compare_readback, get,
}
use clock_ha_orchestrator.G301.Transport.{
  TransportError, timeout, retryable, Failure, timed_out, crashed, RegisterClient,
}
use clock_ha_orchestrator.G301.Worker.State.{RegisterWriteResult, Config}
use clock_ha_orchestrator.G301.Worker.Bus.{
  Exc, transport, uncaught, pause, retry_loop, with_retry, write_one, write_all, single, read_one,
  read_expectations, readback_loop, readback, is_nil,
}

module _ {Bus : Type 0} (client : RegisterClient Bus) (c : Config) where
  -- The bus after a failed attempt, with or without a pause.
  abbrev pub Paused : Bus → Bus → Type 0
  Paused b b' = (b' ≡ b) ⊎ ((n : ℕ) × (b' ≡ client.sleep n b))

  -- From one bus to another by attempts at an operation, of which all but the last failed and the
  -- last returned the value.
  pub data Attempts {A : Type 0} (operation : Bus → Result Failure A × Bus) (a : A)
      : Bus → Bus → Type 0 where
    success : (b : Bus) → (operation b).0 ≡ ok a → Attempts operation a b (operation b).1
    again :
        (f : Failure) (b b₁ b' : Bus)
        → (operation b).0 ≡ err f
        → Paused (operation b).1 b₁
        → Attempts operation a b₁ b'
        → Attempts operation a b b'

  pause-Paused : (left attempt delay : ℕ) (b : Bus) → Paused b (pause client c left attempt delay b)
  pause-Paused left attempt delay b =
      if-holds (Paused b) (ltb 0 left && ltb 0 delay) _ b (λ _. inr (delay * 2 ^ attempt, refl))
        (λ _. inl refl)

  retry_loop-Attempts :
      {A : Type 0} (left attempt : ℕ) (last : TransportError)
      (operation : Bus → Result Failure A × Bus) (a : A) (b : Bus)
      → (retry_loop client c left attempt last operation b).0 ≡ ok a
      → Attempts operation a b (retry_loop client c left attempt last operation b).1
  unfolding retry_loop
  retry_loop-Attempts zero attempt last operation a b h = ground arith
  retry_loop-Attempts {A} (suc left) attempt last operation a b h =
      by_result
        (λ x.
          retry_loop-Attempts left (attempt + 1) x operation a
            (pause client c left attempt c.retry_backoff (operation b).1))
        (operation b).0 refl
    where
      next : Bus
      next = pause client c left attempt c.retry_backoff (operation b).1

      Rest : Type 0
      Rest =
          (x : TransportError)
          → (retry_loop client c left (attempt + 1) x operation next).0 ≡ ok a
          → Attempts operation a next (retry_loop client c left (attempt + 1) x operation next).1

      by_result :
          Rest
          → (r : Result Failure A) → (operation b).0 ≡ r
          → Attempts operation a b (retry_loop client c (suc left) attempt last operation b).1
      by_result rest (ok x) e =
          let o : x ≡ a = (let m = rw (e, retry_loop) at h in ground arith) in
          rw (e, retry_loop) (success b (e ∙ ap ok o))
      by_result rest (err timed_out) e =
          rw (e, retry_loop)
            (again timed_out b next _ e (pause-Paused left attempt c.retry_backoff (operation b).1)
              (rest timeout (rw (e, retry_loop) at h)))
      by_result rest (err (Failure.failed x)) e = elim (Bool-cases (retryable x)) [
        | inl y ↦
            rw (e, y, retry_loop)
              (again (Failure.failed x) b next _ e
                (pause-Paused left attempt c.retry_backoff (operation b).1)
                (rest x (rw (e, y, retry_loop) at h)))
        | inr n ↦
            absurd (let m : err (transport x) ≡ ok a = rw (e, n, retry_loop) at h in ground arith)
      ]
      by_result rest (err crashed) e =
          absurd (let m : err uncaught ≡ ok a = rw (e, retry_loop) at h in ground arith)

  -- The writes of a plan, one after another, each by attempts of which the last succeeded.
  abbrev pub Written : ℕ → List RegisterWrite → Bus → Bus → Type 0
  Written slave [] b b' = b ≡ b'
  Written slave (w ∷ ws) b b' =
      (b₁ : Bus) × Attempts (client.write_register slave w.address w.value) tt b b₁
      × Written slave ws b₁ b'

  write_one-Attempts :
      (slave : ℕ) (w : RegisterWrite) (u : Unit {0}) (b : Bus)
      → (write_one client c slave w b).0 ≡ ok u
      → Attempts
          (client.write_register slave w.address w.value)
          tt
          b
          (write_one client c slave w b).1
  unfolding write_one with_retry
  write_one-Attempts slave w u b h = retry_loop-Attempts _ _ _ _ tt b h

  pub write_all-Written :
      (slave : ℕ) (ws : List RegisterWrite) (done : List RegisterWriteResult) (u : Unit {0})
      (b : Bus)
      → (write_all client c slave ws done b).1 ≡ ok u
      → Written slave ws b (write_all client c slave ws done b).2
  unfolding write_all
  write_all-Written slave [] done u b h = refl
  write_all-Written slave (w ∷ ws) done u b h =
      elim (Result-cases (write_one client c slave w b).0) [
        | inl (x, e) ↦ absurd (let m : err x ≡ ok u = rw (e, write_all) at h in ground arith)
        | inr (v, e) ↦
            rw (e, write_all)
              (
                (write_one client c slave w b).1,
                write_one-Attempts slave w v b e,
                write_all-Written slave ws
                    (done ++ record { address = w.address; value = w.value } ∷ []) u
                    (write_one client c slave w b).1 (rw (e, write_all) at h),
              )
      ]

  -- The register was read with the value, by attempts of which the last succeeded.
  abbrev pub WasRead : ℕ → ℕ → ℕ → Type 0
  WasRead slave address v =
      (b : Bus) × (b' : Bus) × Attempts (client.read_holding_registers slave address 1) (v ∷ []) b
        b'

  abbrev Entries : ℕ → List (ℕ × ℕ) → Type 0
  Entries slave observed = All (λ e. WasRead slave e.0 e.1) observed

  single-value : (r : Result Exc (List ℕ)) (v : ℕ) → single client c r ≡ ok v → r ≡ ok (v ∷ [])
  single-value (ok []) v h = ground arith
  single-value (ok (x ∷ [])) v h = ground arith
  single-value (ok (x ∷ y ∷ l)) v h = ground arith
  single-value (err e) v h = ground arith

  read_one-WasRead :
      (slave address v : ℕ) (b : Bus)
      → (read_one client c slave address b).0 ≡ ok v
      → WasRead slave address v
  unfolding read_one with_retry
  read_one-WasRead slave address v b h = (
    b,
    (with_retry client c (client.read_holding_registers slave address 1) b).1,
    retry_loop-Attempts c.max_operation_attempts 0 timeout
        (client.read_holding_registers slave address 1) (v ∷ []) b (single-value _ v h),
  )

  read_expectations-Entries :
      (slave : ℕ) (es : List ReadbackExpectation) (observed seen : List (ℕ × ℕ)) (b : Bus)
      → Entries slave observed
      → (read_expectations client c slave es observed b).0 ≡ ok seen
      → Entries slave seen
  unfolding read_expectations
  read_expectations-Entries slave [] observed seen b k h =
      let o : observed ≡ seen = ground arith in subst (Entries slave) o k
  read_expectations-Entries slave (e ∷ es) observed seen b k h =
      elim (Result-cases (read_one client c slave e.address b).0) [
        | inl (x, n) ↦
            absurd (let m : err x ≡ ok seen = rw (n, read_expectations) at h in ground arith)
        | inr (v, y) ↦
            read_expectations-Entries slave es ((e.address, v) ∷ observed) seen
              (read_one client c slave e.address b).1 (read_one-WasRead slave e.address v b y, k)
              (rw (y, read_expectations) at h)
      ]

  readback_loop-Entries :
      (left : ℕ) (plan : G301Plan) (observed seen : List (ℕ × ℕ)) (b : Bus)
      → Entries plan.slave_address observed
      → (readback_loop client c left plan observed b).0 ≡ ok seen
      → Entries plan.slave_address seen
  unfolding readback_loop
  readback_loop-Entries zero plan observed seen b k h =
      let o : observed ≡ seen = ground arith in subst (Entries plan.slave_address) o k
  readback_loop-Entries (suc left) plan observed seen b k h =
      let r = read_expectations client c plan.slave_address plan.readback_expectations [] b in
      elim (Result-cases
        (read_expectations client c plan.slave_address plan.readback_expectations [] b).0) [
          | inl (x, n) ↦
              absurd (let m : err x ≡ ok seen = rw (n, readback_loop) at h in ground arith)
          | inr (o, y) ↦
              let here =
                read_expectations-Entries plan.slave_address plan.readback_expectations [] o b tt
                  y in
              elim (Bool-cases (is_nil (compare_readback plan o))) [
                | inl t ↦
                    (let p : o ≡ seen = (let q = rw (y, t, readback_loop) at h in ground arith) in
                      subst (Entries plan.slave_address) p here)
                | inr f ↦
                    readback_loop-Entries left plan o seen
                      (pause client c left 0 c.readback_delay r.1) here
                      (rw (y, f, readback_loop) at h)
              ]
        ]

  get-Entries :
      (slave address v : ℕ) (observed : List (ℕ × ℕ))
      → Entries slave observed
      → get address observed ≡ some v
      → WasRead slave address v
  get-Entries slave address v [] k h = ground arith
  get-Entries slave address v ((a, x) ∷ rest) k h = elim (Bool-cases (a == address)) [
    | inl y ↦
        let m : some x ≡ some v = rw y at h in
        let p : x ≡ v = ground arith in
        subst (λ n. WasRead slave n v) ((==_iff a address).0 y)
          (subst (λ n. WasRead slave a n) p k.0)
    | inr n ↦ get-Entries slave address v rest k.1 (rw n at h)
  ]

  -- The value that a readback has for a register is one that the bus returned for it.
  pub readback-WasRead :
      (plan : G301Plan) (observed : List (ℕ × ℕ)) (b : Bus)
      → (readback client c plan b).0 ≡ ok observed
      → (es : List ReadbackExpectation) → All (λ e. get e.address observed ≡ some e.expected) es
      → All (λ e. WasRead plan.slave_address e.address e.expected) es
  unfolding readback
  readback-WasRead plan observed b h [] k = tt
  readback-WasRead plan observed b h (e ∷ es) k = (
    get-Entries plan.slave_address e.address e.expected observed
        (readback_loop-Entries c.readback_attempts plan [] observed b tt h) k.0,
    readback-WasRead plan observed b h es k.1,
  )
