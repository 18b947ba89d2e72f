-- ===== src/ModbusReader/Run/Invariant.antt =====
-- What holds in all states of the main loop of ModbusReader.cpp.
use more_modbus.Prelude.{
  ℕ, zero, suc, ◌<◌, ◌≤◌, ◌≡◌, refl, sym, ap, ◌∙◌, ◌⊎◌, inl, inr, Bool, true, false, not, List, [],
  ◌∷◌, ◌++◌, ◌>>=◌, Result, ok, ok-injective, if◌then◌else◌, length, ltb, arith, Bool-cases,
  get_elem?-total, subst,
}
use more_modbus.ModbusGroupReader.{at, at-some}
use more_modbus.ModbusClient.{LibModbus, ModbusClient, connect, disconnect}
use more_modbus.ModbusClient.Connection.{IsConsistent, connect_result, disconnect_result}
use more_modbus.ModbusReader.Status.{DeviceStatus, report_status}
use more_modbus.ModbusReader.Run.{
  timeout_durations, Phase, turning, waiting, connecting, setting, marking, calling, noting,
  starting, raising, MainLoop, at_device, next_timeout, attempt_connection, turn, each, told_all,
  start_threads, end_turn, advance, advance_from, Step, main, report, traffic, Reachable, first,
  step, set_active, set_reported, call_back,
}

-- The connection: there is none during the attempts, and there is one while threads are started,
-- in a turn's sleep, and while the devices are told that they are active.
abbrev pub IsLinked : Phase → Bool → Type 0
IsLinked turning connected = Unit
IsLinked connecting connected = connected ≡ false
IsLinked waiting connected = connected ≡ true
IsLinked (setting b k) connected = (b ≡ false) ⊎ (connected ≡ true)
IsLinked (marking b k) connected = (b ≡ false) ⊎ (connected ≡ true)
IsLinked (calling b k) connected = (b ≡ false) ⊎ (connected ≡ true)
IsLinked (noting b k) connected = (b ≡ false) ⊎ (connected ≡ true)
IsLinked (starting k) connected = connected ≡ true
IsLinked (raising k) connected = connected ≡ true

-- The threads of all devices, or of none.
abbrev AllOrNone : Bool → ℕ → ℕ → Type 0
AllOrNone running started devices =
    ((running ≡ false) × (started ≡ 0)) ⊎ ((running ≡ true) × (started ≡ devices))

-- The threads: those of the devices before `k` were started when it is the turn of `k`.
abbrev pub IsStaffed : Phase → Bool → ℕ → ℕ → Type 0
IsStaffed (starting k) running started devices = (running ≡ false) × (started ≡ k) × (k ≤ devices)
IsStaffed (raising k) running started devices =
    (running ≡ false) × (started ≡ suc k) × (k < devices)
IsStaffed waiting running started devices = (running ≡ true) × (started ≡ devices)
IsStaffed turning running started devices = AllOrNone running started devices
IsStaffed connecting running started devices = AllOrNone running started devices
IsStaffed (setting b k) running started devices = AllOrNone running started devices
IsStaffed (marking b k) running started devices = AllOrNone running started devices
IsStaffed (calling b k) running started devices = AllOrNone running started devices
IsStaffed (noting b k) running started devices = AllOrNone running started devices

-- The timeout is one of the durations, and the first of them outside of the connection attempts.
pub record IsSteady {S : Type 0} (r : MainLoop S) : Type 0 where
  pub bound : r.timeout_iterator < length timeout_durations
  pub start : (r.phase ≡ connecting) ⊎ (r.timeout_iterator ≡ 0)
  pub consistent : IsConsistent r.client
  pub linked : IsLinked r.phase r.client.connected
  pub staffed : IsStaffed r.phase r.threads_running r.started (length r.devices)

-- The same, of the fields.
abbrev Steady : {S : Type 0} → Phase → ModbusClient S → ℕ → Bool → ℕ → ℕ → Type 0
Steady phase c i running started devices =
    (i < length timeout_durations)
    × ((phase ≡ connecting) ⊎ (i ≡ 0))
    × IsConsistent c
    × IsLinked phase c.connected
    × IsStaffed phase running started devices

pub length-at_device :
    (f : DeviceStatus → DeviceStatus) (i : ℕ) (devices : List DeviceStatus)
    → length (at_device f i devices) ≡ length devices
unfolding at_device
length-at_device f i [] = refl
length-at_device f zero (s ∷ rest) = refl
length-at_device f (suc i) (s ∷ rest) = ap suc (length-at_device f i rest)

pub next_timeout_bound :
    (i : ℕ) → i < length timeout_durations → next_timeout i < length timeout_durations
unfolding next_timeout
next_timeout_bound i h = ground arith

module _ {S : Type 0} ⦃l : LibModbus S⦄ where
  abbrev Holds : Phase → MainLoop S → Type 0
  Holds p r = Steady p r.client r.timeout_iterator r.threads_running r.started (length r.devices)

  Holds-IsSteady : (r : MainLoop S) → Holds r.phase r → IsSteady r
  Holds-IsSteady r (b, s, c, i, t) = record {
    bound = b;
    start = s;
    consistent = c;
    linked = i;
    staffed = t;
  }

  if-Holds :
      (b : Bool) (x y : MainLoop S)
      → (b ≡ true → Holds x.phase x)
      → (b ≡ false → Holds y.phase y)
      → Holds (if b then x else y).phase (if b then x else y)
  if-Holds true x y h k = h refl
  if-Holds false x y h k = k refl

  each-Holds :
      (f : DeviceStatus → DeviceStatus) (k : ℕ) (next : Phase) (after r : MainLoop S)
      → (k < length r.devices → Holds next r)
      → (length r.devices ≤ k → Holds after.phase after)
      → Holds (each f k next after r).phase (each f k next after r)
  unfolding each
  each-Holds f k next after r h g =
      if-Holds (ltb k (length r.devices))
        (record r { phase = next; devices = at_device f k r.devices }) after
        (λ e. rw (length-at_device f k r.devices) (h (ground arith))) (λ e. g (ground arith))

  told_all-Holds :
      (b : Bool) (r : MainLoop S)
      → r.timeout_iterator ≡ 0
      → IsConsistent r.client
      → AllOrNone r.threads_running r.started (length r.devices)
      → Holds (told_all b r).phase (told_all b r)
  unfolding told_all disconnect
  told_all-Holds true r zeroed c staff = (omega arith, inr zeroed, c, tt, staff)
  told_all-Holds false r zeroed c staff = (
    omega arith,
    inl refl,
    (let (gone, sound, _, _, _) = disconnect_result r.client c in sound),
    refl,
    staff,
  )

  turn-Holds : (r : MainLoop S) → Holds turning r → Holds (turn r).phase (turn r)
  unfolding turn
  turn-Holds r (b, inl ne, c, i, t) = cc
  turn-Holds r (b, inr s, c, i, t) =
      if-Holds r.should_reconnect (record r { phase = setting false 0; should_reconnect = false }) _
        (λ again. (b, inr s, c, inl refl, t))
        (λ steady.
          if-Holds (not r.client.connected) (record r { phase = turning; should_reconnect = true })
            _ (λ gone. (b, inr s, c, tt, t))
            (λ there.
              if-Holds r.threads_running (record r { phase = waiting })
                (record r { phase = starting 0 })
                (λ run. (b, inr s, c, ground arith, elim t [ inl (x, y) ↦ cc | inr x ↦ x ]))
                (λ idle. (
                  b,
                  inr s,
                  c,
                  ground arith,
                  elim t [ inl (x, y) ↦ (x, y, omega arith) | inr (x, y) ↦ cc ],
                ))))

  attempt-Holds :
      (r r' : MainLoop S)
      → r.phase ≡ connecting
      → Holds connecting r
      → attempt_connection r ≡ ok r'
      → Holds r'.phase r'
  unfolding attempt_connection
  attempt-Holds r r' phase (b, s, c, i, t) e =
      let (link, sound) = connect_result r.client c in
      let (seconds, found) = get_elem?-total timeout_durations r.timeout_iterator b in
      let next = λ (seconds : ℕ). record r {
        client = (connect r.client).0;
        timeout_iterator = next_timeout r.timeout_iterator;
        slept = r.slept ++ (seconds ∷ []);
      } in
      let failing = λ (t : Result ℕ). t >>= λ seconds. ok (next seconds) in
      let attempt = λ (made : Bool).
        if made
        then ok (record r {
          client = (connect r.client).0;
          phase = setting true 0;
          should_reconnect = false;
          timeout_iterator = 0;
        })
        else failing (at timeout_durations r.timeout_iterator) in
      elim (Bool-cases (connect r.client).1) [
        | inl made ↦
            let e' : attempt true ≡ ok r' = ap attempt (sym made) ∙ e in
            subst (λ x. Holds x.phase x) (ok-injective _ _ e')
              (omega arith, inr refl, sound, inr (link ∙ made), t)
        | inr failed ↦
            let e' : ok (next seconds) ≡ ok r' =
              sym (ap failing (at-some timeout_durations r.timeout_iterator seconds found))
              ∙ ap attempt (sym failed)
              ∙ e in
            subst (λ x. Holds x.phase x) {x = next seconds} (ok-injective _ _ e')
              (rw phase
                (next_timeout_bound r.timeout_iterator b, inl refl, sound, link ∙ failed, t))
      ]

  advance-Holds :
      (p : Phase) (r r' : MainLoop S)
      → r.phase ≡ p
      → Holds p r
      → advance_from p r ≡ ok r'
      → Holds r'.phase r'
  unfolding advance_from start_threads end_turn
  advance-Holds turning r r' phase h e =
      subst (λ x. Holds x.phase x) (ok-injective _ _ e) (turn-Holds r h)
  advance-Holds connecting r r' phase h e = attempt-Holds r r' phase h e
  advance-Holds waiting r r' phase (b, inl ne, c, i, t) e = cc
  advance-Holds waiting r r' phase (b, inr s, c, i, t) e =
      subst (λ x. Holds x.phase x) (ok-injective _ _ e) (b, inr s, c, tt, inr t)
  advance-Holds (setting status k) r r' phase (b, inl ne, c, i, t) e = cc
  advance-Holds (setting status k) r r' phase (b, inr s, c, i, t) e =
      subst (λ x. Holds x.phase x) (ok-injective _ _ e)
        (each-Holds (set_active status) k (setting status (suc k))
          (record r { phase = marking status 0 }) r (λ more. (b, inr s, c, i, t))
          (λ last. (b, inr s, c, i, t)))
  advance-Holds (marking status k) r r' phase (b, inl ne, c, i, t) e = cc
  advance-Holds (marking status k) r r' phase (b, inr s, c, i, t) e =
      subst (λ x. Holds x.phase x) (ok-injective _ _ e)
        (each-Holds (set_active status) k (calling status k) (told_all status r) r
          (λ more. (b, inr s, c, i, t)) (λ last. told_all-Holds status r s c t))
  advance-Holds (calling status k) r r' phase (b, inl ne, c, i, t) e = cc
  advance-Holds (calling status k) r r' phase (b, inr s, c, i, t) e =
      subst (λ x. Holds x.phase x) (ok-injective _ _ e)
        (each-Holds (call_back status) k (noting status k) (told_all status r) r
          (λ more. (b, inr s, c, i, t)) (λ last. told_all-Holds status r s c t))
  advance-Holds (noting status k) r r' phase (b, inl ne, c, i, t) e = cc
  advance-Holds (noting status k) r r' phase (b, inr s, c, i, t) e =
      subst (λ x. Holds x.phase x) (ok-injective _ _ e)
        (each-Holds set_reported k (marking status (suc k)) (told_all status r) r
          (λ more. (b, inr s, c, i, t)) (λ last. told_all-Holds status r s c t))
  advance-Holds (starting k) r r' phase (b, inl ne, c, i, t) e = cc
  advance-Holds (starting k) r r' phase (b, inr s, c, i, (idle, at, enough)) e =
      subst (λ x. Holds x.phase x) (ok-injective _ _ e)
        (if-Holds (ltb k (length r.devices)) (record r { phase = raising k; started = suc k })
          (record r { phase = waiting; threads_running = true })
          (λ more. (b, inr s, c, i, (idle, refl, ground arith)))
          (λ last. (b, inr s, c, i, (refl, ground arith))))
  advance-Holds (raising k) r r' phase (b, inl ne, c, i, t) e = cc
  advance-Holds (raising k) r r' phase (b, inr s, c, i, (idle, at, enough)) e =
      subst (λ x. Holds x.phase x) (ok-injective _ _ e)
        (each-Holds (set_active true) k (starting (suc k)) (record r { phase = starting (suc k) }) r
          (λ more. (b, inr s, c, i, (idle, at, enough)))
          (λ last. (b, inr s, c, i, (idle, at, enough))))

  Step-Holds : (r r' : MainLoop S) → Holds r.phase r → Step r r' → Holds r'.phase r'
  unfolding advance
  Step-Holds _ _ h (main r r' e) = advance-Holds r.phase r r' refl h e
  Step-Holds _ _ h (report r i status at) =
      rw (length-at_device (λ s. report_status s status) i r.devices) h
  Step-Holds _ _ (b, s, c, i, t) (traffic r k lib at) =
      (b, s, record { marked = c.marked; backed = c.backed }, i, t)

  Reachable-Holds : (r : MainLoop S) → Reachable r → Holds r.phase r
  Reachable-Holds _ (first c n sound) = (omega arith, inr refl, sound, tt, inl (refl, refl))
  Reachable-Holds _ (step r r' reach move) = Step-Holds r r' (Reachable-Holds r reach) move

  -- In every state that the main thread's steps, the devices' reports and their use of the client
  -- reach from the start of `run` with a client whose context and mark agree: the timeout that the
  -- next failed attempt reads is one of the durations, and outside of the attempts it is the first
  -- of them; there is no connection during the attempts, and there is one while threads are
  -- started, during a turn's sleep and while the devices are told that they are active; the threads
  -- of the devices are started once, in the order of the devices, those of all of them before a
  -- turn sleeps, and elsewhere than in that loop those of all devices or of none were started.
  pub Reachable-IsSteady : (r : MainLoop S) → Reachable r → IsSteady r
  Reachable-IsSteady r reach = Holds-IsSteady r (Reachable-Holds r reach)
