-- ===== src/ModbusReader/Run/Backoff.antt =====
-- The connection attempts of the main loop of ModbusReader.cpp: they end, and how long they take.
use more_modbus.Prelude.{
  ℕ, zero, suc, ◌<◌, ◌≤◌, ◌-◌, ltb, ◌+◌, subst, ◌≡◌, refl, sym, ap, ◌∙◌, true, false, List, [], ◌∷◌,
  ◌++◌, Result, ok, ◌>>=◌, length, get_or, get_elem?, Option, arith, Bool-cases, inl, inr,
}
use mathlib.Core.List.{append_assoc, append-nil}
use more_modbus.ModbusGroupReader.{at-some}
use more_modbus.ModbusClient.{LibModbus, ModbusClient, connect}
use more_modbus.ModbusReader.Run.{
  timeout_durations, Phase, connecting, setting, MainLoop, next_timeout, attempt_connection,
  connection_attempts,
}
use more_modbus.ModbusReader.Run.Invariant.{next_timeout_bound}

-- The waiting times of n failed attempts from the duration number `i` on: the durations in their
-- order, then an hour each.
abbrev pub backoff : ℕ → ℕ → List ℕ
backoff i zero = []
backoff i (suc n) = get_or timeout_durations i 3600 ∷ backoff (i + 1) n

-- What the n failed attempts before the one that connects leave of the client.
abbrev pub ConnectsAfter :
    {S : Type 0} ⦃l : LibModbus S⦄ → ℕ → ModbusClient S → ModbusClient S → Type 0
ConnectsAfter zero c c' = connect c ≡ (c', true)
ConnectsAfter (suc n) c c' = ((connect c).1 ≡ false) × ConnectsAfter n (connect c).0 c'

found :
    {A : Type 0} (xs : List A) (i : ℕ) (d : A)
    → i < length xs
    → get_elem? xs i ≡ Option.some (get_or xs i d)
found [] i d h = absurd (omega arith)
found (x ∷ xs) zero d h = refl
found (x ∷ xs) (suc i) d h = found xs i d (omega arith)

get_or-default : {A : Type 0} (xs : List A) (i : ℕ) (d : A) → length xs ≤ i → get_or xs i d ≡ d
get_or-default [] i d h = refl
get_or-default (x ∷ xs) zero d h = absurd (omega arith)
get_or-default (x ∷ xs) (suc i) d h = get_or-default xs i d (omega arith)

-- The last duration is an hour, as are the waits past it.
last_duration : (i : ℕ) → 9 ≤ i → get_or timeout_durations i 3600 ≡ 3600
last_duration i h = elim (Bool-cases (ltb 9 i)) [
  | inl past ↦ get_or-default timeout_durations i 3600 (ground arith)
  | inr last ↦ subst (λ k. get_or timeout_durations k 3600 ≡ 3600) {x = 9} (ground arith) refl
]

backoff_last : (n i j : ℕ) → 9 ≤ i → 9 ≤ j → backoff i n ≡ backoff j n
backoff_last zero i j h k = refl
backoff_last (suc n) i j h k =
    rw (last_duration i h, last_duration j k)
      (ap (λ t. 3600 ∷ t) (backoff_last n (i + 1) (j + 1) (omega arith) (omega arith)))

backoff-next_timeout :
    (n i : ℕ) → i < length timeout_durations → backoff (next_timeout i) n ≡ backoff (i + 1) n
unfolding next_timeout
backoff-next_timeout n i h = elim (Bool-cases (ltb i (length timeout_durations - 1))) [
  | inl more ↦ rw more refl
  | inr last ↦ rw last (backoff_last n i (i + 1) (ground arith) (ground arith))
]

module _ {S : Type 0} ⦃l : LibModbus S⦄ where
  attempt_fails :
      (r : MainLoop S)
      → r.timeout_iterator < length timeout_durations
      → (connect r.client).1 ≡ false
      → attempt_connection r
        ≡ ok (record r {
          client = (connect r.client).0;
          timeout_iterator = next_timeout r.timeout_iterator;
          slept = r.slept ++ (get_or timeout_durations r.timeout_iterator 3600 ∷ []);
        })
  unfolding attempt_connection
  attempt_fails r h failed =
      rw
        (
          failed,
          at-some timeout_durations r.timeout_iterator _
              (found timeout_durations r.timeout_iterator 3600 h),
        )
        refl

  attempt_connects :
      (r : MainLoop S) (c' : ModbusClient S)
      → connect r.client ≡ (c', true)
      → attempt_connection r
        ≡ ok (record r {
          client = c';
          phase = setting true 0;
          should_reconnect = false;
          timeout_iterator = 0;
        })
  unfolding attempt_connection
  attempt_connects r c' made = rw made refl

  -- If the client connects after n failed attempts, the loop of attempts ends as soon as it may
  -- make one more than n. It has slept for the n durations from the present one on, in their order
  -- and for an hour each after the last of them; the next failure waits for the first duration
  -- again, and the thread goes on to set all statuses to active.
  pub connection_attempts_end :
      (n fuel : ℕ) (r : MainLoop S) (c' : ModbusClient S)
      → r.phase ≡ connecting
      → r.timeout_iterator < length timeout_durations
      → ConnectsAfter n r.client c'
      → n < fuel
      → connection_attempts fuel r
        ≡ ok (record r {
          client = c';
          phase = setting true 0;
          should_reconnect = false;
          timeout_iterator = 0;
          slept = r.slept ++ backoff r.timeout_iterator n;
        })
  unfolding connection_attempts
  connection_attempts_end n zero r c' phase bound answers enough = absurd (omega arith)
  connection_attempts_end zero (suc fuel) r c' phase bound answers enough =
      rw (attempt_connects r c' answers) (
        ap
          (λ t. ok (record r {
            client = c';
            phase = setting true 0;
            should_reconnect = false;
            timeout_iterator = 0;
            slept = t;
          }))
          (sym (append-nil r.slept)))
  connection_attempts_end (suc n) (suc fuel) r c' phase bound answers enough =
      let r' = record r {
        client = (connect r.client).0;
        timeout_iterator = next_timeout r.timeout_iterator;
        slept = r.slept ++ (get_or timeout_durations r.timeout_iterator 3600 ∷ []);
      } in
      ap
        (λ (t : Result (MainLoop S)).
          t >>= λ r'. elim r'.phase [ connecting ↦ connection_attempts fuel r' | _ ↦ ok r' ])
        (attempt_fails r bound answers.0)
      ∙ ap (λ (p : Phase). elim p [ connecting ↦ connection_attempts fuel r' | _ ↦ ok r' ]) phase
      ∙ connection_attempts_end n fuel r' c' phase (next_timeout_bound r.timeout_iterator bound)
          answers.1 (omega arith)
      ∙ ap
          (λ t. ok (record r {
            client = c';
            phase = setting true 0;
            should_reconnect = false;
            timeout_iterator = 0;
            slept = t;
          }))
          (append_assoc r.slept (get_or timeout_durations r.timeout_iterator 3600 ∷ [])
              (backoff (next_timeout r.timeout_iterator) n)
            ∙ ap (λ t. r.slept ++ (get_or timeout_durations r.timeout_iterator 3600 ∷ t))
                (backoff-next_timeout n r.timeout_iterator bound))
