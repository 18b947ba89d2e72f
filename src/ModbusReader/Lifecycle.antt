-- ===== src/ModbusReader/Lifecycle.antt =====
-- more_modbus/ModbusReader.cpp: start and stop. Each thread object is either not made, running its
-- loop, or joined. What the threads that stop joins still do until they end is an argument of stop:
-- the main thread's loop of connection attempts does not look at `m_readerShouldRun`.
use more_modbus.Prelude.{
  ℕ, zero, suc, ◌≡◌, refl, ap, ◌∙◌, Bool, true, false, not, ◌&&◌, arith, if◌then◌else◌, Option,
}
use more_modbus.ModbusClient.{LibModbus, ModbusClient, connect, disconnect}

pub data Thread : Type 0 where
  no_thread running joined : Thread

abbrev pub is_null : Thread → Bool
is_null no_thread = true
is_null _ = false

abbrev pub is_joinable : Thread → Bool
is_joinable running = true
is_joinable _ = false

-- The device threads are those that `run` starts.
pub record Lifecycle (S : Type 0) : Type 0 where
  pub client : ModbusClient S
  pub reader_should_run : Bool
  pub main_reader_thread : Thread

-- What the threads that are joined leave of the client, or nothing if they never end.
abbrev pub Ending : Type 0 → Type 0
Ending S = ModbusClient S → Option (ModbusClient S)

module _ {S : Type 0} ⦃l : LibModbus S⦄ where
  -- bool ModbusReader::start()
  unfoldable pub start : Lifecycle S → Lifecycle S × Bool
  start r =
      let connecting = connect r.client in
      let client' = if r.client.connected then r.client else connecting.0 in
      let connected = if r.client.connected then true else connecting.1 in
      if r.reader_should_run then (r, true) else (
        record r {
          client = client';
          reader_should_run = true;
          main_reader_thread =
              if connected && is_null r.main_reader_thread then running else r.main_reader_thread;
        },
        connected,
      )

  -- `if (thread != nullptr && thread->joinable()) thread->join();`
  unfoldable pub join : Ending S → Lifecycle S → Option (Lifecycle S)
  join ending r =
      if is_joinable r.main_reader_thread
      then elim (ending r.client) [
        | Option.some c ↦ Option.some (record r { client = c; main_reader_thread = joined })
        | Option.none ↦ Option.none
      ]
      else Option.some r

  -- void ModbusReader::stop(); ~ModbusReader calls it too.
  unfoldable pub stop : Ending S → Lifecycle S → Option (Lifecycle S)
  unfolding join
  stop ending r =
      if not r.reader_should_run
      then Option.some r
      else join ending (record r {
        client = if r.client.connected then disconnect r.client else r.client;
        reader_should_run = false;
      })

  -- The calls that a program makes: a start, or a stop that returns.
  pub data Calls : Lifecycle S → Lifecycle S → Type 0 where
    no_calls : (r : Lifecycle S) → Calls r r
    call_start : (r r' : Lifecycle S) → Calls r r' → Calls r ((start r').0)
    call_stop :
        (r r' r'' : Lifecycle S) (ending : Ending S)
        → Calls r r'
        → stop ending r' ≡ Option.some r''
        → Calls r r''

  unfoldable pub starts_again : ℕ → Lifecycle S → Lifecycle S
  starts_again zero r = r
  starts_again (suc n) r = starts_again n (start r).0

  start_while_on : (r : Lifecycle S) → r.reader_should_run ≡ true → start r ≡ (r, true)
  unfolding start
  start_while_on r on = rw on refl

  starts_while_on : (n : ℕ) (r : Lifecycle S) → r.reader_should_run ≡ true → starts_again n r ≡ r
  unfolding starts_again
  starts_while_on zero r on = refl
  starts_while_on (suc n) r on =
      ap (λ (x : Lifecycle S × Bool). starts_again n (x.0)) (start_while_on r on)
      ∙ starts_while_on n r on

  -- After a start that failed to connect, where no thread was made yet, every further start up to
  -- the next stop reports success, and changes nothing: no thread is made and no connection tried.
  pub start_after_failure :
      (n : ℕ) (r : Lifecycle S)
      → r.reader_should_run ≡ false
      → r.main_reader_thread ≡ no_thread
      → (start r).1 ≡ false
      → let failed = (start r).0 in
        ((start (starts_again n failed)).1 ≡ true)
        × ((start (starts_again n failed)).0 ≡ failed)
        × (failed.main_reader_thread ≡ no_thread)
  unfolding start
  start_after_failure n r idle unmade failed =
      let r' = (start r).0 in
      let on : r'.reader_should_run ≡ true = rw idle refl in
      let none : r'.main_reader_thread ≡ no_thread = ground arith in
      let same = starts_while_on n r' on in
      rw same (ap (λ x. x.1) (start_while_on r' on), ap (λ x. x.0) (start_while_on r' on), none)

  joined_kept :
      (r r' : Lifecycle S)
      → Calls r r'
      → r.main_reader_thread ≡ joined
      → r'.main_reader_thread ≡ joined
  unfolding start stop join
  joined_kept _ _ (no_calls r) spent = spent
  joined_kept _ _ (call_start r r' calls) spent =
      let h = joined_kept r r' calls spent in ground (arith, h)
  joined_kept _ _ (call_stop r r' r'' ending calls e) spent =
      let h = joined_kept r r' calls spent in ground (arith, h, e)

  -- Once a reader whose main thread runs was stopped, whatever the joined threads did until their
  -- end, no sequence of starts and of stops that return makes or runs a main thread again.
  pub restart_runs_nothing :
      (r stopped r' : Lifecycle S) (ending : Ending S)
      → r.reader_should_run ≡ true
      → r.main_reader_thread ≡ running
      → stop ending r ≡ Option.some stopped
      → Calls stopped r'
      → r'.main_reader_thread ≡ joined
  unfolding stop join
  restart_runs_nothing r stopped r' ending on run e calls =
      joined_kept stopped r' calls (ground (arith, e))
