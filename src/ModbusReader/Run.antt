-- ===== src/ModbusReader/Run.antt =====
-- more_modbus/ModbusReader.cpp: the main thread's loop `run`, as long as the reader should run.
-- The main thread changes the statuses of the devices without the mutex, so each statement of its
-- that touches one device's status is a step of its own, and so is the start of each device's
-- threads. Between any two of them the threads that were started report statuses and use the
-- client. A connection attempt and its sleep are one step, as is the copy of the statuses under
-- the mutex.
pub mod Invariant
pub mod Backoff
use more_modbus.Prelude.{
  ℕ, zero, suc, ◌+◌, ◌-◌, ◌<◌, ◌≡◌, Bool, true, false, not, ◌||◌, List, [], ◌∷◌, ◌++◌, Result, ok,
  ◌>>=◌, ltb, if◌then◌else◌, length, set, get_elem?, Option,
}
use more_modbus.ModbusGroupReader.{at}
use more_modbus.ModbusClient.{LibModbus, ModbusClient, connect, disconnect}
use more_modbus.ModbusClient.Connection.{IsConsistent}
use more_modbus.ModbusReader.Status.{DeviceStatus, report_status}

-- m_timeoutDurations, in seconds
abbrev pub timeout_durations : List ℕ
timeout_durations = 1 ∷ 5 ∷ 10 ∷ 15 ∷ 30 ∷ 60 ∷ 300 ∷ 600 ∷ 1800 ∷ 3600 ∷ []

-- Where the thread is: at the head of the loop, about to change the status of a device (`setting`
-- in the map only, then the three statements of triggerDeviceStatusUpdate), in the loop of connect,
-- about to start the threads of a device or to set its status after that, or in the sleep of a
-- turn. Devices are numbered in the order of the maps.
pub data Phase : Type 0 where
  turning connecting waiting : Phase
  setting marking noting calling : Bool → ℕ → Phase
  starting raising : ℕ → Phase

-- `slept` are the times between connection attempts so far. The threads of the first `started`
-- devices were started.
pub record MainLoop (S : Type 0) : Type 0 where
  pub client : ModbusClient S
  pub phase : Phase
  pub should_reconnect : Bool
  pub timeout_iterator : ℕ
  pub threads_running : Bool
  pub started : ℕ
  pub devices : List DeviceStatus
  pub slept : List ℕ

abbrev pub set_active : Bool → DeviceStatus → DeviceStatus
set_active status s = record s { active = status }

abbrev pub set_reported : DeviceStatus → DeviceStatus
set_reported s = record s { reported = true }

-- `device->triggerOnStatusChange(status);`
abbrev pub call_back : Bool → DeviceStatus → DeviceStatus
call_back status s = record s { told = s.told ++ (status ∷ []) }

unfoldable pub at_device : (DeviceStatus → DeviceStatus) → ℕ → List DeviceStatus → List DeviceStatus
at_device f i [] = []
at_device f zero (s ∷ rest) = f s ∷ rest
at_device f (suc i) (s ∷ rest) = s ∷ at_device f i rest

unfoldable pub next_timeout : ℕ → ℕ
next_timeout i = if ltb i (length timeout_durations - 1) then i + 1 else i

unfoldable pub any_active : List DeviceStatus → Bool
any_active [] = false
any_active (s ∷ rest) = s.active || any_active rest

-- addDevice: each device is not active, and has not been told.
abbrev pub untold_devices : ℕ → List DeviceStatus
untold_devices zero = []
untold_devices (suc n) = record { active = false; reported = false; told = [] } ∷ untold_devices n

-- The state in which `run` starts: nothing was told to the devices that were added.
abbrev pub first_turn : {S : Type 0} → ModbusClient S → ℕ → MainLoop S
first_turn c devices = record {
  client = c;
  phase = turning;
  should_reconnect = false;
  timeout_iterator = 0;
  threads_running = false;
  started = 0;
  devices = untold_devices devices;
  slept = [];
}

module _ {S : Type 0} ⦃l : LibModbus S⦄ where
  -- One pass of `while (!m_modbusClient.connect())`, or what follows that loop.
  unfoldable pub attempt_connection : MainLoop S → Result (MainLoop S)
  unfolding next_timeout
  attempt_connection r =
      let connection = connect r.client in
      let failed = (do
        seconds ← at timeout_durations r.timeout_iterator
        ok (record r {
          client = connection.0;
          timeout_iterator = next_timeout r.timeout_iterator;
          slept = r.slept ++ (seconds ∷ []);
        })) in
      if connection.1
      then ok (record r {
        client = connection.0;
        phase = setting true 0;
        should_reconnect = false;
        timeout_iterator = 0;
      })
      else failed

  -- The head of a turn.
  unfoldable pub turn : MainLoop S → MainLoop S
  turn r =
      if r.should_reconnect
      then record r { phase = setting false 0; should_reconnect = false }
      else if not r.client.connected
      then record r { phase = turning; should_reconnect = true }
      else if r.threads_running
      then record r { phase = waiting }
      else record r { phase = starting 0 }

  -- `f` is done to the device `k`, as long as there is one; the thread is at `next` then, or else
  -- goes on with `after`.
  unfoldable pub each :
      (DeviceStatus → DeviceStatus) → ℕ → Phase → MainLoop S → MainLoop S → MainLoop S
  each f k next after r =
      if ltb k (length r.devices)
      then record r { phase = next; devices = at_device f k r.devices }
      else after

  -- After all devices were told the status: the client disconnects before the attempts.
  unfoldable pub told_all : Bool → MainLoop S → MainLoop S
  told_all true r = record r { phase = turning }
  told_all false r = record r { client = disconnect r.client; phase = connecting }

  -- The threads of the device `k` are started, unless it is past the last.
  unfoldable pub start_threads : ℕ → MainLoop S → MainLoop S
  start_threads k r =
      if ltb k (length r.devices)
      then record r { phase = raising k; started = suc k }
      else record r { phase = waiting; threads_running = true }

  -- The rest of the turn.
  unfoldable pub end_turn : MainLoop S → MainLoop S
  end_turn r = record r {
    phase = turning;
    should_reconnect = if any_active r.devices then r.should_reconnect else true;
  }

  -- The next step of the main thread.
  unfoldable pub advance_from : Phase → MainLoop S → Result (MainLoop S)
  advance_from turning r = ok (turn r)
  advance_from connecting r = attempt_connection r
  advance_from waiting r = ok (end_turn r)
  advance_from (setting b k) r =
      ok (each (set_active b) k (setting b (suc k)) (record r { phase = marking b 0 }) r)
  advance_from (marking b k) r = ok (each (set_active b) k (calling b k) (told_all b r) r)
  advance_from (calling b k) r = ok (each (call_back b) k (noting b k) (told_all b r) r)
  advance_from (noting b k) r = ok (each set_reported k (marking b (suc k)) (told_all b r) r)
  advance_from (starting k) r = ok (start_threads k r)
  advance_from (raising k) r =
      ok (each (set_active true) k (starting (suc k)) (record r { phase = starting (suc k) }) r)

  unfoldable pub advance : MainLoop S → Result (MainLoop S)
  advance r = advance_from r.phase r

  -- What happens while the reader runs: the main thread's steps, and, of the devices whose threads
  -- were started, reports of a status, each under the mutex, and calls through the client.
  pub data Step : MainLoop S → MainLoop S → Type 0 where
    main : (r r' : MainLoop S) → advance r ≡ ok r' → Step r r'
    report :
        (r : MainLoop S) (i : ℕ) (status : Bool)
        → i < r.started
        → Step r (record r { devices = at_device (λ s. report_status s status) i r.devices })
    traffic :
        (r : MainLoop S) (i : ℕ) (lib : S)
        → i < r.started
        → Step r (record r { client = record r.client { lib = lib } })

  pub data Reachable : MainLoop S → Type 0 where
    first : (c : ModbusClient S) (devices : ℕ) → IsConsistent c → Reachable (first_turn c devices)
    step : (r r' : MainLoop S) → Reachable r → Step r r' → Reachable r'

  -- The `while` of the connection attempts, of which `fuel` are allowed.
  unfoldable pub connection_attempts : ℕ → MainLoop S → Result (MainLoop S)
  connection_attempts zero r = ok r
  connection_attempts (suc fuel) r = do
    r' ← attempt_connection r
    (let rest = connection_attempts fuel r' in elim r'.phase [ connecting ↦ rest | _ ↦ ok r' ])
