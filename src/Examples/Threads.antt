-- ===== src/Examples/Threads.antt =====
-- Two devices, whose threads take turns, at concrete states.
use more_modbus.Prelude.{
  ℕ, zero, suc, ◌≡◌, refl, true, false, List, [], ◌∷◌, ok, arith, ◌>>=◌, Option, ◌+◌,
}
use more_modbus.Prelude.Int.{ℤ, pos}
use more_modbus.RegisterMapping.{holding_register, get_register_count}
use more_modbus.RegisterGroup.{RegisterGroup, starting_address}
use more_modbus.RegisterGroup.Layout.{registers, lay}
use more_modbus.ModbusClient.{LibModbus, read_holding_registers}
use more_modbus.ModbusGroupReader.Reading.{read_group}
use more_modbus.ModbusGroupReader.Memory.{pass_memory}
use more_modbus.ModbusReader.Threads.{Threads, Move, Moves, after_read, set_period}
use more_modbus.ModbusReader.Threads.Ownership.{OwnGroups, IsOwn}
use more_modbus.ModbusReader.Threads.Isolation.{SameDevice, Moves-SameDevice}
use more_modbus.ModbusReader.Threads.Reads.{Moves-read_group}
use more_modbus.Examples.{int_double, counting, disconnected, int32_sample}

-- The group of the mapping 0 of device 0, and of the mapping 1 of device 1.
abbrev group : ℕ → RegisterGroup
group i = record {
  register_type = holding_register;
  slave_address = pos i;
  read_restricted = false;
  device = Option.none;
  mappings = lay 100 (registers i 2 ∷ []);
}

abbrev groups : ℕ → List RegisterGroup
groups zero = group 0 ∷ []
groups (suc zero) = group 1 ∷ []
groups _ = []

abbrev owner : ℕ → ℕ
owner id = id

abbrev first_state : Threads ℕ ℤ
first_state = record {
  client = disconnected;
  heap = λ id. int32_sample;
  notices = [];
  devices = λ i. record { slave_address = pos i; groups = []; rewrite = []; reader = Option.none };
  status = λ i. record { active = false; reported = false; told = [] };
  reading = λ i. record { remaining = groups i; unread = 0 };
  rewriting = λ i. record { pending = []; required = 0; succeeded = 0; ended = false };
}

-- A client on whose line no slave can be set.
abbrev deaf : LibModbus ℕ
deaf = record counting { modbus_set_slave = λ slave s. (s + 1, false) }

own_groups : (i : ℕ) → OwnGroups owner i (groups i)
own_groups zero = ((refl, (refl, tt)), tt)
own_groups (suc zero) = ((refl, (refl, tt)), tt)
own_groups (suc (suc i)) = tt

first-IsOwn : (i : ℕ) → IsOwn owner i first_state
first-IsOwn i = record { remaining = own_groups i; pending = tt; rewrite = tt }

-- Device 0 starts to rewrite its mapping, and fails to read its group.
abbrev second_state : Threads ℕ ℤ
second_state = set_period first_state 0 0 (pos 50)

abbrev third_state : Threads ℕ ℤ
third_state =
    after_read second_state 0 [] (record disconnected { lib = 1 })
      (second_state.heap, second_state.notices) false

failed_read :
    read_group ⦃l = deaf⦄ ⦃d = int_double⦄
      (pos 9)
      (group 0)
      second_state.client
      (second_state.heap, second_state.notices)
    ≡ ok (record disconnected { lib = 1 }, (second_state.heap, second_state.notices), false)
unfolding read_group starting_address read_holding_registers set_period
failed_read = refl

moves : Moves ⦃l = deaf⦄ ⦃d = int_double⦄ groups owner (0 ∷ 0 ∷ []) first_state third_state
unfolding set_period
moves =
    Moves.go 0 (0 ∷ []) first_state second_state third_state
      (Move.set_interval 0 first_state 0 (pos 50) refl)
      (Moves.go 0 [] second_state third_state third_state
        (Move.read 0 second_state (pos 9) (group 0) [] (record disconnected { lib = 1 })
          (second_state.heap, second_state.notices) false refl failed_read)
        (Moves.stay third_state))

Moves-SameDevice_example :
    SameDevice ⦃l = deaf⦄ ⦃d = int_double⦄ groups owner 1 first_state third_state
    × ((id : ℕ) → owner id ≡ 1 → third_state.heap id ≡ first_state.heap id)
Moves-SameDevice_example =
    Moves-SameDevice ⦃l = deaf⦄ ⦃d = int_double⦄ groups owner own_groups (0 ∷ 0 ∷ []) first_state
      third_state 1 moves first-IsOwn (refl, (refl, tt))

Moves-read_group_example :
    read_group ⦃l = counting⦄ ⦃d = int_double⦄
      (pos 9)
      (group 1)
      second_state.client
      (second_state.heap, second_state.notices)
    ≡ (pass_memory ⦃d = int_double⦄
          (pos 9)
          Option.none
          (λ address. 1)
          100
          (registers 1 2 ∷ [])
          (second_state.heap, second_state.notices)
        >>= λ p'. ok (record disconnected { lib = 2 }, p', true))
unfolding get_register_count set_period
Moves-read_group_example =
    Moves-read_group ⦃l = counting⦄ ⦃d = int_double⦄ groups owner (0 ∷ []) first_state second_state
      (pos 9) (group 1) (λ address. 1) 100 (registers 1 2) [] own_groups first-IsOwn
      (Moves.go 0 [] first_state second_state second_state
        (Move.set_interval 0 first_state 0 (pos 50) refl) (Moves.stay second_state))
      refl ((omega arith, refl), tt) (omega arith) refl refl refl
