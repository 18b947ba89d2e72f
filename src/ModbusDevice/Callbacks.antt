-- ===== src/ModbusDevice/Callbacks.antt =====
-- The callbacks of more_modbus/ModbusDevice.cpp: actions on the application's state, each of which
-- may be missing.
use more_modbus.Prelude.{ℕ, ◌≡◌, sym, ◌∙◌, Bool, List, [], ◌∷◌, ◌++◌, Option}
use mathlib.Core.List.{append_assoc, append-nil}
use more_modbus.ModbusGroupReader.{Notice, bool_changed, values_changed}

pub record Callbacks (W : Type 0) : Type 0 where
  pub on_mapping_value_change_bool : Option (ℕ → Bool → W → W)
  pub on_mapping_value_change_bytes : Option (ℕ → List ℕ → W → W)
  pub on_status_change : Option (Bool → W → W)
  pub status : Bool

module _ {W : Type 0} where
  -- The two setOnMappingValueChange, and setOnStatusChange.
  pub set_on_bool_change : Callbacks W → (ℕ → Bool → W → W) → Callbacks W
  set_on_bool_change c f = record c { on_mapping_value_change_bool = Option.some f }

  pub set_on_bytes_change : Callbacks W → (ℕ → List ℕ → W → W) → Callbacks W
  set_on_bytes_change c f = record c { on_mapping_value_change_bytes = Option.some f }

  pub set_on_status_change : Callbacks W → (Bool → W → W) → Callbacks W
  set_on_status_change c f = record c { on_status_change = Option.some f }

  -- triggerOnMappingValueChange
  pub trigger_on_bytes_change : Callbacks W → ℕ → List ℕ → W → W
  trigger_on_bytes_change c id value w = elim c.on_mapping_value_change_bytes [
    | Option.none ↦ w
    | Option.some f ↦ f id value w
  ]

  pub trigger_on_bool_change : Callbacks W → ℕ → Bool → W → W
  trigger_on_bool_change c id value w = elim c.on_mapping_value_change_bool [
    | Option.none ↦ w
    | Option.some f ↦ f id value w
  ]

  -- triggerOnStatusChange, which keeps the status after the callback has run.
  pub trigger_on_status_change : Callbacks W → Bool → W → Callbacks W × W
  trigger_on_status_change c status w = (
    record c { status = status },
    elim c.on_status_change [ Option.none ↦ w | Option.some f ↦ f status w ],
  )

  -- Notices as calls of the device, in their order.
  pub deliver : Callbacks W → List Notice → W → W
  unfolding trigger_on_bytes_change trigger_on_bool_change
  deliver c [] w = w
  deliver c (bool_changed id value ∷ rest) w = deliver c rest (trigger_on_bool_change c id value w)
  deliver c (values_changed id values ∷ rest) w =
      deliver c rest (trigger_on_bytes_change c id values w)

-- Callbacks that note what they are told.
abbrev pub noting : Callbacks (List Notice) → Callbacks (List Notice)
noting c =
    set_on_bool_change (set_on_bytes_change c (λ id values w. w ++ (values_changed id values ∷ [])))
      (λ id value w. w ++ (bool_changed id value ∷ []))

-- An application that notes what the callbacks for values are told has all notices noted in their
-- order.
pub deliver-noting :
    (c : Callbacks (List Notice)) (notices noted : List Notice)
    → deliver (noting c) notices noted ≡ noted ++ notices
unfolding deliver set_on_bool_change set_on_bytes_change
deliver-noting c [] noted = sym (append-nil noted)
deliver-noting c (bool_changed id value ∷ rest) noted =
    deliver-noting c rest (noted ++ (bool_changed id value ∷ []))
    ∙ append_assoc noted (bool_changed id value ∷ []) rest
deliver-noting c (values_changed id values ∷ rest) noted =
    deliver-noting c rest (noted ++ (values_changed id values ∷ []))
    ∙ append_assoc noted (values_changed id values ∷ []) rest
