-- ===== src/ModbusReader/Status/Reports.antt =====
-- What the callback of a device is told of its status.
use more_modbus.Prelude.{
  ◌≡◌, refl, sym, ap, ◌∙◌, Bool, true, false, not, ◌||◌, List, [], ◌∷◌, ◌++◌, if◌then◌else◌, arith,
  Bool-cases, inl, inr,
}
use mathlib.Core.List.{append_assoc, append-nil}
use more_modbus.RegisterMapping.Update.{differs_bool}
use more_modbus.ModbusReader.Status.{DeviceStatus, report_status, report_all}

-- A list without the values that repeat the one before them.
abbrev pub changes_from : Bool → List Bool → List Bool
changes_from last [] = []
changes_from last (x ∷ rest) =
    if differs_bool last x then x ∷ changes_from x rest else changes_from last rest

abbrev pub changes : List Bool → List Bool
changes [] = []
changes (x ∷ rest) = x ∷ changes_from x rest

told_again : DeviceStatus → Bool → DeviceStatus
told_again s x = record s { active = x; reported = true; told = s.told ++ (x ∷ []) }

report_new :
    (s : DeviceStatus) (x : Bool)
    → (differs_bool s.active x || not s.reported) ≡ true
    → report_status s x ≡ told_again s x
unfolding report_status told_again
report_new s x e = rw e refl

report_same :
    (s : DeviceStatus) (x : Bool)
    → (differs_bool s.active x || not s.reported) ≡ false
    → report_status s x ≡ s
unfolding report_status
report_same s x e = rw e refl

report_all_from :
    (s : DeviceStatus) (statuses : List Bool)
    → s.reported ≡ true
    → (report_all s statuses).told ≡ s.told ++ changes_from s.active statuses
unfolding report_all told_again
report_all_from s [] on = sym (append-nil s.told)
report_all_from s (x ∷ rest) on = elim (Bool-cases (differs_bool s.active x)) [
  | inl e ↦
      ap (λ t. (report_all t rest).told) (report_new s x (ground arith))
      ∙ report_all_from (told_again s x) rest refl
      ∙ append_assoc s.told (x ∷ []) (changes_from x rest)
      ∙ ap (λ t. s.told ++ t) (rw e refl)
  | inr e ↦
      ap (λ t. (report_all t rest).told) (report_same s x (ground arith))
      ∙ report_all_from s rest on
      ∙ ap (λ t. s.told ++ t) (rw e refl)
]

-- Whatever statuses are reported in turn of a device for which none was reported before, its
-- callback is told the first of them, and after that exactly the changes.
pub report_all_lem :
    (s : DeviceStatus) (statuses : List Bool)
    → s.reported ≡ false
    → (report_all s statuses).told ≡ s.told ++ changes statuses
unfolding report_all told_again
report_all_lem s [] new = sym (append-nil s.told)
report_all_lem s (x ∷ rest) new =
    ap (λ t. (report_all t rest).told) (report_new s x (ground arith))
    ∙ report_all_from (told_again s x) rest refl
    ∙ append_assoc s.told (x ∷ []) (changes_from x rest)
