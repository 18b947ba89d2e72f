-- ===== src/RegisterMapping/Parsing.antt =====
-- more_modbus/RegisterMapping.cpp: registerTypeFromString, outputTypeFromString and
-- operationTypeFromString. `toupper` is that of the "C" locale.
use Prim.Native.String.{String}
use Prim.Native.Char.{code}
use more_modbus.Prelude.{
  ℕ, ◌-◌, ◌≡◌, refl, Bool, true, false, ◌&&◌, ◌||◌, List, [], ◌∷◌, map, Result, ok, err,
  runtime_error, arith, leb, ◌==◌, if◌then◌else◌, ap, ◌∙◌, ap, ◌↔◌, ◌⊎◌, inl, inr,
}
use more_modbus.RegisterMapping.{RegisterType, OutputType, OperationType}

-- The bytes of an ASCII text.
abbrev pub codes : String → List ℕ
codes String.[] = []
codes (String.◌∷◌ c s) = code c ∷ codes s

unfoldable pub to_upper : ℕ → ℕ
to_upper c = if leb b'a' c && leb c b'z' then c - 32 else c

pub same_text : List ℕ → List ℕ → Bool
same_text [] [] = true
same_text [] (d ∷ ds) = false
same_text (c ∷ cs) [] = false
same_text (c ∷ cs) (d ∷ ds) = c == d && same_text cs ds

register_type_of : List ℕ → Result RegisterType
register_type_of value =
    if same_text value (codes "COIL")
    then ok RegisterType.coil
    else if same_text value (codes "INPUT_CONTACT")
    then ok RegisterType.input_contact
    else if same_text value (codes "HOLDING_REGISTER")
    then ok RegisterType.holding_register
    else if same_text value (codes "INPUT_REGISTER")
    then ok RegisterType.input_register
    else err runtime_error

unfoldable pub register_type_from_string : List ℕ → Result RegisterType
unfolding register_type_of to_upper same_text
register_type_from_string value = register_type_of (map to_upper value)

output_type_of : List ℕ → Result OutputType
output_type_of value =
    if same_text value (codes "BOOL")
    then ok OutputType.bool
    else if same_text value (codes "UINT16")
    then ok OutputType.uint16
    else if same_text value (codes "INT16")
    then ok OutputType.int16
    else if same_text value (codes "UINT32")
    then ok OutputType.uint32
    else if same_text value (codes "INT32")
    then ok OutputType.int32
    else if same_text value (codes "FLOAT")
    then ok OutputType.float
    else if same_text value (codes "STRING")
    then ok OutputType.string
    else err runtime_error

unfoldable pub output_type_from_string : List ℕ → Result OutputType
unfolding output_type_of to_upper same_text
output_type_from_string value = output_type_of (map to_upper value)

operation_type_of : List ℕ → Result OperationType
operation_type_of value =
    if same_text value [] || same_text value (codes "NONE")
    then ok OperationType.none
    else if same_text value (codes "MERGE_BIG_ENDIAN")
    then ok OperationType.merge_big_endian
    else if same_text value (codes "MERGE_LITTLE_ENDIAN")
    then ok OperationType.merge_little_endian
    else if same_text value (codes "MERGE_FLOAT_BIG_ENDIAN")
        || same_text value (codes "MERGE_FLOAT")
    then ok OperationType.merge_float_big_endian
    else if same_text value (codes "MERGE_FLOAT_LITTLE_ENDIAN")
    then ok OperationType.merge_float_little_endian
    else if same_text value (codes "STRINGIFY_ASCII")
        || same_text value (codes "STRINGIFY_ASCII_BIG_ENDIAN")
    then ok OperationType.stringify_ascii_big_endian
    else if same_text value (codes "STRINGIFY_ASCII_LITTLE_ENDIAN")
    then ok OperationType.stringify_ascii_little_endian
    else if same_text value (codes "STRINGIFY_UNICODE")
        || same_text value (codes "STRINGIFY_UNICODE_BIG_ENDIAN")
    then ok OperationType.stringify_unicode_big_endian
    else if same_text value (codes "STRINGIFY_UNICODE_LITTLE_ENDIAN")
    then ok OperationType.stringify_unicode_little_endian
    else if same_text value (codes "TAKE_BIT")
    then ok OperationType.take_bit
    else err runtime_error

unfoldable pub operation_type_from_string : List ℕ → Result OperationType
unfolding operation_type_of to_upper same_text
operation_type_from_string value = operation_type_of (map to_upper value)

to_upper-to_upper : (c : ℕ) → to_upper (to_upper c) ≡ to_upper c
unfolding to_upper
to_upper-to_upper c = ground arith

map-to_upper : (s : List ℕ) → map to_upper (map to_upper s) ≡ map to_upper s
map-to_upper [] = refl
map-to_upper (c ∷ s) = rw (to_upper-to_upper c, map-to_upper s)

pub eq_of_same_text : (s t : List ℕ) → same_text s t ≡ true → s ≡ t
unfolding same_text
eq_of_same_text [] [] h = refl
eq_of_same_text [] (d ∷ t) h = cc
eq_of_same_text (c ∷ s) [] h = cc
eq_of_same_text (c ∷ s) (d ∷ t) h = ground (arith, eq_of_same_text s t)

-- The name under which each register type is read.
abbrev pub register_type_name : RegisterType → List ℕ
register_type_name RegisterType.coil = codes "COIL"
register_type_name RegisterType.input_contact = codes "INPUT_CONTACT"
register_type_name RegisterType.holding_register = codes "HOLDING_REGISTER"
register_type_name RegisterType.input_register = codes "INPUT_REGISTER"

abbrev pub output_type_name : OutputType → List ℕ
output_type_name OutputType.bool = codes "BOOL"
output_type_name OutputType.uint16 = codes "UINT16"
output_type_name OutputType.int16 = codes "INT16"
output_type_name OutputType.uint32 = codes "UINT32"
output_type_name OutputType.int32 = codes "INT32"
output_type_name OutputType.float = codes "FLOAT"
output_type_name OutputType.string = codes "STRING"

register_type_of_sound :
    (s : List ℕ) (t : RegisterType) → register_type_of s ≡ ok t → s ≡ register_type_name t
unfolding register_type_of
register_type_of_sound s t h = ground (
  arith,
  eq_of_same_text s (codes "COIL"),
  eq_of_same_text s (codes "INPUT_CONTACT"),
  eq_of_same_text s (codes "HOLDING_REGISTER"),
  eq_of_same_text s (codes "INPUT_REGISTER"),
)

register_type_of_name : (t : RegisterType) → register_type_of (register_type_name t) ≡ ok t
unfolding register_type_of same_text
register_type_of_name RegisterType.coil = refl
register_type_of_name RegisterType.input_contact = refl
register_type_of_name RegisterType.holding_register = refl
register_type_of_name RegisterType.input_register = refl

-- A text is read as a register type exactly when it is that type's name in any mixture of cases.
pub register_type_from_string_iff :
    (s : List ℕ) (t : RegisterType)
    → (register_type_from_string s ≡ ok t) ↔ (map to_upper s ≡ register_type_name t)
unfolding register_type_from_string
register_type_from_string_iff s t = (
  register_type_of_sound (map to_upper s) t,
  λ e. ap register_type_of e ∙ register_type_of_name t,
)

output_type_of_sound :
    (s : List ℕ) (t : OutputType) → output_type_of s ≡ ok t → s ≡ output_type_name t
unfolding output_type_of
output_type_of_sound s t h = ground (
  arith,
  eq_of_same_text s (codes "BOOL"),
  eq_of_same_text s (codes "UINT16"),
  eq_of_same_text s (codes "INT16"),
  eq_of_same_text s (codes "UINT32"),
  eq_of_same_text s (codes "INT32"),
  eq_of_same_text s (codes "FLOAT"),
  eq_of_same_text s (codes "STRING"),
)

output_type_of_name : (t : OutputType) → output_type_of (output_type_name t) ≡ ok t
unfolding output_type_of same_text
output_type_of_name OutputType.bool = refl
output_type_of_name OutputType.uint16 = refl
output_type_of_name OutputType.int16 = refl
output_type_of_name OutputType.uint32 = refl
output_type_of_name OutputType.int32 = refl
output_type_of_name OutputType.float = refl
output_type_of_name OutputType.string = refl

-- A text is read as an output type exactly when it is that type's name in any mixture of cases.
pub output_type_from_string_iff :
    (s : List ℕ) (t : OutputType)
    → (output_type_from_string s ≡ ok t) ↔ (map to_upper s ≡ output_type_name t)
unfolding output_type_from_string
output_type_from_string_iff s t =
    (output_type_of_sound (map to_upper s) t, λ e. ap output_type_of e ∙ output_type_of_name t)

-- The names of an operation, the short ones included.
abbrev pub IsOperationName : OperationType → List ℕ → Type 0
IsOperationName OperationType.none s = (s ≡ []) ⊎ (s ≡ codes "NONE")
IsOperationName OperationType.merge_big_endian s = s ≡ codes "MERGE_BIG_ENDIAN"
IsOperationName OperationType.merge_little_endian s = s ≡ codes "MERGE_LITTLE_ENDIAN"
IsOperationName OperationType.merge_float_big_endian s =
    (s ≡ codes "MERGE_FLOAT_BIG_ENDIAN") ⊎ (s ≡ codes "MERGE_FLOAT")
IsOperationName OperationType.merge_float_little_endian s = s ≡ codes "MERGE_FLOAT_LITTLE_ENDIAN"
IsOperationName OperationType.stringify_ascii_big_endian s =
    (s ≡ codes "STRINGIFY_ASCII") ⊎ (s ≡ codes "STRINGIFY_ASCII_BIG_ENDIAN")
IsOperationName OperationType.stringify_ascii_little_endian s =
    s ≡ codes "STRINGIFY_ASCII_LITTLE_ENDIAN"
IsOperationName OperationType.stringify_unicode_big_endian s =
    (s ≡ codes "STRINGIFY_UNICODE") ⊎ (s ≡ codes "STRINGIFY_UNICODE_BIG_ENDIAN")
IsOperationName OperationType.stringify_unicode_little_endian s =
    s ≡ codes "STRINGIFY_UNICODE_LITTLE_ENDIAN"
IsOperationName OperationType.take_bit s = s ≡ codes "TAKE_BIT"

operation_type_of_sound :
    (s : List ℕ) (t : OperationType) → operation_type_of s ≡ ok t → IsOperationName t s
unfolding operation_type_of
operation_type_of_sound s t h = ground (
  arith,
  eq_of_same_text s [],
  eq_of_same_text s (codes "NONE"),
  eq_of_same_text s (codes "MERGE_BIG_ENDIAN"),
  eq_of_same_text s (codes "MERGE_LITTLE_ENDIAN"),
  eq_of_same_text s (codes "MERGE_FLOAT_BIG_ENDIAN"),
  eq_of_same_text s (codes "MERGE_FLOAT"),
  eq_of_same_text s (codes "MERGE_FLOAT_LITTLE_ENDIAN"),
  eq_of_same_text s (codes "STRINGIFY_ASCII"),
  eq_of_same_text s (codes "STRINGIFY_ASCII_BIG_ENDIAN"),
  eq_of_same_text s (codes "STRINGIFY_ASCII_LITTLE_ENDIAN"),
  eq_of_same_text s (codes "STRINGIFY_UNICODE"),
  eq_of_same_text s (codes "STRINGIFY_UNICODE_BIG_ENDIAN"),
  eq_of_same_text s (codes "STRINGIFY_UNICODE_LITTLE_ENDIAN"),
  eq_of_same_text s (codes "TAKE_BIT"),
)

operation_type_of_name :
    (s : List ℕ) (t : OperationType) → IsOperationName t s → operation_type_of s ≡ ok t
unfolding operation_type_of same_text
operation_type_of_name s OperationType.none (inl e) = rw e
operation_type_of_name s OperationType.none (inr e) = rw e
operation_type_of_name s OperationType.merge_big_endian e = rw e
operation_type_of_name s OperationType.merge_little_endian e = rw e
operation_type_of_name s OperationType.merge_float_big_endian (inl e) = rw e
operation_type_of_name s OperationType.merge_float_big_endian (inr e) = rw e
operation_type_of_name s OperationType.merge_float_little_endian e = rw e
operation_type_of_name s OperationType.stringify_ascii_big_endian (inl e) = rw e
operation_type_of_name s OperationType.stringify_ascii_big_endian (inr e) = rw e
operation_type_of_name s OperationType.stringify_ascii_little_endian e = rw e
operation_type_of_name s OperationType.stringify_unicode_big_endian (inl e) = rw e
operation_type_of_name s OperationType.stringify_unicode_big_endian (inr e) = rw e
operation_type_of_name s OperationType.stringify_unicode_little_endian e = rw e
operation_type_of_name s OperationType.take_bit e = rw e

-- A text is read as an operation exactly when it is one of that operation's names in any mixture of
-- cases; the empty text is read as NONE.
pub operation_type_from_string_iff :
    (s : List ℕ) (t : OperationType)
    → (operation_type_from_string s ≡ ok t) ↔ IsOperationName t (map to_upper s)
unfolding operation_type_from_string
operation_type_from_string_iff s t =
    (operation_type_of_sound (map to_upper s) t, operation_type_of_name (map to_upper s) t)

pub same_text_refl : (s : List ℕ) → same_text s s ≡ true
unfolding same_text
same_text_refl [] = refl
same_text_refl (c ∷ s) = ground (arith, same_text_refl s)
