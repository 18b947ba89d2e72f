-- ===== src/Lib.antt =====
-- MoreModbus polls Modbus devices. An application describes the values of a device by register
-- mappings; the library groups the mappings of adjacent registers, reads each group in one call of
-- libmodbus, hands the values to the mappings, which filter them, and tells the application of those
-- that changed. In the other direction it writes mappings to the device.
--
-- The parts, and the files that model them (paths from the root of the repository):
-- - more_modbus/utilities/DataParsers.{h,cpp}: DataParsers, with Words (16 and 32 bits), Text
--   (strings) and BitSet. `uint32ToRegisters` is `uint32_to_registers`, and so on. A string is the
--   list of its bytes, and a `float` the number of its bit pattern.
-- - more_modbus/RegisterMapping.{h,cpp}: RegisterMapping (the record and its getters), with Parsing
--   (the names of the enumerations), Constructors, Update (doesUpdate, update, deadbandFilter),
--   Deadband and WellFormed (proofs). Overloads have names of their own: `doesUpdate` is
--   `does_update_values` and `does_update_bool`. A `double` is the parameter `Double`.
-- - more_modbus/mappings/*.cpp: Mappings, with Constructors and the proofs of RoundTrip and
--   Defaults. The derived class of a mapping and its member are the field `typed`; the virtual
--   `update` and `writeValue` go by it.
-- - more_modbus/RegisterGroup.{h,cpp}: RegisterGroup, with Claims; Layout, Count, Append, Keys,
--   Joining, Adding and AddingBits are about groups whose claims are blocks of adjacent registers,
--   and Copying, with Order, Claims and Mappings, about the copy constructor. Mappings are shared
--   objects: they live in a heap, a function from numbers to mappings, and groups hold numbers.
-- - more_modbus/modbus/ModbusGroupReader.cpp: ModbusGroupReader (passValuesToGroup), with Reading
--   (readGroup) and the proofs of TextOrder, Counts, Blocks, Memory and Changes. What the device's
--   callbacks are told is a list of notices.
-- - more_modbus/ModbusDevice.{h,cpp}: ModbusDevice (createGroups), with Rewritable (the mappings to
--   rewrite, and RegisterMapping::setRepeatedWrite) and its proof Tracked. Shape, Opening, Growing,
--   Taking and Restricting are about one mapping and its group; Membership, Invariant, Readable,
--   Restricted and Placing are about the loop, Order and Sorting about the set that it goes over,
--   and Creating about both. Copying is the copy constructor, and Callbacks what a device tells the
--   application.
-- - more_modbus/modbus/ModbusMappingReader.cpp: ModbusMappingReader, with Agreement.
-- - more_modbus/modbus/ModbusClient.{h,cpp} and the two libmodbus clients: ModbusClient, with
--   Connection and Buffers. Serial is LibModbusSerialRtuClient, the client on a serial line, with
--   Pauses; its sleep is an action on the line. libmodbus itself is the parameter `LibModbus`, a
--   state with the functions that the client calls; IsLibModbus says what is documented of their
--   results.
-- - more_modbus/ModbusReader.{h,cpp}: ModbusReader (writeMapping, writeBitMapping), with BitWrite,
--   Writes, Lifecycle (start and stop), Status (a turn of readDevice, the status of a device),
--   Rewrite (a turn of rewriteDevice), Run (the main thread's loop as a step relation, with
--   Invariant and Backoff), Stopping (stop while that loop reconnects), Threads (the threads of all devices and the application's calls as they
--   take turns, with Counts, Inside, Forced, Ownership, Isolation and Reads) and Dispatch
--   (addDevice, and RegisterMapping::writeValue, which goes over group and device to the reader,
--   with Adding and EndToEnd).
-- - Prelude holds the types and lemmas that the parts share, and Examples applies the theorems to
--   concrete states.
--
-- Conventions. `uint8_t`, `uint16_t` and `uint32_t` are natural numbers with the reduction modulo 2^w
-- written out, signed types are integers with the conversion written out. An exception is an error
-- of `Result`; `undefined` stands for undefined behaviour, such as an index out of range of a vector.
-- The clock is the argument `now`. `char` is signed, `int` has 32 bits. Two definitions run on fuel: the
-- printing of decimals, whose fuel, the number itself, is shown to be enough by the theorem that what
-- is printed is read back, and the loop of connection attempts, whose fuel is one more than the
-- attempts that fail.
--
-- Not modelled: the waits of ModbusReader's threads and the objects of the devices' threads (of readDevice and
-- rewriteDevice, the turns are modelled, one group or one mapping at a time; the main thread's loop is
-- a step relation of its own), the texts of default values, the names of devices, and the log output
-- of the WolkSDK.
pub mod Prelude
pub mod DataParsers
pub mod RegisterMapping
pub mod Mappings
pub mod RegisterGroup
pub mod ModbusGroupReader
pub mod ModbusClient
pub mod ModbusMappingReader
pub mod ModbusDevice
pub mod ModbusReader
pub mod Examples
