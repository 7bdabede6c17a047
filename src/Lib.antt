-- ===== src/Lib.antt =====
-- A model of SOFT-PLC, a software PLC in C++, and the theorems about it.
--
-- The program runs a scan cycle: an I/O driver copies inputs into a store of typed tags, the
-- interpreter of a Structured Text program reads and writes tags, and the driver takes the outputs.
--
-- - Tags/Value: the elementary types, values and addresses (include/softplc/tags/value.hpp, tag.hpp,
--   src/tags/value.cpp). A BYTE is a number below 256, INT, DINT and TIME are integers with a
--   predicate for their range, REAL and LREAL are the bit patterns of their floats.
-- - Tags/Store: TagStore (src/tags/tag_store.cpp). Each method holds the store's lock for its whole
--   run, so it is one function on the store. Its children state the invariant and the effects.
-- - St/Fpu: floating-point arithmetic, which the program takes from the machine. It is a parameter of
--   the model, and `FpuLaws` is what the theorems rely on: exactness on integers that a double holds.
-- - St/Ops: the operators and conversions on values (include/softplc/st/value_ops.hpp).
-- - St/Token, St/Scan, St/Literals, St/Lexer: tokens (include/softplc/st/token.hpp) and the lexer (src/st/lexer.cpp).
--   The text from pos_ on is the state's rest. Each token and gap takes some of it, so the length of the
--   text bounds the loops. Signed overflow in a TIME literal wraps around. std::stod is a parameter.
-- - St/Parsing, St/Parser: the parser (src/st/parser.cpp): Parsing has the state and the steps on tokens,
--   Parser the expressions, and its children statements and units. A statement takes a token and a loop
--   one each time round, so the number of tokens ahead bounds loops and nesting.
-- - St/StandardFbs, St/Program: the library of timers and counters (include/softplc/st/standard_fbs.hpp),
--   and StProgram (src/st/st_program.cpp), which loads a text through lexer, parser and binder.
-- - St/Ast, St/Interp: the syntax tree (include/softplc/st/ast.hpp) and the interpreter
--   (src/st/interpreter.cpp). Statements change the store and may throw, which `Exec` models; what was
--   written before a throw stays. The loop limit of WHILE is the source's own. Calls between frames
--   run on a depth, since a frame is found by its index. A frame that binding makes calls only frames
--   before it, so a depth beyond the number of frames is never used up.
-- - St/Scope, St/Binder: the binder (src/st/pou_binder.cpp): Scope has the context and what copies nothing,
--   Binder the copies of blocks and functions, Binder/Unit the compilation unit. Copies nest on a depth, the
--   number of declared types, which is enough because a type never expands inside itself.
-- - Io/Mapping: the Modbus mapping (src/io/modbus_mapping.cpp): validation, grouping, batches of
--   requests, and the coding of values in registers. A pointer to a point is its position in the
--   vector with the point itself. std::sort is an insertion sort, which keeps equal addresses in
--   order; the source leaves that order open.
-- - Io/Client: requests to a device: the client of Modbus TCP (src/io/modbus_client.cpp,
--   modbus_nmbs_error.hpp) over the socket and nanoMODBUS, which are the parameter `Nmbs`, and the
--   interface `Requests` that the pollers take.
-- - Io/Device: one polled device (src/io/modbus_tcp_driver.cpp): its construction, the copies between
--   the caches and the tags, and polling. Io/Rtu: the devices of a serial bus
--   (src/io/modbus_rtu_driver.cpp), whose code for each device is the same. The scan thread may run
--   between the steps of a poller; theorems on such orders compose the steps in that order, and
--   `poll_write_while` takes what it does to the cache while a request is on the way. Io/Device/Outcomes is
--   about what the results of reads leave in the diagnostics, Image and Values about the values that are
--   read, against the tables of the device (`Serves` says that the library reads those), Outputs, Marks
--   and Meanwhile about changes of outputs.
-- - Io/Simulated: the simulated driver (src/io/simulated_io_driver.cpp).
-- - Core/Scan: the scan cycle, its diagnostics and its schedule (src/core/scan_engine.cpp). Driver,
--   program and clock readings are parameters.
-- - Tests: concrete inputs, among them a floating-point unit that meets the laws.
-- Not modelled: code generation, the command lines and the client of a serial bus; and, since they are the
-- operating system's, starting and stopping threads, sockets, serial ports and real-time scheduling. The
-- vendored Modbus protocol library is a parameter.
pub mod Base
pub mod Tags
pub mod St
pub mod Io
pub mod Core
mod Tests
