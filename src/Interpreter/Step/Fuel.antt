-- ===== src/Interpreter/Step/Fuel.antt =====
-- The fuel for the prefixes of an opcode in `interpret` (src/pyjion/absint.cpp).
use pyjion.Opcode.{Opcode}
use pyjion.Interpreter.{◌>>=◌, ◌>>◌}
