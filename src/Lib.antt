-- ===== src/Lib.antt =====
-- A model of Pyjion (src/pyjion), the just-in-time compiler for CPython: the part that infers the
-- types of a function's values and decides which of them are held unboxed.
--
-- The compiler takes a code object. The abstract interpreter (absint.cpp) runs its bytecode over
-- abstract values (absvalue.cpp): each holds a kind and the source that it came from. From the
-- states before each opcode the instruction graph (instructions.cpp) is built: its edges lead from
-- the instruction that makes a value to the one that takes it. The passes of the graph mark
-- instructions that can work on unboxed machine values, find the locals that can be held unboxed,
-- take back marks that do not pay, and put on each edge whether its value is boxed or unboxed.
-- The compiler worker (the rest of absint.cpp, pycomp.cpp) then emits CIL for CoreCLR.
--
-- The files:
--   Prelude: shared names, tests on numbers, lists, integers, predicates on lists.
--   Kind: the kinds of abstract values (src/pyjion/absvalue.h) and of stack entries
--     (src/pyjion/stack.cpp); `AVK_BigInteger` is `avk_big_integer`, and so for the others.
--   Opcode: opcodes, `jumpsTo` (src/pyjion/instructions.h) and `supportsUnboxing` of an opcode
--     (src/pyjion/unboxing.cpp). An opcode is a constructor, since its number is CPython's.
--   Value, Source, Binary: the class hierarchies under `AbstractValue` and `AbstractSource`
--     (src/pyjion/absvalue.h, absvalue.cpp), each virtual method as one function. The children of
--     Binary hold the tables of `binary`, a function for each kind of the right operand.
--   Numbers, Inplace: those tables against Python's numeric tower, and against each other.
--   AttributeTable: the kinds of attributes that stores were seen to give
--     (src/pyjion/attrtable.cpp). AttributeTable.History is about a sequence of stores.
--   KnownMethods: the results of known functions and methods (src/pyjion/knownmethods.h and
--     `resolveMethod` in absvalue.cpp); its children hold the tables.
--   Interpreter: `AbstractInterpreter::interpret` (src/pyjion/absint.cpp). What a run reads is a
--     `Context`, its variables a `Machine`, and a handler an action from a machine to a machine or
--     a fault. Interpreter.Actions holds what the handlers are made of, Interpreter.Profiled
--     `fromPgc` and the macros for the profile, Interpreter.Shuffles, Interpreter.Operators,
--     Interpreter.Calls and Interpreter.Jumps the handlers, Interpreter.Dispatch the switch,
--     Interpreter.Step one round of the inner loop, and Interpreter.Loop both loops as steps.
--     Interpreter.Contracts is about the stack effects of the handlers, Interpreter.Safety about
--     the start states of the indices that a run comes to.
--     Interpreter.Preprocess is `preprocess`.
--   Links: the sets of linked sources that `combine` joins (src/pyjion/absvalue.h,
--     absvalue.cpp), as a store.
--     Links.Partition is about these.
--   State: the state of the stack and the locals before an opcode, and `mergeStates`
--     (src/pyjion/absint.h, absint.cpp). State.Covering, State.Order, State.Termination and
--     State.Fixpoint are about merging.
--   ValueStack, ExceptionHandling: the stack of entry kinds that the compiler keeps
--     (src/pyjion/stack.cpp) and its exception handlers (src/pyjion/exceptionhandling.cpp).
--   IlGenerator: labels and branches of the emitted code (src/pyjion/ilgen.h).
--     IlGenerator.Integers holds `ld_i4` and IlGenerator.Locals the locals; the other children are
--     about all these.
--   CodeModel: the table of methods that emitted code calls (src/pyjion/codemodel.h, codemodel.cpp).
--   Profile: what the probes of compiled code record (src/pyjion/pgc.cpp).
--   Graph: the instruction graph (src/pyjion/instructions.h, instructions.cpp). Graph.Build is the
--     constructor, Graph.Passes holds `fixInstructions` and `fixEdges`, Graph.Locals `fixLocals`
--     and Graph.Deoptimize `deoptimizeInstructions`; the other children are about these.
--   Examples: runs on small inputs.
--
-- Numbers: an opcode index is a `uint32_t`, an oparg an `int16_t`, and a jump target wraps as the
-- source computes it. Loops over instructions, edges and locals are recursions on the list or on
-- the number of rounds, so no fuel is needed. Two count down from the size of the code, which has no
-- more code units than that: the scan of `preprocess`, and the prefixes of an opcode in `interpret`.
-- Reading an opcode past the end of the code is an outcome of its own in the first, and the fault
-- `undefined` in the second. The cursor of method tokens, an `int`, is a number without a bound: a
-- module is taken to have fewer than 2^31 - 2^20 methods.
--
-- Parameters: the settings (`g_pyjionSettings`), the platform's `MAXLONG`, the stack effect of an
-- opcode (CPython's `PyCompile_OpcodeStackEffect` and its form with a jump), the dictionaries of
-- globals and builtins as functions from names, the profile of a function as what it answers, the
-- states before each opcode where the graph is built, and the bytes of CoreCLR's opcodes.
--
-- Not modelled: setting the type of a local before the analysis, the emission of single CIL opcodes,
-- the runtime helpers, printing (`makeGraph`, `describe`), the hash of a constant, and the
-- interface to CPython and CoreCLR. `VolatileValue::lastValue` reads memory that may be freed;
-- here a volatile value holds what that read gives. Reading a missing key of the instruction map
-- makes an empty entry in the source, which the model does not keep.
pub mod Prelude
pub mod Kind
pub mod Opcode
pub mod Value
pub mod Source
pub mod Binary
pub mod Links
pub mod State
pub mod IlGenerator
pub mod CodeModel
pub mod AttributeTable
pub mod KnownMethods
pub mod Interpreter
pub mod Numbers
pub mod Inplace
pub mod Graph
pub mod Examples
pub mod ValueStack
pub mod ExceptionHandling
pub mod Profile
