-- ===== src/Interpreter.antt =====
-- The abstract interpreter (`AbstractInterpreter::preprocess` and `interpret`,
-- src/pyjion/absint.cpp): what it reads, the state of one run, and the actions that the handlers
-- of the opcodes are made of. The handlers stand in the children, a function for each.
pub mod Actions
pub mod Profiled
pub mod Shuffles
pub mod Operators
pub mod Calls
pub mod Jumps
pub mod Dispatch
pub mod Step
pub mod Loop
pub mod Contracts
pub mod Safety
pub mod Preprocess
use Prim.Native.String.{String}
use pyjion.Prelude.{ℕ, Bool, Option, none, some, List, [], ◌∷◌}
use pyjion.Prelude.Int.{ℤ}
use pyjion.Kind.{AbstractValueKind}
use pyjion.Opcode.{Opcode}
use pyjion.Source.{AbstractSource}
use pyjion.Value.{Settings, PyTypeObject}
use pyjion.Links.{SourceSets}
use pyjion.State.{InterpreterState}
use pyjion.AttributeTable.{AttributeTable}

-- enum AbstractInterpreterResult
pub data AbstractInterpreterResult : Type 0 where
  success compilation_stack_effect_fault incompatible_compiler_flags incompatible_size
        incompatible_opcode_yield incompatible_opcode_with_except incompatible_opcode_unknown
        incompatible_frame_global :
      AbstractInterpreterResult

-- What the analysis reads of a Python object: its type, and its digits if it is an `int`.
pub record PyObject : Type 0 where
  pub type : PyTypeObject
  pub digits : ℕ

-- A constant of the code object, by the tests of `toAbstract`.
pub data Constant : Type 0 where
  py_none py_text py_list py_dict py_bool py_float py_bytes py_set py_complex py_function py_other :
      Constant
  py_int : ℤ → ℕ → Constant
  py_tuple : List PyObject → Constant

-- A name is looked up by its text, and in the attribute table by the text's address.
pub record Name : Type 0 where
  pub text : String
  pub address : ℕ

-- The code object. Reading an opcode past `size` is out of bounds in the source.
pub record Code : Type 0 where
  pub opcode_at : ℕ → Opcode
  pub byte_at : ℕ → ℕ
  pub size : ℕ
  pub consts : List Constant
  pub names : List Name
  pub argcount : ℕ
  pub is_coroutine : Bool

-- What a run reads and does not change: settings, the code, the dictionaries of globals and
-- builtins, the profile, `PyCompile_OpcodeStackEffectWithJump`, and the block starts that
-- `preprocess` found.
pub record Context : Type 0 where
  pub settings : Settings
  pub attr_type_table : Bool
  pub optimization_level : ℕ
  pub exception_handling : Bool
  pub code_object_size_limit : ℕ
  pub code : Code
  pub globals : String → Option PyObject
  pub builtins : String → Option PyObject
  pub pgc_ready : Bool
  pub compiled_with_probes : Bool
  pub profile_type : ℕ → ℕ → Option PyTypeObject
  pub profile_kind : ℕ → ℕ → AbstractValueKind
  pub stack_effect : Opcode → ℕ → Bool → ℤ
  pub block_starts : ℕ → ℕ

-- The variables of `interpret` and of the interpreter while it handles an opcode. `state` is
-- `lastState`, and sources are numbered in the order of their allocation.
pub record Machine : Type 0 where
  pub state : InterpreterState
  pub stack_position : ℕ
  pub sources : List AbstractSource
  pub sets : SourceSets
  pub start_states : ℕ → Option InterpreterState
  pub queue : List ℕ
  pub opcode_sources : ℕ → Option (Option ℕ)
  pub try_except_markers : ℕ → Option ℕ
  pub last_resolved_global : ℕ → Option (Option PyObject)
  pub attributes : AttributeTable
  pub pgc_required : Bool
  pub pgc_size : ℕ

-- `StackUnderflowException`, `StackImbalanceException`, and a read that the source leaves
-- undefined: out of bounds, or through a null pointer.
pub data Fault : Type 0 where
  stack_underflow stack_imbalance undefined : Fault

pub data Result {ℓ} (A : Type ℓ) : Type ℓ where
  ok : A → Machine → Result A
  fault : Fault → Result A

abbrev pub Action : Type 0 → Type 0
Action A = Machine → Result A

abbrev pub pure : {A : Type 0} → A → Action A
pure a m = ok a m

abbrev pub raise : {A : Type 0} → Fault → Action A
raise e m = fault e

infixl 5 ◌>>=◌ ◌>>◌
unfoldable pub ◌>>=◌ : {A B : Type 0} → Action A → (A → Action B) → Action B
◌>>=◌ f k m = elim (f m) [ ok a m' ↦ k a m' | fault e ↦ fault e ]

abbrev pub ◌>>◌ : {A B : Type 0} → Action A → Action B → Action B
f >> k = f >>= λ _. k

-- How the handling of an opcode ends: the analysis goes on with the opcode that follows, with the
-- variables `skipEffect` and `jump`; it leaves the block; or it returns a result.
pub data Flow : Type 0 where
  next : Bool → Bool → Flow
  next_block : Flow
  finished : AbstractInterpreterResult → Flow

-- The last element of a list, and those before it.
unfoldable pub unsnoc {ℓ} : {A : Type ℓ} → List A → Option (List A × A)
unsnoc [] = none
unsnoc (x ∷ []) = some ([], x)
unsnoc (x ∷ y ∷ ys) = elim (unsnoc (y ∷ ys)) [
  | none ↦ none
  | some (rest, last) ↦ some (x ∷ rest, last)
]
