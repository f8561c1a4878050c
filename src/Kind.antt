-- ===== src/Kind.antt =====
-- The kinds of abstract values (src/pyjion/absvalue.h), the predicates on them
-- (absvalue.h, unboxing.cpp) and the stack entry kinds of the compiler (stack.h, stack.cpp).
use pyjion.Prelude.{◌≡◌, Bool, true, false}

-- enum AbstractValueKind
pub data AbstractValueKind : Type 0 where
  avk_any avk_undefined avk_integer avk_float avk_bool avk_list avk_dict avk_tuple avk_set
        avk_frozen_set avk_string avk_bytes avk_bytearray avk_none avk_function avk_slice
        avk_complex avk_iterable avk_code avk_enumerate avk_type avk_module avk_method
        avk_big_integer avk_range avk_range_iterator avk_memory_view avk_classmethod avk_filter
        avk_property avk_map avk_baseobject avk_reversed avk_staticmethod avk_super avk_zip
        avk_unboxed_range_iterator :
      AbstractValueKind

unfoldable pub AbstractValueKind-discrete : Discrete AbstractValueKind
AbstractValueKind-discrete = hlevel

unfoldable pub is_known_type : AbstractValueKind → Bool
is_known_type avk_any = false
is_known_type avk_undefined = false
is_known_type avk_type = false
is_known_type _ = true

unfoldable pub supports_escaping : AbstractValueKind → Bool
supports_escaping avk_float = true
supports_escaping avk_integer = true
supports_escaping avk_bool = true
supports_escaping _ = false

unfoldable pub unboxed_argument : AbstractValueKind → Bool
unboxed_argument avk_unboxed_range_iterator = true
unboxed_argument avk_range = true
unboxed_argument avk_bytearray = true
unboxed_argument _ = false

-- enum StackEntryKind
pub data StackEntryKind : Type 0 where
  stack_kind_value_float stack_kind_value_int stack_kind_object : StackEntryKind

-- enum LocalKind
pub data LocalKind : Type 0 where
  lk_pointer lk_float lk_int lk_bool lk_native_int lk_big_int : LocalKind

unfoldable pub avk_as_stack_entry_kind : AbstractValueKind → StackEntryKind
avk_as_stack_entry_kind avk_integer = stack_kind_value_int
avk_as_stack_entry_kind avk_float = stack_kind_value_float
avk_as_stack_entry_kind avk_bool = stack_kind_value_int
avk_as_stack_entry_kind _ = stack_kind_object

unfoldable pub lk_as_stack_entry_kind : LocalKind → StackEntryKind
lk_as_stack_entry_kind lk_pointer = stack_kind_object
lk_as_stack_entry_kind lk_int = stack_kind_value_int
lk_as_stack_entry_kind lk_float = stack_kind_value_float
lk_as_stack_entry_kind _ = stack_kind_object

unfoldable pub stack_entry_kind_as_local_kind : StackEntryKind → LocalKind
stack_entry_kind_as_local_kind stack_kind_object = lk_pointer
stack_entry_kind_as_local_kind stack_kind_value_int = lk_int
stack_entry_kind_as_local_kind stack_kind_value_float = lk_float

abbrev pub is_yes : {A : Type 0} → Dec A → Bool
is_yes (yes a) = true
is_yes (no n) = false

unfoldable pub kind_eq : AbstractValueKind → AbstractValueKind → Bool
unfolding AbstractValueKind-discrete
kind_eq a b = is_yes (AbstractValueKind-discrete a b)

eq_of_is_yes : {A : Type 0} (d : Dec A) → is_yes d ≡ true → A
eq_of_is_yes (yes a) h = a
eq_of_is_yes (no n) h = cc

pub kind_eq→≡ : (a b : AbstractValueKind) → kind_eq a b ≡ true → a ≡ b
unfolding kind_eq
kind_eq→≡ a b h = eq_of_is_yes (AbstractValueKind-discrete a b) h
