-- ===== src/Interpreter/Preprocess/Outcomes.antt =====
-- What the scan of an opcode can come to (`scan_opcode`), whatever the opcode.
use pyjion.Prelude.{ℕ, if◌then◌else◌, Bool, true, false, Option, none, some}
use pyjion.Opcode.{Opcode}
use pyjion.Links.{update}
use pyjion.Interpreter.Actions.{item_at}
use pyjion.Interpreter.{AbstractInterpreterResult, Name, Context}
use pyjion.Interpreter.Preprocess.{
  Scan, Scanned, scanned, rejected, missing_name, open_block, leave_block, is_frame_global,
  scan_global, is_argument, delete_argument, scan_opcode,
}

-- The outcomes of the scan of an opcode at `index`.
pub data ScansTo (index : ℕ) (s : Scan) : Scanned → Type 0 where
  stays : ScansTo index s (scanned s)
  opens : (target : ℕ) → ScansTo index s (open_block index target s)
  leaves : ScansTo index s (leave_block index s.blocks s)
  deletes :
      (oparg : ℕ)
      → ScansTo index s
          (scanned (record s { assignment_state = update s.assignment_state oparg false }))
  rejects : (r : AbstractInterpreterResult) → ScansTo index s (rejected r)
  misses : ScansTo index s missing_name

if-ScansTo :
    (index : ℕ) (s : Scan) (b : Bool) (r r' : Scanned)
    → ScansTo index s r
    → ScansTo index s r'
    → ScansTo index s (if b then r else r')
if-ScansTo index s true r r' p q = p
if-ScansTo index s false r r' p q = q

scan_global-ScansTo : (index : ℕ) (s : Scan) (o : Option Name) → ScansTo index s (scan_global o s)
unfolding scan_global
scan_global-ScansTo index s none = misses
scan_global-ScansTo index s (some name) =
    if-ScansTo index s (is_frame_global name.text) _ _ (rejects _) stays

deleted-ScansTo :
    (index oparg : ℕ) (s : Scan) (b : Bool)
    → ScansTo index s (
        scanned
          (if b then record s { assignment_state = update s.assignment_state oparg false } else s))
deleted-ScansTo index oparg s true = deletes oparg
deleted-ScansTo index oparg s false = stays

pub scan_opcode-ScansTo :
    (ctx : Context) (index cur : ℕ) (opcode : Opcode) (oparg : ℕ) (s : Scan)
    → ScansTo index s (scan_opcode ctx index cur opcode oparg s)
unfolding scan_opcode delete_argument
scan_opcode-ScansTo ctx index cur (Opcode.unary op) oparg s = stays
scan_opcode-ScansTo ctx index cur (Opcode.binary op) oparg s = stays
scan_opcode-ScansTo ctx index cur Opcode.nop oparg s = stays
scan_opcode-ScansTo ctx index cur Opcode.extended_arg oparg s = stays
scan_opcode-ScansTo ctx index cur Opcode.pop_top oparg s = stays
scan_opcode-ScansTo ctx index cur Opcode.rot_two oparg s = stays
scan_opcode-ScansTo ctx index cur Opcode.rot_three oparg s = stays
scan_opcode-ScansTo ctx index cur Opcode.rot_four oparg s = stays
scan_opcode-ScansTo ctx index cur Opcode.dup_top oparg s = stays
scan_opcode-ScansTo ctx index cur Opcode.dup_top_two oparg s = stays
scan_opcode-ScansTo ctx index cur Opcode.load_const oparg s = stays
scan_opcode-ScansTo ctx index cur Opcode.load_fast oparg s = stays
scan_opcode-ScansTo ctx index cur Opcode.store_fast oparg s = stays
scan_opcode-ScansTo ctx index cur Opcode.delete_fast oparg s =
    deleted-ScansTo index oparg s (is_argument ctx oparg)
scan_opcode-ScansTo ctx index cur Opcode.compare_op oparg s = stays
scan_opcode-ScansTo ctx index cur Opcode.is_op oparg s = stays
scan_opcode-ScansTo ctx index cur Opcode.contains_op oparg s = stays
scan_opcode-ScansTo ctx index cur Opcode.get_iter oparg s = stays
scan_opcode-ScansTo ctx index cur Opcode.for_iter oparg s = opens _
scan_opcode-ScansTo ctx index cur Opcode.store_subscr oparg s = stays
scan_opcode-ScansTo ctx index cur Opcode.pop_jump_if_false oparg s = stays
scan_opcode-ScansTo ctx index cur Opcode.pop_jump_if_true oparg s = stays
scan_opcode-ScansTo ctx index cur Opcode.jump_if_false_or_pop oparg s = stays
scan_opcode-ScansTo ctx index cur Opcode.jump_if_true_or_pop oparg s = stays
scan_opcode-ScansTo ctx index cur Opcode.jump_if_not_exc_match oparg s = stays
scan_opcode-ScansTo ctx index cur Opcode.jump_absolute oparg s = stays
scan_opcode-ScansTo ctx index cur Opcode.jump_forward oparg s = stays
scan_opcode-ScansTo ctx index cur Opcode.end_async_for oparg s = stays
scan_opcode-ScansTo ctx index cur Opcode.setup_with oparg s = opens _
scan_opcode-ScansTo ctx index cur Opcode.setup_async_with oparg s = opens _
scan_opcode-ScansTo ctx index cur Opcode.setup_finally oparg s =
    if-ScansTo index s ctx.exception_handling _ _ (opens _) (rejects _)
scan_opcode-ScansTo ctx index cur Opcode.return_value oparg s = stays
scan_opcode-ScansTo ctx index cur Opcode.reraise oparg s = stays
scan_opcode-ScansTo ctx index cur Opcode.load_name oparg s = stays
scan_opcode-ScansTo ctx index cur Opcode.store_name oparg s = stays
scan_opcode-ScansTo ctx index cur Opcode.delete_name oparg s = stays
scan_opcode-ScansTo ctx index cur Opcode.load_classderef oparg s = stays
scan_opcode-ScansTo ctx index cur Opcode.load_global oparg s =
    scan_global-ScansTo index s (item_at ctx.code.names oparg)
scan_opcode-ScansTo ctx index cur Opcode.store_global oparg s = stays
scan_opcode-ScansTo ctx index cur Opcode.load_attr oparg s = stays
scan_opcode-ScansTo ctx index cur Opcode.store_attr oparg s = stays
scan_opcode-ScansTo ctx index cur Opcode.delete_attr oparg s = stays
scan_opcode-ScansTo ctx index cur Opcode.build_list oparg s = stays
scan_opcode-ScansTo ctx index cur Opcode.build_tuple oparg s = stays
scan_opcode-ScansTo ctx index cur Opcode.build_map oparg s = stays
scan_opcode-ScansTo ctx index cur Opcode.import_name oparg s = stays
scan_opcode-ScansTo ctx index cur Opcode.import_from oparg s = stays
scan_opcode-ScansTo ctx index cur Opcode.load_closure oparg s = stays
scan_opcode-ScansTo ctx index cur Opcode.call_function oparg s = stays
scan_opcode-ScansTo ctx index cur Opcode.call_function_kw oparg s = stays
scan_opcode-ScansTo ctx index cur Opcode.call_function_ex oparg s = stays
scan_opcode-ScansTo ctx index cur Opcode.make_function oparg s = stays
scan_opcode-ScansTo ctx index cur Opcode.build_slice oparg s = stays
scan_opcode-ScansTo ctx index cur Opcode.unpack_ex oparg s = stays
scan_opcode-ScansTo ctx index cur Opcode.unpack_sequence oparg s = stays
scan_opcode-ScansTo ctx index cur Opcode.raise_varargs oparg s = stays
scan_opcode-ScansTo ctx index cur Opcode.delete_subscr oparg s = stays
scan_opcode-ScansTo ctx index cur Opcode.build_set oparg s = stays
scan_opcode-ScansTo ctx index cur Opcode.store_deref oparg s = stays
scan_opcode-ScansTo ctx index cur Opcode.load_deref oparg s = stays
scan_opcode-ScansTo ctx index cur Opcode.delete_deref oparg s = stays
scan_opcode-ScansTo ctx index cur Opcode.pop_block oparg s = leaves
scan_opcode-ScansTo ctx index cur Opcode.pop_except oparg s = leaves
scan_opcode-ScansTo ctx index cur Opcode.load_build_class oparg s = stays
scan_opcode-ScansTo ctx index cur Opcode.set_add oparg s = stays
scan_opcode-ScansTo ctx index cur Opcode.list_append oparg s = stays
scan_opcode-ScansTo ctx index cur Opcode.map_add oparg s = stays
scan_opcode-ScansTo ctx index cur Opcode.format_value oparg s = stays
scan_opcode-ScansTo ctx index cur Opcode.build_string oparg s = stays
scan_opcode-ScansTo ctx index cur Opcode.build_const_key_map oparg s = stays
scan_opcode-ScansTo ctx index cur Opcode.load_method oparg s = stays
scan_opcode-ScansTo ctx index cur Opcode.call_method oparg s = stays
scan_opcode-ScansTo ctx index cur Opcode.with_except_start oparg s = stays
scan_opcode-ScansTo ctx index cur Opcode.list_extend oparg s = stays
scan_opcode-ScansTo ctx index cur Opcode.dict_update oparg s = stays
scan_opcode-ScansTo ctx index cur Opcode.set_update oparg s = stays
scan_opcode-ScansTo ctx index cur Opcode.dict_merge oparg s = stays
scan_opcode-ScansTo ctx index cur Opcode.print_expr oparg s = stays
scan_opcode-ScansTo ctx index cur Opcode.list_to_tuple oparg s = stays
scan_opcode-ScansTo ctx index cur Opcode.load_assertion_error oparg s = stays
scan_opcode-ScansTo ctx index cur Opcode.import_star oparg s = stays
scan_opcode-ScansTo ctx index cur Opcode.delete_global oparg s = stays
scan_opcode-ScansTo ctx index cur Opcode.setup_annotations oparg s = stays
scan_opcode-ScansTo ctx index cur Opcode.yield_value oparg s = stays
scan_opcode-ScansTo ctx index cur Opcode.yield_from oparg s = rejects _
scan_opcode-ScansTo ctx index cur Opcode.gen_start oparg s = stays
scan_opcode-ScansTo ctx index cur (Opcode.other_opcode n) oparg s = stays
