-- ===== src/Decomp/Variables.antt =====
-- decomp/src/dataflow/variables.rs: the table of variables. A hash map is a function, and the keys of
-- the list of variables are the indexes, so that a new one is its length.
pub mod Lookup
pub mod Collect
pub mod Visit
pub mod Kept
pub mod Infer
pub mod Walked
use package.doldisasm.Base.{
  ℕ, zero, suc, Bool, true, false, ◌&&◌, ◌||◌, ◌==◌, if◌then◌else◌, length, Option, none, some,
  List, [], ◌∷◌, ◌++◌,
}
use package.doldisasm.Base.Signed.{ℤ, pos, negsuc}
use package.doldisasm.Base.Checked.{Checked, returns, panics, ◌>>=◌}
use package.doldisasm.Ppc.Instruction.{Gpr, Crf, Crb, XerRegister, Spr, MicroSpr, Register}
use package.doldisasm.Decomp.Registers.{element, cr}
use package.doldisasm.Decomp.Registers.Lens.{same_register}
use package.doldisasm.Decomp.Generations.{Generation, initial, LocalRegisterState, Registers}
use package.doldisasm.Decomp.Ssa.{DefUseMap, has_uses}
use package.doldisasm.Decomp.Ast.{VarId, VariableVisibility, VariableFlags, from_vis, vis}

abbrev pub same_int : ℤ → ℤ → Bool
same_int (pos m) (pos n) = m == n
same_int (negsuc m) (negsuc n) = m == n
same_int _ _ = false

module _ (fl : VariableFlags) where
  -- `Variables`
  pub record Variables : Type 0 where
    pub list : List fl.Flags
    pub reg_to_var : Register → Generation → Option VarId
    pub mem_to_var : ℤ → Option VarId

  abbrev pub no_variables : Variables
  no_variables = record { list = []; reg_to_var = λ r g. none; mem_to_var = λ o. none }

  unfoldable pub get_vis : Variables → VarId → Checked VariableVisibility
  get_vis t var = element t.list var >>= λ v. returns (vis fl v)

  -- `assert!(insert(..).is_none())`
  abbrev pub insert_new : Option VarId → Variables × VarId → Checked (Variables × VarId)
  insert_new none w = returns w
  insert_new (some old) w = panics

  abbrev pub register_flags : Register → VariableVisibility → fl.Flags
  register_flags reg v =
      if same_register reg (Register.gpr 1)
      then fl.insert (from_vis fl v) fl.rsp_flag
      else from_vis fl v

  unfoldable pub mk_root_reg_var :
      Variables → Register → Generation → VariableVisibility → Checked (Variables × VarId)
  mk_root_reg_var t reg generation v = insert_new (t.reg_to_var reg generation) (
    record t {
      list = t.list ++ register_flags reg v ∷ [];
      reg_to_var = λ r g.
          if same_register r reg && g == generation then some (length t.list) else t.reg_to_var r g;
    },
    length t.list,
  )

  unfoldable pub mk_reg_var :
      Variables → Register → Generation → VarId → Checked (Variables × VarId)
  mk_reg_var t reg generation origin = get_vis t origin >>= mk_root_reg_var t reg generation

  unfoldable pub mk_gpr_var : Variables → Gpr → Registers → VarId → Checked (Variables × VarId)
  mk_gpr_var t gpr state origin =
      element state.gprs gpr >>= λ s. mk_reg_var t (Register.gpr gpr) s.generation origin

  unfoldable pub mk_root_gpr_var :
      Variables → Gpr → Registers → VariableVisibility → Checked (Variables × VarId)
  mk_root_gpr_var t gpr state v =
      element state.gprs gpr >>= λ s. mk_root_reg_var t (Register.gpr gpr) s.generation v

  -- `optional_id_by_reg` and `optional_id_by_stack_mem`, with what `id_by_reg` and `id_by_stack_mem`
  -- do where there is none.
  unfoldable pub optional_id_by_reg : Variables → Register → Generation → Option VarId
  optional_id_by_reg t reg generation = t.reg_to_var reg generation

  abbrev pub found_id : Option VarId → Checked VarId
  found_id (some var) = returns var
  found_id none = panics

  unfoldable pub id_by_reg : Variables → Register → Generation → Checked VarId
  unfolding optional_id_by_reg
  id_by_reg t reg generation = found_id (optional_id_by_reg t reg generation)

  unfoldable pub id_by_gpr : Variables → Gpr → Registers → Checked VarId
  unfolding id_by_reg
  id_by_gpr t gpr state =
      element state.gprs gpr >>= λ s. id_by_reg t (Register.gpr gpr) s.generation

  unfoldable pub mk_root_stack_mem_var :
      Variables → ℤ → VariableVisibility → Checked (Variables × VarId)
  mk_root_stack_mem_var t offset v = insert_new (t.mem_to_var offset) (
    record t {
      list = t.list ++ from_vis fl v ∷ [];
      mem_to_var = λ o. if same_int o offset then some (length t.list) else t.mem_to_var o;
    },
    length t.list,
  )

  unfoldable pub mk_stack_mem_var : Variables → ℤ → VarId → Checked (Variables × VarId)
  mk_stack_mem_var t offset origin = get_vis t origin >>= mk_root_stack_mem_var t offset

  unfoldable pub optional_id_by_stack_mem : Variables → ℤ → Option VarId
  optional_id_by_stack_mem t offset = t.mem_to_var offset

  unfoldable pub id_by_stack_mem : Variables → ℤ → Checked VarId
  unfolding optional_id_by_stack_mem
  id_by_stack_mem t offset = found_id (optional_id_by_stack_mem t offset)

-- Whether the bits of a condition field, and those of XER, are used in their generations.
abbrev pub vis_if : Bool → VariableVisibility
vis_if true = VariableVisibility.visible
vis_if false = VariableVisibility.hidden

abbrev pub cr_bit_variable : Registers → DefUseMap → Crf → Crb → Checked (Crb × VariableVisibility)
cr_bit_variable state uses crf crb = cr state.sprs crf crb >>= λ s.
    returns (crb, vis_if (has_uses uses (Register.cr crf crb) s.generation))

unfoldable pub cr_bits_variables :
    Registers → DefUseMap → Crf → Checked (List (Crb × VariableVisibility))
cr_bits_variables state uses crf = cr_bit_variable state uses crf Crb.negative >>= λ a.
    cr_bit_variable state uses crf Crb.positive >>= λ b.
    cr_bit_variable state uses crf Crb.zero_bit >>= λ c.
    cr_bit_variable state uses crf Crb.overflow >>= λ d. returns (a ∷ b ∷ c ∷ d ∷ [])

abbrev pub xer_variable :
    DefUseMap → XerRegister → LocalRegisterState → XerRegister × (Generation × VariableVisibility)
xer_variable uses xer s =
    (xer, (s.generation, vis_if (has_uses uses (Register.spr (Spr.xer xer)) s.generation)))

unfoldable pub xer_variables :
    Registers → DefUseMap → List (XerRegister × (Generation × VariableVisibility))
xer_variables state uses =
    xer_variable uses XerRegister.so state.sprs.xer.so
    ∷ xer_variable uses XerRegister.ov state.sprs.xer.ov
    ∷ xer_variable uses XerRegister.ca state.sprs.xer.ca
    ∷ []
