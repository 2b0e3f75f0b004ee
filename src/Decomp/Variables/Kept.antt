-- ===== src/Decomp/Variables/Kept.antt =====
-- Every variable that the table names by a register or a place on the stack is in its list.
use doldisasm.Base.{
  ℕ, ◌+◌, ◌<◌, Bool, true, false, ◌&&◌, ◌==◌, if◌then◌else◌, length, length-append, Option, none,
  some, List, [], ◌∷◌, ◌++◌, ◌≡◌, arith,
}
use doldisasm.Base.Signed.{ℤ}
use doldisasm.Base.Checked.{Checked, returns, panics, ◌>>=◌}
use doldisasm.Ppc.Instruction.{Gpr, Crf, Crb, XerRegister, Spr, Register}
use doldisasm.Decomp.Registers.{element, cr}
use doldisasm.Decomp.Registers.Lens.{same_register}
use doldisasm.Decomp.Generations.{Generation, Registers}
use doldisasm.Decomp.Ssa.{DefUseMap}
use doldisasm.Decomp.Ast.{VarId, VariableVisibility, VariableFlags}
use doldisasm.Decomp.Variables.{
  Variables, same_int, get_vis, insert_new, mk_root_reg_var, mk_reg_var, mk_gpr_var,
  mk_root_gpr_var, mk_root_stack_mem_var, mk_stack_mem_var, cr_bits_variables, xer_variables,
}
use doldisasm.Decomp.Variables.Collect.{
  includes, table, mk_bits, mk_field_variables, mk_cr_variables, mk_xer, mk_xer_variables, only_if,
  with_state,
}

-- What holds of the result of a computation, if it returns.
abbrev pub Holds : {A : Type 0} → (A → Type 0) → Checked A → Type 0
Holds P (returns a) = P a
Holds P panics = Unit

pub then_holds :
    {A B : Type 0} (P : B → Type 0) (m : Checked A) (f : A → Checked B)
    → Holds (λ a. Holds P (f a)) m
    → Holds P (m >>= f)
then_holds P (returns a) f h = h
then_holds P panics f h = tt

pub always : {A : Type 0} (P : A → Type 0) (m : Checked A) → ((a : A) → P a) → Holds P m
always P (returns a) h = h a
always P panics h = tt

-- A step about which nothing is known.
pub after :
    {A B : Type 0} (P : B → Type 0) (m : Checked A) (f : A → Checked B)
    → ((a : A) → Holds P (f a))
    → Holds P (m >>= f)
after P m f h = then_holds P m f (always _ m h)

-- A step that is known to keep something.
pub kept_then :
    {A B : Type 0} {P : A → Type 0} (Q : B → Type 0) (m : Checked A) (f : A → Checked B)
    → ((a : A) → P a → Holds Q (f a))
    → Holds P m
    → Holds Q (m >>= f)
kept_then Q (returns a) f h p = h a p
kept_then Q panics f h p = tt

-- A name that is new or was there.
named :
    (b : Bool) (old : Option VarId) (n var : ℕ)
    → ((var : VarId) → old ≡ some var → var < n)
    → (if b then some n else old) ≡ some var
    → var < n + 1
named true old n var h e = ground (arith, e)
named false old n var h e = omega (arith, h var e)

longer :
    {A : Type 0} (xs : List A) (x : A) (var : ℕ) → var < length xs + 1 → var < length (xs ++ x ∷ [])
longer xs x var h = omega (arith, length-append xs (x ∷ []))

module _ (fl : VariableFlags) where
  -- The variables that are named are in the list.
  pub record IsKeyed (t : Variables fl) : Type 0 where
    pub registers :
        (r : Register) (g : Generation) (var : VarId)
        → t.reg_to_var r g ≡ some var
        → var < length t.list
    pub places : (o : ℤ) (var : VarId) → t.mem_to_var o ≡ some var → var < length t.list

  abbrev pub KeyedFst : {B : Type 0} → Variables fl × B → Type 0
  KeyedFst w = IsKeyed w.0

  insert_new-Keyed :
      (o : Option VarId) (w : Variables fl × VarId)
      → IsKeyed w.0
      → Holds KeyedFst (insert_new fl o w)
  insert_new-Keyed none w h = h
  insert_new-Keyed (some old) w h = tt

  pub mk_root_reg_var-Keyed :
      (t : Variables fl) (reg : Register) (generation : Generation) (v : VariableVisibility)
      → IsKeyed t
      → Holds KeyedFst (mk_root_reg_var fl t reg generation v)
  unfolding mk_root_reg_var
  mk_root_reg_var-Keyed t reg generation v h = insert_new-Keyed _ _ (record {
    registers = λ r g var e. longer t.list _ var (
        named (same_register r reg && g == generation) (t.reg_to_var r g) (length t.list) var
          (h.registers r g) e);
    places = λ o var e. longer t.list _ var (omega (arith, h.places o var e));
  })

  pub mk_root_stack_mem_var-Keyed :
      (t : Variables fl) (offset : ℤ) (v : VariableVisibility)
      → IsKeyed t
      → Holds KeyedFst (mk_root_stack_mem_var fl t offset v)
  unfolding mk_root_stack_mem_var
  mk_root_stack_mem_var-Keyed t offset v h = insert_new-Keyed _ _ (record {
    registers = λ r g var e. longer t.list _ var (omega (arith, h.registers r g var e));
    places = λ o var e.
        longer t.list _ var
          (named (same_int o offset) (t.mem_to_var o) (length t.list) var (h.places o) e);
  })

  pub mk_reg_var-Keyed :
      (t : Variables fl) (reg : Register) (g : Generation) (origin : VarId)
      → IsKeyed t
      → Holds KeyedFst (mk_reg_var fl t reg g origin)
  unfolding mk_reg_var
  mk_reg_var-Keyed t reg g origin h =
      after _ (get_vis fl t origin) _ (λ v. mk_root_reg_var-Keyed t reg g v h)

  pub mk_gpr_var-Keyed :
      (t : Variables fl) (gpr : Gpr) (state : Registers) (origin : VarId)
      → IsKeyed t
      → Holds KeyedFst (mk_gpr_var fl t gpr state origin)
  unfolding mk_gpr_var
  mk_gpr_var-Keyed t gpr state origin h =
      after _ (element state.gprs gpr) _
        (λ s. mk_reg_var-Keyed t (Register.gpr gpr) s.generation origin h)

  pub mk_root_gpr_var-Keyed :
      (t : Variables fl) (gpr : Gpr) (state : Registers) (v : VariableVisibility)
      → IsKeyed t
      → Holds KeyedFst (mk_root_gpr_var fl t gpr state v)
  unfolding mk_root_gpr_var
  mk_root_gpr_var-Keyed t gpr state v h =
      after _ (element state.gprs gpr) _
        (λ s. mk_root_reg_var-Keyed t (Register.gpr gpr) s.generation v h)

  pub mk_stack_mem_var-Keyed :
      (t : Variables fl) (offset : ℤ) (origin : VarId)
      → IsKeyed t
      → Holds KeyedFst (mk_stack_mem_var fl t offset origin)
  unfolding mk_stack_mem_var
  mk_stack_mem_var-Keyed t offset origin h =
      after _ (get_vis fl t origin) _ (λ v. mk_root_stack_mem_var-Keyed t offset v h)

  -- The helpers that leave the key, or the state, out.
  pub table-Keyed :
      (m : Checked (Variables fl × VarId)) → Holds KeyedFst m → Holds IsKeyed (table fl m)
  table-Keyed (returns w) h = h
  table-Keyed panics h = tt

  pub with_state-Keyed :
      (s : Registers) (m : Checked (Variables fl))
      → Holds IsKeyed m
      → Holds KeyedFst (with_state fl s m)
  with_state-Keyed s (returns t) h = h
  with_state-Keyed s panics h = tt

  pub only_if-Keyed :
      (b : Bool) (f : Variables fl → Checked (Variables fl)) (t : Variables fl)
      → IsKeyed t
      → Holds IsKeyed (f t)
      → Holds IsKeyed (only_if fl b f t)
  only_if-Keyed true f t h k = k
  only_if-Keyed false f t h k = h

  pub mk_bits-Keyed :
      (state : Registers) (crf : Crf) (v : VariableVisibility → VariableVisibility)
      (bits : List (Crb × VariableVisibility)) (t : Variables fl)
      → IsKeyed t
      → Holds IsKeyed (mk_bits fl state crf v bits t)
  unfolding mk_bits
  mk_bits-Keyed state crf v [] t h = h
  mk_bits-Keyed state crf v ((crb, used) ∷ bits) t h = after _ (cr state.sprs crf crb) _ (λ s.
      kept_then _ (table fl (mk_root_reg_var fl t (Register.cr crf crb) s.generation (v used))) _
        (mk_bits-Keyed state crf v bits)
        (table-Keyed _ (mk_root_reg_var-Keyed t (Register.cr crf crb) s.generation (v used) h)))

  pub mk_field_variables-Keyed :
      (uses : DefUseMap) (state : Registers) (crf : Crf)
      (v : VariableVisibility → VariableVisibility) (t : Variables fl)
      → IsKeyed t
      → Holds IsKeyed (mk_field_variables fl uses state crf v t)
  unfolding mk_field_variables
  mk_field_variables-Keyed uses state crf v t h =
      after _ (cr_bits_variables state uses crf) _ (λ bits. mk_bits-Keyed state crf v bits t h)

  pub mk_cr_variables-Keyed :
      (uses : DefUseMap) (state : Registers) (t : Variables fl)
      → IsKeyed t
      → Holds IsKeyed (mk_cr_variables fl uses state t)
  unfolding mk_cr_variables
  mk_cr_variables-Keyed uses state t h = mk_field_variables-Keyed uses state 0 (λ v. v) t h

  pub either_way :
      (b : Bool) (m : Checked (Variables fl)) (t : Variables fl)
      → IsKeyed t
      → Holds IsKeyed m
      → Holds IsKeyed (if b then m else returns t)
  either_way true m t h k = k
  either_way false m t h k = h

  pub mk_xer-Keyed :
      (vars : List XerRegister) (xs : List (XerRegister × (Generation × VariableVisibility)))
      (t : Variables fl)
      → IsKeyed t
      → Holds IsKeyed (mk_xer fl vars xs t)
  unfolding mk_xer
  mk_xer-Keyed vars [] t h = h
  mk_xer-Keyed vars ((xer, (g, v)) ∷ xs) t h =
      kept_then _
        (if includes vars xer
          then table fl (mk_root_reg_var fl t (Register.spr (Spr.xer xer)) g v)
          else returns t)
        _ (mk_xer-Keyed vars xs)
        (either_way (includes vars xer) _ t h
          (table-Keyed _ (mk_root_reg_var-Keyed t (Register.spr (Spr.xer xer)) g v h)))

  pub mk_xer_variables-Keyed :
      (uses : DefUseMap) (state : Registers) (vars : List XerRegister) (t : Variables fl)
      → IsKeyed t
      → Holds IsKeyed (mk_xer_variables fl uses state vars t)
  unfolding mk_xer_variables
  mk_xer_variables-Keyed uses state vars t h = mk_xer-Keyed vars (xer_variables state uses) t h
