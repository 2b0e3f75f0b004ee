-- ===== src/Decomp/Generations.antt =====
-- decomp/src/dataflow/ssa.rs: generations, the state of one register, and the effect of an
-- instruction on the state of all registers (`apply_effect`).
pub mod Fresh
use package.doldisasm.Base.{ℕ, Option, none, some, List, [], ◌∷◌, ◌==◌, if◌then◌else◌}
use package.doldisasm.Base.Checked.{Checked, returns, panics, ◌>>=◌, add_u32}
use package.doldisasm.Ppc.Instruction.{Instruction, Spr, MicroSpr, Register}
use package.doldisasm.Ppc.Instruction.Visit.{
  Event, read_gpr, write_gpr, read_spr, write_spr, read_crf, write_crf, read_crb, write_crb, effect,
  visit_registers,
}
use package.doldisasm.Decomp.Cfg.{checked}
use package.doldisasm.Decomp.Registers.{CrFieldState, RegisterState, change, change_register}

abbrev pub Generation : Type 0
Generation = ℕ

abbrev pub initial : Generation
initial = 0

-- `Generation::next`
abbrev pub next : Generation → Checked Generation
next g = add_u32 g 1

pub record LocalRegisterState : Type 0 where
  pub generation : Generation
  pub phi_origins : Option (Generation × Generation)
  pub highest_generation : Generation

-- `join`, which only reads the recording state.
unfoldable pub join : LocalRegisterState → LocalRegisterState → Generation → LocalRegisterState
join self other recording =
    if self.generation == other.generation
    then record { generation = self.generation; phi_origins = none; highest_generation = recording }
    else record {
      generation = self.generation;
      phi_origins = some (self.generation, other.generation);
      highest_generation = self.highest_generation;
    }

-- `next_generation`: the register's state, with its new generation in it.
unfoldable pub next_generation : LocalRegisterState → Checked LocalRegisterState
next_generation s =
    next s.highest_generation >>= λ g. returns (record s { generation = g; highest_generation = g })

abbrev pub Registers : Type 0
Registers = RegisterState LocalRegisterState

abbrev pub next_field : CrFieldState LocalRegisterState → Checked (CrFieldState LocalRegisterState)
next_field field = next_generation field.lt >>= λ lt. next_generation field.gt >>= λ gt.
    next_generation field.eq >>= λ eq.
    next_generation field.so >>= λ so. returns (record { lt = lt; gt = gt; eq = eq; so = so })

-- The `match` of `write_spr`.
abbrev pub renew_spr : MicroSpr → Registers → Checked Registers
renew_spr Spr.ctr rs = panics
renew_spr Spr.pc rs = panics
renew_spr (Spr.other n) rs = panics
renew_spr s rs = change_register rs (Register.spr s) next_generation

-- The visitor of `apply_effect`: reads and the effect itself do nothing.
unfoldable pub visit : Event → Registers → Checked Registers
visit (write_crb crf crb) rs = change_register rs (Register.cr crf crb) next_generation
visit (write_crf crf) rs = change rs.sprs.cr crf next_field >>= λ fields.
    returns (record rs { sprs = record rs.sprs { cr = fields } })
visit (write_gpr gpr) rs = change_register rs (Register.gpr gpr) next_generation
visit (write_spr spr) rs = renew_spr spr rs
visit _ rs = returns rs

unfoldable pub visit_all : List Event → Registers → Checked Registers
visit_all [] rs = returns rs
visit_all (e ∷ es) rs = visit e rs >>= visit_all es

unfoldable pub apply_effect : Registers → Instruction → Checked Registers
apply_effect rs inst = checked (visit_registers inst) >>= λ es. visit_all es rs
