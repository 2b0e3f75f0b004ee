-- ===== src/Decomp/Registers.antt =====
-- decomp/src/dataflow/register_state.rs: one value for every register. An array is a list (of 32
-- general registers, of 8 condition fields), an index out of bounds and a `todo!` are `panics`,
-- and a `&mut` to a register is what a change does to it.
pub mod Lens
pub mod Iter
pub mod Join
use package.doldisasm.Base.{ℕ, zero, suc, ◌+◌, List, [], ◌∷◌, ◌++◌}
use package.doldisasm.Base.Checked.{Checked, returns, panics, ◌>>=◌}
use package.doldisasm.Ppc.Instruction.{Crf, Crb, XerRegister, Spr, MicroSpr, Register}

pub record CrFieldState {ℓ} (S : Type ℓ) : Type ℓ where
  pub lt : S
  pub gt : S
  pub eq : S
  pub so : S

pub record XerState {ℓ} (S : Type ℓ) : Type ℓ where
  pub so : S
  pub ov : S
  pub ca : S

pub record SprState {ℓ} (S : Type ℓ) : Type ℓ where
  pub lr : S
  pub ctr : S
  pub xer : XerState S
  pub msr : S
  pub cr : List (CrFieldState S)

pub record RegisterState {ℓ} (S : Type ℓ) : Type ℓ where
  pub gprs : List S
  pub sprs : SprState S

-- `&array[i]`, and a change of `&mut array[i]`.
unfoldable pub element {ℓ} : {A : Type ℓ} → List A → ℕ → Checked A
element [] i = panics
element (x ∷ xs) zero = returns x
element (x ∷ xs) (suc i) = element xs i

unfoldable pub change {ℓ} : {A : Type ℓ} → List A → ℕ → (A → Checked A) → Checked (List A)
change [] i f = panics
change (x ∷ xs) zero f = f x >>= λ y. returns (y ∷ xs)
change (x ∷ xs) (suc i) f = change xs i f >>= λ ys. returns (x ∷ ys)

module _ {ℓ} {S : Type ℓ} where
  abbrev pub bit_of : CrFieldState S → Crb → S
  bit_of field Crb.negative = field.lt
  bit_of field Crb.positive = field.gt
  bit_of field Crb.zero_bit = field.eq
  bit_of field Crb.overflow = field.so

  abbrev pub change_bit : Crb → (S → Checked S) → CrFieldState S → Checked (CrFieldState S)
  change_bit Crb.negative f field = f field.lt >>= λ v. returns (record field { lt = v })
  change_bit Crb.positive f field = f field.gt >>= λ v. returns (record field { gt = v })
  change_bit Crb.zero_bit f field = f field.eq >>= λ v. returns (record field { eq = v })
  change_bit Crb.overflow f field = f field.so >>= λ v. returns (record field { so = v })

  -- `SprState::cr` and `SprState::cr_mut`
  unfoldable pub cr : SprState S → Crf → Crb → Checked S
  cr s crf crb = element s.cr crf >>= λ field. returns (bit_of field crb)

  unfoldable pub cr_mut : SprState S → Crf → Crb → (S → Checked S) → Checked (SprState S)
  cr_mut s crf crb f =
      change s.cr crf (change_bit crb f) >>= λ fields. returns (record s { cr = fields })

  -- The part of `by_register` for the special registers.
  unfoldable pub by_spr : SprState S → MicroSpr → Checked S
  by_spr s Spr.ctr = returns s.ctr
  by_spr s Spr.lr = returns s.lr
  by_spr s Spr.msr = returns s.msr
  by_spr s (Spr.xer XerRegister.so) = returns s.xer.so
  by_spr s (Spr.xer XerRegister.ov) = returns s.xer.ov
  by_spr s (Spr.xer XerRegister.ca) = returns s.xer.ca
  by_spr s Spr.pc = panics
  by_spr s (Spr.other n) = panics

  unfoldable pub change_spr : MicroSpr → (S → Checked S) → SprState S → Checked (SprState S)
  change_spr Spr.ctr f s = f s.ctr >>= λ v. returns (record s { ctr = v })
  change_spr Spr.lr f s = f s.lr >>= λ v. returns (record s { lr = v })
  change_spr Spr.msr f s = f s.msr >>= λ v. returns (record s { msr = v })
  change_spr (Spr.xer XerRegister.so) f s =
      f s.xer.so >>= λ v. returns (record s { xer = record s.xer { so = v } })
  change_spr (Spr.xer XerRegister.ov) f s =
      f s.xer.ov >>= λ v. returns (record s { xer = record s.xer { ov = v } })
  change_spr (Spr.xer XerRegister.ca) f s =
      f s.xer.ca >>= λ v. returns (record s { xer = record s.xer { ca = v } })
  change_spr Spr.pc f s = panics
  change_spr (Spr.other n) f s = panics

  -- `by_register`, read through the reference that it returns.
  unfoldable pub by_register : RegisterState S → Register → Checked S
  unfolding cr by_spr
  by_register rs (Register.gpr g) = element rs.gprs g
  by_register rs (Register.cr crf crb) = cr rs.sprs crf crb
  by_register rs (Register.spr s) = by_spr rs.sprs s

  -- `by_register`, and a change through the reference.
  unfoldable pub change_register :
      RegisterState S → Register → (S → Checked S) → Checked (RegisterState S)
  unfolding cr_mut change_spr
  change_register rs (Register.gpr g) f =
      change rs.gprs g f >>= λ gprs. returns (record rs { gprs = gprs })
  change_register rs (Register.cr crf crb) f =
      cr_mut rs.sprs crf crb f >>= λ sprs. returns (record rs { sprs = sprs })
  change_register rs (Register.spr s) f =
      change_spr s f rs.sprs >>= λ sprs. returns (record rs { sprs = sprs })

-- `iter().enumerate()`, with what is made of each element.
unfoldable pub numbered {ℓ κ} : {A : Type ℓ} {B : Type κ} → (ℕ → A → List B) → ℕ → List A → List B
numbered f i [] = []
numbered f i (x ∷ xs) = f i x ++ numbered f (i + 1) xs

module _ {ℓ} {S : Type ℓ} where
  abbrev pub field_iter : ℕ → CrFieldState S → List (Register × S)
  field_iter crf field =
      (Register.cr crf Crb.negative, field.lt)
      ∷ (Register.cr crf Crb.positive, field.gt)
      ∷ (Register.cr crf Crb.zero_bit, field.eq)
      ∷ (Register.cr crf Crb.overflow, field.so)
      ∷ []

  -- `register_iter`, which leaves XER out.
  unfoldable pub register_iter : RegisterState S → List (Register × S)
  unfolding numbered
  register_iter rs =
      numbered (λ i s. (Register.gpr i, s) ∷ []) 0 rs.gprs
      ++ ((Register.spr Spr.lr, rs.sprs.lr)
          ∷ (Register.spr Spr.ctr, rs.sprs.ctr)
          ∷ (Register.spr Spr.msr, rs.sprs.msr)
          ∷ numbered field_iter 0 rs.sprs.cr)
