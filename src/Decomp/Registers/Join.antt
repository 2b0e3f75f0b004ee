-- ===== src/Decomp/Registers/Join.antt =====
-- decomp/src/dataflow/register_state.rs and core.rs: `Join` of arrays and of the state of all
-- registers. The third argument is the recording state, which a join may change.
use doldisasm.Base.{ℕ, zero, suc, List, [], ◌∷◌, ◌≡◌}
use doldisasm.Base.Checked.{returns, >>=-eq-returns}
use doldisasm.Ppc.Instruction.{Crb, XerRegister, Spr, Register}
use doldisasm.Decomp.Registers.{
  CrFieldState, XerState, SprState, RegisterState, element, bit_of, cr, by_spr, by_register,
}

-- `Join::join`
abbrev pub Join : Type 0 → Type 0 → Type 0
Join S T = S → S → T → S × T

-- The arrays have the same length.
unfoldable pub join_array : {S T : Type 0} → Join S T → List S → List S → List T → List S × List T
join_array join (a ∷ ss) (b ∷ os) (t ∷ ts) =
    let rest = join_array join ss os ts in ((join a b t).0 ∷ rest.0, (join a b t).1 ∷ rest.1)
join_array join _ _ ts = ([], ts)

module _ {S T : Type 0} (join : Join S T) where
  unfoldable pub join_xer : Join (XerState S) (XerState T)
  join_xer a b arg =
      let so = join a.so b.so arg.so in
      let ov = join a.ov b.ov arg.ov in
      let ca = join a.ca b.ca arg.ca in
      (record { so = so.0; ov = ov.0; ca = ca.0 }, record { so = so.1; ov = ov.1; ca = ca.1 })

  unfoldable pub join_field : Join (CrFieldState S) (CrFieldState T)
  join_field a b arg =
      let lt = join a.lt b.lt arg.lt in
      let gt = join a.gt b.gt arg.gt in
      let eq = join a.eq b.eq arg.eq in
      let so = join a.so b.so arg.so in
      (
        record { lt = lt.0; gt = gt.0; eq = eq.0; so = so.0 },
        record { lt = lt.1; gt = gt.1; eq = eq.1; so = so.1 },
      )

  -- The join of CTR takes what that of LR left, as in the source.
  unfoldable pub join_spr : Join (SprState S) (SprState T)
  join_spr a b arg =
      let lr = join a.lr b.lr arg.lr in
      let ctr = join a.ctr b.ctr lr.1 in
      let xer = join_xer a.xer b.xer arg.xer in
      let msr = join a.msr b.msr arg.msr in
      let cr = join_array join_field a.cr b.cr arg.cr in
      (
        record { lr = lr.0; ctr = ctr.0; xer = xer.0; msr = msr.0; cr = cr.0 },
        record { lr = ctr.1; ctr = arg.ctr; xer = xer.1; msr = msr.1; cr = cr.1 },
      )

  unfoldable pub join_registers : Join (RegisterState S) (RegisterState T)
  join_registers a b arg =
      let gprs = join_array join a.gprs b.gprs arg.gprs in
      let sprs = join_spr a.sprs b.sprs arg.sprs in
      (record { gprs = gprs.0; sprs = sprs.0 }, record { gprs = gprs.1; sprs = sprs.1 })

element-join_array :
    {S T : Type 0} (join : Join S T) (ss os : List S) (ts : List T) (i : ℕ) (a b : S) (t : T)
    → element ss i ≡ returns a
    → element os i ≡ returns b
    → element ts i ≡ returns t
    → element (join_array join ss os ts).0 i ≡ returns (join a b t).0
unfolding element join_array
element-join_array join [] os ts i a b t p q r = cc
element-join_array join (x ∷ ss) [] ts i a b t p q r = cc
element-join_array join (x ∷ ss) (y ∷ os) [] i a b t p q r = cc
element-join_array join (x ∷ ss) (y ∷ os) (z ∷ ts) zero a b t p q r = cc
element-join_array join (x ∷ ss) (y ∷ os) (z ∷ ts) (suc i) a b t p q r =
    element-join_array join ss os ts i a b t p q r

bit_of-join_field :
    {S T : Type 0} (join : Join S T) (fa fb : CrFieldState S) (ft : CrFieldState T) (c : Crb)
    (a b : S) (t : T)
    → returns (bit_of fa c) ≡ returns a
    → returns (bit_of fb c) ≡ returns b
    → returns (bit_of ft c) ≡ returns t
    → returns (bit_of (join_field join fa fb ft).0 c) ≡ returns (join a b t).0
unfolding join_field
bit_of-join_field join fa fb ft Crb.negative a b t p q r = cc
bit_of-join_field join fa fb ft Crb.positive a b t p q r = cc
bit_of-join_field join fa fb ft Crb.zero_bit a b t p q r = cc
bit_of-join_field join fa fb ft Crb.overflow a b t p q r = cc

-- The register whose recording state the join of a register reads.
abbrev pub recorder : Register → Register
recorder (Register.spr Spr.ctr) = Register.spr Spr.lr
recorder r = r

-- With a join that leaves the recording state alone, every register of the joined state is the
-- join of the two states of that register, with the recording state of the same register, but for
-- CTR, which is joined with the recording state of LR.
pub by_register-join_registers :
    {S T : Type 0} (join : Join S T) (ss os : RegisterState S) (arg : RegisterState T)
    (r : Register) (a b : S) (t : T)
    → ((x y : S) (u : T) → (join x y u).1 ≡ u)
    → by_register ss r ≡ returns a
    → by_register os r ≡ returns b
    → by_register arg (recorder r) ≡ returns t
    → by_register (join_registers join ss os arg).0 r ≡ returns (join a b t).0
unfolding by_register by_spr cr join_registers join_spr join_xer join_field
by_register-join_registers join ss os arg (Register.gpr g) a b t h p q r =
    element-join_array join ss.gprs os.gprs arg.gprs g a b t p q r
by_register-join_registers join ss os arg (Register.cr i c) a b t h p q r =
    let (fa, pa, ea) = >>=-eq-returns (element ss.sprs.cr i) _ p in
    let (fb, pb, eb) = >>=-eq-returns (element os.sprs.cr i) _ q in
    let (ft, pt, et) = >>=-eq-returns (element arg.sprs.cr i) _ r in
    rw (element-join_array (join_field join) ss.sprs.cr os.sprs.cr arg.sprs.cr i fa fb ft pa pb pt)
      (bit_of-join_field join fa fb ft c a b t ea eb et)
by_register-join_registers join ss os arg (Register.spr Spr.lr) a b t h p q r = cc
by_register-join_registers join ss os arg (Register.spr Spr.ctr) a b t h p q r =
    rw (h ss.sprs.lr os.sprs.lr arg.sprs.lr) cc
by_register-join_registers join ss os arg (Register.spr Spr.msr) a b t h p q r = cc
by_register-join_registers join ss os arg (Register.spr Spr.pc) a b t h p q r = cc
by_register-join_registers join ss os arg (Register.spr (Spr.other n)) a b t h p q r = cc
by_register-join_registers join ss os arg (Register.spr (Spr.xer XerRegister.so)) a b t h p q r = cc
by_register-join_registers join ss os arg (Register.spr (Spr.xer XerRegister.ov)) a b t h p q r = cc
by_register-join_registers join ss os arg (Register.spr (Spr.xer XerRegister.ca)) a b t h p q r = cc
