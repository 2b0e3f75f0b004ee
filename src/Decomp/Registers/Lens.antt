-- ===== src/Decomp/Registers/Lens.antt =====
-- What a change of one register does to every register.
use doldisasm.Base.{
  ℕ, zero, suc, Bool, true, false, ◌&&◌, ◌==◌, if◌then◌else◌, List, [], ◌∷◌, ◌≡◌, refl, sym, ap,
  ◌∙◌, Bool-cases, inl, inr, arith,
}
use doldisasm.Base.Checked.{Checked, returns, ◌>>=◌, >>=-eq-returns}
use doldisasm.Ppc.Instruction.{Crb, XerRegister, Spr, MicroSpr, Register}
use doldisasm.Decomp.Registers.{
  CrFieldState, SprState, RegisterState, element, change, bit_of, change_bit, cr, cr_mut, by_spr,
  change_spr, by_register, change_register,
}

abbrev pub same_bit : Crb → Crb → Bool
same_bit Crb.negative Crb.negative = true
same_bit Crb.positive Crb.positive = true
same_bit Crb.zero_bit Crb.zero_bit = true
same_bit Crb.overflow Crb.overflow = true
same_bit _ _ = false

abbrev pub same_spr : MicroSpr → MicroSpr → Bool
same_spr Spr.lr Spr.lr = true
same_spr Spr.ctr Spr.ctr = true
same_spr Spr.msr Spr.msr = true
same_spr Spr.pc Spr.pc = true
same_spr (Spr.xer XerRegister.so) (Spr.xer XerRegister.so) = true
same_spr (Spr.xer XerRegister.ov) (Spr.xer XerRegister.ov) = true
same_spr (Spr.xer XerRegister.ca) (Spr.xer XerRegister.ca) = true
same_spr (Spr.other m) (Spr.other n) = m == n
same_spr _ _ = false

abbrev pub same_register : Register → Register → Bool
same_register (Register.gpr g) (Register.gpr h) = g == h
same_register (Register.cr i b) (Register.cr j c) = i == j && same_bit b c
same_register (Register.spr s) (Register.spr t) = same_spr s t
same_register _ _ = false

moved :
    {A : Type 0} (x : A) (xs ys ys' : List A) (i j : ℕ) (f : A → Checked A)
    → returns (x ∷ ys') ≡ returns ys
    → ((k : ℕ) → element ys' k ≡ (if k == i then element xs i >>= f else element xs k))
    → element ys j ≡ (if j == suc i then element xs i >>= f else element (x ∷ xs) j)
unfolding element
moved x xs ys ys' i zero f e h = ground arith
moved x xs ys ys' i (suc j) f e h = ground (arith, h j)

pub element-change :
    {A : Type 0} (xs ys : List A) (i j : ℕ) (f : A → Checked A)
    → change xs i f ≡ returns ys
    → element ys j ≡ (if j == i then element xs i >>= f else element xs j)
unfolding element change
element-change [] ys i j f e = cc
element-change (x ∷ xs) ys zero zero f e = ground arith
element-change (x ∷ xs) ys zero (suc j) f e = ground arith
element-change (x ∷ xs) ys (suc i) j f e =
    let (ys', changed, same) = >>=-eq-returns (change xs i f) _ e in
    moved x xs ys ys' i j f same (λ k. element-change xs ys' i k f changed)

by_spr-change_spr :
    {S : Type 0} (s s' : SprState S) (r t : MicroSpr) (f : S → Checked S)
    → change_spr r f s ≡ returns s'
    → by_spr s' t ≡ (if same_spr t r then by_spr s r >>= f else by_spr s t)
unfolding by_spr change_spr
by_spr-change_spr s s' r t f e = ground arith

pub change-element :
    {A : Type 0} (xs ys : List A) (i : ℕ) (f : A → Checked A)
    → change xs i f ≡ returns ys
    → (x : A) × (y : A) × (element xs i ≡ returns x) × (f x ≡ returns y)
unfolding element change
change-element [] ys i f e = cc
change-element (x ∷ xs) ys zero f e =
    let (y, made, same) = >>=-eq-returns (f x) _ e in (x, y, refl, made)
change-element (x ∷ xs) ys (suc i) f e =
    let (ys', changed, same) = >>=-eq-returns (change xs i f) _ e in
    change-element xs ys' i f changed

bit_of-change_bit :
    {S : Type 0} (field field' : CrFieldState S) (b c : Crb) (f : S → Checked S)
    → change_bit b f field ≡ returns field'
    → returns (bit_of field' c)
      ≡ (if same_bit c b then f (bit_of field b) else returns (bit_of field c))
bit_of-change_bit field field' b c f e = ground arith

cr-cr_mut :
    {S : Type 0} (s s' : SprState S) (i j : ℕ) (b c : Crb) (f : S → Checked S)
    → cr_mut s i b f ≡ returns s'
    → cr s' j c ≡ (if j == i && same_bit c b then cr s i b >>= f else cr s j c)
unfolding cr cr_mut
cr-cr_mut s s' i j b c f e =
    let (fields, changed, same) = >>=-eq-returns (change s.cr i (change_bit b f)) _ e in
    let (field, field', found, made) = change-element s.cr fields i (change_bit b f) changed in
    ground (
      arith,
      element-change s.cr fields i j (change_bit b f) changed,
      bit_of-change_bit field field' b c f made,
    )

by_spr-cr_mut :
    {S : Type 0} (s s' : SprState S) (i : ℕ) (b : Crb) (t : MicroSpr) (f : S → Checked S)
    → cr_mut s i b f ≡ returns s'
    → by_spr s' t ≡ by_spr s t
unfolding cr_mut by_spr
by_spr-cr_mut s s' i b t f e =
    let (fields, changed, same) = >>=-eq-returns (change s.cr i (change_bit b f)) _ e in
    ground arith

cr-change_spr :
    {S : Type 0} (s s' : SprState S) (r : MicroSpr) (j : ℕ) (c : Crb) (f : S → Checked S)
    → change_spr r f s ≡ returns s'
    → cr s' j c ≡ cr s j c
unfolding cr change_spr
cr-change_spr s s' r j c f e = ground arith

-- Whatever the change of a register does, if it returns: the register then holds what the change
-- made of it, and every other register reads as before, or panics as before.
pub by_register-change_register :
    {S : Type 0} (rs rs' : RegisterState S) (r t : Register) (f : S → Checked S)
    → change_register rs r f ≡ returns rs'
    → by_register rs' t ≡ (if same_register t r then by_register rs r >>= f else by_register rs t)
unfolding by_register change_register
by_register-change_register rs rs' (Register.gpr g) (Register.gpr h) f e =
    let (gprs, changed, same) = >>=-eq-returns (change rs.gprs g f) _ e in
    ground (arith, element-change rs.gprs gprs g h f changed)
by_register-change_register rs rs' (Register.gpr g) (Register.cr j c) f e = ground arith
by_register-change_register rs rs' (Register.gpr g) (Register.spr t) f e = ground arith
by_register-change_register rs rs' (Register.cr i b) (Register.gpr h) f e = ground arith
by_register-change_register rs rs' (Register.cr i b) (Register.cr j c) f e =
    let (sprs, changed, same) = >>=-eq-returns (cr_mut rs.sprs i b f) _ e in
    ground (arith, cr-cr_mut rs.sprs sprs i j b c f changed)
by_register-change_register rs rs' (Register.cr i b) (Register.spr t) f e =
    let (sprs, changed, same) = >>=-eq-returns (cr_mut rs.sprs i b f) _ e in
    ground (arith, by_spr-cr_mut rs.sprs sprs i b t f changed)
by_register-change_register rs rs' (Register.spr s) (Register.gpr h) f e = ground arith
by_register-change_register rs rs' (Register.spr s) (Register.cr j c) f e =
    let (sprs, changed, same) = >>=-eq-returns (change_spr s f rs.sprs) _ e in
    ground (arith, cr-change_spr rs.sprs sprs s j c f changed)
by_register-change_register rs rs' (Register.spr s) (Register.spr t) f e =
    let (sprs, changed, same) = >>=-eq-returns (change_spr s f rs.sprs) _ e in
    ground (arith, by_spr-change_spr rs.sprs sprs s t f changed)

pub same_register_sound : (t r : Register) → same_register t r ≡ true → t ≡ r
same_register_sound t r e = ground arith

-- With the state that the change is of written as the state of the register read.
pub by_register-change_register_at :
    {S : Type 0} (rs rs' : RegisterState S) (r t : Register) (f : S → Checked S)
    → change_register rs r f ≡ returns rs'
    → by_register rs' t ≡ (if same_register t r then by_register rs t >>= f else by_register rs t)
by_register-change_register_at rs rs' r t f e = elim (Bool-cases (same_register t r)) [
  | inl same ↦
      by_register-change_register rs rs' r t f e
      ∙ rw (same) (ap (λ k. by_register rs k >>= f) (sym (same_register_sound t r same)))
  | inr other ↦ by_register-change_register rs rs' r t f e ∙ rw (other) refl
]
