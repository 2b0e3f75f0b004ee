-- ===== src/Decomp/Paths/Preserves.antt =====
-- An invariant of a visitor through the visit of a path.
use doldisasm.Base.{ℕ, zero, suc, ◌+◌, Bool, true, false, not, ◌&&◌, ◌==◌, Bool-cases, contains}
use doldisasm.Base.{Option, none, some, [], ◌∷◌, ◌≡◌, subst, inl, inr}
use doldisasm.Base.Fueled.{Fueled, done, lift-eq-done, >>=-eq-done}
use doldisasm.Ppc.Instruction.{Instruction}
use doldisasm.Decomp.Cfg.{InstId, Instructions}
use doldisasm.Decomp.Generations.{Registers}
use doldisasm.Decomp.Paths.{
  VisitPathResult, JoinResult, diverging, value, VisitorStaticData, VisitorCx, VisitPath, Place,
  VisitInstruction, block_state, unwrap_state, is_end, has_result, go_on_if, visit_from, from_start,
  visit_path, common_merge, phi_locals_of, visit_and_join_paths,
}

module _ {V : Type 0} (Inv : V → Type 0) where
  abbrev pub PathKeeps : VisitPath V → Type 0
  PathKeeps path =
      (v : V) (cx : VisitorCx) (prev : Option Registers) (start : InstId) (end : Option InstId)
      (w : V × VisitPathResult)
      → Inv v
      → path v cx prev start end ≡ done w
      → Inv w.0

  abbrev pub Keeps : VisitInstruction V → Type 0
  Keeps visit =
      (path : VisitPath V)
      → PathKeeps path
      → (v : V) (cx : VisitorCx) (inst : Instruction) (place : Place) (state : Registers)
        (w : V × Registers × Bool)
      → Inv v
      → visit path v cx inst place state ≡ done w
      → Inv w.0

  go_on_if-keeps :
      (next : V → Registers → Fueled (V × VisitPathResult)) (v : V) (state : Registers) (b : Bool)
      (w : V × VisitPathResult)
      → ((v : V) (state : Registers) (w : V × VisitPathResult)
          → Inv v
          → next v state ≡ done w
          → Inv w.0)
      → Inv v
      → go_on_if next (v, state, b) ≡ done w
      → Inv w.0
  go_on_if-keeps next v state true w rest inv e = rest v state w inv e
  go_on_if-keeps next v state false w rest inv e =
      let same : ◌≡◌ {A = V × VisitPathResult} (v, value state) w = cc in
      subst (λ w. Inv w.0) same inv

  module _ (visit : VisitInstruction V) (keeps : Keeps visit) (cx_data : VisitorStaticData) where
    visit_from-keeps :
        (path : VisitPath V)
        → PathKeeps path
        → (cx : VisitorCx) (start : InstId) (end : Option InstId) (i : InstId)
          (insts : Instructions) (v : V) (state : Registers) (w : V × VisitPathResult)
        → Inv v
        → visit_from visit path cx_data cx start end i insts v state ≡ done w
        → Inv w.0
    unfolding visit_from
    visit_from-keeps path kept cx start end i [] v state w inv e =
        let same : ◌≡◌ {A = V × VisitPathResult} (v, value state) w = cc in
        subst (λ w. Inv w.0) same inv
    visit_from-keeps path kept cx start end i ((address, inst) ∷ insts) v state w inv e =
        elim (Bool-cases (not (i == 0) && has_result (cx_data.results (start + i)))) [
          | inl block ↦ kept v cx (some state) (start + i) end w inv (rw block at e)
          | inr inside ↦
              let ((v1, s1, b), one, rest) =
                >>=-eq-done
                  (visit path v cx inst
                    (record {
                      idx = i;
                      absolute_idx = start + i;
                      end_idx = end;
                      inst_addr = address;
                    })
                    state)
                  _ (rw inside at e) in
              go_on_if-keeps (visit_from visit path cx_data cx start end (i + 1) insts) v1 s1 b w
                (visit_from-keeps path kept cx start end (i + 1) insts)
                (keeps path kept v cx inst
                  (record { idx = i; absolute_idx = start + i; end_idx = end; inst_addr = address })
                  state (v1, s1, b) inv one)
                rest
        ]

    unwrap_state-keeps :
        (v : V) (prev : Option Registers) (w : V × VisitPathResult)
        → Inv v
        → unwrap_state v prev ≡ done w
        → Inv w.0
    unwrap_state-keeps v none w inv e = cc
    unwrap_state-keeps v (some state) w inv e =
        let same : ◌≡◌ {A = V × VisitPathResult} (v, value state) w = cc in
        subst (λ w. Inv w.0) same inv

    -- What every instruction's visit preserves, as long as the visits of paths that it makes do, the
    -- visit of a path preserves, on any fuel on which it returns.
    pub visit_path-keeps : (fuel : ℕ) → PathKeeps (visit_path visit cx_data fuel)
    unfolding visit_path
    visit_path-keeps zero v cx prev start end w inv e = cc
    visit_path-keeps (suc fuel) v cx prev start end w inv e =
        elim (Bool-cases (contains cx start)) [
          | inl again ↦
              let entered : ◌≡◌ {A = Fueled (V × VisitPathResult)} (done (v, diverging)) (done w) =
                rw again at e in
              let same : ◌≡◌ {A = V × VisitPathResult} (v, diverging) w = cc in
              subst (λ w. Inv w.0) same inv
          | inr fresh ↦
              let (state, found, rest) =
                lift-eq-done (block_state start (cx_data.results start)) _ (rw fresh at e) in
              elim (Bool-cases (is_end start end)) [
                | inl over ↦ unwrap_state-keeps v prev w inv (rw over at rest)
                | inr more ↦
                    let (insts, sliced, last) =
                      lift-eq-done (from_start cx_data.insts start) _ (rw more at rest) in
                    visit_from-keeps (visit_path visit cx_data fuel) (visit_path-keeps fuel)
                      (start ∷ cx) start end 0 insts v state w inv last
              ]
        ]

  -- The same for two paths and their join.
  pub visit_and_join_paths-keeps :
      (cx_data : VisitorStaticData) (path : VisitPath V)
      → PathKeeps path
      → (fuel : ℕ) (v : V) (cx : VisitorCx) (prev : Registers) (true_idx false_idx : InstId)
        (w : V × JoinResult)
      → Inv v
      → visit_and_join_paths path cx_data fuel v cx prev true_idx false_idx ≡ done w
      → Inv w.0
  unfolding visit_and_join_paths
  visit_and_join_paths-keeps cx_data path kept fuel v cx prev true_idx false_idx w inv e =
      let (merge, found, rest) =
        >>=-eq-done (common_merge cx_data.succs fuel true_idx false_idx) _ e in
      let (on_true, first, rest1) = >>=-eq-done (path v cx (some prev) true_idx merge) _ rest in
      let (on_false, second, rest2) =
        >>=-eq-done (path on_true.0 cx (some prev) false_idx merge) _ rest1 in
      let (phis, joined, last) =
        lift-eq-done (phi_locals_of cx_data.results merge on_true.1 on_false.1) _ rest2 in
      let same : on_false.0 ≡ w.0 = cc in
      subst Inv same (
        kept on_true.0 cx (some prev) false_idx merge on_false
          (kept v cx (some prev) true_idx merge on_true inv first) second)
