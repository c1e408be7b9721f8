-- ===== src/Workflow/Registry/Walks.antt =====
-- How long a run of an accepted definition can be.
use ai_knowledge_hub.Base.{
  ℕ, zero, suc, ◌<◌, ◌≡◌, sym, subst, ◌∙◌, String, true, some, List, [], ◌∷◌, ok, any, length,
  arith, str_eq, eq_iff, Bool-cases, inl, inr,
}
use ai_knowledge_hub.Workflow.Definition.{StepDefinition, Definition, step_ids, outgoing_step_ids}
use ai_knowledge_hub.Workflow.Registry.{NodeRegistry, validate_definition, find_step}
use ai_knowledge_hub.Workflow.Registry.Order.{Within, Ordered, validate_definition-IsOrder}

-- A walk of `n` edges from a step.
abbrev pub Walk : List StepDefinition → String → ℕ → Type 0
Walk steps id zero = Unit
Walk steps id (suc n) =
    (s : StepDefinition) × (find_step steps id ≡ some s)
    × ((t : String) × (any (str_eq t) (outgoing_step_ids s) ≡ true) × Walk steps t n)

Within-any :
    (seen targets : List String) (t : String)
    → Within seen targets
    → any (str_eq t) targets ≡ true
    → any (str_eq t) seen ≡ true
Within-any seen [] t w h = cc
Within-any seen (u ∷ targets) t w h = elim (Bool-cases (str_eq t u)) [
  | inl e ↦ subst (λ i. any (str_eq i) seen ≡ true) (sym ((eq_iff t u).0 e)) w.0
  | inr e ↦ Within-any seen targets t w.1 (ground arith)
]

Walk-Ordered :
    (steps : List StepDefinition) (order : List String) (id : String) (n : ℕ)
    → Ordered steps order
    → any (str_eq id) order ≡ true
    → Walk steps id n
    → n < length order
Walk-Ordered steps [] id n o m w = cc
Walk-Ordered steps (i ∷ order) id zero o m w = omega arith
Walk-Ordered steps (i ∷ order) id (suc n) o m w = elim (Bool-cases (str_eq id i)) [
  | inr e ↦ omega (arith, Walk-Ordered steps order id (suc n) o.1 (ground arith) w)
  | inl e ↦
      let (s, f, (t, out, rest)) = w in
      let (s', f', within) = o.0 in
      let g : find_step steps i ≡ some s =
        subst (λ k. find_step steps k ≡ some s) ((eq_iff id i).0 e) f in
      let r : some s' ≡ some s = sym f' ∙ g in
      let q : s' ≡ s = cc in
      omega (
        arith,
        Walk-Ordered steps order t n o.1
            (Within-any order (outgoing_step_ids s') t within
              (subst (λ x. any (str_eq t) (outgoing_step_ids x) ≡ true) (sym q) out))
            rest,
      )
]

-- From a step of an accepted definition, no walk along successors has as many edges as there are
-- steps.
pub validate_definition-Walk :
    (registry : NodeRegistry) (d : Definition) {u : Unit {0}} (id : String) (n : ℕ)
    → validate_definition registry d ≡ some (ok u)
    → any (str_eq id) (step_ids d.steps) ≡ true
    → Walk d.steps id n
    → n < length d.steps
validate_definition-Walk registry d id n h m w =
    let (order, (ordered, _, within, short)) = validate_definition-IsOrder registry d h in
    omega (
      arith,
      Walk-Ordered d.steps order id n ordered (Within-any order (step_ids d.steps) id within m) w,
    )
