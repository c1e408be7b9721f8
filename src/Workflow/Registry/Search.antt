-- ===== src/Workflow/Registry/Search.antt =====
-- The search of a definition's steps: it ends within its fuel.
use ai_knowledge_hub.Base.{
  ℕ, zero, suc, ◌≤◌, ◌<◌, ◌≡◌, refl, ap, subst, String, true, false, not, Option, none, some, List,
  [], ◌∷◌, ok, err, any, count, length, arith, str_eq, eq_iff, Bool-cases, Option-cases, inl, inr,
  Result-cases, ◌≢◌, ◌++◌,
}
use ai_knowledge_hub.Base.Table.{find-test}
use ai_knowledge_hub.Workflow.Definition.{
  same_type, StepDefinition, Definition, step_ids, outgoing_step_ids,
}
use ai_knowledge_hub.Workflow.Registry.{
  DefinitionRegistry, register_definitions, has_identity, NodeRegistry, validate_definition,
  check_steps, continue, find_step, Search, visit, visit_all, search_fuel,
}

-- How many of the ids are not in a list.
abbrev pub unseen : List String → List String → ℕ
unseen seen = count (λ i. not (any (str_eq i) seen))

pub unseen-cons-le : (i : String) (seen ids : List String) → unseen (i ∷ seen) ids ≤ unseen seen ids
unseen-cons-le i seen [] = omega arith
unseen-cons-le i seen (j ∷ ids) = ground (arith, unseen-cons-le i seen ids)

pub unseen-cons-lt :
    (i : String) (seen ids : List String)
    → any (str_eq i) ids ≡ true
    → any (str_eq i) seen ≡ false
    → unseen (i ∷ seen) ids < unseen seen ids
unseen-cons-lt i seen [] h n = cc
unseen-cons-lt i seen (j ∷ ids) h n = elim (Bool-cases (str_eq i j)) [
  | inl e ↦
      let q : i ≡ j = (eq_iff i j).0 e in ground (arith, eq_iff j i, unseen-cons-le i seen ids)
  | inr e ↦ ground (arith, eq_iff j i, eq_iff i j, unseen-cons-lt i seen ids)
]

pub unseen-nil : (ids : List String) → unseen [] ids ≡ length ids
unseen-nil [] = refl
unseen-nil (i ∷ ids) = ap suc (unseen-nil ids)

pub length-ids : (steps : List StepDefinition) → length (step_ids steps) ≡ length steps
length-ids [] = refl
length-ids (s ∷ steps) = ap suc (length-ids steps)

pub find_step-id :
    (steps : List StepDefinition) (id : String) (s : StepDefinition)
    → find_step steps id ≡ some s
    → s.step_id ≡ id
unfolding find_step
find_step-id steps id s h =
    (eq_iff s.step_id id).0 ((find-test (λ (s : StepDefinition). str_eq s.step_id id) steps s h).0)

pub any-find_step :
    (steps : List StepDefinition) (id : String) (s : StepDefinition)
    → find_step steps id ≡ some s
    → any (str_eq id) (step_ids steps) ≡ true
unfolding find_step
any-find_step [] id s h = cc
any-find_step (t ∷ steps) id s h =
    ground (arith, any-find_step steps id s, eq_iff t.step_id id, eq_iff id t.step_id)

-- A search that ends gives a set or an error.
abbrev pub Ends {ℓ} : {A : Type ℓ} → Option A → Type 0
Ends none = ⊥
Ends (some c) = Unit

continue-Ends :
    (m : Search) (k : List String → Search)
    → Ends m
    → ((seen : List String) → Ends (k seen))
    → Ends (continue m k)
continue-Ends none k h g = h
continue-Ends (some (err e)) k h g = tt
continue-Ends (some (ok seen)) k h g = g seen

visit_all-Ends :
    (go : StepDefinition → List String → Search) (steps : List StepDefinition)
    (targets reachable : List String)
    → ((next : StepDefinition) (id : String) (seen : List String)
        → find_step steps id ≡ some next
        → Ends (go next seen))
    → Ends (visit_all go steps targets reachable)
unfolding visit_all
visit_all-Ends go steps [] reachable h = tt
visit_all-Ends go steps (id ∷ targets) reachable h = elim (Option-cases (find_step steps id)) [
  | inl e ↦ rw (e, visit_all) tt
  | inr (next, e) ↦
      rw (e, visit_all)
        (continue-Ends (go next reachable) (visit_all go steps targets) (h next id reachable e)
          (λ seen. visit_all-Ends go steps targets seen h))
]

-- More fuel than there are steps off the way to this one is enough.
pub visit-Ends :
    (fuel : ℕ) (steps : List StepDefinition) (visiting : List String) (step : StepDefinition)
    (reachable : List String)
    → any (str_eq step.step_id) (step_ids steps) ≡ true
    → unseen visiting (step_ids steps) < fuel
    → Ends (visit fuel steps visiting step reachable)
unfolding visit
visit-Ends zero steps visiting step reachable m h = absurd (omega arith)
visit-Ends (suc fuel) steps visiting step reachable m h =
    elim (Bool-cases (any (str_eq step.step_id) visiting)) [
      | inl e ↦ rw (e, visit) tt
      | inr e ↦ elim (Bool-cases (any (str_eq step.step_id) reachable)) [
        | inl f ↦ rw (e, f, visit) tt
        | inr f ↦
            rw (e, f, visit)
              (continue-Ends _ _
                (visit_all-Ends (visit fuel steps (step.step_id ∷ visiting)) steps
                  (outgoing_step_ids step) reachable
                  (λ next id seen q.
                    visit-Ends fuel steps (step.step_id ∷ visiting) next seen
                      (rw (find_step-id steps id next q) (any-find_step steps id next q))
                      (omega (arith, unseen-cons-lt step.step_id visiting (step_ids steps) m e))))
                (λ seen. tt))
      ]
    ]

-- The fuel of `validate_definition` is enough: no definition makes it run out.
pub validate_definition-Ends :
    (registry : NodeRegistry) (d : Definition) → Ends (validate_definition registry d)
unfolding validate_definition
validate_definition-Ends registry d = elim (Result-cases (check_steps registry d d.steps [])) [
  | inr (x, e) ↦ rw (e, validate_definition) tt
  | inl (_, e) ↦ elim (Option-cases (find_step d.steps d.start_step_id)) [
    | inl f ↦ rw (e, f, validate_definition) tt
    | inr (first, f) ↦ elim (Bool-cases (same_type d.input_type first.input_type)) [
      | inr g ↦ rw (e, f, g, validate_definition) tt
      | inl g ↦
          let m : any (str_eq first.step_id) (step_ids d.steps) ≡ true =
            rw (find_step-id d.steps d.start_step_id first f)
              (any-find_step d.steps d.start_step_id first f) in
          let ends =
            visit-Ends (search_fuel d.steps) d.steps [] first [] m
              (omega (arith, unseen-nil (step_ids d.steps), length-ids d.steps)) in
          elim (Option-cases (visit (search_fuel d.steps) d.steps [] first [])) [
            | inl n ↦ absurd (subst Ends n ends)
            | inr (err x, n) ↦ rw (e, f, g, n, validate_definition) tt
            | inr (ok seen, n) ↦ rw (e, f, g, n, validate_definition) tt
          ]
    ]
  ]
]

register-Ends :
    (nodes : NodeRegistry) (definitions : List Definition) (registered : DefinitionRegistry)
    → Ends (register_definitions nodes definitions registered)
unfolding register_definitions
register-Ends nodes [] registered = tt
register-Ends nodes (d ∷ definitions) registered =
    elim (Bool-cases (any (has_identity d.key d.version) registered)) [
      | inl e ↦ rw (e, register_definitions) tt
      | inr e ↦ elim (Option-cases (validate_definition nodes d)) [
        | inl n ↦ absurd (subst Ends n (validate_definition-Ends nodes d))
        | inr (err x, n) ↦ rw (e, n, register_definitions) tt
        | inr (ok _, n) ↦
            rw (e, n, register_definitions) (register-Ends nodes definitions (registered ++ d ∷ []))
      ]
    ]

-- Building a registry ends: whatever the nodes and the definitions are, with cycles or without, the
-- search never runs out of fuel, so the registry is built or an error is raised.
pub register_definitions_ends :
    (nodes : NodeRegistry) (definitions : List Definition)
    → register_definitions nodes definitions [] ≢ none
register_definitions_ends nodes definitions e = subst Ends e (register-Ends nodes definitions [])
