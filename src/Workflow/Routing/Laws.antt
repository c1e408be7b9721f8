-- ===== src/Workflow/Routing/Laws.antt =====
-- What a successful field mapping holds, and where a branch can lead.
use ai_knowledge_hub.Base.{
  Option-cases, Result-cases, ◌∙◌, All, Result, not, is_some, subst, ◌⊎◌, inl, inr, String, ◌≡◌,
  refl, sym, true, false, Option, none, some, List, [], ◌∷◌, map, ok, err, arith, any, find_first,
  str_eq, eq_iff, eq_refl, or_raise, or_raise-eq-ok, >>=-eq-ok,
}
use ai_knowledge_hub.Workflow.Error.{Error, workflow_input_mapping, workflow_branch_resolution}
use ai_knowledge_hub.Workflow.Payload.{Value, Payload, get, put, get-put}
use ai_knowledge_hub.Workflow.Definition.{
  has_duplicates, branch_targets, InputBinding, BranchCase, BranchDefinition, StepDefinition,
  outgoing_step_ids,
}
use ai_knowledge_hub.Workflow.Routing.{
  select_from, source_for, map_fields, build_node_input, select_branch_target, select_next_step_id,
  as_text,
}

target_of_find :
    (cases : List BranchCase) (value : String) (c : BranchCase)
    → find_first (λ c. str_eq c.expected_value value) cases ≡ some c
    → any (str_eq c.next_step_id) (map (λ c. c.next_step_id) cases) ≡ true
target_of_find [] value c h = cc
target_of_find (k ∷ cases) value c h =
    ground (arith, target_of_find cases value c, eq_iff c.next_step_id k.next_step_id)

select_branch_target-any :
    (b : BranchDefinition) (output : Payload) {t : String}
    → select_branch_target b output ≡ ok t
    → any (str_eq t) (map (λ c. c.next_step_id) b.cases) ≡ true
unfolding select_branch_target
select_branch_target-any b output {t} h =
    let (v, _, h₁) =
      >>=-eq-ok (or_raise (get b.selector_field output) workflow_branch_resolution) _ h in
    let (s, _, h₂) = >>=-eq-ok (as_text v) _ h₁ in
    let (c, found, h₃) =
      >>=-eq-ok
        (or_raise (find_first (λ c. str_eq c.expected_value s) b.cases) workflow_branch_resolution)
        _ h₂ in
    let e : c.next_step_id ≡ t = cc in
    subst (λ u. any (str_eq u) (map (λ c. c.next_step_id) b.cases) ≡ true) e
      (target_of_find b.cases s c (or_raise-eq-ok _ _ found))

-- A selected step is one of the declared successors, and nothing is selected only where none is
-- declared.
abbrev pub Selects : List String → Option String → Type 0
Selects targets none = targets ≡ []
Selects targets (some t) = any (str_eq t) targets ≡ true

select_from-Selects :
    (branch : Option BranchDefinition) (linear next : Option String) (output : Payload)
    → select_from branch linear output ≡ ok next
    → Selects (branch_targets branch linear) next
select_from-Selects none none none output h = refl
select_from-Selects none none (some t) output h = cc
select_from-Selects none (some l) none output h = cc
select_from-Selects none (some l) (some t) output h = ground (arith, eq_iff t l)
select_from-Selects (some b) linear none output h =
    let (t, _, e) = >>=-eq-ok (select_branch_target b output) _ h in absurd (cc)
select_from-Selects (some b) linear (some t) output h =
    let (u, p, e) = >>=-eq-ok (select_branch_target b output) _ h in
    let q : u ≡ t = cc in
    subst (λ u. any (str_eq u) (map (λ c. c.next_step_id) b.cases) ≡ true) q
      (select_branch_target-any b output p)

-- Whatever a node returns, the next step that the resolver selects is a declared successor of the
-- step, and it selects none only for a step that declares no successor.
pub select_next_step_id-Selects :
    (step : StepDefinition) (output : Payload) {next : Option String}
    → select_next_step_id step output ≡ ok next
    → Selects (outgoing_step_ids step) next
unfolding select_next_step_id outgoing_step_ids
select_next_step_id-Selects step output h =
    select_from-Selects step.branch step.next_step_id _ output h

-- What a binding copies: the field of its source, if there is a source with that field.
abbrev pub bound_value : Payload → Option Payload → InputBinding → Option Value
bound_value input previous b = elim (source_for b.source input previous) [
  | ok source ↦ get b.source_field source
  | err _ ↦ none
]

-- The outcome of `build_node_input`: either each binding has a value, which stands in the result
-- under the binding's target field, or one has none, and the error is the mapping error.
pub data Mapped (input : Payload) (previous : Option Payload) (bindings : List InputBinding)
    : Result Error Payload → Type 0 where
  copied :
      (d : Payload)
      → All
          (λ b.
            (v : Value) × (bound_value input previous b ≡ some v) × (get b.target_field d ≡ some v))
          bindings
      → Mapped input previous bindings (ok d)
  unbound :
      any (λ b. not (is_some (bound_value input previous b))) bindings ≡ true
      → Mapped input previous bindings (err workflow_input_mapping)

abbrev targets : List InputBinding → List String
targets = map (λ b. b.target_field)

module _ (input : Payload) (previous : Option Payload) where
  -- One round of the loop, by whether the binding has a value.
  map_fields-step :
      (b : InputBinding) (bindings : List InputBinding) (acc : Payload)
      → ((bound_value input previous b ≡ none)
          × (map_fields (b ∷ bindings) input previous acc ≡ err workflow_input_mapping))
        ⊎ ((v : Value) × (bound_value input previous b ≡ some v)
            × (map_fields (b ∷ bindings) input previous acc
                ≡ map_fields bindings input previous (put b.target_field v acc)))
  unfolding map_fields
  map_fields-step b bindings acc = elim (Result-cases (source_for b.source input previous)) [
    | inl (d, e) ↦ elim (Option-cases (get b.source_field d)) [
      | inl p ↦ inl (rw (e, bound_value) p, rw (e, p))
      | inr (v, p) ↦ inr (v, rw (e, bound_value) p, rw (e, p))
    ]
    | inr (x, e) ↦ inl (rw (e, bound_value), ground arith)
  ]

  map_fields-untouched :
      (bindings : List InputBinding) (acc d : Payload) (j : String)
      → map_fields bindings input previous acc ≡ ok d
      → any (str_eq j) (targets bindings) ≡ false
      → get j d ≡ get j acc
  map_fields-untouched [] acc d j h n = unfold map_fields in cc
  map_fields-untouched (b ∷ bindings) acc d j h n = elim (map_fields-step b bindings acc) [
    | inl (_, e) ↦ absurd (cc)
    | inr (v, _, e) ↦
        map_fields-untouched bindings (put b.target_field v acc) d j (sym e ∙ h) (ground arith)
        ∙ rw get-put (ground (arith, eq_iff b.target_field j, eq_iff j b.target_field))
  ]

  map_fields-copies :
      (bindings : List InputBinding) (acc d : Payload)
      → map_fields bindings input previous acc ≡ ok d
      → has_duplicates (targets bindings) ≡ false
      → All
          (λ b.
            (v : Value) × (bound_value input previous b ≡ some v) × (get b.target_field d ≡ some v))
          bindings
  unfolding has_duplicates
  map_fields-copies [] acc d h n = tt
  map_fields-copies (b ∷ bindings) acc d h n = elim (map_fields-step b bindings acc) [
    | inl (_, e) ↦ absurd (cc)
    | inr (v, p, e) ↦ (
      (
        v,
        p,
        map_fields-untouched bindings (put b.target_field v acc) d b.target_field (sym e ∙ h)
              (ground arith)
            ∙ rw (get-put, eq_refl),
      ),
      map_fields-copies bindings (put b.target_field v acc) d (sym e ∙ h) (ground arith),
    )
  ]

  map_fields-unbound :
      (bindings : List InputBinding) (acc : Payload) (e : Error)
      → map_fields bindings input previous acc ≡ err e
      → (e ≡ workflow_input_mapping)
        × (any (λ b. not (is_some (bound_value input previous b))) bindings ≡ true)
  map_fields-unbound [] acc e h = unfold map_fields in absurd (cc)
  map_fields-unbound (b ∷ bindings) acc e h = elim (map_fields-step b bindings acc) [
    | inl (p, q) ↦ (cc, rw p)
    | inr (v, p, q) ↦
        let (a, u) = map_fields-unbound bindings (put b.target_field v acc) e (sym q ∙ h) in
        (a, rw (p, u))
  ]

-- For a step whose bindings have distinct target fields, as a constructed step's have,
-- `build_node_input` either returns an object that holds, under each target field, the value of the
-- binding's source field; or some binding has no source or no such field, and the mapping error is
-- raised.
pub build_node_input-Mapped :
    (step : StepDefinition) (input : Payload) (previous : Option Payload)
    → has_duplicates (map (λ b. b.target_field) step.input_bindings) ≡ false
    → Mapped input previous step.input_bindings (build_node_input step input previous)
unfolding build_node_input
build_node_input-Mapped step input previous n = go _ refl
  where
    go :
        (r : Result Error Payload)
        → map_fields step.input_bindings input previous [] ≡ r
        → Mapped input previous step.input_bindings r
    go (ok d) e = copied d (map_fields-copies input previous step.input_bindings [] d e n)
    go (err x) e =
        let (a, u) = map_fields-unbound input previous step.input_bindings [] x e in
        rw a (unbound u)
