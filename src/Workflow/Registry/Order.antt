-- ===== src/Workflow/Registry/Order.antt =====
-- What an accepted definition looks like: its steps stand in an order that every edge follows.
use ai_knowledge_hub.Base.{
  ℕ, zero, suc, ◌+◌, ◌≤◌, ◌≡◌, refl, sym, subst, String, true, false, Option, none, some, List, [],
  ◌∷◌, ok, err, any, all, All, length, arith, str_eq, eq_iff, eq_refl, Bool-cases, Option-cases,
  inl, inr, Result-cases,
}
use ai_knowledge_hub.Workflow.Definition.{
  same_type, Checked, StepDefinition, Definition, step_ids, outgoing_step_ids,
}
use ai_knowledge_hub.Workflow.Registry.{
  NodeRegistry, validate_definition, check_steps, continue, find_step, Search, visit, visit_all,
  search_fuel, check_reachable,
}
use ai_knowledge_hub.Workflow.Registry.Search.{
  unseen, unseen-cons-lt, any-find_step, unseen-nil, length-ids, find_step-id,
}

-- The steps that can run: the start, and the successors of one that can run.
pub data Reaches (steps : List StepDefinition) (start : String) : String → Type 0 where
  begins : Reaches steps start start
  follows :
      {id target : String} {s : StepDefinition}
      → Reaches steps start id
      → find_step steps id ≡ some s
      → any (str_eq target) (outgoing_step_ids s) ≡ true
      → Reaches steps start target

-- Every target is in the list.
abbrev pub Within : List String → List String → Type 0
Within seen = All (λ t. any (str_eq t) seen ≡ true)

-- Each id is of a step, whose successors all stand after it.
abbrev pub Ordered : List StepDefinition → List String → Type 0
Ordered steps [] = Unit
Ordered steps (id ∷ order) =
    ((s : StepDefinition) × (find_step steps id ≡ some s) × Within order (outgoing_step_ids s))
    × Ordered steps order

module _ (steps : List StepDefinition) (start : String) where
  pub record IsGood (seen : List String) : Type 0 where
    pub ordered : Ordered steps seen
    pub reached : All (Reaches steps start) seen
    pub bounded : length seen + unseen seen (step_ids steps) ≤ length steps

  -- What a search that began with `before` and ended with `after` has done.
  record Grows (visiting before after : List String) : Type 0 where
    good : IsGood after
    keeps : (j : String) → any (str_eq j) before ≡ true → any (str_eq j) after ≡ true
    avoids :
        (j : String)
        → any (str_eq j) visiting ≡ true
        → any (str_eq j) before ≡ false
        → any (str_eq j) after ≡ false

  Grows-refl : (visiting seen : List String) → IsGood seen → Grows visiting seen seen
  Grows-refl visiting seen g = record { good = g; keeps = λ j h. h; avoids = λ j v h. h }

  Visits : (StepDefinition → List String → Search) → List String → Type 0
  Visits go visiting =
      (next : StepDefinition) (before after : List String)
      → find_step steps next.step_id ≡ some next
      → Reaches steps start next.step_id
      → IsGood before
      → go next before ≡ some (ok after)
      → Grows visiting before after × (any (str_eq next.step_id) after ≡ true)

  continue-ok :
      (m : Search) (k : List String → Search) (after : List String)
      → continue m k ≡ some (ok after)
      → (mid : List String) × (m ≡ some (ok mid)) × (k mid ≡ some (ok after))
  continue-ok none k after h = cc
  continue-ok (some (err e)) k after h = cc
  continue-ok (some (ok mid)) k after h = (mid, refl, h)

  visit_all-Grows :
      (go : StepDefinition → List String → Search) (visiting : List String)
      → Visits go visiting
      → (id : String) (s : StepDefinition) → Reaches steps start id
      → find_step steps id ≡ some s
      → (targets before after : List String)
      → ((t : String) → any (str_eq t) targets ≡ true → any (str_eq t) (outgoing_step_ids s) ≡ true)
      → IsGood before
      → visit_all go steps targets before ≡ some (ok after)
      → Grows visiting before after × Within after targets
  unfolding visit_all Visits
  visit_all-Grows go visiting v id s r e [] before after sub g h =
      let q : before ≡ after = cc in
      (subst (Grows visiting before) q (Grows-refl visiting before g), tt)
  visit_all-Grows go visiting v id s r e (t ∷ targets) before after sub g h =
      elim (Option-cases (find_step steps t)) [
        | inl n ↦ cc (rw (n, visit_all) at h)
        | inr (next, f) ↦
            let same : next.step_id ≡ t = find_step-id steps t next f in
            let h' : continue (go next before) (visit_all go steps targets) ≡ some (ok after) =
              rw (f, visit_all) at h in
            let (mid, p, k) = continue-ok (go next before) (visit_all go steps targets) after h' in
            let (first, here) =
              v next before mid (subst (λ i. find_step steps i ≡ some next) (sym same) f)
                (subst (Reaches steps start) (sym same)
                  (follows r e (sub t (ground (arith, eq_refl t)))))
                g p in
            let (rest, there) =
              visit_all-Grows go visiting v id s r e targets mid after (λ u m. sub u (ground arith))
                first.good k in
            (
              record {
                good = rest.good;
                keeps = λ j m. rest.keeps j (first.keeps j m);
                avoids = λ j m n. rest.avoids j m (first.avoids j m n);
              },
              (rest.keeps t (subst (λ i. any (str_eq i) mid ≡ true) same here), there),
            )
      ]

  added :
      (visiting before done : List String) (next : StepDefinition)
      → find_step steps next.step_id ≡ some next
      → Reaches steps start next.step_id
      → any (str_eq next.step_id) visiting ≡ false
      → any (str_eq next.step_id) before ≡ false
      → Grows (next.step_id ∷ visiting) before done
      → Within done (outgoing_step_ids next)
      → Grows visiting before (next.step_id ∷ done)
        × (any (str_eq next.step_id) (next.step_id ∷ done) ≡ true)
  added visiting before done next e r n m grown within =
      let self : str_eq next.step_id next.step_id ≡ true = eq_refl next.step_id in
      let new : any (str_eq next.step_id) done ≡ false =
        grown.avoids next.step_id (ground arith) m in
      (
        record {
          good = record {
            ordered = ((next, e, within), grown.good.ordered);
            reached = (r, grown.good.reached);
            bounded = omega (
              arith,
              grown.good.bounded,
              unseen-cons-lt next.step_id done (step_ids steps)
                  (any-find_step steps next.step_id next e) new,
            );
          };
          keeps = λ j k. ground (arith, grown.keeps j);
          avoids = λ j v b. ground (arith, grown.avoids j, eq_iff j next.step_id);
        },
        ground arith,
      )

  visit-Visits : (fuel : ℕ) (visiting : List String) → Visits (visit fuel steps visiting) visiting
  unfolding visit Visits
  visit-Visits zero visiting next before after e r g h = cc
  visit-Visits (suc fuel) visiting next before after e r g h =
      elim (Bool-cases (any (str_eq next.step_id) visiting)) [
        | inl n ↦ cc (rw (n, visit) at h)
        | inr n ↦ elim (Bool-cases (any (str_eq next.step_id) before)) [
          | inl m ↦
              let h' : ◌≡◌ {A = Search} (some (ok before)) (some (ok after)) =
                rw (n, m, visit) at h in
              let q : before ≡ after = cc in
              (
                subst (Grows visiting before) q (Grows-refl visiting before g),
                subst (λ seen. any (str_eq next.step_id) seen ≡ true) q m,
              )
          | inr m ↦
              let inner = visit fuel steps (next.step_id ∷ visiting) in
              let add : List String → Search =
                λ (done : List String). some (ok (next.step_id ∷ done)) in
              let h' : continue (visit_all inner steps (outgoing_step_ids next) before) add
                  ≡ some (ok after) =
                rw (n, m, visit) at h in
              let (done, p, k) =
                continue-ok (visit_all inner steps (outgoing_step_ids next) before) add after h' in
              let (grown, within) =
                visit_all-Grows inner (next.step_id ∷ visiting)
                  (visit-Visits fuel (next.step_id ∷ visiting)) next.step_id next r e
                  (outgoing_step_ids next) before done (λ t u. u) g p in
              let q : (next.step_id ∷ done) ≡ after = cc in
              subst (λ seen. Grows visiting before seen × (any (str_eq next.step_id) seen ≡ true)) q
                (added visiting before done next e r n m grown within)
        ]
      ]

-- What the search of an accepted definition found.
abbrev pub IsOrder : Definition → List String → Type 0
IsOrder d order =
    Ordered d.steps order
    × All (Reaches d.steps d.start_step_id) order
    × Within order (step_ids d.steps)
    × (length order ≤ length d.steps)

all-Within :
    (steps : List StepDefinition) (order : List String)
    → all (λ s. any (str_eq s.step_id) order) steps ≡ true
    → Within order (step_ids steps)
all-Within [] order h = tt
all-Within (s ∷ steps) order h = (ground arith, all-Within steps order (ground arith))

searched-IsOrder :
    (d : Definition) (first : StepDefinition) (order : List String) {u : Unit {0}}
    → find_step d.steps d.start_step_id ≡ some first
    → visit (search_fuel d.steps) d.steps [] first [] ≡ some (ok order)
    → check_reachable d.steps order ≡ ok u
    → IsOrder d order
unfolding Visits
searched-IsOrder d first order f h c =
    let same : first.step_id ≡ d.start_step_id = find_step-id d.steps d.start_step_id first f in
    let (grown, _) =
      visit-Visits d.steps d.start_step_id (search_fuel d.steps) [] first [] order
        (subst (λ i. find_step d.steps i ≡ some first) (sym same) f)
        (subst (Reaches d.steps d.start_step_id) (sym same) begins)
        (record {
          ordered = tt;
          reached = tt;
          bounded = omega (arith, unseen-nil (step_ids d.steps), length-ids d.steps);
        })
        h in
    (
      grown.good.ordered,
      grown.good.reached,
      all-Within d.steps order (ground arith),
      omega (arith, grown.good.bounded),
    )

-- An accepted definition has a list of its steps, all of them and none more often than there are steps,
-- in which every step can be reached from the start, and every successor of a step stands after it.
pub validate_definition-IsOrder :
    (registry : NodeRegistry) (d : Definition) {u : Unit {0}}
    → validate_definition registry d ≡ some (ok u)
    → (order : List String) × IsOrder d order
unfolding validate_definition
validate_definition-IsOrder registry d {u} h =
    elim (Result-cases (check_steps registry d d.steps [])) [
      | inr (x, e) ↦ cc (rw (e, validate_definition) at h)
      | inl (_, e) ↦ elim (Option-cases (find_step d.steps d.start_step_id)) [
        | inl f ↦ cc (rw (e, f, validate_definition) at h)
        | inr (first, f) ↦ elim (Bool-cases (same_type d.input_type first.input_type)) [
          | inr g ↦ cc (rw (e, f, g, validate_definition) at h)
          | inl g ↦ elim (Option-cases (visit (search_fuel d.steps) d.steps [] first [])) [
            | inl n ↦ cc (rw (e, f, g, n, validate_definition) at h)
            | inr (err x, n) ↦ cc (rw (e, f, g, n, validate_definition) at h)
            | inr (ok order, n) ↦
                let c : ◌≡◌ {A = Option (Checked (Unit {0}))} (some (check_reachable d.steps order))
                    (some (ok u)) =
                  rw (e, f, g, n, validate_definition) at h in
                let c' : check_reachable d.steps order ≡ ok u = cc in
                (order, searched-IsOrder d first order f n c')
          ]
        ]
      ]
    ]
