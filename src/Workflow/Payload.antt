-- ===== src/Workflow/Payload.antt =====
-- JSON objects as the workflow code handles them: Python dicts with text keys.
use ai_knowledge_hub.Base.{
  ℕ, String, ◌≡◌, refl, Bool, Option, none, some, List, [], ◌∷◌, arith, str_eq, eq_iff,
  if◌then◌else◌,
}

mutual
  pub data Value : Type 0 where
    null : Value
    boolean : Bool → Value
    number : ℕ → Value
    text : String → Value
    array : Items → Value
    object : Fields → Value

  pub data Items : Type 0 where
    nil : Items
    cons : Value → Items → Items

  pub data Fields : Type 0 where
    end : Fields
    field : String → Value → Fields → Fields

-- `dict[str, object]` in the order of insertion.
abbrev pub Payload : Type 0
Payload = List (String × Value)

-- `d.get(k)`
unfoldable pub get : String → Payload → Option Value
get k [] = none
get k ((j, v) ∷ d) = let rest = get k d in if str_eq j k then some v else rest

-- `d[k] = v`
unfoldable pub put : String → Value → Payload → Payload
put k v [] = (k, v) ∷ []
put k v ((j, w) ∷ d) = let rest = put k v d in if str_eq j k then (j, v) ∷ d else (j, w) ∷ rest

pub get-put :
    (k j : String) (v : Value) (d : Payload)
    → get j (put k v d) ≡ (if str_eq k j then some v else get j d)
unfolding get put
get-put k j v [] = refl
get-put k j v ((i, w) ∷ d) = ground (arith, eq_iff k j, eq_iff i k, eq_iff i j, get-put k j v d)
