-- ===== src/Knowledge/Indexing/Batches.antt =====
-- backend/app/services/knowledge_service.py: the batches that `batch_chunks_for_embedding` and
-- `upsert_vector_points` cut.
use ai_knowledge_hub.Base.{
  ℕ, zero, suc, ◌≤◌, ◌≡◌, refl, ap, List, [], ◌∷◌, ◌++◌, length, All, arith,
}
use ai_knowledge_hub.Knowledge.Files.{limited, skipped}
use ai_knowledge_hub.Knowledge.Vectors.{batches, batches_on}

module _ {ℓ} {A : Type ℓ} where
  abbrev pub concat : List (List A) → List A
  concat [] = []
  concat (xs ∷ xss) = xs ++ concat xss

  abbrev pub IsBatch : ℕ → List A → Type 0
  IsBatch size xs = (1 ≤ length xs) × (length xs ≤ size)

  limited-skipped : (n : ℕ) (xs : List A) → limited n xs ++ skipped n xs ≡ xs
  limited-skipped zero xs = refl
  limited-skipped (suc n) [] = refl
  limited-skipped (suc n) (x ∷ xs) = ap (λ rest. x ∷ rest) (limited-skipped n xs)

  length-limited : (n : ℕ) (xs : List A) → length (limited n xs) ≤ n
  length-limited zero xs = omega arith
  length-limited (suc n) [] = omega arith
  length-limited (suc n) (x ∷ xs) = omega (arith, length-limited n xs)

  length-skipped : (n : ℕ) (xs : List A) → length (skipped n xs) ≤ length xs
  length-skipped zero xs = omega arith
  length-skipped (suc n) [] = omega arith
  length-skipped (suc n) (x ∷ xs) = omega (arith, length-skipped n xs)

  batches_on-parts :
      (fuel size : ℕ) (xs : List A)
      → length xs ≤ fuel
      → (concat (batches_on fuel (suc size) xs) ≡ xs)
        × All (IsBatch (suc size)) (batches_on fuel (suc size) xs)
  unfolding batches_on
  batches_on-parts zero size [] h = (refl, tt)
  batches_on-parts zero size (x ∷ xs) h = absurd (omega arith)
  batches_on-parts (suc fuel) size [] h = (refl, tt)
  batches_on-parts (suc fuel) size (x ∷ xs) h =
      let (together, parts) =
        batches_on-parts fuel size (skipped size xs) (omega (arith, length-skipped size xs)) in
      (
        rw together (ap (λ rest. x ∷ rest) (limited-skipped size xs)),
        ((omega arith, omega (arith, length-limited size xs)), parts),
      )

  -- For every batch size from 1 on, the batches follow one another to the whole list, and each has at least
  -- one element and at most as many as the batch size.
  pub batches-parts :
      (size : ℕ) (xs : List A)
      → 1 ≤ size
      → (concat (batches size xs) ≡ xs) × All (IsBatch size) (batches size xs)
  unfolding batches
  batches-parts zero xs h = absurd (omega arith)
  batches-parts (suc size) xs h = batches_on-parts (length xs) size xs (omega arith)
