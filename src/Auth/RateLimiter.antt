-- ===== src/Auth/RateLimiter.antt =====
-- backend/app/services/login_rate_limiter.py: how many logins of an identifier are let in within a
-- window. The counters are keys of the Redis server.
use ai_knowledge_hub.Base.{
  ℕ, zero, suc, ◌+◌, ◌≤◌, ◌≡◌, String, Bool, leb, str_eq, eq_refl, if◌then◌else◌, ap, ◌∙◌, refl,
  arith,
}
use ai_knowledge_hub.Auth.Runtime.{Runtime}
use ai_knowledge_hub.Knowledge.Text.{strip}
use Prim.Native.String.{◌++◌}

-- The commands on a counter, with their documented effects. `incr` counts a missing or expired key as 0.
pub record Counters : Type 1 where
  pub Store : Type 0
  pub count : Store → String → ℕ
  pub incr : String → Store → Store
  -- `EXPIRE key seconds NX`: only if the key has no end yet.
  pub expire_nx : String → ℕ → Store → Store
  pub delete : String → Store → Store
  pub count-incr :
      (key : String) (s : Store) (j : String)
      → count (incr key s) j ≡ (if str_eq key j then suc (count s j) else count s j)
  pub count-expire_nx :
      (key : String) (seconds : ℕ) (s : Store) (j : String)
      → 1 ≤ seconds
      → count (expire_nx key seconds s) j ≡ count s j
  pub count-delete :
      (key : String) (s : Store) (j : String)
      → count (delete key s) j ≡ (if str_eq key j then 0 else count s j)

module _ (runtime : Runtime) (counters : Counters) (window_seconds max_attempts : ℕ) where
  open runtime use {hash_text, lower}
  open counters use {
    Store, count, incr, expire_nx, delete, count-incr, count-expire_nx, count-delete,
  }

  unfoldable pub build_key : String → String
  unfolding strip
  build_key identifier = "auth:login:failures:" ++ hash_text (lower (strip identifier))

  unfoldable pub reserve_attempt : String → Store → Store × Bool
  unfolding build_key
  reserve_attempt identifier store =
      let counted = incr (build_key identifier) store in
      (
        expire_nx (build_key identifier) window_seconds counted,
        leb (count counted (build_key identifier)) max_attempts,
      )

  unfoldable pub reset : String → Store → Store
  unfolding build_key
  reset identifier store = delete (build_key identifier) store

  -- The attempts of an identifier one after the other, and how many were let in.
  unfoldable pub reserve_attempts : ℕ → String → Store → Store × ℕ
  unfolding reserve_attempt
  reserve_attempts zero identifier store = (store, 0)
  reserve_attempts (suc n) identifier store =
      let (before, admitted) = reserve_attempts n identifier store in
      let (after, lets_in) = reserve_attempt identifier before in
      (after, if lets_in then suc admitted else admitted)

  pub count-reserve_attempt :
      (identifier : String) (store : Store)
      → 1 ≤ window_seconds
      → count (reserve_attempt identifier store).0 (build_key identifier)
        ≡ suc (count store (build_key identifier))
  unfolding reserve_attempt
  count-reserve_attempt identifier store w =
      count-expire_nx (build_key identifier) window_seconds (incr (build_key identifier) store)
        (build_key identifier) w
      ∙ count-incr (build_key identifier) store (build_key identifier)
      ∙ rw (eq_refl (build_key identifier)) refl

  pub admits :
      (identifier : String) (store : Store)
      → (reserve_attempt identifier store).1
        ≡ leb (suc (count store (build_key identifier))) max_attempts
  unfolding reserve_attempt
  admits identifier store =
      ap (λ n. leb n max_attempts)
        (count-incr (build_key identifier) store (build_key identifier)
          ∙ rw (eq_refl (build_key identifier)) refl)

  count-reserve_attempts :
      (n : ℕ) (identifier : String) (store : Store)
      → 1 ≤ window_seconds
      → count (reserve_attempts n identifier store).0 (build_key identifier)
        ≡ n + count store (build_key identifier)
  unfolding reserve_attempts
  count-reserve_attempts zero identifier store w = omega arith
  count-reserve_attempts (suc n) identifier store w = omega (
    arith,
    count-reserve_attempt identifier (reserve_attempts n identifier store).0 w,
    count-reserve_attempts n identifier store w,
  )

  -- Of any number of attempts of an identifier since its counter was reset, with nothing else between
  -- them and within the window, exactly the first `max_attempts` are let in.
  pub reserve_attempts_lem :
      (n : ℕ) (identifier : String) (store : Store)
      → 1 ≤ window_seconds
      → (reserve_attempts n identifier (reset identifier store)).1
        ≡ (if leb n max_attempts then n else max_attempts)
  unfolding reserve_attempts reset
  reserve_attempts_lem zero identifier store w = ground arith
  reserve_attempts_lem (suc n) identifier store w = ground (
    arith,
    reserve_attempts_lem n identifier store w,
    admits identifier (reserve_attempts n identifier (reset identifier store)).0,
    count-reserve_attempts n identifier (reset identifier store) w,
    count-delete (build_key identifier) store (build_key identifier),
    eq_refl (build_key identifier),
  )
