-- ===== src/Shared/Health.antt =====
-- shared/health.py: the probe of a service.
use food_flow.Prelude.{
  ℕ, ◌≡◌, refl, String, Bool, false, Option, none, some, if◌then◌else◌, sym, ap, ◌∙◌, inl, inr,
  Bool-cases, arith,
}
use food_flow.Shared.Text.{same_text, same_text_iff}
use text.Mathlib.TextLemmas.{cons-append, head-eq_of_cons-eq}
use Prim.Native.Char.{code}
use Prim.Native.String.{◌++◌}

pub record HealthResponse : Type 0 where
  pub status : String
  pub database : String

-- What checks["database"] says, by the error that the probe raised.
abbrev pub database_check : Option String → String
database_check none = "healthy"
database_check (some error) = "unhealthy: " ++ error

-- all(v == "healthy" for v in checks.values())
abbrev pub is_healthy : String → Bool
is_healthy database = same_text database "healthy"

-- 200 if overall else 503
abbrev pub probe_code : Option String → ℕ
probe_code error = if is_healthy (database_check error) then 200 else 503

-- The status of the answer and its body. FastAPI answers 200 where a handler returns a dict; the handler
-- does not return what it computed as `status_code`.
unfoldable pub health_check : Option String → ℕ × HealthResponse
health_check error =
    let database = database_check error in
    (
      200,
      record {
        status = if is_healthy database then "healthy" else "unhealthy";
        database = database;
      },
    )

failed : (error : String) → is_healthy (database_check (some error)) ≡ false
failed error = elim (Bool-cases (is_healthy (database_check (some error)))) [
  | inr different ↦ different
  | inl same ↦
      let texts : "unhealthy: " ++ error ≡ "healthy" =
        (same_text_iff (database_check (some error)) "healthy").0 same in
      let first : code "u" ≡ code "h" =
        ap code (head-eq_of_cons-eq (sym (cons-append "u" "nhealthy: " error) ∙ texts)) in
      absurd (omega (arith, first))
]

-- The answer says "healthy" where the probe raised nothing and "unhealthy" where it raised; its status is
-- 200 in both cases, also where the code computes 503.
health_check_status :
    (error : String)
    → ((health_check none).1.status ≡ "healthy")
      × ((health_check (some error)).1.status ≡ "unhealthy")
      × (probe_code (some error) ≡ 503)
      × ((health_check (some error)).0 ≡ 200)
unfolding health_check
health_check_status error = (refl, rw (failed error) refl, rw (failed error) refl, refl)
