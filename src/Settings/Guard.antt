-- ===== src/Settings/Guard.antt =====
-- `require_master_auth` (apps/master/api/routes/auth_guard.py). `strip` is Python's; `is_ascii` tells
-- the texts on which `hmac.compare_digest` compares instead of raising a TypeError.
use vanguard_runner.Base.{
  String, Bool, true, false, ◌==◌, Option, none, some, if◌then◌else◌, ◌≡◌, ◌↔◌, ◌⊎◌, inl, inr, sym,
  ap, ◌∙◌, arith, eq_iff, eq_refl, Bool-cases,
}

pub data Verdict : Type 0 where
  allowed : Verdict
  unauthorized : Verdict
  type_error : Verdict

abbrev pub text_of : Option String → String
text_of none = ""
text_of (some t) = t

module _ (strip : String → String) (is_ascii : String → Bool) where
  abbrev pub compare_tokens : String → String → Verdict
  compare_tokens given expected =
      if is_ascii given
      then if is_ascii expected
        then if given == expected then allowed else unauthorized
        else type_error
      else type_error

  abbrev pub check_given : String → String → Verdict
  check_given given expected = if given == "" then unauthorized else compare_tokens given expected

  abbrev pub check_expected : String → String → Verdict
  check_expected given expected = if expected == "" then allowed else check_given given expected

  -- `configured` is MASTER_API_TOKEN, `header` is X-Master-Token
  abbrev pub require_master_auth : Option String → Option String → Verdict
  require_master_auth configured header =
      check_expected (strip (text_of header)) (strip (text_of configured))

  check_given-allowed :
      (given expected : String)
      → (expected == "") ≡ false
      → check_given given expected ≡ allowed
      → given ≡ expected
  check_given-allowed given expected e h = elim (Bool-cases (given == expected)) [
    | inl q ↦ (eq_iff given expected).0 q
    | inr q ↦ absurd (ground (arith, h, q))
  ]

  check_given_refl :
      (given : String)
      → (given == "") ≡ false
      → is_ascii given ≡ true
      → check_given given given ≡ allowed
  check_given_refl given e ascii = ground (arith, e, ascii, eq_refl given)

  check_expected-allowed :
      (given expected : String)
      → is_ascii expected ≡ true
      → (check_expected given expected ≡ allowed) ↔ ((expected ≡ "") ⊎ (given ≡ expected))
  check_expected-allowed given expected ascii = elim (Bool-cases (expected == "")) [
    | inl e ↦ (
      λ h. inl ((eq_iff expected "").0 e),
      λ h. ap (λ b. if b then allowed else check_given given expected) e,
    )
    | inr e ↦
        let skip : check_expected given expected ≡ check_given given expected =
          ap (λ b. if b then allowed else check_given given expected) e in
        (
          λ h. inr (check_given-allowed given expected e (sym skip ∙ h)),
          λ h. elim h [
            | inl q ↦
                ap (λ b. if b then allowed else check_given given expected)
                  ((eq_iff expected "").1 q)
            | inr q ↦
                skip ∙ (ap (λ g. check_given g expected) q ∙ check_given_refl expected e ascii)
          ],
        )
  ]

  -- With a configured token of ASCII characters, a request passes exactly where the token is blank
  -- after stripping, or where the stripped header is the stripped token.
  pub require_master_auth-allowed :
      (configured header : Option String)
      → is_ascii (strip (text_of configured)) ≡ true
      → (require_master_auth configured header ≡ allowed) ↔ (
          (strip (text_of configured) ≡ "") ⊎ (strip (text_of header) ≡ strip (text_of configured)))
  require_master_auth-allowed configured header ascii =
      check_expected-allowed (strip (text_of header)) (strip (text_of configured)) ascii
