-- ===== src/Verify/Exit.antt =====
-- The exit code of `main` of src/fleetstream/jobs/verify.py.
use fleet_stream_real_time_f.Prelude.{
  true, false, List, [], ◌∷◌, length, ◌≡◌, ◌≢◌, ◌↔◌, inl, inr, refl, All, Bool-cases, arith,
}
use fleet_stream_real_time_f.Verify.Checks.{Check, Status, pass, fail, skip, is_fail, failed_checks}
use fleet_stream_real_time_f.Verify.Suite.{exit_code}

abbrev pub IsUnfailed : List Check → Type 0
IsUnfailed report = All (λ (c : Check). c.status ≢ fail) report

is_fail-of : (s : Status) → is_fail s ≡ true → s ≡ fail
is_fail-of fail h = refl
is_fail-of pass h = cc
is_fail-of skip h = cc

unfailed : (s : Status) → is_fail s ≡ false → s ≢ fail
unfailed fail h e = cc
unfailed pass h e = cc
unfailed skip h e = cc

-- no check is listed as failed exactly when none has failed
failed_checks_iff : (report : List Check) → (length (failed_checks report) ≡ 0) ↔ IsUnfailed report
unfolding failed_checks
failed_checks_iff [] = ((λ h. tt), (λ h. refl))
failed_checks_iff (c ∷ report) = elim (Bool-cases (is_fail c.status)) [
  | inl bad ↦
      simp (bad) ((λ h. absurd (omega arith)), (λ h. absurd (h.0 (is_fail-of c.status bad))))
  | inr good ↦ simp (good) (
    (λ h. (unfailed c.status good, (failed_checks_iff report).0 h)),
    (λ h. (failed_checks_iff report).1 h.1),
  )
]

pub exit_code_iff : (report : List Check) → (exit_code report ≡ 0) ↔ IsUnfailed report
unfolding exit_code
exit_code_iff report = (
  (λ h. (failed_checks_iff report).0 (ground arith)),
  λ h. simp ((failed_checks_iff report).1 h) refl,
)
