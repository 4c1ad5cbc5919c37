-- ===== src/Limits/Tests.antt =====
-- The default limits (limits.rs).
use sandbox_driver.Base.{ℕ, ◌^◌, ◌-◌, ◌≡◌, refl}
use sandbox_driver.Error.{invalid_spec, ok, err}
use sandbox_driver.Limits.{budget_reason, validate, default}

abbrev max_permits : ℕ
max_permits = 2 ^ 61 - 1

accepted : validate max_permits default ≡ ok tt
unfolding validate
accepted = refl

refused :
    validate max_permits (record default { reserved_requests = 0 })
    ≡ err (invalid_spec "reserved_requests" budget_reason)
unfolding validate
refused = refl
