-- ===== src/Blaze/ViewKeys.antt =====
-- GetViewKey of blaze/bucket.go: when view keys are issued and expire.
use Prim.Native.Nat.{◌/◌}
use native.Mathlib.Nat.{mod-lt, div-add-mod, add-mul-mod_self_left, mod-eq_of_lt}
use fire.Base.{
  ℕ_eq, String_eq, ℤ_eq, ℕ, zero, suc, ◌+◌, ◌-◌, ◌*◌, ◌%◌, ◌≤◌, ◌<◌, ◌≡◌, ap, ◌∙◌, arith,
}
use fire.Blaze.Links.{truncate, view_key_at}

truncate_le : (now d : ℕ) → truncate now d ≤ now
truncate_le now zero = omega arith
truncate_le now (suc d) = omega arith

truncate_lt : (now d : ℕ) → 0 < d → now < truncate now d + d
truncate_lt now zero h = omega arith
truncate_lt now (suc d) h = omega (arith, mod-lt now {m = suc d} h)

truncate-multiple : (now d : ℕ) → truncate now (suc d) ≡ suc d * (now / suc d)
truncate-multiple now d = omega (arith, div-add-mod now (suc d))

truncate_same :
    (d now t : ℕ)
    → truncate now (suc d) ≤ t
    → t < truncate now (suc d) + suc d
    → truncate t (suc d) ≡ truncate now (suc d)
truncate_same d now t le lt =
    let start = truncate-multiple now d in
    let rest : t ≡ t - suc d * (now / suc d) + suc d * (now / suc d) = omega (arith, start, le) in
    let small : t - suc d * (now / suc d) < suc d = omega (arith, start, lt) in
    let shift : t % suc d ≡ t - suc d * (now / suc d) =
      ap (λ n. n % suc d) rest
      ∙ add-mul-mod_self_left (t - suc d * (now / suc d)) (suc d) (now / suc d)
      ∙ mod-eq_of_lt small in
    omega (arith, start, shift, le)

-- With an expiry of 2 units of time at least, a view key is issued no later than now, and expires
-- later than half of the expiry from now; and at a time from its time of issue until half of the
-- expiry after that the same key is issued.
pub view_key_lem :
    (expiry file now t : ℕ)
    → 2 ≤ expiry
    → (view_key_at expiry file now).issued ≤ t
    → t < (view_key_at expiry file now).issued + expiry / 2
    → ((view_key_at expiry file now).issued ≤ now)
      × (now + expiry / 2 < (view_key_at expiry file now).expires)
      × (view_key_at expiry file t ≡ view_key_at expiry file now)
view_key_lem expiry file now t h le lt = (
  truncate_le now (expiry / 2),
  omega (arith, truncate_lt now (expiry / 2) (omega (arith, h))),
  ap (λ i. record { key_id = file; issued = i; expires = i + expiry; file = file })
      (by_half (expiry / 2) le lt),
)
  where
    by_half : (d : ℕ) → truncate now d ≤ t → t < truncate now d + d → truncate t d ≡ truncate now d
    by_half zero le lt = absurd (omega arith)
    by_half (suc d) le lt = truncate_same d now t le lt
