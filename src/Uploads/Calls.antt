-- ===== src/Uploads/Calls.antt =====
-- What the calls of the database went through when they return.
use benchhelpers.Prelude.{Result, ap, err, ok, refl, ◌≡◌}
use benchhelpers.Uploads.{
  Executed, done, not_found, scheme_error, already_exists, other_issue, Session, continue, created,
  upserted,
}

-- What a call that returns went through
pub continue-ok :
    {S A B : Type 0} (first : Result A × S) (next : A → Session S B) (b : B) (t : S)
    → continue first next ≡ (ok b, t)
    → (a : A) × (s : S) × (first ≡ (ok a, s)) × (next a s ≡ (ok b, t))
continue-ok (err raised, s) next b t h = cc
continue-ok (ok a, s) next b t h = (a, s, refl, h)

pub upserted-done :
    {S : Type 0} (e : Executed × S) (t : S) → upserted e ≡ (ok tt, t) → (e.0 ≡ done) × (e.1 ≡ t)
upserted-done (done, s) t h = (refl, ap (λ x. x.1) h)
upserted-done (not_found, s) t h = cc
upserted-done (scheme_error, s) t h = cc
upserted-done (already_exists, s) t h = cc
upserted-done (other_issue, s) t h = cc

pub created-any : {S : Type 0} (e : Executed × S) (t : S) → created e ≡ (ok tt, t) → e.1 ≡ t
created-any (done, s) t h = ap (λ x. x.1) h
created-any (already_exists, s) t h = ap (λ x. x.1) h
created-any (not_found, s) t h = cc
created-any (scheme_error, s) t h = cc
created-any (other_issue, s) t h = cc
