-- ===== src/Derivatives/Claims/Stale.antt =====
-- The writes under a claim that no job runs under.
use Prim.Native.String.{String}
use gallery.Base.{ℕ, ◌+◌, ◌≡◌, refl, Bool, false, some, List, [], ◌∷◌, arith}
use gallery.Derivatives.Catalog.{Derivative, Job, Catalog}
use gallery.Derivatives.Claims.{Claim, update_where, row_count}
use gallery.Derivatives.Claims.Fence.{
  holds_claim, fenced, renew_lease, complete_claim, set_done, release_claim, set_released,
  fail_claim, Cause,
}

update_where-none :
    (p : Job → Bool) (f : Job → Job) (jobs : List Job)
    → row_count p jobs ≡ 0
    → update_where p f jobs ≡ jobs
unfolding update_where row_count
update_where-none p f [] e = refl
update_where-none p f (j ∷ rest) e = ground (arith, e, update_where-none p f rest)

fenced-none :
    (p : Job → Bool) (f : Job → Job) (i : ℕ) (g : Derivative → Derivative) (c : Catalog)
    → row_count p c.jobs ≡ 0
    → fenced p f i g c ≡ (false, c)
fenced-none p f i g c e = rw e (rw (update_where-none p f c.jobs e) refl)

-- No job runs under the claim.
abbrev pub Spent : Claim → Catalog → Type 0
Spent k c = row_count (holds_claim k) c.jobs ≡ 0

-- A write under a claim that no job runs under is refused and changes nothing, be it a renewal of the lease,
-- a completion, a release or a failure.
pub stale_claim_refused :
    (k : Claim) (c : Catalog) (lease : ℕ) (path : String) (size : ℕ) (stopping : Bool)
    (cause : Cause) (message : String)
    → row_count (holds_claim k) c.jobs ≡ 0
    → (renew_lease lease k c ≡ (false, c))
      × (complete_claim k path size c ≡ (false, c))
      × (release_claim k c ≡ (false, c))
      × (fail_claim stopping k cause message c ≡ (false, c))
unfolding renew_lease complete_claim release_claim fail_claim
stale_claim_refused k c lease path size stopping cause message e = (
  rw e (
      rw
        (update_where-none (holds_claim k)
          (λ j. record j { lease_expires_at = some (c.now + lease) }) c.jobs e)
        refl),
  fenced-none (holds_claim k) set_done k.id _ c e,
  fenced-none (holds_claim k) set_released k.id _ c e,
  fenced-none (holds_claim k) _ k.id _ c e,
)
