-- ===== src/Derivatives/Claims/Ended.antt =====
-- The life of the tables after a claim has ended: workers, recoveries and requests in any order.
use text.Mathlib.Text.{◌==◌ as str_eq}
use Prim.Native.String.{String}
use gallery.Base.{
  ℕ, ◌≡◌, refl, Bool, false, Option, some, List, [], ◌∷◌, ◌==◌, arith, Bool-cases, inl, inr,
}
use gallery.Derivatives.Catalog.{Derivative, Job, Asset, Catalog}
use gallery.Derivatives.Coalesce.{Request, Coalesced, coalesce}
use gallery.Derivatives.Ledger.{Ledger}
use gallery.Derivatives.Claims.{Claim, update_where, row_count, claim_job, claim_siblings}
use gallery.Derivatives.Claims.Fence.{
  holds_claim, fenced, renew_lease, complete_claim, set_done, release_claim, release_claims,
  set_released, fail_claim, set_ended, Cause, verdict,
}
use gallery.Derivatives.Claims.Recovery.{Scope, Decision, recover}
use gallery.Derivatives.Claims.Stale.{Spent, stale_claim_refused}
use gallery.Derivatives.Supersede.{retire_superseded}
use gallery.Derivatives.Claims.Terminal.{Gone, terminalize}
use gallery.Derivatives.Claims.Once.{
  terminalize-Spent, retire_superseded-Spent, claim_job-Spent, claim_each-Spent, renew_lease-Spent,
  complete_claim-Spent, release_claims-Spent, fail_claim-Spent, recover-Spent, coalesce-Spent,
}

-- A write by anyone, or a change of the files and the clock. A new claim has a token other than `k`'s, as
-- uuid4 gives each token once.
pub data Write (k : Claim) (c : Catalog) : Catalog → Type 0 where
  claims :
      (worker token : String) (lease : ℕ) (new : Claim) (c' : Catalog)
      → str_eq token k.claim_token ≡ false
      → claim_job worker token lease c ≡ some (new, c')
      → Write k c c'
  claims_siblings :
      (tokens : ℕ → String) (lease : ℕ) (leader : Claim)
      → ((n : ℕ) → str_eq (tokens n) k.claim_token ≡ false)
      → Write k c (claim_siblings tokens lease leader c).1
  renews : (lease : ℕ) (k' : Claim) → Write k c (renew_lease lease k' c).1
  completes : (k' : Claim) (path : String) (size : ℕ) → Write k c (complete_claim k' path size c).1
  releases : (ks : List Claim) → Write k c (release_claims ks c).1
  fails :
      (stopping : Bool) (k' : Claim) (cause : Cause) (message : String)
      → Write k c (fail_claim stopping k' cause message c).1
  recovers :
      (scope : Scope) (message : Decision → String) (vs : List Decision)
      → Write k c (recover scope message vs c).1
  terminalizes :
      (message : Gone → String) (rows : List Gone) → Write k c (terminalize message rows c)
  retires :
      (selected : Asset → Bool) (limit : Option ℕ) (l : Option Ledger)
      → Write k c (retire_superseded selected limit c l).1
  coalesces :
      (is_file : String → Bool) (quota : ℕ) (q : Request) (l : Option Ledger) (x : Coalesced)
      → coalesce is_file quota q c l ≡ some x
      → Write k c x.catalog
  goes_on : (now : ℕ) (assets : List Asset) → Write k c (record c { now = now; assets = assets })

pub data Writes (k : Claim) (c : Catalog) : Catalog → Type 0 where
  none_yet : Writes k c c
  and_then : {c' c'' : Catalog} → Writes k c c' → Write k c' c'' → Writes k c c''

-- How a worker ends its claim.
pub data Ends (k : Claim) (c : Catalog) : Catalog → Type 0 where
  completed : (path : String) (size : ℕ) → Ends k c (complete_claim k path size c).1
  released : Ends k c (release_claim k c).1
  failed :
      (stopping : Bool) (cause : Cause) (message : String)
      → Ends k c (fail_claim stopping k cause message c).1

Write-Spent : (k : Claim) (c c' : Catalog) → Write k c c' → Spent k c → Spent k c'
Write-Spent k c c'' (claims worker token lease new c' other e) h =
    claim_job-Spent k worker token lease c c' new other e h
Write-Spent k c c'' (claims_siblings tokens lease leader others) h =
    unfold claim_siblings in claim_each-Spent k leader.claimed_by tokens lease 0 _ c others h
Write-Spent k c c'' (renews lease k') h = renew_lease-Spent k lease k' c h
Write-Spent k c c'' (completes k' path size) h = complete_claim-Spent k k' path size c h
Write-Spent k c c'' (releases ks) h = release_claims-Spent k ks c h
Write-Spent k c c'' (fails stopping k' cause message) h =
    fail_claim-Spent k stopping k' cause message c h
Write-Spent k c c'' (recovers scope message vs) h = recover-Spent k scope message vs c h
Write-Spent k c c'' (terminalizes message rows) h = terminalize-Spent k message rows c h
Write-Spent k c c'' (retires selected limit l) h = retire_superseded-Spent k selected limit c l h
Write-Spent k c c'' (coalesces is_file quota q l x e) h = coalesce-Spent k is_file quota q c l x e h
Write-Spent k c c'' (goes_on now assets) h = h

Writes-Spent : (k : Claim) (c c' : Catalog) → Writes k c c' → Spent k c → Spent k c'
Writes-Spent k c c' none_yet h = h
Writes-Spent k c c'' (and_then {c' = c'} before last) h =
    Write-Spent k c' c'' last (Writes-Spent k c c' before h)

-- A write to the jobs under the claim that takes them off it leaves none.
ended-Spent :
    (k : Claim) (f : Job → Job) (jobs : List Job)
    → ((j : Job) → holds_claim k (f j) ≡ false)
    → row_count (holds_claim k) (update_where (holds_claim k) f jobs) ≡ 0
unfolding row_count update_where
ended-Spent k f [] off = refl
ended-Spent k f (j ∷ rest) off = elim (Bool-cases (holds_claim k j)) [
  | inl held ↦ ground (arith, held, off j, ended-Spent k f rest off)
  | inr free ↦ ground (arith, free, ended-Spent k f rest off)
]

fenced-ends :
    (k : Claim) (f : Job → Job) (i : ℕ) (g : Derivative → Derivative) (c : Catalog)
    → ((j : Job) → holds_claim k (f j) ≡ false)
    → Spent k (fenced (holds_claim k) f i g c).1
fenced-ends k f i g c off = elim (Bool-cases (row_count (holds_claim k) c.jobs == 1)) [
  | inl one ↦ rw one (ended-Spent k f c.jobs off)
  | inr other ↦ rw other (ended-Spent k f c.jobs off)
]

Ends-Spent : (k : Claim) (c c' : Catalog) → Ends k c c' → Spent k c'
Ends-Spent k c c' (completed path size) =
    unfold complete_claim in fenced-ends k set_done k.id _ c (λ j. ground arith)
Ends-Spent k c c' released =
    unfold release_claim in fenced-ends k set_released k.id _ c (λ j. ground arith)
Ends-Spent k c c' (failed stopping cause message) =
    unfold fail_claim in
    fenced-ends k (set_ended (verdict k.job_attempts stopping cause).state _ message) k.id _ c
      (λ j. ground arith)

-- Once a claim was completed, released or failed by its worker, every later renewal, completion, release and
-- failure under it is refused and changes nothing, after any number of writes of other workers, recoveries,
-- retirements and requests, as long as no new claim gets its token.
pub ended_claim_refused :
    (k : Claim) (c c₁ c₂ : Catalog) (lease : ℕ) (path : String) (size : ℕ) (stopping : Bool)
    (cause : Cause) (message : String)
    → Ends k c c₁
    → Writes k c₁ c₂
    → (renew_lease lease k c₂ ≡ (false, c₂))
      × (complete_claim k path size c₂ ≡ (false, c₂))
      × (release_claim k c₂ ≡ (false, c₂))
      × (fail_claim stopping k cause message c₂ ≡ (false, c₂))
ended_claim_refused k c c₁ c₂ lease path size stopping cause message ended later =
    stale_claim_refused k c₂ lease path size stopping cause message
      (Writes-Spent k c₁ c₂ later (Ends-Spent k c c₁ ended))
