-- ===== src/Derivatives/Claims/Runs.antt =====
-- Any run of workers, recoveries and requests.
use text.Mathlib.Text.{◌==◌ as str_eq}
use Prim.Native.String.{String}
use gallery.Base.{
  ℕ, ◌≡◌, ◌<◌, refl, Bool, true, false, Option, none, some, List, [], ◌∷◌, ◌++◌, Has, arith,
  Bool-cases, inl, inr,
}
use gallery.Derivatives.Catalog.{Derivative, Job, Asset, Catalog, find_id}
use gallery.Derivatives.Coalesce.{Request, Coalesced, coalesce}
use gallery.Derivatives.Ledger.{Ledger}
use gallery.Derivatives.Claims.{
  Claim, is_queued, is_running, same_token, claim_row, claim_of, find_asset,
}
use gallery.Derivatives.Claims.Fence.{renew_lease, complete_claim, release_claim, fail_claim, Cause}
use gallery.Derivatives.Claims.Recovery.{
  Scope, Decision, decide_row, decisions, decide_joined, recover_row, is_token, inapplicable_result,
  in_scope,
}
use gallery.Derivatives.Supersede.{retire_superseded}
use gallery.Derivatives.Claims.Terminal.{Gone, terminalize_row}

-- The tables, every claim that was handed out, and every decision that a recovery made, old ones included.
pub record World : Type 0 where
  pub catalog : Catalog
  pub claims : List Claim
  pub plans : List Decision

-- A token that was not given before, as uuid4 promises.
pub record Fresh (token : String) (w : World) : Type 0 where
  pub claims : (k : Claim) → Has k w.claims → str_eq token k.claim_token ≡ false
  pub plans : (v : Decision) → Has v w.plans → is_token (some token) v.claim_token ≡ false
  pub jobs : (j : Job) → Has j w.catalog.jobs → same_token j.claim_token token ≡ false

pub data Step (w : World) : World → Type 0 where
  -- One row of a claim, of a leader or of a sibling.
  claims :
      (worker token : String) (lease : ℕ) (j : Job) (row : Derivative × Asset)
      → Has j w.catalog.jobs
      → is_queued j.state ≡ true
      → Fresh token w
      → Step w (record w {
        catalog = claim_row worker token lease j w.catalog;
        claims = claim_of worker token j row ∷ w.claims;
      })
  renews :
      (lease : ℕ) (k : Claim) → Step w (record w { catalog = (renew_lease lease k w.catalog).1 })
  completes :
      (k : Claim) (path : String) (size : ℕ)
      → Step w (record w { catalog = (complete_claim k path size w.catalog).1 })
  releases : (k : Claim) → Step w (record w { catalog = (release_claim k w.catalog).1 })
  fails :
      (stopping : Bool) (k : Claim) (cause : Cause) (message : String)
      → Has k w.claims
      → Step w (record w { catalog = (fail_claim stopping k cause message w.catalog).1 })
  decides :
      (stat : String → Option (ℕ × ℕ)) (scope : Scope)
      → Step w (record w { plans = decisions stat scope w.catalog w.catalog.jobs ++ w.plans })
  recovers :
      (scope : Scope) (message : String) (v : Decision)
      → Has v w.plans
      → Step w (record w { catalog = (recover_row scope message v w.catalog).1 })
  terminalizes :
      (message : String) (g : Gone)
      → Step w (record w { catalog = terminalize_row message g w.catalog })
  retires :
      (selected : Asset → Bool) (limit : Option ℕ) (l : Option Ledger)
      → Step w (record w { catalog = (retire_superseded selected limit w.catalog l).1 })
  coalesces :
      (is_file : String → Bool) (quota : ℕ) (q : Request) (l : Option Ledger) (x : Coalesced)
      → coalesce is_file quota q w.catalog l ≡ some x
      → Step w (record w { catalog = x.catalog })
  goes_on :
      (now : ℕ) (assets : List Asset)
      → Step w (record w { catalog = record w.catalog { now = now; assets = assets } })

-- The row that a decision was made of.
unfoldable pub From : List Job → Decision → Type 0
From jobs v = (j : Job) × (i : ℕ) × (code : Option String) × Has j jobs × (v ≡ decide_row j i code)

From-later : (j : Job) (rest : List Job) (v : Decision) → From rest v → From (j ∷ rest) v
unfolding From
From-later j rest v (k, i, code, there, e) = (k, i, code, inr there, e)

decide_joined-From :
    (stat : String → Option (ℕ × ℕ)) (c : Catalog) (v : Decision) (j : Job) (rest : List Job)
    (d : Option Derivative) (more : List Decision)
    → (Has v more → From rest v)
    → Has v (decide_joined stat c j d more)
    → From (j ∷ rest) v
unfolding decide_joined From
decide_joined-From stat c v j rest none more later h = From-later j rest v (later h)
decide_joined-From stat c v j rest (some d) more later (inl e) =
    (j, d.id, inapplicable_result stat d (find_asset d.asset_id c.assets), inl refl, e)
decide_joined-From stat c v j rest (some d) more later (inr h) = From-later j rest v (later h)

pub decisions-From :
    (stat : String → Option (ℕ × ℕ)) (scope : Scope) (c : Catalog) (v : Decision) (jobs : List Job)
    → Has v (decisions stat scope c jobs)
    → From jobs v
unfolding decisions
decisions-From stat scope c v [] h = elim h [ ]
decisions-From stat scope c v (j ∷ rest) h =
    let later : Has v (decisions stat scope c rest) → From rest v =
      decisions-From stat scope c v rest in
    elim (Bool-cases (in_scope scope c.now j)) [
      | inr out ↦ From-later j rest v (later (rw (out, decisions) at h))
      | inl chosen ↦
          decide_joined-From stat c v j rest (find_id j.derivative_id c.derivatives) _ later
            (rw (chosen, decisions) at h)
    ]

pub decide_row-retries :
    (j : Job) (i : ℕ) (code : Option String)
    → (is_running (decide_row j i code).state ≡ false)
      × ((decide_row j i code).job_id ≡ j.id)
      × (is_queued (decide_row j i code).state ≡ true → j.attempts < 3)
unfolding decide_row
decide_row-retries j i none = ground arith
decide_row-retries j i (some code) = ground arith
