-- ===== src/Derivatives/Claims/Limit.antt =====
-- The invariant of the attempts, through a claim, a decision and a request.
use Prim.Native.String.{String}
use gallery.Base.{
  ℕ, ◌≡◌, ◌<◌, refl, sym, ap, subst, ◌∙◌, Bool, true, false, Option, some, List, [], ◌∷◌, ◌++◌,
  ◌==◌, All, Has, arith, Bool-cases, inl, inr, ==_iff,
}
use gallery.Derivatives.Catalog.{Derivative, Job, Asset, Catalog, update_job}
use gallery.Derivatives.Coalesce.{Request, Coalesced, coalesce}
use gallery.Derivatives.Ledger.{Ledger}
use gallery.Derivatives.Coalesce.Queue.{new_job, coalesce-Holds}
use gallery.Derivatives.Claims.{
  Claim, is_queued, is_running, same_token, row_count, queued_as, claim_row, take_job, claim_of,
}
use gallery.Derivatives.Claims.Fence.{holds_claim, fenced}
use gallery.Derivatives.Claims.Recovery.{Scope, Decision, decisions}
use gallery.Derivatives.Claims.Keys.{
  Descending, one_row, Descending-update, Descending-raise, map-Has, Has-append,
}
use gallery.Derivatives.Claims.Attempts.{matches, JobOk, update_where-All, idle-JobOk}
use gallery.Derivatives.Claims.Runs.{World, Fresh, From, decisions-From, decide_row-retries}

-- The invariant of a run.
pub record Sound (w : World) : Type 0 where
  pub jobs : All (JobOk w.claims w.plans) w.catalog.jobs
  pub keys : Descending w.catalog.next_job w.catalog.jobs

-- A claim of one row, against the claims and the decisions of before.
pub taken-JobOk :
    (w : World) (worker token : String) (lease : ℕ) (j₀ : Job) (row : Derivative × Asset)
    → Fresh token w
    → j₀.attempts < 3
    → All (JobOk w.claims w.plans) w.catalog.jobs
    → All
        (JobOk (claim_of worker token j₀ row ∷ w.claims) w.plans)
        (claim_row worker token lease j₀ w.catalog).jobs
unfolding claim_row take_job claim_of
taken-JobOk w worker token lease j₀ row fresh room h =
    let new = claim_of worker token j₀ row in
    let known : All (λ j. JobOk w.claims w.plans j × (same_token j.claim_token token ≡ false))
        w.catalog.jobs =
      map-Has {Q = λ j. JobOk w.claims w.plans j × (same_token j.claim_token token ≡ false)}
        w.catalog.jobs (λ j there ok. (ok, fresh.jobs j there)) h in
    update_where-All {Q = JobOk (new ∷ w.claims) w.plans} (queued_as j₀.id) _ w.catalog.jobs
      (λ j e ok. record {
        bound = omega (arith, room);
        room = λ q. cc;
        claims = λ k there held. elim there [
          | inl same ↦ sym (ap (λ k. k.job_attempts) same)
          | inr old ↦ let other = fresh.claims k old in ground (arith, other, held)
        ];
        plans =
            λ v there matched. let other = fresh.plans v there in ground (arith, other, matched);
      })
      (λ j e ok. record {
        bound = ok.0.bound;
        room = ok.0.room;
        claims = λ k there held. elim there [
          | inl same ↦
              let held' : holds_claim new j ≡ true =
                subst (λ k. holds_claim k j ≡ true) same held in
              let free = ok.1 in ground (arith, held', free)
          | inr old ↦ ok.0.claims k old held
        ];
        plans = ok.0.plans;
      })
      known

decided_row :
    (w : World)
    → Sound w
    → (j : Job) → Has j w.catalog.jobs
    → (v : Decision) → From w.catalog.jobs v
    → matches v j ≡ true
    → (is_running v.state ≡ false) × (is_queued v.state ≡ true → j.attempts < 3)
unfolding From
decided_row w sound j there v (j₀, i, code, there₀, e) matched =
    let (off, named, retries) = decide_row-retries j₀ i code in
    let same_id : (j.id == v.job_id) ≡ true = ground (arith, matched) in
    let same : j ≡ j₀ =
      one_row w.catalog.next_job j j₀ w.catalog.jobs sound.keys there there₀
        ((==_iff j.id v.job_id).0 same_id ∙ ap (λ v. v.job_id) e ∙ named) in
    (
      ap (λ v. is_running v.state) e ∙ off,
      λ q.
          subst (λ k. k.attempts < 3) (sym same)
            (retries (sym (ap (λ v. is_queued v.state) e) ∙ q)),
    )

-- New decisions are about the rows that they were made of.
pub decided-JobOk :
    (w : World) (stat : String → Option (ℕ × ℕ)) (scope : Scope)
    → Sound w
    → All (JobOk w.claims (decisions stat scope w.catalog w.catalog.jobs ++ w.plans)) w.catalog.jobs
decided-JobOk w stat scope sound =
    map-Has {Q = JobOk w.claims (decisions stat scope w.catalog w.catalog.jobs ++ w.plans)}
      w.catalog.jobs
      (λ j there ok. record {
        bound = ok.bound;
        room = ok.room;
        claims = ok.claims;
        plans = λ v about matched. elim (Has-append v _ w.plans about) [
          | inr old ↦ ok.plans v old matched
          | inl new ↦
              decided_row w sound j there v
                (decisions-From stat scope w.catalog v w.catalog.jobs new) matched
        ];
      })
      sound.jobs

fenced-Descending :
    (p : Job → Bool) (f : Job → Job) (i : ℕ) (g : Derivative → Derivative) (c : Catalog)
    → ((j : Job) → (f j).id ≡ j.id)
    → Descending c.next_job c.jobs
    → Descending c.next_job (fenced p f i g c).1.jobs
fenced-Descending p f i g c keeps d =
    let after = Descending-update p f c.next_job c.jobs keeps d in
    elim (Bool-cases (row_count p c.jobs == 1)) [
      | inl one ↦ rw one after
      | inr other ↦ rw other after
    ]

fenced-next :
    (p : Job → Bool) (f : Job → Job) (i : ℕ) (g : Derivative → Derivative) (c : Catalog)
    → (fenced p f i g c).1.next_job ≡ c.next_job
fenced-next p f i g c = elim (Bool-cases (row_count p c.jobs == 1)) [
  | inl one ↦ rw one refl
  | inr other ↦ rw other refl
]

pub fenced-keys :
    (p : Job → Bool) (f : Job → Job) (i : ℕ) (g : Derivative → Derivative) (c : Catalog)
    → ((j : Job) → (f j).id ≡ j.id)
    → Descending c.next_job c.jobs
    → Descending (fenced p f i g c).1.next_job (fenced p f i g c).1.jobs
fenced-keys p f i g c keeps d =
    subst (λ n. Descending n (fenced p f i g c).1.jobs) (sym (fenced-next p f i g c))
      (fenced-Descending p f i g c keeps d)

pub room_of :
    (w : World) (j : Job) (jobs : List Job)
    → All (JobOk w.claims w.plans) jobs
    → Has j jobs
    → is_queued j.state ≡ true
    → j.attempts < 3
room_of w j [] h there q = elim there [ ]
room_of w j (k ∷ rest) h (inl e) q = rw e (h.0.room (rw e at q))
room_of w j (k ∷ rest) h (inr there) q = room_of w j rest h.1 there q

raised-JobOk :
    (ks : List Claim) (vs : List Decision) (i priority : ℕ) (jobs : List Job)
    → All (JobOk ks vs) jobs
    → All (JobOk ks vs) (update_job i (λ j. record j { priority = priority }) jobs)
unfolding update_job
raised-JobOk ks vs i priority [] h = tt
raised-JobOk ks vs i priority (j ∷ rest) h =
    let ok = h.0 in
    let raised : JobOk ks vs (record j { priority = priority }) = record {
      bound = ok.bound;
      room = ok.room;
      claims = ok.claims;
      plans = ok.plans;
    } in
    elim (Bool-cases (j.id == i)) [
      | inl here ↦ rw here (raised, h.1)
      | inr away ↦ rw away (ok, raised-JobOk ks vs i priority rest h.1)
    ]

pub coalesced-JobOk :
    (ks : List Claim) (vs : List Decision) (is_file : String → Bool) (quota : ℕ) (q : Request)
    (c : Catalog) (l : Option Ledger) (x : Coalesced)
    → coalesce is_file quota q c l ≡ some x
    → All (JobOk ks vs) c.jobs
    → All (JobOk ks vs) x.catalog.jobs
coalesced-JobOk ks vs =
    coalesce-Holds (λ n jobs. All (JobOk ks vs) jobs)
      (λ n i priority now jobs h.
        (idle-JobOk ks vs (new_job n i priority now) refl (omega arith) (λ q. omega arith), h))
      (λ n i priority jobs h. raised-JobOk ks vs i priority jobs h)

pub coalesced-keys :
    (is_file : String → Bool) (quota : ℕ) (q : Request) (c : Catalog) (l : Option Ledger)
    (x : Coalesced)
    → coalesce is_file quota q c l ≡ some x
    → Descending c.next_job c.jobs
    → Descending x.catalog.next_job x.catalog.jobs
unfolding Descending
coalesced-keys =
    coalesce-Holds (λ n jobs. Descending n jobs) (λ n i priority now jobs d. (omega arith, d))
      (λ n i priority jobs d.
        Descending-raise i (λ j. record j { priority = priority }) n jobs (λ j. refl) d)
