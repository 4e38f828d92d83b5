-- ===== src/Derivatives/Claims/Bounded.antt =====
-- No job is tried more often than `_MAX_ATTEMPTS` says.
use gallery.Base.{
  ℕ, ◌+◌, ◌≡◌, ◌≤◌, ◌<◌, refl, Bool, true, false, Option, some, List, [], ◌∷◌, All, arith,
  if◌then◌else◌,
}
use gallery.Derivatives.Catalog.{Derivative, Job, Asset}
use gallery.Derivatives.Ledger.{Ledger}
use gallery.Derivatives.Claims.{
  update_where, max_attempts, is_queued, queued_as, set_claimed, claim_row, take_job,
}
use gallery.Derivatives.Claims.Fence.{
  holds_claim, renew_lease, complete_claim, set_done, release_claim, set_released, fail_claim,
}
use gallery.Derivatives.Claims.Recovery.{recover_row, still_abandoned}
use gallery.Derivatives.Claims.Keys.{Descending, Descending-update, map-Has}
use gallery.Derivatives.Claims.Attempts.{
  complete_claim-JobOk, release_claim-JobOk, renew_lease-JobOk, fail_claim-JobOk, recover_row-JobOk,
  terminalize_row-JobOk, JobOk, idle-JobOk, update_where-All,
}
use gallery.Derivatives.Claims.Limit.{
  Sound, taken-JobOk, decided-JobOk, fenced-keys, room_of, coalesced-JobOk, coalesced-keys,
}
use gallery.Derivatives.Claims.Runs.{
  World, Step, claims, renews, completes, releases, fails, decides, recovers, coalesces,
  terminalizes, retires, goes_on,
}
use gallery.Derivatives.Supersede.{
  retire_superseded, retire_rows, note_superseded, push_job, superseded_job, set_superseded,
  retires_job,
}
use gallery.Derivatives.Claims.Terminal.{terminalize_row, set_skipped}

abbrev pub empty_world : World
empty_world = record {
  catalog = record {
    derivatives = [];
    jobs = [];
    next_derivative = 1;
    next_job = 1;
    assets = [];
    now = 0;
  };
  claims = [];
  plans = [];
}

-- Runs from empty tables.
pub data Reach : World → Type 0 where
  created : Reach empty_world
  step : {w w' : World} → Reach w → Step w w' → Reach w'

-- The jobs of retired rows, and the jobs that note them.
noted-Sound :
    (w : World) (rows : List Derivative)
    → Sound w
    → Sound (record w { catalog = note_superseded rows w.catalog })
unfolding note_superseded
noted-Sound w [] h = h
noted-Sound w (d ∷ rest) h = noted-Sound (record w { catalog = _ }) rest (pushed _)
  where
    added : Sound (record w { catalog = push_job d.id w.catalog })
    added = record {
      jobs = (
        idle-JobOk w.claims w.plans (superseded_job w.catalog.next_job d.id w.catalog.now) refl
            (omega arith) (λ q. cc),
        h.jobs,
      );
      keys = unfold Descending in (omega arith, h.keys);
    }

    pushed :
        (b : Bool) → Sound (record w { catalog = if b then w.catalog else push_job d.id w.catalog })
    pushed true = record { jobs = h.jobs; keys = h.keys }
    pushed false = added

retired-Sound :
    (w : World) (selected : Asset → Bool) (limit : Option ℕ) (l : Option Ledger)
    → Sound w
    → Sound (record w { catalog = (retire_superseded selected limit w.catalog l).1 })
unfolding retire_superseded
retired-Sound w selected limit l h =
    let c = w.catalog in
    let retired = (retire_superseded selected limit c l).0 in
    let taken_off : Sound (record w {
      catalog = record c {
        derivatives = retire_rows retired c.derivatives;
        jobs = update_where (retires_job retired) set_superseded c.jobs;
      };
    }) =
      record {
        jobs =
            update_where-All {Q = JobOk w.claims w.plans} (retires_job retired) set_superseded
              c.jobs
              (λ j e ok. idle-JobOk w.claims w.plans (set_superseded j) refl ok.bound (λ q. cc))
              (λ j e ok. ok) h.jobs;
        keys =
            Descending-update (retires_job retired) set_superseded c.next_job c.jobs (λ j. refl)
              h.keys;
      } in
    noted-Sound _ retired taken_off

Step-Sound : (w w' : World) → Step w w' → Sound w → Sound w'
Step-Sound w w' (claims worker token lease j row there waits fresh) h = record {
  jobs =
      taken-JobOk w worker token lease j row fresh (room_of w j w.catalog.jobs h.jobs there waits)
        h.jobs;
  keys =
      unfold claim_row take_job in
      Descending-update (queued_as j.id)
        (set_claimed (j.attempts + 1) worker token (w.catalog.now + lease)) w.catalog.next_job
        w.catalog.jobs (λ i. refl) h.keys;
}
Step-Sound w w' (renews lease k) h = record {
  jobs = renew_lease-JobOk w.claims w.plans lease k w.catalog h.jobs;
  keys =
      unfold renew_lease in
      Descending-update (holds_claim k)
        (λ j. record j { lease_expires_at = some (w.catalog.now + lease) }) w.catalog.next_job
        w.catalog.jobs (λ j. refl) h.keys;
}
Step-Sound w w' (completes k path size) h = record {
  jobs = complete_claim-JobOk w.claims w.plans k path size w.catalog h.jobs;
  keys =
      unfold complete_claim in
      fenced-keys (holds_claim k) set_done k.id _ w.catalog (λ j. refl) h.keys;
}
Step-Sound w w' (releases k) h = record {
  jobs = release_claim-JobOk w.claims w.plans k w.catalog h.jobs;
  keys =
      unfold release_claim in
      fenced-keys (holds_claim k) set_released k.id _ w.catalog (λ j. refl) h.keys;
}
Step-Sound w w' (fails stopping k cause message known) h = record {
  jobs = fail_claim-JobOk w.claims w.plans stopping k cause message w.catalog known h.jobs;
  keys = unfold fail_claim in fenced-keys (holds_claim k) _ k.id _ w.catalog (λ j. refl) h.keys;
}
Step-Sound w w' (decides stat scope) h = record {
  jobs = decided-JobOk w stat scope h;
  keys = h.keys;
}
Step-Sound w w' (recovers scope message v known) h = record {
  jobs = recover_row-JobOk w.claims w.plans scope message v w.catalog known h.jobs;
  keys =
      unfold recover_row in
      fenced-keys (still_abandoned scope w.catalog.now v) _ v.derivative_id _ w.catalog (λ j. refl)
        h.keys;
}
Step-Sound w w' (terminalizes message g) h = record {
  jobs = terminalize_row-JobOk w.claims w.plans message g w.catalog h.jobs;
  keys =
      unfold terminalize_row in
      fenced-keys (queued_as g.job_id) (set_skipped g.result_code message) g.derivative_id _
        w.catalog (λ j. refl) h.keys;
}
Step-Sound w w' (retires selected limit l) h = retired-Sound w selected limit l h
Step-Sound w w' (coalesces is_file quota q l x e) h = record {
  jobs = coalesced-JobOk w.claims w.plans is_file quota q w.catalog l x e h.jobs;
  keys = coalesced-keys is_file quota q w.catalog l x e h.keys;
}
Step-Sound w w' (goes_on now assets) h = record { jobs = h.jobs; keys = h.keys }

Reach-Sound : (w : World) → Reach w → Sound w
Reach-Sound w created = record { jobs = tt; keys = unfold Descending in tt }
Reach-Sound w' (step {w = w} reached moved) = Step-Sound w w' moved (Reach-Sound w reached)

-- A job within its attempts, with room for one more while it is queued.
pub record WithinAttempts (j : Job) : Type 0 where
  pub tried : j.attempts ≤ max_attempts
  pub room : is_queued j.state ≡ true → j.attempts < max_attempts

-- From empty tables, through claims under new tokens, renewals, completions, releases, failures of any claim
-- that was ever handed out, recoveries by any decision that was ever made, the end of queued jobs whose source is gone, the retirement of superseded rows, and requests, no job's attempts
-- pass _MAX_ATTEMPTS, and each queued job has an attempt left.
pub attempts_bounded : (w : World) → Reach w → All WithinAttempts w.catalog.jobs
attempts_bounded w reached =
    map-Has {Q = WithinAttempts} w.catalog.jobs
      (λ j there ok. record { tried = ok.bound; room = ok.room }) (Reach-Sound w reached).jobs
