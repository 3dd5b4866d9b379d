-- ===== src/Provisioning/Capacity.antt =====
-- How many accounts a machine is given, by how many of its claims overlap: app/routers/internal_provisioning.py.
use mathlib.Core.Option
use mathlib.Core.Path.{subst}
use the_bot.Common.{
  ℕ, ◌+◌, ◌<◌, ◌≤◌, ◌≡◌, refl, sym, inl, inr, Bool, true, false, List, [], ◌∷◌, Option, none, some,
  arith, leb, ◌==◌, Bool-cases, if◌then◌else◌,
}
use the_bot.Provisioning.{
  Request, retry_provisioning, remove_broker_credential, if_failed, if_idle, active, failed,
  decommission_failed, Credential, is_pending, is_in_progress, is_decommissioning, is_removing,
  in_flight, has_id, is_own, take_job, if_claimed, report_provisioning_step,
  complete_provisioning_job, fail_provisioning_job, take_removal, claim_decommission_job,
  report_decommission_step, clean_slate, complete_decommission_job, fail_decommission_job,
  create_broker_credential, creates, retries, removes_now, removes_later, claims_removal,
  reports_step, fails, reports_removal_step, fails_removal, completes, completes_removal, handle,
  handle_all, Office, admit, count_accounts, take_pass, take_with, answer, take_pending_job,
  handle_row, counts, takes, no_rows,
}
use the_bot.Provisioning.Places.{
  claim_next-Adds, on_row-Adds, if_claimed-Adds, if_failed-Adds, if_idle-Adds, kept_place,
  in_progress_holds,
}

-- The number of claims of `m` that have passed the check and have yet to take a row.
abbrev pub under_way : ℕ → List ℕ → ℕ
under_way m [] = 0
under_way m (p ∷ passes) = (if p == m then 1 else 0) + under_way m passes

-- A request that is no claim of a job gives no machine another place.
handle_row-Adds :
    (q : Request) (rows : List Credential) (m : ℕ)
    → in_flight m (handle_row q rows).1 ≤ in_flight m rows + 0
unfolding create_broker_credential retry_provisioning remove_broker_credential
    claim_decommission_job report_provisioning_step fail_provisioning_job complete_provisioning_job
    report_decommission_step fail_decommission_job complete_decommission_job
handle_row-Adds (counts machine) rows m = omega arith
handle_row-Adds (takes machine now locked) rows m = omega arith
handle_row-Adds (creates user id true) rows m = omega arith
handle_row-Adds (creates user id false) rows m = omega arith
handle_row-Adds (retries user id) rows m =
    (on_row-Adds 0 m (is_own user id) if_failed rows (if_failed-Adds m (is_own user id)))
handle_row-Adds (removes_now user id) rows m =
    (on_row-Adds 0 m (is_own user id) (if_idle false) rows (if_idle-Adds m false (is_own user id)))
handle_row-Adds (removes_later user id) rows m =
    (on_row-Adds 0 m (is_own user id) (if_idle true) rows (if_idle-Adds m true (is_own user id)))
handle_row-Adds (claims_removal machine now locked) rows m =
    (claim_next-Adds 0 m is_decommissioning (take_removal machine now) locked rows
      (λ r is. omega arith))
handle_row-Adds (reports_step machine id step) rows m =
    (on_row-Adds 0 m (has_id id)
      (if_claimed is_in_progress machine (λ r. record r { step = some step })) rows
      (if_claimed-Adds m machine is_in_progress (λ r. record r { step = some step }) id
        (λ r is. omega arith)))
handle_row-Adds (fails machine id error) rows m =
    (on_row-Adds 0 m (has_id id)
      (if_claimed is_in_progress machine (λ r. record r { status = failed; error = some error }))
      rows
      (if_claimed-Adds m machine is_in_progress
        (λ r. record r { status = failed; error = some error }) id (λ r is. omega arith)))
handle_row-Adds (reports_removal_step machine id step) rows m =
    (on_row-Adds 0 m (has_id id)
      (if_claimed is_removing machine (λ r. record r { step = some step })) rows
      (if_claimed-Adds m machine is_removing (λ r. record r { step = some step }) id
        (λ r is. omega arith)))
handle_row-Adds (fails_removal machine id error) rows m =
    (on_row-Adds 0 m (has_id id)
      (if_claimed is_removing machine
        (λ r. record r { status = decommission_failed; error = some error }))
      rows
      (if_claimed-Adds m machine is_removing
        (λ r. record r { status = decommission_failed; error = some error }) id
        (λ r is. omega arith)))
handle_row-Adds (completes machine id) rows m =
    (on_row-Adds 0 m (has_id id)
      (if_claimed is_in_progress machine (λ r. record r { status = active; error = none })) rows
      (if_claimed-Adds m machine is_in_progress (λ r. record r { status = active; error = none }) id
        (λ r is. kept_place m r.status active r.machine_id (in_progress_holds r.status is))))
handle_row-Adds (completes_removal machine id) rows m =
    (on_row-Adds 0 m (has_id id) (if_claimed is_removing machine clean_slate) rows
      (if_claimed-Adds m machine is_removing clean_slate id (λ r is. omega arith)))

take_pass-under_way :
    (m machine : ℕ) (passes rest : List ℕ)
    → take_pass machine passes ≡ some rest
    → under_way m passes ≡ under_way m rest + (if machine == m then 1 else 0)
take_pass-under_way m machine [] rest h = cc
take_pass-under_way m machine (p ∷ passes) rest h = elim (Bool-cases (p == machine)) [
  | inl same ↦
      let is : p ≡ machine = ground arith in
      let h' : some passes ≡ some rest = rw (same, take_pass) at h in
      let left : passes ≡ rest = cc in rw (is, left) (omega arith)
  | inr other ↦
      later (take_pass-under_way m machine passes) (take_pass machine passes) refl
        (rw (other, take_pass) at h)
]
  where
    later :
        ((ps : List ℕ)
          → take_pass machine passes ≡ some ps
          → under_way m passes ≡ under_way m ps + (if machine == m then 1 else 0))
        → (o : Option (List ℕ)) → take_pass machine passes ≡ o
        → Option.map (λ ps. p ∷ ps) o ≡ some rest
        → under_way m (p ∷ passes) ≡ under_way m rest + (if machine == m then 1 else 0)
    later go none e h' = cc
    later go (some ps) e h' =
        let left : p ∷ ps ≡ rest = cc in let below = go ps e in rw (sym left) (omega (arith, below))

module _ (max_accounts overlap : ℕ → ℕ) where
  -- Whenever a request has been handled, no machine has more than `overlap` claims under way besides one.
  abbrev pub Overlaps : List Request → Office → Type 0
  Overlaps [] office = Unit
  Overlaps (q ∷ rest) office =
      ((m : ℕ) → under_way m (handle max_accounts q office).1.passes ≤ 1 + overlap m)
      × Overlaps rest (handle max_accounts q office).1

  -- Every machine has at most as many accounts as it may have, and one more for every overlapping claim.
  abbrev pub IsWithin : Office → Type 0
  IsWithin office = (m : ℕ) → in_flight m office.rows ≤ max_accounts m + overlap m

  abbrev Fits : Office → Type 0
  Fits office =
      (m : ℕ) → in_flight m office.rows + under_way m office.passes ≤ max_accounts m + overlap m

  count_accounts-Fits :
      (machine : ℕ) (office : Office)
      → Fits office
      → ((m : ℕ)
          → under_way m (count_accounts machine (max_accounts machine) office).1.passes
            ≤ 1 + overlap m)
      → Fits (count_accounts machine (max_accounts machine) office).1
  unfolding count_accounts
  count_accounts-Fits machine office h few =
      full (leb (max_accounts machine) (in_flight machine office.rows)) refl few
    where
      full :
          (b : Bool)
          → leb (max_accounts machine) (in_flight machine office.rows) ≡ b
          → ((m : ℕ) → under_way m (admit machine office b).1.passes ≤ 1 + overlap m)
          → Fits (admit machine office b).1
      full true e few m = h m
      full false e few m = elim (Bool-cases (machine == m)) [
        | inl same ↦
            let is : machine ≡ m = ground arith in
            let free : leb (max_accounts m) (in_flight m office.rows) ≡ false =
              subst (λ k. leb (max_accounts k) (in_flight k office.rows) ≡ false) is e in
            let room : in_flight m office.rows < max_accounts m = ground arith in
            omega (arith, room, few m)
        | inr other ↦ rw other (omega (arith, h m))
      ]

  take_pending_job-Fits :
      (machine now : ℕ) (locked : List ℕ) (office : Office)
      → Fits office
      → Fits (take_pending_job machine now locked office).1
  unfolding take_pending_job
  take_pending_job-Fits machine now locked office h = taken (take_pass machine office.passes) refl
    where
      taken :
          (o : Option (List ℕ))
          → take_pass machine office.passes ≡ o
          → Fits (take_with machine now locked office.rows o (none, office)).1
      taken none e m = h m
      taken (some rest) e m =
          let more =
            claim_next-Adds (if machine == m then 1 else 0) m is_pending (take_job machine now)
              locked office.rows (λ r is. omega arith) in
          let less = take_pass-under_way m machine office.passes rest e in
          omega (arith, more, less, h m)

  answer-Fits :
      (q : Request) (office : Office)
      → Fits office
      → Fits (answer office.passes (handle_row q office.rows)).1
  answer-Fits q office h m = omega (arith, handle_row-Adds q office.rows m, h m)

  handle-Fits :
      (q : Request) (office : Office)
      → Fits office
      → ((m : ℕ) → under_way m (handle max_accounts q office).1.passes ≤ 1 + overlap m)
      → Fits (handle max_accounts q office).1
  handle-Fits (counts machine) office h few = count_accounts-Fits machine office h few
  handle-Fits (takes machine now locked) office h few =
      take_pending_job-Fits machine now locked office h
  handle-Fits (creates u i m) office h few = answer-Fits (creates u i m) office h
  handle-Fits (retries u i) office h few = answer-Fits (retries u i) office h
  handle-Fits (removes_now u i) office h few = answer-Fits (removes_now u i) office h
  handle-Fits (removes_later u i) office h few = answer-Fits (removes_later u i) office h
  handle-Fits (claims_removal m n l) office h few = answer-Fits (claims_removal m n l) office h
  handle-Fits (reports_step m i x) office h few = answer-Fits (reports_step m i x) office h
  handle-Fits (fails m i x) office h few = answer-Fits (fails m i x) office h
  handle-Fits (reports_removal_step m i x) office h few =
      answer-Fits (reports_removal_step m i x) office h
  handle-Fits (fails_removal m i x) office h few = answer-Fits (fails_removal m i x) office h
  handle-Fits (completes m i) office h few = answer-Fits (completes m i) office h
  handle-Fits (completes_removal m i) office h few = answer-Fits (completes_removal m i) office h

  from-Fits :
      (qs : List Request) (office : Office)
      → Overlaps qs office
      → Fits office
      → Fits (handle_all max_accounts qs office)
  from-Fits [] office few h = h
  from-Fits (q ∷ rest) office few h =
      from-Fits rest (handle max_accounts q office).1 few.1 (handle-Fits q office h few.0)

  -- Whatever requests are made of an empty table, by users and by machines and in any order: if no
  -- machine ever has more than `overlap` claims between their count and their row besides one, it has at
  -- most `overlap` more jobs in progress and active accounts than its limit; where the claims of a
  -- machine never overlap, that is the limit itself.
  pub handle_all-IsWithin :
      (qs : List Request) → Overlaps qs no_rows → IsWithin (handle_all max_accounts qs no_rows)
  handle_all-IsWithin qs few m = omega (arith, from-Fits qs no_rows few (λ m'. omega arith) m)
