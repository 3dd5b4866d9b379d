-- ===== src/Provisioning/Tests.antt =====
-- Two accounts and a machine for one, and the theorem of the provisioning at them.
use the_bot.Common.{if◌then◌else◌, ◌==◌, arith, some, ℕ, ◌≡◌, refl, true, List, [], ◌∷◌, map}
use the_bot.Provisioning.{
  Status, pending, active, removed, Credential, at_capacity, Request, creates, counts, takes,
  in_flight, no_rows, completes, removes_later, claims_removal, completes_removal, handle,
  handle_all, count_accounts, take_pending_job, complete_provisioning_job, create_broker_credential,
  remove_broker_credential, claim_decommission_job, complete_decommission_job,
}
use the_bot.Provisioning.Capacity.{Overlaps, IsWithin, handle_all-IsWithin}

abbrev one_each : ℕ → ℕ
one_each machine = 1

abbrev first_requests : List Request
first_requests =
    creates 1 10 true
    ∷ creates 2 20 true
    ∷ counts 5
    ∷ takes 5 100 []
    ∷ completes 5 10
    ∷ counts 5
    ∷ []

abbrev statuses : List Credential → List Status
statuses rows = map (λ (r : Credential). r.status) rows

-- The machine has one account, and the other waits.
statuses_then : statuses (handle_all one_each first_requests no_rows).rows ≡ pending ∷ active ∷ []
unfolding create_broker_credential count_accounts take_pending_job complete_provisioning_job
statuses_then = refl

full_then :
    (handle one_each (counts 5) (handle_all one_each first_requests no_rows)).0 ≡ some at_capacity
unfolding create_broker_credential count_accounts take_pending_job complete_provisioning_job
full_then = refl

-- Another machine, 6, is given the removal of the account that the machine 5 has.
removed_elsewhere :
    statuses
      (handle_all one_each
        (removes_later 1 10 ∷ claims_removal 6 200 [] ∷ completes_removal 6 10 ∷ [])
        (handle_all one_each first_requests no_rows)).rows
    ≡ pending ∷ removed ∷ []
unfolding create_broker_credential count_accounts take_pending_job complete_provisioning_job
    remove_broker_credential claim_decommission_job complete_decommission_job
removed_elsewhere = refl

-- Two claims of the machine 5 count before either takes a row: it is given two accounts.
abbrev racing_requests : List Request
racing_requests =
    creates 1 10 true
    ∷ creates 2 20 true
    ∷ counts 5
    ∷ counts 5
    ∷ takes 5 100 []
    ∷ takes 5 100 (10 ∷ [])
    ∷ []

exceeded : in_flight 5 (handle_all one_each racing_requests no_rows).rows ≡ 2
unfolding create_broker_credential count_accounts take_pending_job
exceeded = refl

abbrev one_overlap : ℕ → ℕ
one_overlap machine = if 5 == machine then 1 else 0

racing_requests-Overlaps : Overlaps one_each one_overlap racing_requests no_rows
unfolding create_broker_credential count_accounts take_pending_job
racing_requests-Overlaps = (
  λ m. omega arith,
  (
    λ m. omega arith,
    (λ m. ground arith, (λ m. ground arith, (λ m. ground arith, (λ m. omega arith, tt)))),
  ),
)

handle_all-IsWithin_example :
    IsWithin one_each one_overlap (handle_all one_each racing_requests no_rows)
handle_all-IsWithin_example =
    handle_all-IsWithin one_each one_overlap racing_requests racing_requests-Overlaps
