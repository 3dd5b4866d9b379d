-- ===== src/Provisioning.antt =====
-- The life of a broker credential's account on a provisioning machine: app/routers/broker_credentials.py
-- (create, retry, remove), app/routers/internal_provisioning.py and app/routers/internal_decommission.py.

pub mod Places
pub mod Capacity
mod Tests
use mathlib.Core.Option
use the_bot.Common.{
  ℕ, ◌+◌, ◌≤◌, Bool, true, false, not, ◌&&◌, ◌||◌, List, [], ◌∷◌, Option, none, some, min, leb,
  ◌==◌, if◌then◌else◌,
}

-- VALID_PROVISIONING_STATUSES
pub data Status : Type 0 where
  not_requested pending in_progress active failed : Status
  decommissioning removing removed decommission_failed : Status

-- A row of broker_credentials, with the columns that the provisioning uses; the label is the
-- credential it was made from.
pub record Credential : Type 0 where
  pub credential_id : ℕ
  pub user_id : ℕ
  pub status : Status
  pub machine_id : Option ℕ
  pub claimed_at : Option ℕ
  pub account_label : Option ℕ
  pub step : Option ℕ
  pub error : Option ℕ

pub data Response : Type 0 where
  ok : Response
  claimed : ℕ → Response
  at_capacity none_pending : Response
  not_found conflict : Response

abbrev pub is_pending : Status → Bool
is_pending pending = true
is_pending _ = false

abbrev pub is_in_progress : Status → Bool
is_in_progress in_progress = true
is_in_progress _ = false

abbrev pub is_failed : Status → Bool
is_failed failed = true
is_failed _ = false

abbrev pub is_decommissioning : Status → Bool
is_decommissioning decommissioning = true
is_decommissioning _ = false

abbrev pub is_removing : Status → Bool
is_removing removing = true
is_removing _ = false

-- `.in_(("in_progress", "active"))`
abbrev pub holds_place : Status → Bool
holds_place in_progress = true
holds_place active = true
holds_place _ = false

-- `in ("in_progress", "decommissioning", "removing")`
abbrev pub is_worked_on : Status → Bool
is_worked_on in_progress = true
is_worked_on decommissioning = true
is_worked_on removing = true
is_worked_on _ = false

abbrev pub is_machine : Option ℕ → ℕ → Bool
is_machine none machine = false
is_machine (some m) machine = m == machine

-- `in_flight_count`
abbrev pub in_flight : ℕ → List Credential → ℕ
in_flight machine [] = 0
in_flight machine (r ∷ rows) =
    (if holds_place r.status && is_machine r.machine_id machine then 1 else 0)
    + in_flight machine rows

-- The first row that a query selects, and a new value for it.
abbrev pub first_by : (Credential → Bool) → List Credential → Option Credential
first_by p [] = none
first_by p (r ∷ rows) = let rest = first_by p rows in if p r then some r else rest

abbrev pub write_by : (Credential → Bool) → Credential → List Credential → List Credential
write_by p new [] = []
write_by p new (r ∷ rows) = let rest = write_by p new rows in if p r then new ∷ rows else r ∷ rest

-- The least key of the rows of a status (`order_by(credential_id)`), but for the rows that other
-- transactions have locked (`skip_locked=True`).
abbrev pub least_of : ℕ → Option ℕ → ℕ
least_of n none = n
least_of n (some m) = min n m

abbrev pub is_locked : ℕ → List ℕ → Bool
is_locked id [] = false
is_locked id (l ∷ locked) = (id == l) || is_locked id locked

abbrev pub least_id : (Status → Bool) → List ℕ → List Credential → Option ℕ
least_id s locked [] = none
least_id s locked (r ∷ rows) =
    let rest = least_id s locked rows in
    if s r.status && not (is_locked r.credential_id locked)
    then some (least_of r.credential_id rest)
    else rest

abbrev pub has_id : ℕ → Credential → Bool
has_id id r = r.credential_id == id

abbrev pub is_next : (Status → Bool) → ℕ → Credential → Bool
is_next s id r = s r.status && r.credential_id == id

abbrev pub is_own : ℕ → ℕ → Credential → Bool
is_own user id r = r.credential_id == id && r.user_id == user

-- What a handler does to the row that it has found, if it has found one.
abbrev pub write_if :
    (Credential → Bool)
    → List Credential
    → Response × Option Credential
    → Response × List Credential
write_if p rows (response, none) = (response, rows)
write_if p rows (response, some new) = (response, write_by p new rows)

abbrev pub on_found :
    (Credential → Bool)
    → (Credential → Response × Option Credential)
    → List Credential
    → Option Credential
    → Response × List Credential
on_found p f rows none = (not_found, rows)
on_found p f rows (some r) = write_if p rows (f r)

abbrev pub on_row :
    (Credential → Bool)
    → (Credential → Response × Option Credential)
    → List Credential
    → Response × List Credential
on_row p f rows = on_found p f rows (first_by p rows)

-- The first row of the status is claimed.
abbrev pub if_next : (Credential → Credential) → Credential → Response × Option Credential
if_next f r = (claimed r.credential_id, some (f r))

abbrev pub claim_least :
    (Status → Bool)
    → (Credential → Credential)
    → List Credential
    → Option ℕ
    → Response × List Credential
claim_least s f rows none = (none_pending, rows)
claim_least s f rows (some id) = on_row (is_next s id) (if_next f) rows

abbrev pub claim_next :
    (Status → Bool)
    → (Credential → Credential)
    → List ℕ
    → List Credential
    → Response × List Credential
claim_next s f locked rows = claim_least s f rows (least_id s locked rows)

abbrev pub label_of : Credential → Option ℕ → Option ℕ
label_of r none = some r.credential_id
label_of r (some l) = some l

abbrev pub take_job : ℕ → ℕ → Credential → Credential
take_job machine now r = record r {
  status = in_progress;
  machine_id = some machine;
  claimed_at = some now;
  account_label = label_of r r.account_label;
}

-- The table, and the machines whose claims have counted the accounts and have yet to take a row, each
-- as often as it has such a claim.
pub record Office : Type 0 where
  pub rows : List Credential
  pub passes : List ℕ

abbrev pub admit : ℕ → Office → Bool → Option Response × Office
admit machine office true = (some at_capacity, office)
admit machine office false = (none, record office { passes = machine ∷ office.passes })

-- `claim_provisioning_job` up to the capacity check, with the machine's `max_accounts`: the count
-- locks nothing. A claim that is not answered goes on.
unfoldable pub count_accounts : ℕ → ℕ → Office → Option Response × Office
count_accounts machine max_accounts office =
    admit machine office (leb max_accounts (in_flight machine office.rows))

abbrev pub take_pass : ℕ → List ℕ → Option (List ℕ)
take_pass machine [] = none
take_pass machine (m ∷ passes) =
    let rest = Option.map (λ ps. m ∷ ps) (take_pass machine passes) in
    if m == machine then some passes else rest

abbrev pub answer : List ℕ → Response × List Credential → Option Response × Office
answer passes (response, rows) = (some response, record { rows = rows; passes = passes })

abbrev pub take_with :
    ℕ
    → ℕ
    → List ℕ
    → List Credential
    → Option (List ℕ)
    → Option Response × Office
    → Option Response × Office
take_with machine now locked rows none idle = idle
take_with machine now locked rows (some passes) idle =
    answer passes (claim_next is_pending (take_job machine now) locked rows)

-- The rest of `claim_provisioning_job`, for a claim of the machine that has passed the check, if there
-- is one.
unfoldable pub take_pending_job : ℕ → ℕ → List ℕ → Office → Option Response × Office
take_pending_job machine now locked office =
    take_with machine now locked office.rows (take_pass machine office.passes) (none, office)

-- `_claimed_row_or_409`, for a job of the status
abbrev pub if_claimed :
    (Status → Bool) → ℕ → (Credential → Credential) → Credential → Response × Option Credential
if_claimed s machine f r =
    if s r.status && is_machine r.machine_id machine then (ok, some (f r)) else (conflict, none)

unfoldable pub report_provisioning_step : ℕ → ℕ → ℕ → List Credential → Response × List Credential
report_provisioning_step machine id step rows =
    on_row (has_id id) (if_claimed is_in_progress machine (λ r. record r { step = some step })) rows

unfoldable pub complete_provisioning_job : ℕ → ℕ → List Credential → Response × List Credential
complete_provisioning_job machine id rows =
    on_row (has_id id)
      (if_claimed is_in_progress machine (λ r. record r { status = active; error = none })) rows

unfoldable pub fail_provisioning_job : ℕ → ℕ → ℕ → List Credential → Response × List Credential
fail_provisioning_job machine id error rows =
    on_row (has_id id)
      (if_claimed is_in_progress machine (λ r. record r { status = failed; error = some error }))
      rows

abbrev pub take_removal : ℕ → ℕ → Credential → Credential
take_removal machine now r = record r {
  status = removing;
  machine_id = some machine;
  claimed_at = some now;
}

unfoldable pub claim_decommission_job :
    ℕ → ℕ → List ℕ → List Credential → Response × List Credential
claim_decommission_job machine now locked rows =
    claim_next is_decommissioning (take_removal machine now) locked rows

unfoldable pub report_decommission_step : ℕ → ℕ → ℕ → List Credential → Response × List Credential
report_decommission_step machine id step rows =
    on_row (has_id id) (if_claimed is_removing machine (λ r. record r { step = some step })) rows

abbrev pub clean_slate : Credential → Credential
clean_slate r = record r {
  status = removed;
  step = none;
  machine_id = none;
  claimed_at = none;
  error = none;
}

unfoldable pub complete_decommission_job : ℕ → ℕ → List Credential → Response × List Credential
complete_decommission_job machine id rows =
    on_row (has_id id) (if_claimed is_removing machine clean_slate) rows

unfoldable pub fail_decommission_job : ℕ → ℕ → ℕ → List Credential → Response × List Credential
fail_decommission_job machine id error rows =
    on_row (has_id id)
      (if_claimed is_removing machine
        (λ r. record r { status = decommission_failed; error = some error }))
      rows

-- `create_broker_credential`: a new row, queued if a machine could claim it
unfoldable pub create_broker_credential :
    ℕ → ℕ → Bool → List Credential → Response × List Credential
create_broker_credential user id has_active_machine rows = (
  ok,
  record {
    credential_id = id;
    user_id = user;
    status = if has_active_machine then pending else not_requested;
    machine_id = none;
    claimed_at = none;
    account_label = none;
    step = none;
    error = none;
  }
      ∷ rows,
)

abbrev pub if_failed : Credential → Response × Option Credential
if_failed r =
    if is_failed r.status
    then (
      ok,
      some (record r {
        status = pending;
        error = none;
        step = none;
        machine_id = none;
        claimed_at = none;
      }),
    )
    else (conflict, none)

unfoldable pub retry_provisioning : ℕ → ℕ → List Credential → Response × List Credential
retry_provisioning user id rows = on_row (is_own user id) if_failed rows

abbrev pub remove_by_label : Bool → Credential → Option ℕ → Response × Option Credential
remove_by_label has_active_machine r none = (ok, some (record r { status = removed }))
remove_by_label has_active_machine r (some label) =
    if has_active_machine
    then (ok, some (record r { status = decommissioning }))
    else (conflict, none)

abbrev pub if_idle : Bool → Credential → Response × Option Credential
if_idle has_active_machine r =
    if is_worked_on r.status
    then (conflict, none)
    else remove_by_label has_active_machine r r.account_label

unfoldable pub remove_broker_credential :
    ℕ → ℕ → Bool → List Credential → Response × List Credential
remove_broker_credential user id has_active_machine rows =
    on_row (is_own user id) (if_idle has_active_machine) rows

-- The requests, in any order; each is one transaction, but that a claim of a job has two steps, and
-- other requests may come between them. A step that takes a row is told which rows are locked then.
pub data Request : Type 0 where
  creates : ℕ → ℕ → Bool → Request
  retries removes_now removes_later : ℕ → ℕ → Request
  counts : ℕ → Request
  takes claims_removal : ℕ → ℕ → List ℕ → Request
  reports_step fails reports_removal_step fails_removal : ℕ → ℕ → ℕ → Request
  completes completes_removal : ℕ → ℕ → Request

abbrev pub handle_row : Request → List Credential → Response × List Credential
handle_row (creates user id m) rows = create_broker_credential user id m rows
handle_row (retries user id) rows = retry_provisioning user id rows
handle_row (removes_now user id) rows = remove_broker_credential user id false rows
handle_row (removes_later user id) rows = remove_broker_credential user id true rows
handle_row (claims_removal machine now locked) rows = claim_decommission_job machine now locked rows
handle_row (reports_step machine id step) rows = report_provisioning_step machine id step rows
handle_row (fails machine id error) rows = fail_provisioning_job machine id error rows
handle_row (reports_removal_step machine id step) rows =
    report_decommission_step machine id step rows
handle_row (fails_removal machine id error) rows = fail_decommission_job machine id error rows
handle_row (completes machine id) rows = complete_provisioning_job machine id rows
handle_row (completes_removal machine id) rows = complete_decommission_job machine id rows
handle_row (counts machine) rows = (ok, rows)
handle_row (takes machine now locked) rows = (ok, rows)

abbrev pub handle : (ℕ → ℕ) → Request → Office → Option Response × Office
handle max_accounts (counts machine) office = count_accounts machine (max_accounts machine) office
handle max_accounts (takes machine now locked) office = take_pending_job machine now locked office
handle max_accounts q office = answer office.passes (handle_row q office.rows)

abbrev pub handle_all : (ℕ → ℕ) → List Request → Office → Office
handle_all max_accounts [] office = office
handle_all max_accounts (q ∷ rest) office =
    handle_all max_accounts rest (handle max_accounts q office).1

abbrev pub no_rows : Office
no_rows = record { rows = []; passes = [] }
