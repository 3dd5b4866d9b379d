-- ===== src/Provisioning/Places.antt =====
-- What a request of app/routers/ makes of a row, and the places of a machine that the row takes.

use mathlib.Core.Path.{subst}
use the_bot.Common.{
  ℕ, ◌+◌, ◌≤◌, ◌≡◌, refl, sym, ap, inl, inr, Bool, true, false, ◌&&◌, List, [], ◌∷◌, Option, none,
  some, arith, Bool-cases, if◌then◌else◌,
}
use the_bot.Provisioning.{
  if_failed, if_idle, remove_by_label, Status, pending, in_progress, active, failed, not_requested,
  decommissioning, removing, removed, decommission_failed, Credential, Response, conflict,
  is_in_progress, is_failed, holds_place, is_worked_on, is_machine, in_flight, first_by, write_by,
  write_if, on_found, if_next, claim_least, least_id, has_id, is_next, on_row, claim_next,
  if_claimed,
}

-- What a row takes of the machine's places.
abbrev pub places_of : ℕ → Status → Option ℕ → ℕ
places_of m status machine = if holds_place status && is_machine machine m then 1 else 0

abbrev pub weight : ℕ → Credential → ℕ
weight m r = places_of m r.status r.machine_id

places_of-le : (m : ℕ) (status : Status) (machine : Option ℕ) → places_of m status machine ≤ 1
places_of-le m status machine = one (holds_place status && is_machine machine m)
  where
    one : (b : Bool) → (if b then 1 else 0) ≤ 1
    one true = omega arith
    one false = omega arith

write_by-in_flight :
    (m : ℕ) (p : Credential → Bool) (new r : Credential) (rows : List Credential)
    → first_by p rows ≡ some r
    → in_flight m (write_by p new rows) + weight m r ≡ in_flight m rows + weight m new
write_by-in_flight m p new r [] e = cc
write_by-in_flight m p new r (c ∷ rows) e = elim (Bool-cases (p c)) [
  | inl yes' ↦
      let e' : some c ≡ some r = rw (yes', first_by) at e in
      let same : c ≡ r = cc in
      rw (yes', write_by, sym same)
        (let g : weight m new + in_flight m rows + weight m c
              ≡ weight m c + in_flight m rows + weight m new =
            omega arith in
          g)
  | inr no' ↦
      let below = write_by-in_flight m p new r rows (rw (no', first_by) at e) in
      rw (no', write_by)
        (let g : weight m c + in_flight m (write_by p new rows) + weight m r
              ≡ weight m c + in_flight m rows + weight m new =
            omega (arith, below) in
          g)
]

-- Where it applies, what `f` makes of a row takes at most `n` places more.
abbrev pub Adds : ℕ → ℕ → (Credential → Bool) → (Credential → Response × Option Credential) → Type 0
Adds n m p f =
    (r new : Credential) → p r ≡ true → (f r).1 ≡ some new → weight m new ≤ weight m r + n

first_by-holds :
    (p : Credential → Bool) (rows : List Credential) (r : Credential)
    → first_by p rows ≡ some r
    → p r ≡ true
first_by-holds p [] r e = cc
first_by-holds p (c ∷ rows) r e = elim (Bool-cases (p c)) [
  | inl hit ↦
      let e' : some c ≡ some r = rw (hit, first_by) at e in
      let same : c ≡ r = cc in subst (λ x. p x ≡ true) same hit
  | inr miss ↦ first_by-holds p rows r (rw (miss, first_by) at e)
]

pub on_row-Adds :
    (n m : ℕ) (p : Credential → Bool) (f : Credential → Response × Option Credential)
    (rows : List Credential)
    → Adds n m p f
    → in_flight m (on_row p f rows).1 ≤ in_flight m rows + n
on_row-Adds n m p f rows adds = found (first_by p rows) refl
  where
    written :
        (r : Credential) (x : Response × Option Credential)
        → first_by p rows ≡ some r
        → f r ≡ x
        → in_flight m (write_if p rows x).1 ≤ in_flight m rows + n
    written r (response, none) e is = omega arith
    written r (response, some new) e is =
        let more =
          adds r new (first_by-holds p rows r e)
            (ap (λ (y : Response × Option Credential). y.1) is) in
        omega (arith, write_by-in_flight m p new r rows e, more)

    found :
        (o : Option Credential)
        → first_by p rows ≡ o
        → in_flight m (on_found p f rows o).1 ≤ in_flight m rows + n
    found none e = omega arith
    found (some r) e = written r (f r) e refl

pub claim_next-Adds :
    (n m : ℕ) (s : Status → Bool) (f : Credential → Credential) (locked : List ℕ)
    (rows : List Credential)
    → ((r : Credential) → s r.status ≡ true → weight m (f r) ≤ weight m r + n)
    → in_flight m (claim_next s f locked rows).1 ≤ in_flight m rows + n
claim_next-Adds n m s f locked rows adds = least (least_id s locked rows)
  where
    least : (o : Option ℕ) → in_flight m (claim_least s f rows o).1 ≤ in_flight m rows + n
    least none = omega arith
    least (some id) = on_row-Adds n m (is_next s id) (if_next f) rows (λ r new is made.
        let same : f r ≡ new = cc in
        subst (λ x. weight m x ≤ weight m r + n) same
          (adds r (let h : s r.status ≡ true = ground arith in h)))

pub if_claimed-Adds :
    (m machine : ℕ) (s : Status → Bool) (f : Credential → Credential) (id : ℕ)
    → ((r : Credential) → s r.status ≡ true → weight m (f r) ≤ weight m r)
    → Adds 0 m (has_id id) (if_claimed s machine f)
if_claimed-Adds m machine s f id frees r new is made =
    elim (Bool-cases (s r.status && is_machine r.machine_id machine)) [
      | inl hit ↦
          let made' : some (f r) ≡ some new = rw (hit, if_claimed) at made in
          let same : f r ≡ new = cc in
          let kept = frees r (let h : s r.status ≡ true = ground arith in h) in
          subst (λ x. weight m x ≤ weight m r + 0) same (omega (arith, kept))
      | inr miss ↦ let made' : none ≡ some new = rw (miss, if_claimed) at made in cc
    ]

-- A row whose status takes a place and keeps its machine takes no more.
pub kept_place :
    (m : ℕ) (status status' : Status) (machine : Option ℕ)
    → holds_place status ≡ true
    → places_of m status' machine ≤ places_of m status machine
kept_place m status status' machine h = ground arith

pub in_progress_holds : (status : Status) → is_in_progress status ≡ true → holds_place status ≡ true
in_progress_holds in_progress h = refl
in_progress_holds active h = cc
in_progress_holds pending h = cc
in_progress_holds failed h = cc
in_progress_holds not_requested h = cc
in_progress_holds decommissioning h = cc
in_progress_holds removing h = cc
in_progress_holds removed h = cc
in_progress_holds decommission_failed h = cc

pub if_failed-Adds : (m : ℕ) (p : Credential → Bool) → Adds 0 m p if_failed
if_failed-Adds m p r new is made = elim (Bool-cases (is_failed r.status)) [
  | inl hit ↦
      let made' = rw (hit, if_failed) at made in
      let none_held : weight m new ≡ 0 = sym (ap (weight_of m) made') in omega (arith, none_held)
  | inr miss ↦ let made' : none ≡ some new = rw (miss, if_failed) at made in cc
]
  where
    weight_of : ℕ → Option Credential → ℕ
    weight_of m none = 0
    weight_of m (some x) = weight m x

pub if_idle-Adds : (m : ℕ) (b : Bool) (p : Credential → Bool) → Adds 0 m p (if_idle b)
if_idle-Adds m b p r new is made = busy (is_worked_on r.status) made
  where
    weight_of : ℕ → Option Credential → ℕ
    weight_of m none = 0
    weight_of m (some x) = weight m x

    labelled :
        (b : Bool) (o : Option ℕ)
        → (remove_by_label b r o).1 ≡ some new
        → weight m new ≤ weight m r + 0
    labelled b none h = let e : weight m new ≡ 0 = sym (ap (weight_of m) h) in omega (arith, e)
    labelled true (some l) h =
        let e : weight m new ≡ 0 = sym (ap (weight_of m) h) in omega (arith, e)
    labelled false (some l) h = cc

    busy :
        (c : Bool)
        → (if c then (conflict, none) else remove_by_label b r r.account_label).1 ≡ some new
        → weight m new ≤ weight m r + 0
    busy true h = cc
    busy false h = labelled b r.account_label h
