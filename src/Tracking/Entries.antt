-- ===== src/Tracking/Entries.antt =====
-- The dictionary of tracked positions: how often a ticket is a key, and how often with a position that
-- has not been halved.
use the_bot.Common.{
  ℕ, ◌+◌, ◌≤◌, ◌≡◌, refl, Bool, true, false, List, [], ◌∷◌, arith, max, ◌==◌, if◌then◌else◌,
}
use the_bot.Tracking.Tracker.{Info, put, drop_ticket, mark}
use the_bot.Tracking.Trace.{here}

abbrev pub entries : ℕ → List (ℕ × Info) → ℕ
entries t [] = 0
entries t ((k, i) ∷ rest) = here t k + entries t rest

abbrev pub fresh : ℕ → ℕ → Bool → ℕ
fresh t k halved = if halved then 0 else here t k

abbrev pub unhalved : ℕ → List (ℕ × Info) → ℕ
unhalved t [] = 0
unhalved t ((k, i) ∷ rest) = fresh t k i.partial_closed + unhalved t rest

-- No ticket is a key twice.
abbrev pub Distinct : List (ℕ × Info) → Type 0
Distinct tracked = (t : ℕ) → entries t tracked ≤ 1

fresh-le : (t k : ℕ) (halved : Bool) → fresh t k halved ≤ here t k
fresh-le t k true = ground arith
fresh-le t k false = omega arith

pub unhalved-le : (t : ℕ) (l : List (ℕ × Info)) → unhalved t l ≤ entries t l
unhalved-le t [] = omega arith
unhalved-le t ((k, i) ∷ rest) = omega (arith, fresh-le t k i.partial_closed, unhalved-le t rest)

pub entries-put :
    (t k : ℕ) (i : Info) (l : List (ℕ × Info))
    → entries t (put k i l) ≡ max (here t k) (entries t l)
entries-put t k i [] = ground arith
entries-put t k i ((q, j) ∷ rest) = ground (arith, entries-put t k i rest)

pub unhalved-put :
    (t k : ℕ) (i : Info) (l : List (ℕ × Info))
    → unhalved t (put k i l) ≤ unhalved t l + fresh t k i.partial_closed
unhalved-put t k i [] = omega arith
unhalved-put t k i ((q, j) ∷ rest) = ground (arith, unhalved-put t k i rest)

pub entries-drop_ticket :
    (t k : ℕ) (l : List (ℕ × Info))
    → entries t (drop_ticket k l) ≡ (if t == k then 0 else entries t l)
entries-drop_ticket t k [] = ground arith
entries-drop_ticket t k ((q, j) ∷ rest) = ground (arith, entries-drop_ticket t k rest)

pub unhalved-drop_ticket :
    (t k : ℕ) (l : List (ℕ × Info))
    → unhalved t (drop_ticket k l) ≡ (if t == k then 0 else unhalved t l)
unhalved-drop_ticket t k [] = ground arith
unhalved-drop_ticket t k ((q, j) ∷ rest) = ground (arith, unhalved-drop_ticket t k rest)

pub entries-mark : (t k : ℕ) (l : List (ℕ × Info)) → entries t (mark k l) ≡ entries t l
entries-mark t k [] = refl
entries-mark t k ((q, j) ∷ rest) = omega (arith, entries-mark t k rest)

pub unhalved-mark :
    (t k : ℕ) (l : List (ℕ × Info)) → unhalved t (mark k l) ≡ (if t == k then 0 else unhalved t l)
unhalved-mark t k [] = ground arith
unhalved-mark t k ((q, j) ∷ rest) = ground (arith, unhalved-mark t k rest)
