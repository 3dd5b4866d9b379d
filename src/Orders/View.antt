-- ===== src/Orders/View.antt =====
-- What a run of the order manager is judged by: how often it journaled each kind of event that must
-- not be repeated, beside the manager's own account of it.
use the_bot.Common.{
  ℕ, ◌+◌, ◌≡◌, refl, ap, ◌∙◌, Bool, List, [], ◌∷◌, ◌++◌, Option, none, some, arith,
}
use the_bot.Orders.Broker.{History, Outside}
use the_bot.Orders.Machine.{
  Key, Info, Event, pending_order_placed, candidate_filled, real_trade_closed,
  daily_loss_threshold_crossed, Machine, Manager, emit,
}

pub data Kind : Type 0 where
  placing filling closing crossing : Kind

unfoldable pub kind : Event → Option Kind
kind (pending_order_placed _ _ _ _ _) = some placing
kind (candidate_filled _ _ _ _) = some filling
kind (real_trade_closed _ _ _) = some closing
kind (daily_loss_threshold_crossed _ _ _ _) = some crossing
kind _ = none

abbrev pub matches : Kind → Option Kind → ℕ
matches placing (some placing) = 1
matches filling (some filling) = 1
matches closing (some closing) = 1
matches crossing (some crossing) = 1
matches _ _ = 0

abbrev pub count : Kind → List Event → ℕ
count k [] = 0
count k (e ∷ rest) = matches k (kind e) + count k rest

pub count-append : (k : Kind) (xs ys : List Event) → count k (xs ++ ys) ≡ count k xs + count k ys
count-append k [] ys = omega arith
count-append k (e ∷ xs) ys = omega (arith, count-append k xs ys)

pub record View : Type 0 where
  pub winner : Option ℕ
  pub position : Option ℕ
  pub closed : Option History
  pub emitted : Bool
  pub pending : List (Key × Info)
  pub counts : Kind → ℕ

abbrev pub view_of : Manager → List Event → View
view_of m journal = record {
  winner = m.winner_ticket;
  position = m.winner_position_ticket;
  closed = m.closed_info;
  emitted = m.loss_threshold_emitted_today;
  pending = m.pending;
  counts = λ k. count k journal;
}

abbrev pub view : {World : Type 0} → Machine World → View
view s = view_of s.manager s.journal

matches-none : (k : Kind) → matches k none ≡ 0
matches-none placing = refl
matches-none filling = refl
matches-none closing = refl
matches-none crossing = refl

count-none :
    (k : Kind) (journal : List Event) (e : Event)
    → kind e ≡ none
    → count k (journal ++ e ∷ []) ≡ count k journal
count-none k journal e h =
    let m : matches k (kind e) ≡ 0 = ap (matches k) h ∙ matches-none k in
    omega (arith, count-append k journal (e ∷ []), m)

-- An event of no kind changes nothing of the view.
pub view-emit :
    {World : Type 0} (o : Outside World) (e : Event) (s : Machine World)
    → kind e ≡ none
    → view (emit o e s) ≡ view s
view-emit o e s h = λ i. record (view s) { counts = λ k. count-none k s.journal e h i }
