-- ===== src/Orders/Sizing.antt =====
-- `compute_lot_size` of shadow_runner/order_manager.py.
use the_bot.Common.{
  ap, ◌∙◌, ◌<◌, ◌≤◌, ◌≡◌, ◌⊎◌, inl, inr, leb, ◌==◌, if◌then◌else◌, min, max, Bool-cases, arith,
}
use the_bot.Common.Floats.{Float, Arith}
use the_bot.Orders.Broker.{Reply, raised, returned, value_error, zero_division, SymbolInfo}

-- The operations that sizing needs besides `Arith`: `int(…)` of a float, as a float, and
-- `round(…, 8)`; and the literals 1e-9 and 0.01.
pub record Rounding : Type 0 where
  pub to_int : Float → Float
  pub round8 : Float → Float
  pub epsilon : Float
  pub smallest_lot : Float

module _ (fl : Arith) (ro : Rounding) where
  -- `lots`, from the quotient on: whole steps, floored at `volume_min`, capped at `volume_max`.
  abbrev pub stepped : SymbolInfo → Float → Float
  stepped i raw_lots =
      let steps = ro.to_int (fl.add (fl.div raw_lots i.volume_step) ro.epsilon) in
      ro.round8 (min i.volume_max (max i.volume_min (fl.mul steps i.volume_step)))

  -- `stop_distance_pips * pip_value_per_lot`
  abbrev pub risk_per_lot : Float → SymbolInfo → Float
  risk_per_lot stop_distance_price i =
      fl.mul (fl.div stop_distance_price fl.pip) (fl.mul i.tick_value (fl.div fl.pip i.tick_size))

  -- Each division by a float that may be zero raises ZeroDivisionError if it is.
  unfoldable pub compute_lot_size : Float → Float → Float → SymbolInfo → Reply Float
  compute_lot_size balance risk_pct stop_distance_price i =
      if leb stop_distance_price fl.nought
      then raised value_error
      else if i.tick_size == fl.nought
      then raised zero_division
      else if risk_per_lot stop_distance_price i == fl.nought
      then raised zero_division
      else if i.volume_step == fl.nought
      then raised zero_division
      else returned
          (stepped i (fl.div (fl.mul balance risk_pct) (risk_per_lot stop_distance_price i)))

  -- A divisor of the computation is zero.
  abbrev pub HasZeroDivisor : Float → SymbolInfo → Type 0
  HasZeroDivisor stop_distance_price i =
      (i.tick_size ≡ fl.nought)
      ⊎ ((risk_per_lot stop_distance_price i ≡ fl.nought) ⊎ (i.volume_step ≡ fl.nought))

  -- What `round(…, 8)` does to the broker's limits: it is monotone, and they have few digits.
  pub record Keeps (i : SymbolInfo) : Type 0 where
    pub monotone : (a b : Float) → a ≤ b → ro.round8 a ≤ ro.round8 b
    pub keeps_min : ro.round8 i.volume_min ≡ i.volume_min
    pub keeps_max : ro.round8 i.volume_max ≡ i.volume_max
    pub limits : i.volume_min ≤ i.volume_max

  -- The lots that cost the money at risk: balance times risk, over the pips to the stop times the
  -- value of a pip.
  abbrev pub lots_for : Float → Float → Float → SymbolInfo → Float
  lots_for balance risk_pct distance i =
      fl.div (fl.mul balance risk_pct)
        (fl.mul (fl.div distance fl.pip) (fl.mul i.tick_value (fl.div fl.pip i.tick_size)))

  -- `whole` in steps of the volume.
  abbrev pub whole_steps : Float → SymbolInfo → Float
  whole_steps lots i =
      fl.mul (ro.to_int (fl.add (fl.div lots i.volume_step) ro.epsilon)) i.volume_step

  -- The size for `whole` lots: the smallest or the largest volume beyond these, the lots rounded between.
  pub record IsClamped (i : SymbolInfo) (whole lots : Float) : Type 0 where
    pub small : whole ≤ i.volume_min → lots ≡ i.volume_min
    pub large : i.volume_max ≤ whole → lots ≡ i.volume_max
    pub between : i.volume_min ≤ whole → whole ≤ i.volume_max → lots ≡ ro.round8 whole
    pub above : i.volume_min ≤ lots
    pub below : lots ≤ i.volume_max

  stepped-IsClamped :
      (i : SymbolInfo) (raw : Float) → Keeps i → IsClamped i (whole_steps raw i) (stepped i raw)
  stepped-IsClamped i raw k =
      let q = whole_steps raw i in
      let lots = min i.volume_max (max i.volume_min q) in
      let limits = k.limits in
      let e = k.keeps_min in
      let e' = k.keeps_max in
      let over = k.monotone i.volume_min lots (omega arith) in
      let under = k.monotone lots i.volume_max (omega arith) in
      record {
        small = λ le. ap ro.round8 (let g : lots ≡ i.volume_min = omega arith in g) ∙ e;
        large = λ le. ap ro.round8 (let g : lots ≡ i.volume_max = omega arith in g) ∙ e';
        between = λ le le'. ap ro.round8 (let g : lots ≡ q = omega arith in g);
        above = omega arith;
        below = omega arith;
      }

  -- The three outcomes of the computation.
  abbrev pub IsSized : Float → Float → Float → SymbolInfo → Type 0
  IsSized balance risk_pct distance i =
      ((distance ≤ fl.nought) × (compute_lot_size balance risk_pct distance i ≡ raised value_error))
      ⊎ (((fl.nought < distance)
            × HasZeroDivisor distance i
            × (compute_lot_size balance risk_pct distance i ≡ raised zero_division))
          ⊎ ((fl.nought < distance)
              × ¬ HasZeroDivisor distance i
              × (lots : Float) × (compute_lot_size balance risk_pct distance i ≡ returned lots)
              × IsClamped i (whole_steps (lots_for balance risk_pct distance i) i) lots))

  -- If rounding to eight digits is monotone and keeps the symbol's smallest and largest volume, and
  -- these are in order: without a positive stop distance, the computation raises a ValueError; else, if
  -- a divisor is zero, a ZeroDivisionError; and else it returns a size between the two volumes, which
  -- for the lots that cost the money at risk, in whole steps, is the smallest volume when they are no
  -- more than it, the largest when they are no less than it, and those lots rounded when they lie between.
  pub compute_lot_size-IsSized :
      (balance risk_pct distance : Float) (i : SymbolInfo)
      → Keeps i
      → IsSized balance risk_pct distance i
  unfolding compute_lot_size
  compute_lot_size-IsSized balance risk_pct distance i k =
      elim (Bool-cases (leb distance fl.nought)) [
        | inl h ↦ inl (ground arith, rw (h, compute_lot_size))
        | inr h ↦
            let far : fl.nought < distance = ground arith in
            elim (Bool-cases (i.tick_size == fl.nought)) [
              | inl h1 ↦ inr (inl (far, inl (ground arith), rw (h, h1, compute_lot_size)))
              | inr h1 ↦ elim (Bool-cases (risk_per_lot distance i == fl.nought)) [
                | inl h2 ↦
                    inr (inl (far, inr (inl (ground arith)), rw (h, h1, h2, compute_lot_size)))
                | inr h2 ↦ elim (Bool-cases (i.volume_step == fl.nought)) [
                  | inl h3 ↦
                      inr
                        (inl (far, inr (inr (ground arith)), rw (h, h1, h2, h3, compute_lot_size)))
                  | inr h3 ↦
                      let raw = lots_for balance risk_pct distance i in
                      let no_zero : ¬ HasZeroDivisor distance i = λ z. elim z [
                        | inl z1 ↦ ground (arith, z1)
                        | inr z' ↦ elim z' [
                          | inl z2 ↦ ground (arith, z2)
                          | inr z3 ↦ ground (arith, z3)
                        ]
                      ] in
                      inr (
                        inr (
                          far,
                          no_zero,
                          stepped i raw,
                          rw (h, h1, h2, h3, compute_lot_size),
                          stepped-IsClamped i raw k,
                        ))
                ]
              ]
            ]
      ]
