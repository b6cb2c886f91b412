-- ===== src/World/Spending.antt =====
-- What actions spend: the time that passes, or the commands that are run. One rule for each way to build an
-- action.
use maistra_test_tool.World.{
  World, Action, Outcome, returned, panicked, exited, crashed, pure, continue, ◌>>=◌,
}
use maistra_test_tool.World.Panics.{with_defer, run_deferred}
use maistra_test_tool.World.Keeps.{Keeps}
use maistra_test_tool.World.Onward.{Same, Same-refl}
use maistra_test_tool.Prelude.{
  ℕ, ◌+◌, ◌≤◌, ◌≡◌, arith, ap, length, Bool, true, false, if◌then◌else◌,
}

-- What is counted; it does not change with the parts of the world that do not count.
pub record Meter : Type 0 where
  pub read : World → ℕ
  pub same : (w w' : World) → Same w w' → read w' ≡ read w

-- The clock.
abbrev pub time : Meter
time = record { read = λ w. w.clock; same = λ w w' s. s.clock }

-- The number of commands that were run.
abbrev pub commands : Meter
commands = record { read = λ w. length w.trace; same = λ w w' s. ap length s.trace }

-- However the action ends, it has spent at most `c`.
pub record Spends {A : Type 0} (μ : Meter) (c : ℕ) (m : Action A) : Type 0 where
  pub at : (w : World) → μ.read (m w).1 ≤ μ.read w + c

module _ {μ : Meter} where
  pub Spends-pure : {A : Type 0} (a : A) → Spends μ 0 (pure a)
  unfolding pure
  Spends-pure a = record { at = λ w. omega arith }

  pub Still-Spends : {A : Type 0} (m : Action A) → ((w : World) → Keeps (Same w) m) → Spends μ 0 m
  Still-Spends m k = record {
    at = λ w. let e = μ.same w (m w).1 ((k w).at w (Same-refl w)) in omega (arith, e);
  }

  pub Spends-more : {A : Type 0} {c d : ℕ} (m : Action A) → c ≤ d → Spends μ c m → Spends μ d m
  Spends-more m le s = record { at = λ w. let h = s.at w in omega (arith, h) }

  pub Spends-if :
      {A : Type 0} {c : ℕ} (b : Bool) (m n : Action A)
      → Spends μ c m
      → Spends μ c n
      → Spends μ c (if b then m else n)
  Spends-if true m n sm sn = sm
  Spends-if false m n sm sn = sn

  module _ {A B : Type 0} where
    continue_at :
        (f : A → Action B) {d : ℕ} (o : Outcome A) (w : World)
        → ((a : A) → Spends μ d (f a))
        → μ.read (continue f o w).1 ≤ μ.read w + d
    continue_at f (returned a) w sf = (sf a).at w
    continue_at f (panicked p) w sf = omega arith
    continue_at f exited w sf = omega arith
    continue_at f (crashed p) w sf = omega arith

    pub Spends-bind :
        {c d : ℕ} (m : Action A) (f : A → Action B)
        → Spends μ c m
        → ((a : A) → Spends μ d (f a))
        → Spends μ (c + d) (m >>= f)
    unfolding ◌>>=◌
    Spends-bind m f sm sf = record {
      at = λ w.
          let (o, w') = m w in
          let first = sm.at w in let rest = continue_at f o w' sf in omega (arith, first, rest);
    }

  deferred_at :
      (d : Outcome Unit → Action (Outcome Unit)) (o : Outcome Unit) (w : World)
      → ((o : Outcome Unit) → Spends μ 0 (d o))
      → μ.read (run_deferred d o w).1 ≤ μ.read w
  deferred_at d (returned a) w sd = let h = (sd (returned a)).at w in omega (arith, h)
  deferred_at d (panicked p) w sd = let h = (sd (panicked p)).at w in omega (arith, h)
  deferred_at d exited w sd = let h = (sd exited).at w in omega (arith, h)
  deferred_at d (crashed p) w sd = omega arith

  pub Spends-with_defer :
      {c : ℕ} (m : Action Unit) (d : Outcome Unit → Action (Outcome Unit))
      → Spends μ c m
      → ((o : Outcome Unit) → Spends μ 0 (d o))
      → Spends μ c (with_defer m d)
  unfolding with_defer
  Spends-with_defer m d sm sd = record {
    at = λ w.
        let (o, w') = m w in
        let first = sm.at w in let rest = deferred_at d o w' sd in omega (arith, first, rest);
  }
