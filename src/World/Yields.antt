-- ===== src/World/Yields.antt =====
-- How actions end: a value with a property, or a panic. An action that yields neither exits nor crashes.
use maistra_test_tool.World.{
  World, Action, Outcome, PanicValue, returned, panicked, pure, panic, gets, modify, when, ◌>>=◌,
  continue,
}
use maistra_test_tool.Prelude.{Bool, true, false, if◌then◌else◌}

pub data EndsIn {A : Type 0} (Q : A → Type 0) : Outcome A → Type 0 where
  by_value : (a : A) → Q a → EndsIn Q (returned a)
  by_panic : (p : PanicValue) → EndsIn Q (panicked p)

pub record Yields {A : Type 0} (Q : A → Type 0) (m : Action A) : Type 0 where
  pub at : (w : World) → EndsIn Q (m w).0

abbrev pub Any : {A : Type 0} → A → Type 0
Any a = Unit

module _ {A : Type 0} where
  pub Yields-pure : {Q : A → Type 0} (a : A) → Q a → Yields Q (pure a)
  unfolding ◌>>=◌
  Yields-pure a q = record { at = λ w. by_value a q }

  pub Yields-panic : {Q : A → Type 0} (p : PanicValue) → Yields Q (panic {A = A} p)
  unfolding ◌>>=◌
  Yields-panic p = record { at = λ w. by_panic p }

  pub Yields-gets : (f : World → A) → Yields Any (gets f)
  unfolding ◌>>=◌
  Yields-gets f = record { at = λ w. by_value (f w) tt }

  pub Yields-if :
      {Q : A → Type 0} (b : Bool) (m n : Action A)
      → Yields Q m
      → Yields Q n
      → Yields Q (if b then m else n)
  Yields-if true m n km kn = km
  Yields-if false m n km kn = kn

pub Yields-modify : (f : World → World) → Yields Any (modify f)
unfolding ◌>>=◌
Yields-modify f = record { at = λ w. by_value tt tt }

pub Yields-when : (b : Bool) (m : Action Unit) → Yields Any m → Yields Any (when b m)
unfolding when
Yields-when true m km = km
Yields-when false m km = Yields-pure tt tt

module _ {A B : Type 0} {Q : B → Type 0} where
  pub Yields-bind :
      (m : Action A) (f : A → Action B)
      → Yields Any m
      → ((a : A) → Yields Q (f a))
      → Yields Q (m >>= f)
  unfolding ◌>>=◌
  Yields-bind m f km kf = record { at = λ w. let (o, w') = m w in onward o w' (km.at w) }
    where
      onward : (o : Outcome A) (w' : World) → EndsIn Any o → EndsIn Q (continue f o w').0
      onward _ w' (by_value a q) = (kf a).at w'
      onward _ w' (by_panic p) = by_panic p

pub Yields-pure_bind :
    {A B : Type 0} {Q : B → Type 0} (a : A) (f : A → Action B)
    → Yields Q (f a)
    → Yields Q (pure a >>= f)
unfolding ◌>>=◌
Yields-pure_bind a f k = record { at = k.at }

pub ruleset yields_rules =
    (Yields-pure, Yields-panic, Yields-gets, Yields-if, Yields-modify, Yields-when, Yields-bind)
