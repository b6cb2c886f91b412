-- ===== src/Case/Skipping.antt =====
-- pkg/util/test/test.go: for which settings a test at top level is skipped.
use maistra_test_tool.World.{World, Action, Outcome, exited, returned, ◌>>=◌}
use maistra_test_tool.World.Testing.{t_skip, t_skip_now, t_log, with_output}
use maistra_test_tool.Env.{get_smcp_version}
use maistra_test_tool.Helper.Isolation.{failures}
use maistra_test_tool.Version.{Version}
use maistra_test_tool.Version.Order.{Precedes, comparisons_lexicographic}
use maistra_test_tool.Case.{
  TopLevelTest, TestGroup, wanted_group, is_one_of, is_part_of_group, too_old, too_new,
  skip_if_necessary, run,
}
use maistra_test_tool.Prelude.{
  ℕ, ◌≡◌, refl, true, false, Option, none, some, List, [], ◌∷◌, ◌↔◌, ◌++◌, ap, fun_ext, inl, inr,
  arith, Bool-cases,
}
use maistra_test_tool.Text.{Text, teq, teq_iff, teq_refl}

abbrev pub IsIn : TestGroup → List TestGroup → Type 0
IsIn g groups =
    (before : List TestGroup) × (after : List TestGroup) × (groups ≡ before ++ g ∷ after)

is_one_of-IsIn :
    (groups : List TestGroup) (g : TestGroup) → is_one_of groups g ≡ true → IsIn g groups
unfolding is_one_of
is_one_of-IsIn [] g e = ground (e, arith)
is_one_of-IsIn (x ∷ xs) g e = elim (Bool-cases (teq x g)) [
  | inl same ↦ ([], xs, ap (λ y. y ∷ xs) ((teq_iff x g).0 same))
  | inr other ↦
      let (before, after, eq) = is_one_of-IsIn xs g (rw other at e) in
      (x ∷ before, after, ap (λ l. x ∷ l) eq)
]

is_one_of-append :
    (before after : List TestGroup) (g : TestGroup) → is_one_of (before ++ g ∷ after) g ≡ true
unfolding is_one_of
is_one_of-append [] after g = rw (teq_refl g) refl
is_one_of-append (x ∷ before) after g = ground (arith, is_one_of-append before after g)

is_one_of_iff :
    (groups : List TestGroup) (g : TestGroup) → (is_one_of groups g ≡ true) ↔ IsIn g groups
is_one_of_iff groups g =
    (is_one_of-IsIn groups g, λ found. rw found.2 (is_one_of-append found.0 found.1 g))

-- A bound of the versions that is not set allows every version.
abbrev pub NotBelow : Version → Option Version → Type 0
NotBelow v none = Unit
NotBelow v (some min) = ¬ Precedes v min

abbrev pub NotAbove : Version → Option Version → Type 0
NotAbove v none = Unit
NotAbove v (some max) = ¬ Precedes max v

-- The test is in the group that is wanted, and the version is in its range, bounds included.
abbrev pub Suits : TopLevelTest → (Text → Option Text) → Version → Type 0
Suits test env v =
    IsIn (wanted_group env) test.groups × NotBelow v test.min_version × NotAbove v test.max_version

-- The goroutine is over and the test is marked as skipped; no test is marked as failed, and no command
-- was run.
abbrev pub IsSkipped : TopLevelTest → World → Outcome Unit × World → Type 0
IsSkipped test w (o, w') =
    (o ≡ exited)
    × ((w'.ts test.t).skipped ≡ true)
    × (failures w' ≡ failures w)
    × (w'.trace ≡ w.trace)

too_old_iff : (v : Version) (bound : Option Version) → (too_old v bound ≡ false) ↔ NotBelow v bound
unfolding too_old
too_old_iff v none = (λ _. tt, λ _. refl)
too_old_iff v (some min) = ground (arith, (comparisons_lexicographic v min).1)

too_new_iff : (v : Version) (bound : Option Version) → (too_new v bound ≡ false) ↔ NotAbove v bound
unfolding too_new
too_new_iff v none = (λ _. tt, λ _. refl)
too_new_iff v (some max) = ground (arith, (comparisons_lexicographic v max).3)

module _ (test : TopLevelTest) (w : World) where
  t_skip-IsSkipped : (msg : Text) → IsSkipped test w (t_skip test.t msg w)
  unfolding t_skip ◌>>=◌ t_skip_now t_log with_output
  t_skip-IsSkipped msg = (refl, ground arith, fun_ext λ a. ground arith, refl)

  module _ (v : Version) (valid : get_smcp_version w.env ≡ some v) where
    suited : Suits test w.env v → skip_if_necessary test w ≡ (returned tt, w)
    unfolding skip_if_necessary ◌>>=◌ is_part_of_group
    suited (in_group, low, high) =
        rw ((is_one_of_iff test.groups (wanted_group w.env)).1 in_group) (
          rw valid (
            rw ((too_old_iff v test.min_version).1 low)
              (rw ((too_new_iff v test.max_version).1 high) refl)))

    unsuited : ¬ Suits test w.env v → IsSkipped test w (skip_if_necessary test w)
    unfolding skip_if_necessary ◌>>=◌ is_part_of_group t_skip t_skip_now t_log with_output
    unsuited unfit = elim (Bool-cases (is_one_of test.groups (wanted_group w.env))) [
      | inr other ↦ rw other (t_skip-IsSkipped _)
      | inl same ↦ elim (Bool-cases (too_old v test.min_version)) [
        | inl old ↦ rw same (rw valid (rw old (t_skip-IsSkipped _)))
        | inr low ↦ elim (Bool-cases (too_new v test.max_version)) [
          | inl new ↦ rw same (rw valid (rw low (rw new (t_skip-IsSkipped _))))
          | inr high ↦ absurd (
              unfit (
                (is_one_of_iff test.groups (wanted_group w.env)).0 same,
                (too_old_iff v test.min_version).0 low,
                (too_new_iff v test.max_version).0 high,
              ))
        ]
      ]
    ]

    -- With a valid SMCP version in the environment: if the test is in the wanted group (arm64 on that
    -- architecture, else that of the environment) and the version is neither below its minimum nor above its
    -- maximum, the check before a run changes nothing and goes on; if not, a run of the test, whatever
    -- its body, ends the goroutine with the test marked as skipped, no test marked as failed by it, and
    -- no command run.
    pub run-Skipped :
        (f : ℕ → Action Unit)
        → (Suits test w.env v → skip_if_necessary test w ≡ (returned tt, w))
          × (¬ Suits test w.env v → IsSkipped test w (run test f w))
    unfolding run ◌>>=◌
    run-Skipped f = (suited, λ unfit. let s = unsuited unfit in rw s.0 (refl, s.1, s.2, s.3))
