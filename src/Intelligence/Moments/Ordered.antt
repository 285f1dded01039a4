-- ===== src/Intelligence/Moments/Ordered.antt =====
-- The order of the moments, and that sorting loses and adds none.
use moment_flow.Common.{ℕ, ◌≡◌, Bool, true, false, List}
use moment_flow.Intelligence.Sorting as Sorting
use moment_flow.Intelligence.Sorting.{key_at_most_total}
use moment_flow.Intelligence.Moments.Rules.{Moment}
use moment_flow.Intelligence.Moments.Detector.{at_most, sort_moments, moment_type_value}

-- Each moment is at most the next.
abbrev pub IsOrdered : List Moment → Type 0
IsOrdered ms = Sorting.IsSorted at_most ms

abbrev pub count : (Moment → Bool) → List Moment → ℕ
count p ms = Sorting.count p ms

at_most_total : (m n : Moment) → at_most m n ≡ false → at_most n m ≡ true
unfolding at_most
at_most_total m n h =
    key_at_most_total m.severity m.confidence (moment_type_value m.type) n.severity n.confidence
      (moment_type_value n.type) h

pub sort-IsOrdered : (ms : List Moment) → IsOrdered (sort_moments ms)
unfolding sort_moments
sort-IsOrdered ms = Sorting.sort-IsSorted at_most at_most_total ms

pub sort-count : (p : Moment → Bool) (ms : List Moment) → count p (sort_moments ms) ≡ count p ms
unfolding sort_moments
sort-count p ms = Sorting.sort-count at_most p ms
