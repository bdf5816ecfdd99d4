-- ===== src/Readiness/Examples.antt =====
-- A theater whose reserve grows, in millionths.
use continuityos.Prelude.{ℕ, ◌≤◌, none, ◌≡◌, refl}
use continuityos.Float.Micro.{micro, micro-IsOrdered}
use continuityos.Domain.{open_corridor, unknown}
use continuityos.Readiness.{evaluate_readiness, c1_fully_mission_capable}
use continuityos.Readiness.Rating.{rating_number, evaluate_readiness_mono}

unknown_is_fully_capable :
    (evaluate_readiness {F = ℕ} "north" 1000000 40000000 unknown none).c_rating
    ≡ c1_fully_mission_capable
unfolding evaluate_readiness
unknown_is_fully_capable = refl

evaluate_readiness_mono_example :
    rating_number (evaluate_readiness {F = ℕ} "north" 900000 25000000 open_corridor none).c_rating
    ≤ rating_number (evaluate_readiness {F = ℕ} "north" 700000 10000000 open_corridor none).c_rating
evaluate_readiness_mono_example =
    evaluate_readiness_mono micro-IsOrdered "north" 700000 900000 10000000 25000000 open_corridor
      none none refl refl (λ e. e)
