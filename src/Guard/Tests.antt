-- ===== src/Guard/Tests.antt =====
-- The theorems on the middleware at sample requests.
use deployguardai.Prelude.{◌≡◌, refl, true, false, [], ◌∷◌, arith}
use deployguardai.Guard.{guard}
use deployguardai.Guard.Limiter.{hit}
use deployguardai.Guard.Window.{answers, sliding_window, answers-sliding_window}
use deployguardai.Guard.Forwarded.{IsBounded, guard-IsBounded}
use deployguardai.Guard.Samples.{sample_settings, webhook, arrivals}

answers-sliding_window_example : answers 60 1 arrivals [] ≡ sliding_window 60 1 arrivals []
answers-sliding_window_example =
    answers-sliding_window 60 1 0 arrivals
      (omega arith, (omega arith, (omega arith, (omega arith, tt))))

-- The limit is one: the second request of the client is too early, the third one is not.
arrival_answers : answers 60 1 arrivals [] ≡ false ∷ false ∷ true ∷ false ∷ []
unfolding answers hit
arrival_answers = refl

guard-IsBounded_example : IsBounded sample_settings webhook (guard sample_settings webhook 7 []).0
guard-IsBounded_example = guard-IsBounded sample_settings webhook 7 [] refl
