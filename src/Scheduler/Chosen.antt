-- ===== src/Scheduler/Chosen.antt =====
-- Which services are chosen.
use coriolis.Prelude.{
  ℕ, leb, ◌+◌, Bool, Bool-cases, ◌&&◌, ◌||◌, all, any, is_empty, is_some, List, [], ◌∷◌, map, ◌≡◌,
  refl, ◌∙◌, arith, inl, inr,
}
use coriolis.Action.{ok}
use coriolis.Action.Laws.{ok-injective}
use coriolis.Scheduler.{
  Service, Filter, Scores, rate_service, score, score_all, insert_score, sort_scores,
  get_weighted_filtered_services,
}

abbrev pub accepts : ℕ → List Filter → Service → Bool
accepts minimum filters s = all (λ f. leb minimum (rate_service f s)) filters

score-accepts :
    (minimum : ℕ) (filters : List Filter) (s : Service) (total : ℕ)
    → is_some (score minimum filters s total) ≡ accepts minimum filters s
unfolding score all
score-accepts minimum [] s total = refl
score-accepts minimum (f ∷ filters) s total =
    ground (arith, score-accepts minimum filters s (total + rate_service f s))

module _ (p : Service → Bool) where
  any-score_all :
      (minimum : ℕ) (filters : List Filter) (services : List Service)
      → any (λ x. p x.0) (score_all minimum filters services)
        ≡ any (λ s. accepts minimum filters s && p s) services
  unfolding score_all any
  any-score_all minimum filters [] = refl
  any-score_all minimum filters (s ∷ services) =
      ground (arith, score-accepts minimum filters s 0, any-score_all minimum filters services)

  any-insert_score :
      (x : Service × ℕ) (ys : Scores)
      → any (λ x. p x.0) (insert_score x ys) ≡ (p x.0 || any (λ x. p x.0) ys)
  unfolding any
  any-insert_score x [] = refl
  any-insert_score x (y ∷ ys) = ground (arith, any-insert_score x ys)

  any-sort_scores : (xs : Scores) → any (λ x. p x.0) (sort_scores xs) ≡ any (λ x. p x.0) xs
  unfolding any sort_scores
  any-sort_scores [] = refl
  any-sort_scores (x ∷ xs) = rw (any-insert_score x (sort_scores xs), any-sort_scores xs) refl

  any-map_pair :
      (services : List Service)
      → any {A = Service × ℕ} (λ x. p x.0) (map (λ s. (s, 100)) services) ≡ any p services
  unfolding any
  any-map_pair [] = refl
  any-map_pair (s ∷ services) = rw (any-map_pair services) refl

  -- If services are found, a test holds of one of them exactly when it holds of one of the given
  -- services that every filter rates at least at the minimum: these are found, and no others.
  pub get_weighted_filtered_services-any :
      (services : List Service) (filters : List Filter) (minimum : ℕ) {scores : Scores}
      → get_weighted_filtered_services services filters minimum ≡ ok scores
      → any (λ x. p x.0) scores ≡ any (λ s. accepts minimum filters s && p s) services
  unfolding get_weighted_filtered_services all
  get_weighted_filtered_services-any services [] minimum {scores} h =
      rw (← ok-injective (map (λ s. (s, 100)) services) scores h) (any-map_pair services)
  get_weighted_filtered_services-any services (f ∷ filters) minimum {scores} h =
      elim (Bool-cases (is_empty (score_all minimum (f ∷ filters) services))) [
        | inl q ↦ absurd (let h' = rw q at h in cc)
        | inr q ↦
            let all_scores = score_all minimum (f ∷ filters) services in
            rw (← ok-injective (sort_scores all_scores) scores (rw q at h))
              (any-sort_scores all_scores ∙ any-score_all minimum (f ∷ filters) services)
      ]
