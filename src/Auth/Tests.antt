-- ===== src/Auth/Tests.antt =====
-- The theorems on signing in at concrete answers, and what the handlers give at some.
use sync_tex.Base.{ℕ, String, none, some, List, [], ◌∷◌, ◌≡◌, refl, resolved, rejected}
use sync_tex.Clients.{Response, Reply, lost, replied}
use sync_tex.Auth.{Auth}
use sync_tex.Auth.Views.{
  Search, redirect_target, handle_callback, handle_oauth_login, protected_route, spinner,
}
use sync_tex.Auth.Session.{
  Action, check, log_in, IsStored, opened, perform_all, signed_in_has_token,
}
use sync_tex.Auth.Return.{IsTarget, oauth_returns}

abbrev answer {ℓ} : {A : Type ℓ} → ℕ → A → Response A
answer status content = record {
  status = status;
  status_text = "";
  content = resolved content;
  fault = none;
  text = rejected "read";
}

abbrev actions : List (Action String)
actions =
    check (replied (answer 401 "")) ∷ log_in "no JSON" (replied (answer 200 ("t1", "ada"))) ∷ []

signed_in_has_token_example : IsStored (perform_all (λ x. x) actions (opened (some "old") "/login"))
signed_in_has_token_example = signed_in_has_token (λ x. x) actions (some "old") "/login"

abbrev expired : Auth String
expired = opened (some "old") "/login"

abbrev granted : Reply (String × String)
granted = replied (answer 200 ("t1", "ada"))

abbrev returned : Search
returned = record { token = some "t1"; error = none }

abbrev there_and_back : Auth String
there_and_back =
    handle_callback (λ x. x) returned (replied (answer 200 "ada"))
      (handle_oauth_login "/login" "github" (some "/join?token=a") expired)

oauth_returns_example :
    IsTarget (some "/join?token=a") there_and_back.place
    × ((handle_callback (λ x. x) returned (lost "offline") there_and_back).place ≡ "/dashboard")
oauth_returns_example =
    oauth_returns (λ x. x) "/login" "github" (some "/join?token=a") returned
      (replied (answer 200 "ada")) (lost "offline") expired refl refl

redirect_target-local : redirect_target (some "/join?token=a") ≡ "/join?token=a"
unfolding redirect_target
redirect_target-local = refl

redirect_target-foreign : redirect_target (some "//evil.example") ≡ "/dashboard"
unfolding redirect_target
redirect_target-foreign = refl

opening : protected_route expired ≡ spinner
unfolding protected_route
opening = refl
